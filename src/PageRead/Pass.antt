-- ===== src/PageRead/Pass.antt =====
-- Reading the pages of a chain of snapshots one after the other (read_pagemap_page of page-read.c).
use crtools.Base.{
  ℕ, ◌+◌, ◌%◌, ◌≤◌, ◌≡◌, refl, List, [], ◌∷◌, Option, none, some, if◌then◌else◌, page_size,
}
use crtools.PageRead.{Level, open_page_read_at, seek_pagemap_page, read_pagemap_page, has_parents}
use crtools.PageRead.Image.{Image, lookup, IsWhole}
use crtools.PageRead.Seek.{opened}
use crtools.PageRead.Read.{ChainReady, Read, has_images}

-- `seek_pagemap_page` and then `read_pagemap_page`, as the parent's page is read, and as the restore
-- reads each page.
pub read_at : ℕ → List Level → Option (List ℕ) × List Level
read_at v [] = (none, [])
read_at v (lv ∷ lvs) =
    let (found, lv') = seek_pagemap_page (has_parents lvs) v lv in
    if found then read_pagemap_page v (lv' ∷ lvs) else (none, lv' ∷ lvs)

abbrev cons_page : Option (List ℕ) → Option (List (List ℕ)) → Option (List (List ℕ))
cons_page none rest = none
cons_page (some bytes) none = none
cons_page (some bytes) (some more) = some (bytes ∷ more)

-- Reading a list of addresses in turn; the first page that is missing stops it.
pub read_all : List ℕ → List Level → Option (List (List ℕ))
read_all [] lvs = some []
read_all (v ∷ vs) lvs = cons_page (read_at v lvs).0 (read_all vs (read_at v lvs).1)

-- The pages of a chain at some addresses, if it has them all.
abbrev pub lookup_all : List Image → List ℕ → Option (List (List ℕ))
lookup_all imgs [] = some []
lookup_all imgs (v ∷ vs) = cons_page (lookup imgs v) (lookup_all imgs vs)

-- Page addresses in ascending order, from `lo` on.
abbrev pub PagesFrom : ℕ → List ℕ → Type 0
PagesFrom lo [] = Unit {0}
PagesFrom lo (v ∷ vs) = (lo ≤ v) × (v % page_size ≡ 0) × PagesFrom (v + page_size) vs

-- A chain that was just opened, over whole snapshots.
abbrev pub open_chain : List Image → List Level
open_chain [] = []
open_chain (img ∷ imgs) = open_page_read_at img.entries img.file ∷ open_chain imgs

abbrev pub AllWhole : List Image → Type 0
AllWhole [] = Unit {0}
AllWhole (img ∷ imgs) = IsWhole (has_images imgs) img × AllWhole imgs

pub open_chain-ChainReady :
    (imgs : List Image) → AllWhole imgs → ChainReady imgs (open_chain imgs) 0
open_chain-ChainReady [] w = tt
open_chain-ChainReady (img ∷ imgs) w = (w.0, opened refl, open_chain-ChainReady imgs w.1)
