-- ===== src/PageRead/Image.antt =====
-- What a chain of snapshots holds, apart from any reader (include/page-read.h): pages.img has the pages
-- of the entries that are not in the parent, one after the other.
use crtools.Base.{
  ℕ, ◌+◌, ◌-◌, ◌*◌, ◌%◌, ◌^◌, ◌≤◌, ◌<◌, ◌≡◌, Bool, true, ◌&&◌, List, [], ◌∷◌, Option, none, some,
  ltb, leb, if◌then◌else◌, page_size, length, take, drop,
}
use crtools.Pagemap.{PagemapEntry}

pub record Image : Type 0 where
  pub entries : List PagemapEntry
  pub file : List ℕ

abbrev pub entry_end : PagemapEntry → ℕ
entry_end e = e.vaddr + e.nr_pages * page_size

-- The bytes of an entry in pages.img.
abbrev pub stored_size : PagemapEntry → ℕ
stored_size e = if e.in_parent then 0 else e.nr_pages * page_size

abbrev pub data_size : List PagemapEntry → ℕ
data_size [] = 0
data_size (e ∷ es) = stored_size e + data_size es

-- The first entry that holds `v`: whether it is in the parent, and where its page stands in pages.img
-- if the first of the entries begins at `off` there.
abbrev pub locate : List PagemapEntry → ℕ → ℕ → Option (Bool × ℕ)
locate [] off v = none
locate (e ∷ es) off v =
    if leb e.vaddr v && ltb v (entry_end e)
    then some (e.in_parent, off + (v - e.vaddr))
    else locate es (off + stored_size e) v

-- The page at `v` of a chain, the youngest snapshot first.
abbrev pub lookup : List Image → ℕ → Option (List ℕ)
lookup [] v = none
lookup (img ∷ imgs) v = elim (locate img.entries 0 v) [
  | none ↦ none
  | some (inp, off) ↦ if inp then lookup imgs v else some (take page_size (drop off img.file))
]

-- Entries in ascending order from `lo` on, on page boundaries, that end below 2^64.
abbrev pub Ascends : ℕ → List PagemapEntry → Type 0
Ascends lo [] = Unit {0}
Ascends lo (e ∷ es) =
    (lo ≤ e.vaddr) × (entry_end e < 2 ^ 64) × (e.vaddr % page_size ≡ 0) × Ascends (entry_end e) es

-- Only an image with a parent has entries that are in the parent.
abbrev pub IsClosed : Bool → List PagemapEntry → Type 0
IsClosed has_parent [] = Unit {0}
IsClosed has_parent (e ∷ es) = (e.in_parent ≡ true → has_parent ≡ true) × IsClosed has_parent es

pub record IsWhole (has_parent : Bool) (img : Image) : Type 0 where
  pub sorted : Ascends 0 img.entries
  pub closed : IsClosed has_parent img.entries
  pub stored : data_size img.entries ≤ length img.file
