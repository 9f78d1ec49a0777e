-- ===== src/RestorePages/Drop.antt =====
-- restore_priv_vma_content of cr-restore.c: the inherited pages that no entry has are dropped, and what is in
-- memory then.
use crtools.Base.{ℕ, ◌/◌, ◌≡◌, ◌&&◌, List, [], ◌∷◌, ◌++◌, if◌then◌else◌, page_size, sub64}
use crtools.Iov.{page_run}
use crtools.PageRead.Image.{Image}
use crtools.RestorePages.{RstVma, Premapped}
use crtools.RestorePages.Content.{elem}

abbrev vma_pages : RstVma → List ℕ
vma_pages v = if v.inherited then page_run v.start (sub64 v.end v.start / page_size) else []

-- The pages of the mappings with inherited pages.
abbrev pub inherited_pages : List RstVma → List ℕ
inherited_pages [] = []
inherited_pages (v ∷ vs) = vma_pages v ++ inherited_pages vs

-- From `m` to `m2`, those of the pages `ps` that are still marked as inherited are fresh.
record Dropped (fresh : ℕ → List ℕ) (ps : List ℕ) (m m2 : Premapped) : Type 0 where
  bits : m2.ppage_bits ≡ m.ppage_bits
  content : (a : ℕ) → m2.content a ≡ (if m.ppage_bits a && elem a ps then fresh a else m.content a)
