-- ===== src/RestorePages.antt =====
-- restore_priv_vma_content of cr-restore.c: the pages of a task are read into its private mappings, which it
-- may share with its parent until they differ.
pub mod Content
pub mod Run
pub mod Entries
pub mod Drop
pub mod Placed
pub mod Success
use crtools.Base.Strings.{str_eq}
use crtools.Base.{
  ℕ, zero, suc, ◌+◌, ◌-◌, ◌*◌, ◌/◌, Bool, true, false, not, ◌&&◌, ◌||◌, List, [], ◌∷◌, Option, none,
  some, Res, ok, err, ◌>>=◌, ◌>>◌, fail_on, ltb, leb, ◌==◌, if◌then◌else◌, page_size, add64, sub64,
}
use crtools.Iov.{Iovec}
use crtools.Pagemap.{PagemapEntry, pagemap2iovec}
use crtools.PageRead.{Level, get_pagemap, put_pagemap, read_pagemap_page, has_parents}

-- A `vma_area` of `rst_vmas`; `inherited` is `ppage_bitmap != NULL`.
pub record RstVma : Type 0 where
  pub start : ℕ
  pub end : ℕ
  pub priv : Bool
  pub inherited : Bool

-- The premapped copies of the task's pages, each known by the page's address in the task: the areas at
-- `premmaped_addr` do not overlap. `page_bits` and `ppage_bits` are all `page_bitmap`s and `ppage_bitmap`s together,
-- with no bit set for a mapping that has none.
pub record Premapped : Type 0 where
  pub content : ℕ → List ℕ
  pub page_bits : ℕ → Bool
  pub ppage_bits : ℕ → Bool
  pub nr_restored : ℕ
  pub nr_shared : ℕ

abbrev pub set_at {ℓ} : {A : Type ℓ} → (ℕ → A) → ℕ → A → ℕ → A
set_at f va a w = if w == va then a else f w

-- `while (va >= vma->vma.end)`: the mapping to look at, and those behind it. None for `err_addr`, and
-- also for an empty list, whose head the source would take for a mapping.
abbrev pub skip_vmas : ℕ → List RstVma → Option (RstVma × List RstVma)
skip_vmas va [] = none
skip_vmas va (v ∷ vs) = elim (ltb va v.end) [ true ↦ some (v, vs) | false ↦ skip_vmas va vs ]

-- `set_bit` and `clear_bit`
abbrev pub mark : ℕ → Premapped → Premapped
mark va m = record m {
  page_bits = set_at m.page_bits va true;
  ppage_bits = set_at m.ppage_bits va false;
}

-- The page that was read goes to its place, unless an inherited page is equal.
unfoldable pub put_page : RstVma → ℕ → List ℕ → Premapped → Premapped
put_page v va buf m =
    if v.inherited && str_eq (m.content va) buf
    then record (mark va m) { nr_shared = suc m.nr_shared }
    else record (mark va m) { content = set_at m.content va buf; nr_restored = suc m.nr_restored }

pub record Reading : Type 0 where
  pub vmas : List RstVma
  pub levels : List Level
  pub memory : Premapped

-- One round of the loop over the pages of an entry.
unfoldable pub restore_page : ℕ → Reading → Res Reading
unfolding put_page
restore_page va r = elim (skip_vmas va r.vmas) [
  | none ↦ err
  | some (v, vs) ↦
      fail_on (ltb va v.start || not v.priv) >> elim (read_pagemap_page va r.levels).0 [
        | none ↦ err
        | some buf ↦ ok (record {
          vmas = v ∷ vs;
          levels = (read_pagemap_page va r.levels).1;
          memory = put_page v va buf r.memory;
        })
      ]
]

abbrev pub restore_run : ℕ → ℕ → Reading → Res Reading
restore_run zero va r = ok r
restore_run (suc n) va r = restore_page va r >>= λ r2. restore_run n (add64 va page_size) r2

-- `pr.put_pagemap(&pr)`
abbrev pub put_head : List Level → List Level
put_head [] = []
put_head (lv ∷ prs) = put_pagemap lv ∷ prs

-- The loop over the entries that pagemap.img still gives.
abbrev pub restore_entries : List PagemapEntry → Reading → Res Reading
restore_entries [] r = ok r
restore_entries (e ∷ es) r = elim r.levels [
  | [] ↦ err
  | lv ∷ prs ↦
      fail_on (not (get_pagemap (has_parents prs) (e ∷ es) lv).0)
      >> restore_run ((pagemap2iovec e).iov_len / page_size) e.vaddr
          (record r { levels = (get_pagemap (has_parents prs) (e ∷ es) lv).1 ∷ prs })
      >>= λ r2. restore_entries es (record r2 { levels = put_head r2.levels })
]

-- `find_next_bit` and `madvise`, for the `n` pages from `va` on; a page that is given back has the content
-- `fresh` of its mapping. `advise` tells whether the call succeeds.
abbrev pub drop_pages : (ℕ → List ℕ) → (ℕ → Bool) → ℕ → ℕ → Premapped → Res Premapped
drop_pages fresh advise zero va m = ok m
drop_pages fresh advise (suc n) va m = elim (m.ppage_bits va) [
  | false ↦ drop_pages fresh advise n (va + page_size) m
  | true ↦
      fail_on (not (advise va))
      >> drop_pages fresh advise n (va + page_size)
          (record m { content = set_at m.content va (fresh va) })
]

abbrev pub drop_unshared : (ℕ → List ℕ) → (ℕ → Bool) → List RstVma → Premapped → Res Premapped
drop_unshared fresh advise [] m = ok m
drop_unshared fresh advise (v ∷ vs) m =
    (if v.inherited
      then drop_pages fresh advise (sub64 v.end v.start / page_size) v.start m
      else ok m)
    >>= λ m2. drop_unshared fresh advise vs m2

-- The chain is given as it was opened, `entries` are those of its youngest level.
unfoldable pub restore_priv_vma_content :
    (ℕ → List ℕ)
    → (ℕ → Bool)
    → List RstVma
    → List PagemapEntry
    → List Level
    → Premapped
    → Res Premapped
unfolding restore_page
restore_priv_vma_content fresh advise vmas entries levels m =
    restore_entries entries (record { vmas = vmas; levels = levels; memory = m }) >>= λ r.
    drop_unshared fresh advise vmas r.memory
