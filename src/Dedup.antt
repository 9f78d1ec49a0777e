-- ===== src/Dedup.antt =====
-- cr-dedup.c: the pages that a snapshot has are punched out of its parent's pages.img.
pub mod Punch
pub mod Loop
pub mod Entries
use crtools.Base.{
  ℕ, zero, suc, ◌+◌, ◌-◌, Bool, true, false, ◌&&◌, List, [], ◌∷◌, ◌++◌, Option, none, some, Res, ok,
  bug, ◌>>=◌, ltb, leb, if◌then◌else◌, sub64, length, min,
}
use crtools.Iov.{Iovec, iov_end}
use crtools.Pagemap.{PagemapEntry, pagemap2iovec}
use crtools.PageRead.{Level, seek_pagemap_page, has_parents}

-- What `fallocate` is asked to punch out of pages.img.
pub record Hole : Type 0 where
  pub off : ℕ
  pub len : ℕ

-- `success` is whether 0 is returned.
pub record Deduped : Type 0 where
  pub success : Bool
  pub level : Level
  pub holes : List Hole

abbrev pub after_hole : Hole → Deduped → Deduped
after_hole h d = record d { holes = h ∷ d.holes }

-- `if (ret) goto exit`, and the rest of the loop.
abbrev pub and_rest : Deduped → (Level → Res Deduped) → Res Deduped
and_rest d rest = elim d.success [
  | false ↦ ok d
  | true ↦ rest d.level >>= λ d2. ok (record d2 { holes = d.holes ++ d2.holes })
]

-- `fallocates` is whether the call succeeds.
module _ (fallocates : Hole → Bool) where
  -- The end of a round: what goes on from the end of the entry, or the return.
  abbrev pub go_on : ℕ → ℕ → Level → (ℕ → Level → Res Deduped) → Res Deduped
  go_on piov_end stop pr again = elim (ltb piov_end stop) [
    | true ↦ again piov_end pr
    | false ↦ ok (record { success = true; level = pr; holes = [] })
  ]

  -- The round from `off` on, in an entry that ends at `piov_end`.
  abbrev pub punch_entry : Bool → ℕ → ℕ → ℕ → Level → (ℕ → Level → Res Deduped) → Res Deduped
  punch_entry true piov_end off stop pr again = go_on piov_end stop pr again
  punch_entry false piov_end off stop pr again =
      let hole : Hole = record { off = pr.offset; len = sub64 (min piov_end stop) off } in
      elim (fallocates hole) [
        | false ↦ ok (record { success = false; level = pr; holes = [] })
        | true ↦ go_on piov_end stop pr again >>= λ d. ok (after_hole hole d)
      ]

  -- The round in the entry that `pr->pe` points to.
  abbrev pub punch : Option PagemapEntry → ℕ → ℕ → Level → (ℕ → Level → Res Deduped) → Res Deduped
  punch none off stop pr again = ok (record { success = false; level = pr; holes = [] })
  punch (some e) off stop pr again =
      punch_entry e.in_parent (iov_end (pagemap2iovec e)) off stop pr again

  -- The round after the search, which returned 0 or -1.
  abbrev pub dedup_round : Bool → ℕ → ℕ → Level → (ℕ → Level → Res Deduped) → Res Deduped
  dedup_round true off stop pr again = punch pr.pe off stop pr again
  dedup_round false off stop pr again = elim (ltb off pr.cvaddr) [
    | false ↦ ok (record { success = false; level = pr; holes = [] })
    | true ↦ elim (ltb pr.cvaddr stop) [
      | true ↦ punch pr.pe pr.cvaddr stop pr again
      | false ↦ ok (record { success = true; level = pr; holes = [] })
    ]
  ]

  -- The loop up to `stop`, the source's `iov_end`; `bug` is out of fuel.
  abbrev pub dedup_loop : Bool → ℕ → ℕ → ℕ → Level → Res Deduped
  dedup_loop has_parent zero off stop pr = bug
  dedup_loop has_parent (suc n) off stop pr =
      dedup_round (seek_pagemap_page has_parent off pr).0 off stop
        (seek_pagemap_page has_parent off pr).1 (λ off2 pr2. dedup_loop has_parent n off2 stop pr2)

  -- `pr` is the parent, and `has_parent` tells whether it has one itself.
  unfoldable pub dedup_one_iovec : Bool → Level → Iovec → Res Deduped
  dedup_one_iovec has_parent pr iov =
      dedup_loop has_parent (suc (suc (length pr.entries))) iov.iov_base (iov_end iov) pr

  -- The loop over the snapshot's entries. get_pagemap returns 1 for each, since the snapshot has a parent.
  unfoldable pub dedup_entries : Bool → List PagemapEntry → Level → Res Deduped
  dedup_entries has_parent [] prp = ok (record { success = true; level = prp; holes = [] })
  dedup_entries has_parent (pe ∷ entries) prp = elim pe.in_parent [
    | true ↦ dedup_entries has_parent entries prp
    | false ↦ dedup_one_iovec has_parent prp (pagemap2iovec pe) >>= λ d.
        and_rest d (λ prp2. dedup_entries has_parent entries prp2)
  ]

  -- Whether 0 is returned, and what was punched out of the parent, for a snapshot that was opened.
  abbrev pub cr_dedup_one_pagemap : List PagemapEntry → List Level → Res (Bool × List Hole)
  cr_dedup_one_pagemap entries [] = ok (true, [])
  cr_dedup_one_pagemap entries (prp ∷ prs) =
      dedup_entries (has_parents prs) entries prp >>= λ d. ok (d.success, d.holes)
