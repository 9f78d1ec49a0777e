-- ===== src/PageRead/Gaps.antt =====
-- Where seek_pagemap_page of page-read.c stands when no entry holds the address.
use crtools.Base.{
  ℕ, ◌+◌, ◌≤◌, ◌<◌, ◌≡◌, refl, sym, suc, ap, subst, ◌∙◌, Bool, true, false, List, [], ◌∷◌, none,
  ltb, leb, ltb→lt, not_ltb, leb→le, not_leb, Bool-cases, inl, inr, if◌then◌else◌, length, arith,
}
use crtools.Iov.{iov_end}
use crtools.Pagemap.{PagemapEntry, pagemap2iovec}
use crtools.PageRead.{
  Level, open_page_read_at, get_pagemap, put_pagemap, seek_from, seek_new, seek_pagemap_page,
}
use crtools.PageRead.Image.{Image, entry_end, stored_size, locate, IsClosed, IsWhole}
use crtools.PageRead.Inside.{
  At, closed_test, step_to, step_to-At, first_level, first-At, locate_below, locate_next,
  iov_end-entry, skip_to, skip-At, le→not_ltb, seek_from_below, none_before,
}

-- At the address, at the next entry behind it, or behind the last entry; `todo` bounds what was left to read.
pub data SeekState (hp : Bool) (img : Image) (v todo : ℕ) (r : Bool × Level) : Type 0 where
  found :
      (e : PagemapEntry) (base : ℕ)
      → r.0 ≡ true
      → At hp img r.1 e base
      → r.1.cvaddr ≡ v
      → v < entry_end e
      → length r.1.entries < todo
      → SeekState hp img v todo r
  gap :
      (e : PagemapEntry) (base : ℕ)
      → r.0 ≡ false
      → At hp img r.1 e base
      → v < r.1.cvaddr
      → ((w : ℕ) → v ≤ w → w < r.1.cvaddr → locate img.entries 0 w ≡ none)
      → length r.1.entries < todo
      → SeekState hp img v todo r
  over :
      r.0 ≡ false
      → r.1.cvaddr ≤ v
      → ((w : ℕ) → v ≤ w → locate img.entries 0 w ≡ none)
      → SeekState hp img v todo r

-- The entries that a reader in `e` may still come to from `v` on.
abbrev pub in_reach : ℕ → PagemapEntry → List PagemapEntry → ℕ
in_reach v e es = length es + (if ltb v (entry_end e) then 1 else 0)

reach_inside :
    (v todo : ℕ) (e : PagemapEntry) (es : List PagemapEntry)
    → v < entry_end e
    → in_reach v e es ≤ todo
    → length es < todo
reach_inside v todo e es h few = ground arith

reach_over :
    (todo : ℕ) (e : PagemapEntry) (v n : ℕ)
    → suc n + (if ltb v (entry_end e) then 1 else 0) ≤ todo
    → n < todo
reach_over todo e v n few = ground arith

reach_next :
    (v todo : ℕ) (e e' : PagemapEntry) (es : List PagemapEntry)
    → in_reach v e (e' ∷ es) ≤ todo
    → in_reach v e' es ≤ todo
reach_next v todo e e' es few = ground arith

reach_first :
    (v todo : ℕ) (e : PagemapEntry) (es : List PagemapEntry)
    → suc (length es) ≤ todo
    → in_reach v e es ≤ todo
reach_first v todo e es few = ground arith

module _ (hp : Bool) (img : Image) where
  pub seek_from-SeekState :
      (v todo : ℕ) (e : PagemapEntry) (base : ℕ) (es : List PagemapEntry) (lv : Level)
      → lv.entries ≡ es
      → At hp img lv e base
      → lv.cvaddr ≤ v
      → in_reach v e es ≤ todo
      → SeekState hp img v todo (seek_from hp v e es lv)
  unfolding seek_from put_pagemap
  seek_from-SeekState v todo e base [] lv q a lo few =
      elim (Bool-cases (leb (iov_end (pagemap2iovec e)) v)) [
        | inl past ↦
            let end = leb→le _ _ past in
            rw
              (
                le→not_ltb lv.cvaddr v lo,
                past,
                iov_end-entry e a.sorted.1,
                skip_to e base (entry_end e) lv a.inside.0 a.inside.1 a.sorted.1 a.offset,
              )
              (over refl (omega (arith, end, iov_end-entry e a.sorted.1)) (λ w hw.
                none_before hp img e base [] lv q a w (omega arith)
                ∙ locate_next e [] base w (omega (arith, end, iov_end-entry e a.sorted.1))))
        | inr inside ↦
            let hi : v < entry_end e =
              omega (arith, not_leb _ _ inside, iov_end-entry e a.sorted.1) in
            rw
              (
                le→not_ltb lv.cvaddr v lo,
                inside,
                skip_to e base v lv a.inside.0 lo (omega (arith, a.sorted.1)) a.offset,
              )
              (found e base refl (skip-At hp img v e base lv a lo (omega (arith, hi))) refl hi
                (subst (λ l. length l < todo) (sym q) (reach_inside v todo e [] hi few)))
      ]
  seek_from-SeekState v todo e base (e' ∷ es) lv q a lo few =
      elim (Bool-cases (leb (iov_end (pagemap2iovec e)) v)) [
        | inr inside ↦
            let hi : v < entry_end e =
              omega (arith, not_leb _ _ inside, iov_end-entry e a.sorted.1) in
            rw
              (
                le→not_ltb lv.cvaddr v lo,
                inside,
                skip_to e base v lv a.inside.0 lo (omega (arith, a.sorted.1)) a.offset,
              )
              (found e base refl (skip-At hp img v e base lv a lo (omega (arith, hi))) refl hi
                (subst (λ l. length l < todo) (sym q) (reach_inside v todo e (e' ∷ es) hi few)))
        | inl past ↦
            let end : entry_end e ≤ v =
              omega (arith, leb→le _ _ past, iov_end-entry e a.sorted.1) in
            let here = step_to-At hp img e e' es base lv q a in
            rw
              (
                le→not_ltb lv.cvaddr v lo,
                past,
                closed_test hp e' (subst (λ l. IsClosed hp (e ∷ l)) q a.closed).1.0,
              )
              (elim (Bool-cases (ltb v e'.vaddr)) [
                | inl below ↦
                    rw (seek_from_below hp img v e' es (step_to hp img e e' es lv) below) (
                      gap e' (base + stored_size e) refl here (ltb→lt _ _ below)
                        (λ w lw hw.
                          none_before hp img e base (e' ∷ es) lv q a w (omega arith)
                          ∙ locate_next e (e' ∷ es) base w (omega arith)
                          ∙ locate_below (e' ∷ es) e'.vaddr (base + stored_size e) w hw here.sorted)
                        (reach_over todo e v (length es) few))
                | inr from ↦
                    seek_from-SeekState v todo e' (base + stored_size e) es
                      (step_to hp img e e' es lv) refl here (not_ltb _ _ from)
                      (reach_next v todo e e' es few)
              ])
      ]

  pub seek_new-SeekState :
      (v todo : ℕ) (es : List PagemapEntry)
      → IsWhole hp img
      → img.entries ≡ es
      → length es ≤ todo
      → SeekState hp img v todo (seek_new hp v es (open_page_read_at img.entries img.file))
  unfolding seek_new open_page_read_at get_pagemap
  seek_new-SeekState v todo [] w q few = over refl (omega arith) (λ u hu. ap (λ l. locate l 0 u) q)
  seek_new-SeekState v todo (e ∷ es) w q few =
      let here = first-At hp img w e es q in
      rw (closed_test hp e (subst (IsClosed hp) q w.closed).0) (elim (Bool-cases (ltb v e.vaddr)) [
        | inl below ↦ rw (seek_from_below hp img v e es (first_level hp img e es) below) (
            gap e 0 refl here (ltb→lt _ _ below)
              (λ u lu hu.
                ap (λ l. locate l 0 u) q ∙ locate_below (e ∷ es) e.vaddr 0 u hu here.sorted)
              (omega (arith, few)))
        | inr from ↦
            seek_from-SeekState v todo e 0 es (first_level hp img e es) refl here (not_ltb _ _ from)
              (reach_first v todo e es few)
      ])

  -- A level that may be sought for any address from `v` on: one that was just opened, or one inside an entry, where
  -- nothing is between `v` and it.
  pub data Sought (v todo : ℕ) (lv : Level) : Type 0 where
    fresh :
        lv ≡ open_page_read_at img.entries img.file → length img.entries ≤ todo → Sought v todo lv
    within :
        (e : PagemapEntry) (base : ℕ)
        → At hp img lv e base
        → ((w : ℕ) → v ≤ w → w < lv.cvaddr → locate img.entries 0 w ≡ none)
        → in_reach v e lv.entries ≤ todo
        → Sought v todo lv

  pub seek_pagemap_page-SeekState :
      (v todo : ℕ) (lv : Level)
      → IsWhole hp img
      → Sought v todo lv
      → SeekState hp img v todo (seek_pagemap_page hp v lv)
  unfolding seek_pagemap_page open_page_read_at
  seek_pagemap_page-SeekState v todo lv w (fresh q few) =
      rw q (seek_new-SeekState v todo img.entries w refl few)
  seek_pagemap_page-SeekState v todo lv w (within e base a n few) =
      elim (Bool-cases (ltb v lv.cvaddr)) [
        | inr from ↦
            rw (a.pe, seek_pagemap_page)
              (seek_from-SeekState v todo e base lv.entries lv refl a (not_ltb _ _ from) few)
        | inl below ↦
            rw (a.pe, seek_pagemap_page, seek_from_below hp img v e lv.entries lv below)
              (gap e base refl a (ltb→lt _ _ below) n (
                reach_inside v todo e lv.entries (omega (arith, ltb→lt _ _ below, a.inside.1)) few))
      ]
