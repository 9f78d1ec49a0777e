-- ===== src/PageRead/Next.antt =====
-- Reading the entries of a pagemap in turn, page by page, without seeking (page-read.c, as cr-restore.c
-- uses it).
use crtools.Base.{
  ℕ, ◌+◌, ◌-◌, ◌≡◌, refl, sym, ap, subst, ◌∙◌, ◌⊎◌, inl, inr, Bool, true, false, not, ◌&&◌,
  Bool-cases, List, [], ◌∷◌, none, some, Option-cases, ◌==◌, ==_iff, add64, sub64, length, take,
  drop, page_size, arith,
}
use crtools.Iov.{iov_end}
use crtools.Pagemap.{PagemapEntry, pagemap2iovec}
use crtools.PageRead.{
  Level, open_page_read_at, get_pagemap, put_pagemap, skip_pagemap_pages, seek_pagemap_page,
  has_parents, read_own, read_pagemap_page,
}
use crtools.PageRead.Image.{Image, entry_end, stored_size, IsClosed, IsWhole}
use crtools.PageRead.Inside.{At, place, first_level, step_to-At, closed_test, iov_end-entry}
use crtools.PageRead.Read.{Here, forward, page_fits}

-- Where the head of the chain stands after it has read the page at `v`.
pub record Moved (hp : Bool) (img : Image) (e : PagemapEntry) (base v : ℕ) (lv : Level)
    (lvs : List Level) : Type 0 where
  pub head : Level
  pub tail : List Level
  pub chain : lvs ≡ head ∷ tail
  pub stands : At hp img head e base
  pub place : head.cvaddr ≡ v + page_size
  pub entries : head.entries ≡ lv.entries

abbrev moved : Level → Level
moved lv = record lv { offset = lv.offset + page_size; cvaddr = add64 lv.cvaddr page_size }

-- A page that was read whole moves pages.img and `cvaddr` by a page.
read_own-cases :
    (lv : Level)
    → ((bytes : List ℕ) × (lv' : Level) × (read_own lv ≡ (some bytes, lv')) × (lv' ≡ moved lv))
      ⊎ ((after : Level) × (read_own lv ≡ (none, after)))
unfolding read_own
read_own-cases lv =
    let got = take page_size (drop lv.offset lv.file) in
    elim (Bool-cases (length got == page_size)) [
      | inl full ↦ inl (got, moved lv, rw (full, (==_iff (length got) page_size).0 full) refl, refl)
      | inr short ↦ inr (record lv { offset = lv.offset + length got }, rw short refl)
    ]

module _ (hp : Bool) (img : Image) (e : PagemapEntry) (base v : ℕ) (lv : Level)
    (h : Here hp img lv e base v) where
  own_place : e.in_parent ≡ false → lv.offset + page_size ≡ place e base (v + page_size)
  own_place own =
      let o : lv.offset ≡ base + (v - e.vaddr) = h.stands.offset ∙ rw (own, h.here) in
      let i = h.stands.inside.0 in let c = h.here in rw own (omega (arith, o, i, c))

  at_next : add64 lv.cvaddr page_size ≡ v + page_size
  at_next = omega (arith, h.here, page_fits hp img lv e base v h, h.stands.sorted.1)

  own_Moved : (tail : List Level) → e.in_parent ≡ false → Moved hp img e base v lv (moved lv ∷ tail)
  own_Moved tail own = record {
    head = moved lv;
    tail = tail;
    chain = refl;
    stands = forward hp img lv e base v (lv.offset + page_size) h (own_place own);
    place = at_next;
    entries = refl;
  }

  parent_Moved :
      (tail : List Level)
      → e.in_parent ≡ true
      → Moved hp img e base v lv (record lv { cvaddr = add64 lv.cvaddr page_size } ∷ tail)
  parent_Moved tail inp = record {
    head = record lv { cvaddr = add64 lv.cvaddr page_size };
    tail = tail;
    chain = refl;
    stands = forward hp img lv e base v lv.offset h (h.stands.offset ∙ rw inp);
    place = at_next;
    entries = refl;
  }

-- After a page was read inside an entry, the reader stands behind it in the same entry.
pub read_pagemap_page-Moved :
    (hp : Bool) (img : Image) (e : PagemapEntry) (base v : ℕ) (lv : Level) (prs : List Level)
    (bytes : List ℕ)
    → Here hp img lv e base v
    → (read_pagemap_page v (lv ∷ prs)).0 ≡ some bytes
    → Moved hp img e base v lv (read_pagemap_page v (lv ∷ prs)).1
unfolding read_pagemap_page
read_pagemap_page-Moved hp img e base v lv [] bytes h got = elim (Bool-cases e.in_parent) [
  | inl inp ↦
      let eq : read_pagemap_page v (lv ∷ []) ≡ (none, lv ∷ []) = simp (h.stands.pe, inp) in
      let f : none ≡ some bytes = sym (ap (λ r. r.0) eq) ∙ got in absurd (cc)
  | inr own ↦ elim (read_own-cases lv) [
    | inl (page, lv', r, m) ↦
        let eq : read_pagemap_page v (lv ∷ []) ≡ (some page, lv' ∷ []) =
          rw (h.stands.pe, r, own, read_pagemap_page) in
        subst (Moved hp img e base v lv) (sym (ap (λ r. r.1) eq)) (
          subst (λ l. Moved hp img e base v lv (l ∷ [])) (sym m)
            (own_Moved hp img e base v lv h [] own))
    | inr (after, r) ↦
        let eq : read_pagemap_page v (lv ∷ []) ≡ (none, after ∷ []) =
          rw (h.stands.pe, r, own, read_pagemap_page) in
        let f : none ≡ some bytes = sym (ap (λ r. r.0) eq) ∙ got in absurd (cc)
  ]
]
read_pagemap_page-Moved hp img e base v lv (pr ∷ prs) bytes h got = elim (Bool-cases e.in_parent) [
  | inr own ↦ elim (read_own-cases lv) [
    | inl (page, lv', r, m) ↦
        let eq : read_pagemap_page v (lv ∷ pr ∷ prs) ≡ (some page, lv' ∷ pr ∷ prs) =
          rw (h.stands.pe, r, own, read_pagemap_page) in
        subst (Moved hp img e base v lv) (sym (ap (λ r. r.1) eq)) (
          subst (λ l. Moved hp img e base v lv (l ∷ pr ∷ prs)) (sym m)
            (own_Moved hp img e base v lv h (pr ∷ prs) own))
    | inr (after, r) ↦
        let eq : read_pagemap_page v (lv ∷ pr ∷ prs) ≡ (none, after ∷ pr ∷ prs) =
          rw (h.stands.pe, r, own, read_pagemap_page) in
        let f : none ≡ some bytes = sym (ap (λ r. r.0) eq) ∙ got in absurd (cc)
  ]
  | inl inp ↦
      let pr' = (seek_pagemap_page (has_parents prs) v pr).1 in
      elim (Bool-cases (seek_pagemap_page (has_parents prs) v pr).0) [
        | inr m ↦
            let eq : read_pagemap_page v (lv ∷ pr ∷ prs) ≡ (none, lv ∷ pr' ∷ prs) =
              simp (h.stands.pe, inp, m) in
            let f : none ≡ some bytes = sym (ap (λ r. r.0) eq) ∙ got in absurd (cc)
        | inl m ↦ elim (Option-cases (read_pagemap_page v (pr' ∷ prs)).0) [
          | inl nothing ↦
              let eq : read_pagemap_page v (lv ∷ pr ∷ prs)
                  ≡ (none, lv ∷ (read_pagemap_page v (pr' ∷ prs)).1) =
                simp (h.stands.pe, inp, m, nothing) in
              let f : none ≡ some bytes = sym (ap (λ r. r.0) eq) ∙ got in absurd (cc)
          | inr (page, q) ↦
              let eq : read_pagemap_page v (lv ∷ pr ∷ prs) ≡ (
                some page,
                record lv { cvaddr = add64 lv.cvaddr page_size }
                    ∷ (read_pagemap_page v (pr' ∷ prs)).1,
              ) =
                simp (h.stands.pe, inp, m, q) in
              subst (Moved hp img e base v lv) (sym (ap (λ r. r.1) eq))
                (parent_Moved hp img e base v lv h (read_pagemap_page v (pr' ∷ prs)).1 inp)
        ]
      ]
]

-- At the end of an entry, get_pagemap goes on to the next one.
pub get_pagemap-At :
    (hp : Bool) (img : Image) (e e' : PagemapEntry) (es : List PagemapEntry) (base : ℕ) (lv : Level)
    → At hp img lv e base
    → lv.entries ≡ e' ∷ es
    → lv.cvaddr ≡ entry_end e
    → (lv' : Level) × (get_pagemap hp (e' ∷ es) (put_pagemap lv) ≡ (true, lv'))
      × At hp img lv' e' (base + stored_size e)
      × (lv'.cvaddr ≡ e'.vaddr)
      × (lv'.entries ≡ es)
unfolding get_pagemap put_pagemap skip_pagemap_pages
get_pagemap-At hp img e e' es base lv a q c =
    let test : (e'.in_parent && not hp) ≡ false =
      closed_test hp e' (subst (λ l. IsClosed hp (e ∷ l)) q a.closed).1.0 in
    let end : iov_end (pagemap2iovec e) ≡ entry_end e = iov_end-entry e a.sorted.1 in
    let z : sub64 (iov_end (pagemap2iovec e)) lv.cvaddr ≡ 0 =
      (let top = a.sorted.1 in omega (arith, end, c, top)) in
    (
      record lv { entries = es; pe = some e'; freed = false; cvaddr = e'.vaddr },
      rw test refl,
      (rw z at (step_to-At hp img e e' es base lv q a)),
      refl,
      refl,
    )

-- What get_pagemap gives first.
pub get_pagemap-first :
    (hp : Bool) (img : Image) (e : PagemapEntry) (es : List PagemapEntry)
    → IsWhole hp img
    → img.entries ≡ e ∷ es
    → get_pagemap hp (e ∷ es) (open_page_read_at img.entries img.file)
      ≡ (true, first_level hp img e es)
unfolding get_pagemap open_page_read_at
get_pagemap-first hp img e es w q = rw (closed_test hp e (subst (IsClosed hp) q w.closed).0) refl
