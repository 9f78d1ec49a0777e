-- ===== src/PageRead/Read.antt =====
-- read_pagemap_page of page-read.c: the page that it returns is the one that the chain of snapshots
-- holds, and the chain is then ready for the next page.
use crtools.Base.{
  ℕ, ◌+◌, ◌-◌, ◌*◌, ◌%◌, ◌≤◌, ◌<◌, ◌≡◌, refl, sym, ap, subst, ◌∙◌, Bool, true, false, List, [], ◌∷◌,
  Option, none, some, Bool-cases, Option-cases, inl, inr, add64, page_size, length, length-take,
  length-drop, take, drop, arith,
}
use crtools.Pagemap.{PagemapEntry}
use crtools.PageRead.{Level, seek_pagemap_page, read_own, read_pagemap_page, has_parents}
use crtools.PageRead.Image.{Image, entry_end, stored_size, locate, lookup, IsWhole}
use crtools.PageRead.Inside.{At, place}
use crtools.PageRead.Seek.{
  SeekResult, hit, miss, Ready, opened, standing, seek_pagemap_page-SeekResult,
}

abbrev pub has_images : List Image → Bool
has_images [] = false
has_images (img ∷ imgs) = true

-- Levels that read these images, each ready for the addresses from `v` on.
abbrev pub ChainReady : List Image → List Level → ℕ → Type 0
ChainReady [] [] v = Unit {0}
ChainReady [] (lv ∷ lvs) v = ⊥
ChainReady (img ∷ imgs) [] v = ⊥
ChainReady (img ∷ imgs) (lv ∷ lvs) v =
    IsWhole (has_images imgs) img × Ready (has_images imgs) img v lv × ChainReady imgs lvs v

Ready-le :
    (hp : Bool) (img : Image) (v w : ℕ) (lv : Level) → v ≤ w → Ready hp img v lv → Ready hp img w lv
Ready-le hp img v w lv h (opened e) = opened e
Ready-le hp img v w lv h (standing e base a lo) = standing e base a (omega arith)

pub ChainReady-le :
    (imgs : List Image) (lvs : List Level) (v w : ℕ)
    → v ≤ w
    → ChainReady imgs lvs v
    → ChainReady imgs lvs w
ChainReady-le [] [] v w h c = tt
ChainReady-le [] (lv ∷ lvs) v w h c = c
ChainReady-le (img ∷ imgs) [] v w h c = c
ChainReady-le (img ∷ imgs) (lv ∷ lvs) v w h c =
    (c.0, Ready-le (has_images imgs) img v w lv h c.1, ChainReady-le imgs lvs v w h c.2)

pub has_parents-eq :
    (imgs : List Image) (lvs : List Level) (v : ℕ)
    → ChainReady imgs lvs v
    → has_parents lvs ≡ has_images imgs
has_parents-eq [] [] v c = refl
has_parents-eq [] (lv ∷ lvs) v c = absurd c
has_parents-eq (img ∷ imgs) [] v c = absurd c
has_parents-eq (img ∷ imgs) (lv ∷ lvs) v c = refl

-- A level at the page of `v`.
pub record Here (hp : Bool) (img : Image) (lv : Level) (e : PagemapEntry) (base v : ℕ)
    : Type 0 where
  pub stands : At hp img lv e base
  pub here : lv.cvaddr ≡ v
  pub below : v < entry_end e
  pub page : v % page_size ≡ 0

locate-Here :
    (hp : Bool) (img : Image) (lv : Level) (e : PagemapEntry) (base v : ℕ)
    → Here hp img lv e base v
    → locate img.entries 0 v ≡ some (e.in_parent, base + (v - e.vaddr))
locate-Here hp img lv e base v h =
    h.stands.rest v (omega (arith, h.here))
    ∙ at_entry e (omega (arith, h.stands.inside.0, h.here)) h.below
  where
    at_entry :
        (e : PagemapEntry)
        → e.vaddr ≤ v
        → v < entry_end e
        → locate (e ∷ lv.entries) base v ≡ some (e.in_parent, base + (v - e.vaddr))
    at_entry e lo hi = ground arith

pub page_fits :
    (hp : Bool) (img : Image) (lv : Level) (e : PagemapEntry) (base v : ℕ)
    → Here hp img lv e base v
    → v + page_size ≤ entry_end e
page_fits hp img lv e base v h = omega (arith, h.below, h.page, h.stands.sorted.2)

-- Moving on by a page inside the entry.
pub forward :
    (hp : Bool) (img : Image) (lv : Level) (e : PagemapEntry) (base v : ℕ) (o : ℕ)
    → Here hp img lv e base v
    → o ≡ place e base (v + page_size)
    → At hp img (record lv { offset = o; cvaddr = add64 lv.cvaddr page_size }) e base
forward hp img lv e base v o h q = rw next (record {
  pe = h.stands.pe;
  live = h.stands.live;
  file = h.stands.file;
  inside = (omega (arith, h.here, h.stands.inside.0), page_fits hp img lv e base v h);
  offset = q;
  sorted = h.stands.sorted;
  closed = h.stands.closed;
  stored = h.stands.stored;
  rest = λ w hw. h.stands.rest w (omega (arith, h.here));
})
  where
    next : add64 lv.cvaddr page_size ≡ v + page_size
    next = omega (arith, h.here, page_fits hp img lv e base v h, h.stands.sorted.1)

stored_own : (e : PagemapEntry) → e.in_parent ≡ false → stored_size e ≡ e.nr_pages * page_size
stored_own e own = rw own

-- A page of the level's own pages.img.
own_page :
    (hp : Bool) (img : Image) (lv : Level) (e : PagemapEntry) (base v : ℕ)
    → Here hp img lv e base v
    → e.in_parent ≡ false
    → (lv' : Level) × (read_own lv
        ≡ (some (take page_size (drop (base + (v - e.vaddr)) img.file)), lv'))
      × Ready hp img (v + page_size) lv'
unfolding read_own
own_page hp img lv e base v h own = (
  record lv { offset = lv.offset + page_size; cvaddr = add64 lv.cvaddr page_size },
  rw (full_len, h.stands.file, stands_at),
  standing e base (forward hp img lv e base v (lv.offset + page_size) h (place_next stands_at))
      (omega (arith, h.here, page_fits hp img lv e base v h, h.stands.sorted.1)),
)
  where
    place_next :
        lv.offset ≡ base + (v - e.vaddr) → lv.offset + page_size ≡ place e base (v + page_size)
    place_next q = rw own (omega (arith, q, h.stands.inside.0, h.here))

    stands_at : lv.offset ≡ base + (v - e.vaddr)
    stands_at = h.stands.offset ∙ rw (own, h.here)

    full_len : length (take page_size (drop lv.offset lv.file)) ≡ page_size
    full_len =
        length-take page_size (drop lv.offset lv.file)
        ∙ omega (
          arith,
          length-drop lv.offset lv.file,
          stands_at,
          ap length h.stands.file,
          h.stands.stored,
          stored_own e own,
          page_fits hp img lv e base v h,
          h.stands.inside.0,
          h.here,
        )

-- What reading the page at `v` gives.
pub record Read (imgs : List Image) (v : ℕ) (r : Option (List ℕ) × List Level) : Type 0 where
  pub page : r.0 ≡ lookup imgs v
  pub ready : (bytes : List ℕ) → r.0 ≡ some bytes → ChainReady imgs r.1 (v + page_size)

lookup_own :
    (img : Image) (imgs : List Image) (v off : ℕ)
    → locate img.entries 0 v ≡ some (false, off)
    → lookup (img ∷ imgs) v ≡ some (take page_size (drop off img.file))
lookup_own img imgs v off e = rw (e, lookup)

lookup_parent :
    (img : Image) (imgs : List Image) (v off : ℕ)
    → locate img.entries 0 v ≡ some (true, off)
    → lookup (img ∷ imgs) v ≡ lookup imgs v
lookup_parent img imgs v off e = rw (e, lookup)

pub lookup-none :
    (img : Image) (imgs : List Image) (v : ℕ)
    → locate img.entries 0 v ≡ none
    → lookup (img ∷ imgs) v ≡ none
lookup-none img imgs v e = rw (e, lookup)

abbrev own_bytes : Image → PagemapEntry → ℕ → ℕ → List ℕ
own_bytes img e base v = take page_size (drop (base + (v - e.vaddr)) img.file)

in_own :
    (hp : Bool) (img : Image) (lv : Level) (e : PagemapEntry) (base v : ℕ)
    → Here hp img lv e base v
    → {b : Bool} → e.in_parent ≡ b
    → locate img.entries 0 v ≡ some (b, base + (v - e.vaddr))
in_own hp img lv e base v h q =
    locate-Here hp img lv e base v h ∙ ap (λ b. some (b, base + (v - e.vaddr))) q

pub read_pagemap_page-Read :
    (imgs : List Image) (lvs : List Level) (img : Image) (lv : Level) (e : PagemapEntry)
    (base v : ℕ)
    → IsWhole (has_images imgs) img
    → Here (has_images imgs) img lv e base v
    → ChainReady imgs lvs v
    → Read (img ∷ imgs) v (read_pagemap_page v (lv ∷ lvs))
unfolding read_pagemap_page
read_pagemap_page-Read [] (pr ∷ prs) img lv e base v w h c = absurd c
read_pagemap_page-Read (img2 ∷ imgs) [] img lv e base v w h c = absurd c
read_pagemap_page-Read [] [] img lv e base v w h c = elim (Bool-cases e.in_parent) [
  | inl inp ↦ cc (h.stands.closed.0 inp)
  | inr own ↦
      let (lv', r, ready) = own_page false img lv e base v h own in
      let eq : read_pagemap_page v (lv ∷ []) ≡ (some (own_bytes img e base v), lv' ∷ []) =
        rw (h.stands.pe, r, own, read_pagemap_page) in
      subst (Read (img ∷ []) v) (sym eq) (record {
        page = sym (lookup_own img [] v _ (in_own false img lv e base v h own));
        ready = λ bytes q. (w, ready, tt);
      })
]
read_pagemap_page-Read (img2 ∷ imgs) (pr ∷ prs) img lv e base v w h c =
    elim (Bool-cases e.in_parent) [
      | inl inp ↦
          through inp (seek_pagemap_page-SeekResult (has_images imgs) img2 v pr c.0 c.1)
            (λ pr' e2 base2 there.
              read_pagemap_page-Read imgs prs img2 pr' e2 base2 v c.0 there c.2)
      | inr own ↦
          let (lv', r, ready) = own_page true img lv e base v h own in
          let eq : read_pagemap_page v (lv ∷ pr ∷ prs)
              ≡ (some (own_bytes img e base v), lv' ∷ pr ∷ prs) =
            rw (h.stands.pe, r, own, read_pagemap_page) in
          subst (Read (img ∷ img2 ∷ imgs) v) (sym eq) (record {
            page = sym (lookup_own img (img2 ∷ imgs) v _ (in_own true img lv e base v h own));
            ready = λ bytes q. (
              w,
              ready,
              ChainReady-le (img2 ∷ imgs) (pr ∷ prs) v (v + page_size) (omega arith) c,
            );
          })
    ]
  where
    hp : has_parents prs ≡ has_images imgs
    hp = has_parents-eq imgs prs v c.2

    from_parent : e.in_parent ≡ true → lookup (img ∷ img2 ∷ imgs) v ≡ lookup (img2 ∷ imgs) v
    from_parent inp = lookup_parent img (img2 ∷ imgs) v _ (in_own true img lv e base v h inp)

    same_place : e.in_parent ≡ true → lv.offset ≡ place e base (v + page_size)
    same_place inp = h.stands.offset ∙ rw inp

    through :
        e.in_parent ≡ true
        → SeekResult (has_images imgs) img2 v (seek_pagemap_page (has_images imgs) v pr)
        → ((pr' : Level) (e2 : PagemapEntry) (base2 : ℕ)
            → Here (has_images imgs) img2 pr' e2 base2 v
            → Read (img2 ∷ imgs) v (read_pagemap_page v (pr' ∷ prs)))
        → Read (img ∷ img2 ∷ imgs) v (read_pagemap_page v (lv ∷ pr ∷ prs))
    through inp (miss m n) ih =
        let eq : read_pagemap_page v (lv ∷ pr ∷ prs)
            ≡ (none, lv ∷ (seek_pagemap_page (has_images imgs) v pr).1 ∷ prs) =
          simp (h.stands.pe, inp, hp, m) in
        subst (Read (img ∷ img2 ∷ imgs) v) (sym eq) (record {
          page = sym (
              lookup_parent img (img2 ∷ imgs) v _ (in_own true img lv e base v h inp)
              ∙ lookup-none img2 imgs v n);
          ready = λ bytes q. cc q;
        })
    through inp (hit e2 base2 m a q lo) ih =
        let pr' = (seek_pagemap_page (has_images imgs) v pr).1 in
        let there : Read (img2 ∷ imgs) v (read_pagemap_page v (pr' ∷ prs)) =
          ih pr' e2 base2 (record { stands = a; here = q; below = lo; page = h.page }) in
        elim (Option-cases (read_pagemap_page v (pr' ∷ prs)).0) [
          | inl nothing ↦
              let eq : read_pagemap_page v (lv ∷ pr ∷ prs)
                  ≡ (none, lv ∷ (read_pagemap_page v (pr' ∷ prs)).1) =
                simp (h.stands.pe, inp, hp, m, nothing) in
              subst (Read (img ∷ img2 ∷ imgs) v) (sym eq) (record {
                page = sym (from_parent inp ∙ sym there.page ∙ nothing);
                ready = λ bytes q. cc q;
              })
          | inr (bytes, got) ↦
              let eq : read_pagemap_page v (lv ∷ pr ∷ prs) ≡ (
                some bytes,
                record lv { cvaddr = add64 lv.cvaddr page_size }
                    ∷ (read_pagemap_page v (pr' ∷ prs)).1,
              ) =
                simp (h.stands.pe, inp, hp, m, got) in
              subst (Read (img ∷ img2 ∷ imgs) v) (sym eq) (record {
                page = sym (from_parent inp ∙ sym there.page ∙ got);
                ready = λ bytes' q'. (
                  w,
                  standing e base (forward true img lv e base v lv.offset h (same_place inp))
                      (omega (arith, h.here)),
                  there.ready bytes got,
                );
              })
        ]
