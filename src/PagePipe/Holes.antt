-- ===== src/PagePipe/Holes.antt =====
-- page_pipe_add_hole of page-pipe.c: the array of holes grows by batches, and a hole that continues
-- the last one is merged with it.
use crtools.Base.{
  ℕ, suc, ◌+◌, ◌-◌, ◌^◌, ◌≤◌, ◌<◌, ◌≡◌, refl, ap, subst, ◌∙◌, ◌⊎◌, inl, inr, Bool, false, ◌&&◌,
  List, [], ◌∷◌, ◌++◌, ok, err, Bool-cases, ltb, leb, leb→le, not_leb, ◌==◌, arith, page_size,
  add32, length, length-append, length-replicate, replicate, get_or, set, length-set, take,
  take-append_left, All, All-get_or, All-take_le, All-take-set,
}
use crtools.Iov.{Iovec, IsPaged, iov_end, one_page, extend, pages, extend-IsPaged}
use crtools.PagePipe.{PagePipe, Kernel, pp_holes_batch, add_hole_to, page_pipe_add_hole}
use crtools.PagePipe.Inv.{pages-set_page, pages-set-extend}
use crtools.PagePipe.Buf.{both}

pub record HolesInv (pp : PagePipe) : Type 0 where
  pub room : pp.nr_holes ≤ length pp.holes
  pub used : pp.free_hole ≤ pp.nr_holes
  pub paged : All IsPaged (take pp.free_hole pp.holes)

-- The addresses of the pages that are left to the parent image.
abbrev pub hole_pages : PagePipe → List ℕ
hole_pages pp = pages (take pp.free_hole pp.holes)

pub record AddsHole (pp : PagePipe) (addr : ℕ) (pp' : PagePipe) : Type 0 where
  pub inv : HolesInv pp'
  pub appended : hole_pages pp' ≡ hole_pages pp ++ addr ∷ []
  pub few : pp'.nr_holes ≤ pp.nr_holes + pp_holes_batch
  pub same_pages :
      (pp'.iovs ≡ pp.iovs)
      × (pp'.free_iov ≡ pp.free_iov)
      × (pp'.nr_iovs ≡ pp.nr_iovs)
      × (pp'.bufs ≡ pp.bufs)

module _ (k : Kernel) where
  merged-AddsHole :
      (pp : PagePipe) (addr : ℕ)
      → HolesInv pp
      → 0 < pp.free_hole
      → iov_end (get_or pp.holes (pp.free_hole - 1) k.fresh) ≡ addr
      → addr + page_size < 2 ^ 64
      → AddsHole pp addr (record pp {
        holes =
            set pp.holes (pp.free_hole - 1) (extend (get_or pp.holes (pp.free_hole - 1) k.fresh));
      })
  merged-AddsHole pp addr v h e low = record {
    inv = record {
      room = omega (arith, length-set pp.holes n (extend x));
      used = v.used;
      paged =
          subst (λ m. All IsPaged (take m (set pp.holes n (extend x)))) top
            (All-take-set IsPaged pp.holes n (extend x) inside
              (All-take_le IsPaged pp.holes n pp.free_hole (omega arith) v.paged)
              (extend-IsPaged x last reach));
    };
    appended =
        subst
          (λ m. pages (take m (set pp.holes n (extend x))) ≡ pages (take m pp.holes) ++ addr ∷ [])
          top
          (pages-set-extend pp.holes n k.fresh inside last reach
            ∙ ap (λ a. pages (take (suc n) pp.holes) ++ a ∷ []) e);
    few = omega arith;
    same_pages = (refl, refl, refl, refl);
  }
    where
      n : ℕ
      n = pp.free_hole - 1

      x : Iovec
      x = get_or pp.holes n k.fresh

      inside : n < length pp.holes
      inside = omega (arith, v.room, v.used)

      top : suc n ≡ pp.free_hole
      top = omega arith

      last : IsPaged x
      last = All-get_or IsPaged pp.holes pp.free_hole n k.fresh v.paged (omega arith) inside

      reach : iov_end x + page_size < 2 ^ 64
      reach = rw e low

  new_hole-AddsHole :
      (pp : PagePipe) (addr : ℕ)
      → HolesInv pp
      → pp.free_hole < pp.nr_holes
      → pp.nr_holes < 2 ^ 32
      → addr + page_size < 2 ^ 64
      → AddsHole pp addr (record pp {
        holes = set pp.holes pp.free_hole (one_page addr);
        free_hole = add32 pp.free_hole 1;
      })
  new_hole-AddsHole pp addr v h w low =
      let e : add32 pp.free_hole 1 ≡ suc pp.free_hole = omega arith in
      rw e (record {
        inv = record {
          room = omega (arith, v.room, length-set pp.holes pp.free_hole (one_page addr));
          used = h;
          paged =
              All-take-set IsPaged pp.holes pp.free_hole (one_page addr) (omega (arith, v.room))
                v.paged (omega arith);
        };
        appended = pages-set_page pp.holes pp.free_hole addr (omega (arith, v.room));
        few = omega arith;
        same_pages = (refl, refl, refl, refl);
      })

  add_hole_to-AddsHole :
      (pp : PagePipe) (addr : ℕ)
      → HolesInv pp
      → pp.free_hole < pp.nr_holes
      → pp.nr_holes < 2 ^ 32
      → addr + page_size < 2 ^ 64
      → AddsHole pp addr (add_hole_to k pp addr)
  unfolding add_hole_to
  add_hole_to-AddsHole pp addr v h w low = elim (Bool-cases joins) [
    | inl j ↦ rw j (merged-AddsHole pp addr v (both _ _ _ j).0 (both _ _ _ j).1 low)
    | inr apart ↦ rw apart (new_hole-AddsHole pp addr v h w low)
  ]
    where
      joins : Bool
      joins = ltb 0 pp.free_hole && (iov_end (get_or pp.holes (pp.free_hole - 1) k.fresh) == addr)

  nr_holes-add_hole_to : (pp : PagePipe) (addr : ℕ) → (add_hole_to k pp addr).nr_holes ≡ pp.nr_holes
  unfolding add_hole_to
  nr_holes-add_hole_to pp addr = ground arith

  batch : PagePipe → PagePipe
  batch pp = record pp {
    holes = pp.holes ++ replicate pp_holes_batch k.fresh;
    nr_holes = add32 pp.nr_holes pp_holes_batch;
  }

  same_part :
      (pp : PagePipe)
      → HolesInv pp
      → take pp.free_hole (pp.holes ++ replicate pp_holes_batch k.fresh)
        ≡ take pp.free_hole pp.holes
  same_part pp v =
      take-append_left pp.holes (replicate pp_holes_batch k.fresh) pp.free_hole
        (omega (arith, v.room, v.used))

  batch-HolesInv :
      (pp : PagePipe) → HolesInv pp → pp.nr_holes + pp_holes_batch < 2 ^ 32 → HolesInv (batch pp)
  unfolding batch
  batch-HolesInv pp v w = record {
    room = omega (
      arith,
      v.room,
      length-append pp.holes (replicate pp_holes_batch k.fresh),
      length-replicate pp_holes_batch k.fresh,
    );
    used = omega (arith, v.used);
    paged = rw (same_part pp v) v.paged;
  }

  -- On a valid array of fewer than 2^32 - 32 holes, and for a page that ends below 2^64,
  -- `page_pipe_add_hole` appends the address to those of the holes, keeps the array valid and the
  -- pages alone, or fails because the array was full and could not grow.
  pub page_pipe_add_hole-AddsHole :
      (pp : PagePipe) (addr : ℕ)
      → HolesInv pp
      → pp.nr_holes + pp_holes_batch < 2 ^ 32
      → addr + page_size < 2 ^ 64
      → ((pp' : PagePipe) × (page_pipe_add_hole k pp addr ≡ ok pp') × AddsHole pp addr pp')
        ⊎ ((page_pipe_add_hole k pp addr ≡ err)
            × (pp.free_hole ≡ pp.nr_holes)
            × (k.grow_holes (pp.nr_holes + pp_holes_batch) ≡ false))
  unfolding page_pipe_add_hole batch
  page_pipe_add_hole-AddsHole pp addr v w low = elim (Bool-cases (leb pp.nr_holes pp.free_hole)) [
    | inr some_left ↦ inl (
      add_hole_to k pp addr,
      rw some_left,
      add_hole_to-AddsHole pp addr v (not_leb pp.nr_holes pp.free_hole some_left) (omega arith) low,
    )
    | inl none_left ↦ elim (Bool-cases (k.grow_holes (add32 pp.nr_holes pp_holes_batch))) [
      | inr no_memory ↦ inr (
        rw (none_left, no_memory),
        omega (arith, leb→le pp.nr_holes pp.free_hole none_left, v.used),
        subst (λ n. k.grow_holes n ≡ false) size no_memory,
      )
      | inl grown ↦ inl (
        add_hole_to k (batch pp) addr,
        rw (none_left, grown),
        over_batch (
            add_hole_to-AddsHole (batch pp) addr (batch-HolesInv pp v w) (omega (arith, v.used))
              (omega arith) low),
      )
    ]
  ]
    where
      size : add32 pp.nr_holes pp_holes_batch ≡ pp.nr_holes + pp_holes_batch
      size = omega arith

      over_batch :
          AddsHole (batch pp) addr (add_hole_to k (batch pp) addr)
          → AddsHole pp addr (add_hole_to k (batch pp) addr)
      over_batch a = record {
        inv = a.inv;
        appended = a.appended ∙ ap (λ l. pages l ++ addr ∷ []) (same_part pp v);
        few = omega (arith, nr_holes-add_hole_to (batch pp) addr);
        same_pages = a.same_pages;
      }
