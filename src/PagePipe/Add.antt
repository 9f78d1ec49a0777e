-- ===== src/PagePipe/Add.antt =====
-- page_pipe_add_page of page-pipe.c: what it adds, that it keeps the invariant, and that it stops at
-- no BUG_ON while the array has a free element.
use crtools.Base.{
  ℕ, ◌+◌, ◌/◌, ◌^◌, ◌≤◌, ◌<◌, ◌≡◌, ◌≢◌, refl, ap, ◌∙◌, inl, inr, List, [], ◌∷◌, ◌++◌, none, some,
  Res, ok, err, bug, Option-cases, arith, page_size, add32,
}
use crtools.PagePipe.{
  PagePipe, PagePipeBuf, Kernel, IsDocumented, need_buf, try_add_page_to, try_add_page,
  page_pipe_grow, page_pipe_add_page,
}
use crtools.PagePipe.Inv.{Inv, contents}
use crtools.PagePipe.Buf.{AddsPage}
use crtools.PagePipe.Try.{done, full, over, try_add_page-Tried}

module _ (k : Kernel) (doc : IsDocumented k) where
  -- A buffer that was just made takes the page, or there is no element left for it.
  fresh_takes :
      (pp : PagePipe) (b : PagePipeBuf) (rest : List PagePipeBuf) (addr : ℕ)
      → b.nr_segs ≡ 0
      → b.pages_in ≡ 0
      → 0 < b.pipe_size
      → (pp' : PagePipe) → try_add_page_to k pp b rest addr ≢ ok (need_buf, pp')
  unfolding try_add_page_to
  fresh_takes pp b rest addr s p h pp' e = ground arith

  with_buf : PagePipe → ℕ → PagePipe
  with_buf pp size = record pp {
    bufs =
        record { pipe_size = size / page_size; pages_in = 0; nr_segs = 0; iov = pp.free_iov }
        ∷ pp.bufs;
    nr_pipes = add32 pp.nr_pipes 1;
  }

  page_pipe_grow-with_buf :
      (pp : PagePipe) (size : ℕ)
      → k.new_pipe pp.nr_pipes ≡ some size
      → page_pipe_grow k pp ≡ ok (with_buf pp size)
  unfolding page_pipe_grow with_buf
  page_pipe_grow-with_buf pp size e = rw e

  page_pipe_grow-err : (pp : PagePipe) → k.new_pipe pp.nr_pipes ≡ none → page_pipe_grow k pp ≡ err
  unfolding page_pipe_grow
  page_pipe_grow-err pp e = rw e

  with_buf_takes :
      (pp : PagePipe) (size addr : ℕ) (pp' : PagePipe)
      → page_size ≤ size
      → try_add_page k (with_buf pp size) addr ≢ ok (need_buf, pp')
  unfolding try_add_page with_buf
  with_buf_takes pp size addr pp' h =
      fresh_takes (with_buf pp size)
        (record { pipe_size = size / page_size; pages_in = 0; nr_segs = 0; iov = pp.free_iov })
        pp.bufs addr refl refl (omega arith) pp'

  -- The page is the same one more, though a buffer was added in between.
  AddsPage-with_buf :
      (pp pp1 : PagePipe) (size addr : ℕ) (pp' : PagePipe)
      → contents pp1 ≡ contents pp
      → (pp1.free_iov ≡ pp.free_iov)
        × (pp1.nr_iovs ≡ pp.nr_iovs)
        × (pp1.holes ≡ pp.holes)
        × (pp1.free_hole ≡ pp.free_hole)
        × (pp1.nr_holes ≡ pp.nr_holes)
      → AddsPage (with_buf pp1 size) addr pp'
      → AddsPage pp addr pp'
  unfolding with_buf
  AddsPage-with_buf pp pp1 size addr pp' c same a = record {
    inv = a.inv;
    appended = a.appended ∙ ap (λ l. l ++ addr ∷ []) c;
    few_segs = (omega (arith, a.few_segs.0, same.0), a.few_segs.1 ∙ same.1);
    same_holes = (a.same_holes.0 ∙ same.2, a.same_holes.1 ∙ same.3, a.same_holes.2 ∙ same.4);
  }

  with_buf-full :
      (pp : PagePipe) (size : ℕ)
      → (with_buf pp size).free_iov ≡ (with_buf pp size).nr_iovs
      → pp.free_iov ≡ pp.nr_iovs
  unfolding with_buf
  with_buf-full pp size h = h

  with_buf-Inv :
      (pp : PagePipe) (size : ℕ)
      → Inv pp
      → page_size ≤ size
      → size < 2 ^ 31
      → Inv (with_buf pp size)
  unfolding with_buf
  with_buf-Inv pp size v h i = record {
    started = omega arith;
    room = v.room;
    word = v.word;
    used = v.used;
    chain = (
      omega arith,
      record {
        segs = omega arith;
        holds = omega arith;
        fits = omega arith;
        small = omega arith;
        counted = refl;
      },
      v.chain,
    );
    paged = v.paged;
  }

  -- The three ways in which `page_pipe_add_page` ends.
  pub data AddResult (pp : PagePipe) (addr : ℕ) (r : Res PagePipe) : Type 0 where
    -- The page is in, behind those that were there.
    adds : (pp' : PagePipe) → r ≡ ok pp' → AddsPage pp addr pp' → AddResult pp addr r
    -- A new pipe was wanted and could not be had.
    no_pipe : (n : ℕ) → r ≡ err → k.new_pipe n ≡ none → AddResult pp addr r
    -- BUG_ON: the caller's array is full.
    no_iov : r ≡ bug → pp.free_iov ≡ pp.nr_iovs → AddResult pp addr r

  -- On a valid page pipe, and for a page that ends below 2^64, `page_pipe_add_page` either appends
  -- the address to those in the pipe and keeps the invariant and the holes, or fails because no new
  -- pipe could be had, or stops at a BUG_ON because every element of the caller's array is in use.
  pub page_pipe_add_page-AddResult :
      (pp : PagePipe) (addr : ℕ)
      → Inv pp
      → addr + page_size < 2 ^ 64
      → AddResult pp addr (page_pipe_add_page k pp addr)
  unfolding page_pipe_add_page
  page_pipe_add_page-AddResult pp addr v low = elim (try_add_page-Tried k doc pp addr v low) [
    | done pp' q a m ↦ adds pp' (rw q) a
    | over q m ↦ no_iov (rw q) m
    | full pp1 q v1 c same ↦ again pp1 q v1 c same
  ]
    where
      again :
          (pp1 : PagePipe)
          → try_add_page k pp addr ≡ ok (need_buf, pp1)
          → Inv pp1
          → contents pp1 ≡ contents pp
          → (pp1.free_iov ≡ pp.free_iov)
            × (pp1.nr_iovs ≡ pp.nr_iovs)
            × (pp1.holes ≡ pp.holes)
            × (pp1.free_hole ≡ pp.free_hole)
            × (pp1.nr_holes ≡ pp.nr_holes)
          → AddResult pp addr (page_pipe_add_page k pp addr)
      again pp1 q v1 c same = elim (Option-cases (k.new_pipe pp1.nr_pipes)) [
        | inl e ↦ no_pipe pp1.nr_pipes (rw (q, page_pipe_grow-err pp1 e)) e
        | inr (size, e) ↦
            let enough : page_size ≤ size = doc.holds_page pp1.nr_pipes size e in
            elim (try_add_page-Tried k doc (with_buf pp1 size) addr
              (with_buf-Inv pp1 size v1 enough (doc.new_int pp1.nr_pipes size e)) low) [
                | done pp' r a m ↦
                    adds pp' (rw (q, page_pipe_grow-with_buf pp1 size e, r))
                      (AddsPage-with_buf pp pp1 size addr pp' c same a)
                | full pp' r v' c' same' ↦ absurd (with_buf_takes pp1 size addr pp' enough r)
                | over r m ↦
                    no_iov (rw (q, page_pipe_grow-with_buf pp1 size e, r))
                      (omega (arith, with_buf-full pp1 size m, same.0, same.1))
              ]
      ]
