-- ===== src/PagePipe/Buf.antt =====
-- What try_add_page_to of page-pipe.c writes: a page at the end of the last segment of a buffer, or
-- in a new segment of it.
use crtools.Base.{
  ℕ, suc, ◌+◌, ◌-◌, ◌^◌, ◌≤◌, ◌<◌, ◌≡◌, refl, ap, subst, ◌∙◌, true, false, ◌&&◌, List, [], ◌∷◌,
  ◌++◌, ltb, ◌==◌, arith, page_size, add32, length, get_or, set, length-set, take, All, All-get_or,
  All-take_le, All-take-set,
}
use crtools.Iov.{Iovec, IsPaged, iov_end, one_page, extend, pages, extend-IsPaged}
use crtools.PagePipe.{PagePipe, PagePipeBuf, uio_maxiov, last_seg}
use crtools.PagePipe.Inv.{
  IsCounted, Inv, contents, pages-set_page, pages-set-extend, Chain-set, IsCounted-set_page,
  IsCounted-set-extend,
}

-- What a page more in the pipe is: the same kinds of holes, the array as long as it was.
pub record AddsPage (pp : PagePipe) (addr : ℕ) (pp' : PagePipe) : Type 0 where
  pub inv : Inv pp'
  pub appended : contents pp' ≡ contents pp ++ addr ∷ []
  pub few_segs : (pp'.free_iov ≤ suc pp.free_iov) × (pp'.nr_iovs ≡ pp.nr_iovs)
  pub same_holes :
      (pp'.holes ≡ pp.holes) × (pp'.free_hole ≡ pp.free_hole) × (pp'.nr_holes ≡ pp.nr_holes)

-- What the tests of `add_to_buf` say when they pass and when they do not.
pub both : (n x a : ℕ) → (ltb 0 n && (x == a)) ≡ true → (0 < n) × (x ≡ a)
both n x a h = ground arith

pub not_most : (n m : ℕ) → 0 < m → n ≤ m → (ltb 0 n && (n == m)) ≡ false → n < m
not_most n m p l h = ground arith

pub below : (n m : ℕ) → n ≤ m → (n == m) ≡ false → n < m
below n m l h = ground arith

pub left_over : (f m : ℕ) → m + 1 < 2 ^ 32 → f ≤ m → ltb m (add32 f 1) ≡ false → f < m
left_over f m w l h = ground arith

pub nothing_left : (f m : ℕ) → m + 1 < 2 ^ 32 → f ≤ m → ltb m (add32 f 1) ≡ true → f ≡ m
nothing_left f m w l h = ground arith

-- A buffer whose pipe has room for another page.
abbrev pub HasRoom : PagePipeBuf → Type 0
HasRoom b = b.pages_in < b.pipe_size

module _ (pp : PagePipe) (b : PagePipeBuf) (rest : List PagePipeBuf) (addr : ℕ) (d : Iovec)
    (v : Inv (record pp { bufs = b ∷ rest })) (has_room : HasRoom b)
    (low : addr + page_size < 2 ^ 64) where
  unfoldable pub extended : PagePipe
  extended = record pp {
    iovs = set pp.iovs (last_seg b) (extend (get_or pp.iovs (last_seg b) d));
    bufs = record b { pages_in = add32 b.pages_in 1 } ∷ rest;
  }

  last_IsPaged : 0 < b.nr_segs → IsPaged (get_or pp.iovs (last_seg b) d)
  last_IsPaged h =
      All-get_or IsPaged pp.iovs pp.free_iov (last_seg b) d v.paged (omega (arith, v.chain.0))
        (omega (arith, v.chain.0))

  pub extended-AddsPage :
      0 < b.nr_segs
      → iov_end (get_or pp.iovs (last_seg b) d) ≡ addr
      → AddsPage (record pp { bufs = b ∷ rest }) addr extended
  unfolding extended
  extended-AddsPage h e = record {
    inv = record {
      started = v.started;
      room = omega (arith, length-set pp.iovs (last_seg b) (extend x));
      word = v.word;
      used = v.used;
      chain = (
        v.chain.0,
        subst (λ n. IsCounted (set pp.iovs (last_seg b) (extend x)) (record b { pages_in = n }))
            (omega (arith, v.chain.1.fits, v.chain.1.small))
            (IsCounted-set-extend pp.iovs b (b.nr_segs - 1) d v.chain.1 (omega arith) inside
              has_room (last_IsPaged h) reach),
        Chain-set pp.iovs rest b.iov (last_seg b) (extend x) (omega arith) v.chain.2,
      );
      paged =
          subst (λ n. All IsPaged (take n (set pp.iovs (last_seg b) (extend x)))) top
            (All-take-set IsPaged pp.iovs (last_seg b) (extend x) inside
              (All-take_le IsPaged pp.iovs (last_seg b) pp.free_iov (omega (arith, v.chain.0))
                v.paged)
              (extend-IsPaged x (last_IsPaged h) reach));
    };
    appended =
        subst
          (λ n.
            pages (take n (set pp.iovs (last_seg b) (extend x)))
            ≡ pages (take n pp.iovs) ++ addr ∷ [])
          top
          (pages-set-extend pp.iovs (last_seg b) d inside (last_IsPaged h) reach
            ∙ ap (λ a. pages (take (suc (last_seg b)) pp.iovs) ++ a ∷ []) e);
    few_segs = (omega arith, refl);
    same_holes = (refl, refl, refl);
  }
    where
      x : Iovec
      x = get_or pp.iovs (last_seg b) d

      inside : last_seg b < length pp.iovs
      inside = omega (arith, v.chain.0)

      top : suc (last_seg b) ≡ pp.free_iov
      top = omega (arith, v.chain.0)

      reach : iov_end x + page_size < 2 ^ 64
      reach = rw e low

  unfoldable pub with_segment : PagePipe
  with_segment = record pp {
    iovs = set pp.iovs (b.iov + b.nr_segs) (one_page addr);
    free_iov = add32 pp.free_iov 1;
    bufs = record b { nr_segs = add32 b.nr_segs 1; pages_in = add32 b.pages_in 1 } ∷ rest;
  }

  pub with_segment-AddsPage :
      pp.free_iov < pp.nr_iovs
      → b.nr_segs < uio_maxiov
      → AddsPage (record pp { bufs = b ∷ rest }) addr with_segment
  unfolding with_segment
  with_segment-AddsPage h s =
      rw
        (
          one_more pp.free_iov (omega arith),
          one_more b.nr_segs (omega arith),
          one_more b.pages_in (omega arith),
          v.chain.0,
        )
        (record {
          inv = record {
            started = v.started;
            room = omega (arith, length-set pp.iovs pp.free_iov (one_page addr));
            word = v.word;
            used = h;
            chain = (
              omega (arith, v.chain.0),
              subst
                  (λ n.
                    IsCounted (set pp.iovs n (one_page addr))
                      (record b { nr_segs = suc b.nr_segs; pages_in = suc b.pages_in }))
                  v.chain.0
                  (IsCounted-set_page pp.iovs b addr v.chain.1 (omega (arith, v.chain.0)) has_room
                    s),
              Chain-set pp.iovs rest b.iov pp.free_iov (one_page addr) (omega arith) v.chain.2,
            );
            paged =
                All-take-set IsPaged pp.iovs pp.free_iov (one_page addr) inside v.paged
                  (omega arith);
          };
          appended = pages-set_page pp.iovs pp.free_iov addr inside;
          few_segs = (omega arith, refl);
          same_holes = (refl, refl, refl);
        })
    where
      inside : pp.free_iov < length pp.iovs
      inside = omega arith

      one_more : (n : ℕ) → suc n < 2 ^ 32 → add32 n 1 ≡ suc n
      one_more n l = omega arith

-- Whether the buffer's pipe was made larger first makes no difference to what is added.
pub AddsPage-resize :
    (pp : PagePipe) (bs cs : List PagePipeBuf) (addr : ℕ) (pp' : PagePipe)
    → AddsPage (record pp { bufs = bs }) addr pp'
    → AddsPage (record pp { bufs = cs }) addr pp'
AddsPage-resize pp bs cs addr pp' a = record {
  inv = a.inv;
  appended = a.appended;
  few_segs = a.few_segs;
  same_holes = a.same_holes;
}
