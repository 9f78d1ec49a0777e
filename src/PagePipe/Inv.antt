-- ===== src/PagePipe/Inv.antt =====
-- The invariant of `struct page_pipe` (page-pipe.c): the buffers cut the used part of the shared
-- array into consecutive parts, and count the pages of theirs.
use crtools.Base.{
  ℕ, suc, ◌+◌, ◌^◌, ◌≤◌, ◌<◌, ◌≡◌, ap, ◌∙◌, List, [], ◌∷◌, ◌++◌, arith, page_size, length,
  length-append, get_or, set, take, drop, slice, All, take-suc, take-set_next, drop-set,
  get_or-drop, length-drop, slice-set_behind, append_assoc, append-nil,
}
use crtools.Iov.{Iovec, IsPaged, iov_end, one_page, extend, pages, pages-append, pages-extend}
use crtools.PagePipe.{PagePipe, PagePipeBuf, uio_maxiov}

-- The pages that a buffer's part of the array stands for.
abbrev pub buf_pages : List Iovec → PagePipeBuf → List ℕ
buf_pages iovs b = pages (slice iovs b.iov b.nr_segs)

-- A buffer sends at most UIO_MAXIOV segments at once, holds no more pages than its pipe takes, and
-- its count of pages is that of its segments.
pub record IsCounted (iovs : List Iovec) (b : PagePipeBuf) : Type 0 where
  pub segs : b.nr_segs ≤ uio_maxiov
  pub holds : 0 < b.pipe_size
  pub fits : b.pages_in ≤ b.pipe_size
  pub small : b.pipe_size < 2 ^ 31
  pub counted : length (buf_pages iovs b) ≡ b.pages_in

-- The buffers, the last one first, own consecutive parts that end at `e`.
abbrev pub Chain : List Iovec → List PagePipeBuf → ℕ → Type 0
Chain iovs [] e = e ≡ 0
Chain iovs (b ∷ bs) e = (b.iov + b.nr_segs ≡ e) × IsCounted iovs b × Chain iovs bs b.iov

pub record Inv (pp : PagePipe) : Type 0 where
  pub started : 0 < length pp.bufs
  pub room : pp.nr_iovs ≤ length pp.iovs
  pub word : pp.nr_iovs + 1 < 2 ^ 32
  pub used : pp.free_iov ≤ pp.nr_iovs
  pub chain : Chain pp.iovs pp.bufs pp.free_iov
  pub paged : All IsPaged (take pp.free_iov pp.iovs)

-- The addresses of the pages that were added, in the order in which the pipes are drained.
abbrev pub contents : PagePipe → List ℕ
contents pp = pages (take pp.free_iov pp.iovs)

-- Writing one page into the next free element adds its address.
pub pages-set_page :
    (xs : List Iovec) (n a : ℕ)
    → n < length xs
    → pages (take (suc n) (set xs n (one_page a))) ≡ pages (take n xs) ++ a ∷ []
pages-set_page xs n a h =
    rw (take-set_next xs n (one_page a) h) (pages-append (take n xs) (one_page a ∷ []))

-- Extending the last element adds the address at its end.
pub pages-set-extend :
    (xs : List Iovec) (n : ℕ) (d : Iovec)
    → n < length xs
    → IsPaged (get_or xs n d)
    → iov_end (get_or xs n d) + page_size < 2 ^ 64
    → pages (take (suc n) (set xs n (extend (get_or xs n d))))
      ≡ pages (take (suc n) xs) ++ iov_end (get_or xs n d) ∷ []
pages-set-extend xs n d h v r =
    rw (take-set_next xs n (extend x) h, take-suc xs n d h)
      (simp (pages-append, append-nil, append_assoc)
        (ap (◌++◌ (pages (take n xs))) (pages-extend x v r)))
  where
    x : Iovec
    x = get_or xs n d

-- A write behind the part of a buffer leaves the buffer, and those before it, alone.
pub Chain-set :
    (iovs : List Iovec) (bs : List PagePipeBuf) (e i : ℕ) (v : Iovec)
    → e ≤ i
    → Chain iovs bs e
    → Chain (set iovs i v) bs e
Chain-set iovs [] e i v h c = c
Chain-set iovs (b ∷ bs) e i v h c = (
  c.0,
  record {
    segs = c.1.segs;
    holds = c.1.holds;
    fits = c.1.fits;
    small = c.1.small;
    counted =
        ap (λ l. length (pages l)) (slice-set_behind iovs b.iov b.nr_segs i v (omega arith))
        ∙ c.1.counted;
  },
  Chain-set iovs bs b.iov i v (omega arith) c.2,
)

-- A page in a new segment of the last buffer.
pub IsCounted-set_page :
    (iovs : List Iovec) (b : PagePipeBuf) (addr : ℕ)
    → IsCounted iovs b
    → b.iov + b.nr_segs < length iovs
    → b.pages_in < b.pipe_size
    → b.nr_segs < uio_maxiov
    → IsCounted
        (set iovs (b.iov + b.nr_segs) (one_page addr))
        (record b { nr_segs = suc b.nr_segs; pages_in = suc b.pages_in })
IsCounted-set_page iovs b addr c h f s = record {
  segs = s;
  holds = c.holds;
  fits = f;
  small = c.small;
  counted =
      ap length grown ∙ length-append (buf_pages iovs b) (addr ∷ []) ∙ omega (arith, c.counted);
}
  where
    grown :
        pages (slice (set iovs (b.iov + b.nr_segs) (one_page addr)) b.iov (suc b.nr_segs))
        ≡ buf_pages iovs b ++ addr ∷ []
    grown =
        rw (drop-set iovs b.iov b.nr_segs (one_page addr))
          (pages-set_page (drop b.iov iovs) b.nr_segs addr (omega (arith, length-drop b.iov iovs)))

-- A page at the end of the last segment, which is the one at `n`.
pub IsCounted-set-extend :
    (iovs : List Iovec) (b : PagePipeBuf) (n : ℕ) (d : Iovec)
    → IsCounted iovs b
    → b.nr_segs ≡ suc n
    → b.iov + n < length iovs
    → b.pages_in < b.pipe_size
    → IsPaged (get_or iovs (b.iov + n) d)
    → iov_end (get_or iovs (b.iov + n) d) + page_size < 2 ^ 64
    → IsCounted
        (set iovs (b.iov + n) (extend (get_or iovs (b.iov + n) d)))
        (record b { pages_in = suc b.pages_in })
IsCounted-set-extend iovs b n d c e h f v r = record {
  segs = c.segs;
  holds = c.holds;
  fits = f;
  small = c.small;
  counted =
      ap length grown
      ∙ length-append (buf_pages iovs b) (iov_end x ∷ [])
      ∙ omega (arith, c.counted);
}
  where
    x : Iovec
    x = get_or iovs (b.iov + n) d

    same : get_or (drop b.iov iovs) n d ≡ x
    same = get_or-drop iovs b.iov n d

    grown :
        pages (slice (set iovs (b.iov + n) (extend x)) b.iov b.nr_segs)
        ≡ buf_pages iovs b ++ iov_end x ∷ []
    grown =
        rw (e, drop-set iovs b.iov n (extend x), ← same)
          (pages-set-extend (drop b.iov iovs) n d (omega (arith, length-drop b.iov iovs))
            (rw same v) (rw same r))
