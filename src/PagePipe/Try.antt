-- ===== src/PagePipe/Try.antt =====
-- try_add_page of page-pipe.c, branch by branch.
use crtools.Base.{
  ℕ, ◌+◌, ◌-◌, ◌*◌, ◌/◌, ◌%◌, ◌^◌, ◌≤◌, ◌<◌, ◌≡◌, refl, sym, ap, subst, inl, inr, Bool, ◌&&◌, List,
  [], ◌∷◌, Option, none, some, Res, ok, bug, Bool-cases, Option-cases, ltb, ◌==◌, arith, page_size,
  add32, length, get_or,
}
use crtools.Iov.{Iovec, iov_end}
use crtools.PagePipe.{
  PagePipe, PagePipeBuf, uio_maxiov, last_seg, Kernel, IsDocumented, Added, added, need_buf,
  grow_pipe, add_to_buf, try_add_page_to, try_add_page,
}
use crtools.PagePipe.Inv.{IsCounted, Inv, contents}
use crtools.PagePipe.Buf.{
  AddsPage, HasRoom, both, not_most, below, left_over, nothing_left, extended, extended-AddsPage,
  with_segment, with_segment-AddsPage, AddsPage-resize,
}

module _ (k : Kernel) (doc : IsDocumented k) where
  -- Where the pipe is full it is made larger, or the caller is told to add a buffer.
  pub data Grown (b : PagePipeBuf) (r : Res (Option PagePipeBuf)) : Type 0 where
    stuck : r ≡ ok none → Grown b r
    grown :
        (s : ℕ)
        → b.pages_in < s
        → b.pipe_size ≤ s
        → s < 2 ^ 31
        → r ≡ ok (some (record b { pipe_size = s }))
        → Grown b r

  grow_pipe_full :
      (n : ℕ) (b : PagePipeBuf)
      → 0 < b.pipe_size
      → b.pages_in ≡ b.pipe_size
      → b.pipe_size < 2 ^ 31
      → Grown b (grow_pipe k n b)
  unfolding grow_pipe
  grow_pipe_full n b h e s = elim (Option-cases (k.set_pipe_sz n want)) [
    | inl no_size ↦ stuck (ground (arith, no_size))
    | inr (ret, some_size) ↦
        let asked : want ≤ ret = doc.sets_size n want ret some_size in
        let int : ret < 2 ^ 31 = doc.set_int n want ret some_size in
        grown (ret / page_size) (omega arith) (omega arith) (omega arith)
          (ground (arith, some_size))
  ]
    where
      want : ℕ
      want = b.pipe_size * page_size * 2 % 2 ^ 64

  pub grow_pipe-Grown :
      (n : ℕ) (b : PagePipeBuf) (iovs : List Iovec) → IsCounted iovs b → Grown b (grow_pipe k n b)
  unfolding grow_pipe
  grow_pipe-Grown n b iovs c = elim (Bool-cases (b.pages_in == b.pipe_size)) [
    | inl full ↦ grow_pipe_full n b c.holds (ground arith) c.small
    | inr free ↦
        grown b.pipe_size (below b.pages_in b.pipe_size c.fits free) (omega arith) c.small
          (rw (free, grow_pipe))
  ]

  -- The three ways in which `try_add_page` ends.
  pub data Tried (pp : PagePipe) (addr : ℕ) (r : Res (Added × PagePipe)) : Type 0 where
    done :
        (pp' : PagePipe)
        → r ≡ ok (added, pp')
        → AddsPage pp addr pp'
        → pp'.nr_iovs ≡ pp.nr_iovs
        → Tried pp addr r
    full :
        (pp' : PagePipe)
        → r ≡ ok (need_buf, pp')
        → Inv pp'
        → contents pp' ≡ contents pp
        → (pp'.free_iov ≡ pp.free_iov)
          × (pp'.nr_iovs ≡ pp.nr_iovs)
          × (pp'.holes ≡ pp.holes)
          × (pp'.free_hole ≡ pp.free_hole)
          × (pp'.nr_holes ≡ pp.nr_holes)
        → Tried pp addr r
    over : r ≡ bug → pp.free_iov ≡ pp.nr_iovs → Tried pp addr r

  add_to_buf-Tried :
      (pp : PagePipe) (b : PagePipeBuf) (rest : List PagePipeBuf) (addr : ℕ)
      → Inv (record pp { bufs = b ∷ rest })
      → HasRoom b
      → addr + page_size < 2 ^ 64
      → Tried (record pp { bufs = b ∷ rest }) addr (add_to_buf k pp b rest addr)
  unfolding add_to_buf extended with_segment
  add_to_buf-Tried pp b rest addr v has_room low = elim (Bool-cases joins) [
    | inl j ↦
        done (extended pp b rest addr k.fresh v has_room low) (rw (j, add_to_buf))
          (extended-AddsPage pp b rest addr k.fresh v has_room low (both _ _ _ j).0
            (both _ _ _ j).1)
          refl
    | inr apart ↦ elim (Bool-cases (ltb 0 b.nr_segs && (b.nr_segs == uio_maxiov))) [
      | inl most ↦
          full (record pp { bufs = b ∷ rest }) (rw (apart, most, add_to_buf)) v refl
            (refl, refl, refl, refl, refl)
      | inr fewer ↦ elim (Bool-cases (ltb pp.nr_iovs (add32 pp.free_iov 1))) [
        | inl none_left ↦
            over (rw (apart, fewer, none_left, add_to_buf))
              (nothing_left pp.free_iov pp.nr_iovs v.word v.used none_left)
        | inr left ↦
            done (with_segment pp b rest addr k.fresh v has_room low)
              (rw (apart, fewer, left, add_to_buf))
              (with_segment-AddsPage pp b rest addr k.fresh v has_room low
                (left_over pp.free_iov pp.nr_iovs v.word v.used left)
                (not_most b.nr_segs uio_maxiov (omega arith) v.chain.1.segs fewer))
              refl
      ]
    ]
  ]
    where
      joins : Bool
      joins = ltb 0 b.nr_segs && (iov_end (get_or pp.iovs (last_seg b) k.fresh) == addr)

  pub add_page_to-Tried :
      (pp : PagePipe) (b : PagePipeBuf) (rest : List PagePipeBuf) (addr : ℕ)
      → Inv (record pp { bufs = b ∷ rest })
      → addr + page_size < 2 ^ 64
      → Tried
          (record pp { bufs = b ∷ rest })
          addr
          (try_add_page_to k (record pp { bufs = b ∷ rest }) b rest addr)
  unfolding try_add_page_to
  add_page_to-Tried pp b rest addr v low =
      elim (grow_pipe-Grown (pp.nr_pipes - 1) b pp.iovs v.chain.1) [
        | stuck e ↦
            full (record pp { bufs = b ∷ rest }) (rw e) v refl (refl, refl, refl, refl, refl)
        | grown s more bigger small e ↦ larger s more bigger small e
      ]
    where
      larger :
          (s : ℕ)
          → b.pages_in < s
          → b.pipe_size ≤ s
          → s < 2 ^ 31
          → grow_pipe k (pp.nr_pipes - 1) b ≡ ok (some (record b { pipe_size = s }))
          → Tried
              (record pp { bufs = b ∷ rest })
              addr
              (try_add_page_to k (record pp { bufs = b ∷ rest }) b rest addr)
      larger s more bigger small e =
          elim (add_to_buf-Tried pp (record b { pipe_size = s }) rest addr resized more low) [
            | done pp' q a m ↦
                done pp' (rw (e, q))
                  (AddsPage-resize pp (record b { pipe_size = s } ∷ rest) (b ∷ rest) addr pp' a) m
            | full pp' q i c same ↦ full pp' (rw (e, q)) i c same
            | over q m ↦ over (rw (e, q)) m
          ]
        where
          resized : Inv (record pp { bufs = record b { pipe_size = s } ∷ rest })
          resized = record {
            started = v.started;
            room = v.room;
            word = v.word;
            used = v.used;
            chain = (
              v.chain.0,
              record {
                segs = v.chain.1.segs;
                holds = omega arith;
                fits = omega arith;
                small = small;
                counted = v.chain.1.counted;
              },
              v.chain.2,
            );
            paged = v.paged;
          }

  pub try_add_page-Tried :
      (pp : PagePipe) (addr : ℕ)
      → Inv pp
      → addr + page_size < 2 ^ 64
      → Tried pp addr (try_add_page k pp addr)
  unfolding try_add_page
  try_add_page-Tried pp addr v low = split pp.bufs refl
    where
      split : (bs : List PagePipeBuf) → pp.bufs ≡ bs → Tried pp addr (try_add_page k pp addr)
      split [] e = absurd (omega (arith, v.started, ap length e))
      split (b ∷ rest) e =
          let same : pp ≡ record pp { bufs = b ∷ rest } = λ i. record pp { bufs = e i } in
          subst (λ q. Tried q addr (try_add_page k q addr)) (sym same)
            (add_page_to-Tried pp b rest addr (subst Inv same v) low)
