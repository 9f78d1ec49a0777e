-- ===== src/PagePipe.antt =====
-- page-pipe.c: the pages of a task that are to be dumped, collected into pipes. `iovs` is one array
-- that the caller provides; each pipe buffer owns the part of it that begins at its index `iov`.
pub mod Inv
pub mod Buf
pub mod Try
pub mod Add
pub mod Holes
pub mod Create
use crtools.Base.{
  not, fail_on, ℕ, ◌+◌, ◌-◌, ◌*◌, ◌/◌, ◌%◌, ◌^◌, ◌≤◌, ◌<◌, ◌≡◌, Bool, true, false, ◌&&◌, List, [],
  ◌∷◌, ◌++◌, Option, none, some, ltb, leb, ◌==◌, if◌then◌else◌, Res, ok, err, bug, ◌>>=◌, ◌>>◌,
  bug_on, or_err, add32, page_size, get_or, set, replicate,
}
use crtools.Iov.{Iovec, iov_end, one_page, extend}

-- `struct page_pipe_buf`. The pipe itself is known by its number in the order of creation.
pub record PagePipeBuf : Type 0 where
  pub pipe_size : ℕ
  pub pages_in : ℕ
  pub nr_segs : ℕ
  pub iov : ℕ

-- `struct page_pipe`. `bufs` is read from `bufs.prev` back, so its head is the buffer added last;
-- `holes` holds what `xrealloc` allocated.
pub record PagePipe : Type 0 where
  pub nr_pipes : ℕ
  pub bufs : List PagePipeBuf
  pub nr_iovs : ℕ
  pub free_iov : ℕ
  pub iovs : List Iovec
  pub nr_holes : ℕ
  pub free_hole : ℕ
  pub holes : List Iovec

-- UIO_MAXIOV
abbrev pub uio_maxiov : ℕ
uio_maxiov = 1024

-- PP_HOLES_BATCH
abbrev pub pp_holes_batch : ℕ
pp_holes_batch = 32

-- The calls into the C library and the kernel. `new_page_pipe` tells whether `xmalloc` gives a page
-- pipe. `new_pipe n` is what `xmalloc`, `pipe` and F_GETPIPE_SZ give for the pipe numbered `n`: its
-- size in bytes, or `none` where one of the first two fails. `set_pipe_sz n want` is what F_SETPIPE_SZ
-- returns for it (`none` if negative). `grow_holes n` says whether `xrealloc` to `n` holes succeeds,
-- and `fresh` is what stands in memory that it has just given.
pub record Kernel : Type 0 where
  pub new_page_pipe : Bool
  pub new_pipe : ℕ → Option ℕ
  pub set_pipe_sz : ℕ → ℕ → Option ℕ
  pub grow_holes : ℕ → Bool
  pub fresh : Iovec

-- What fcntl(2) says of the two calls: a pipe holds at least a page, F_SETPIPE_SZ sets at least the
-- size that it is asked for, and both return an `int`.
pub record IsDocumented (k : Kernel) : Type 0 where
  pub holds_page : (n size : ℕ) → k.new_pipe n ≡ some size → page_size ≤ size
  pub sets_size : (n want size : ℕ) → k.set_pipe_sz n want ≡ some size → want ≤ size
  pub new_int : (n size : ℕ) → k.new_pipe n ≡ some size → size < 2 ^ 31
  pub set_int : (n want size : ℕ) → k.set_pipe_sz n want ≡ some size → size < 2 ^ 31

-- The index in `iovs` of the last segment of a buffer.
abbrev pub last_seg : PagePipeBuf → ℕ
last_seg ppb = ppb.iov + (ppb.nr_segs - 1)

-- The 0 and the 1 that `try_add_page` returns.
pub data Added : Type 0 where
  added need_buf : Added

module _ (k : Kernel) where
  pub page_pipe_grow : PagePipe → Res PagePipe
  page_pipe_grow pp = do
    size ← or_err (k.new_pipe pp.nr_pipes)
    ok (record pp {
      bufs =
          record { pipe_size = size / page_size; pages_in = 0; nr_segs = 0; iov = pp.free_iov }
          ∷ pp.bufs;
      nr_pipes = add32 pp.nr_pipes 1;
    })

  -- The array `iovs` is the caller's.
  pub create_page_pipe : ℕ → List Iovec → Res PagePipe
  create_page_pipe nr_segs iovs =
      fail_on (not k.new_page_pipe)
      >> page_pipe_grow (record {
        nr_pipes = 0;
        bufs = [];
        nr_iovs = nr_segs;
        free_iov = 0;
        iovs = iovs;
        nr_holes = 0;
        free_hole = 0;
        holes = [];
      })

  -- The first test of `try_add_page_to`: a full pipe is made larger. `none` is `return 1`.
  pub grow_pipe : ℕ → PagePipeBuf → Res (Option PagePipeBuf)
  grow_pipe n ppb =
      if ppb.pages_in == ppb.pipe_size
      then elim (k.set_pipe_sz n (ppb.pipe_size * page_size * 2 % 2 ^ 64)) [
        | none ↦ ok none
        | some ret ↦ do
          bug_on (ltb (ret / page_size) ppb.pipe_size)
          ok (some (record ppb { pipe_size = ret / page_size }))
      ]
      else ok (some ppb)

  -- The rest of `try_add_page_to`, on a buffer whose pipe has room; `rest` are the other buffers.
  pub add_to_buf : PagePipe → PagePipeBuf → List PagePipeBuf → ℕ → Res (Added × PagePipe)
  add_to_buf pp ppb rest addr =
      if ltb 0 ppb.nr_segs && (iov_end (get_or pp.iovs (last_seg ppb) k.fresh) == addr)
      then ok (
        added,
        record pp {
          iovs = set pp.iovs (last_seg ppb) (extend (get_or pp.iovs (last_seg ppb) k.fresh));
          bufs = record ppb { pages_in = add32 ppb.pages_in 1 } ∷ rest;
        },
      )
      else (if ltb 0 ppb.nr_segs && (ppb.nr_segs == uio_maxiov)
          then ok (need_buf, record pp { bufs = ppb ∷ rest })
          else (do
            bug_on (ltb pp.nr_iovs (add32 pp.free_iov 1))
            ok (
              added,
              record pp {
                iovs = set pp.iovs (ppb.iov + ppb.nr_segs) (one_page addr);
                free_iov = add32 pp.free_iov 1;
                bufs =
                    record ppb { nr_segs = add32 ppb.nr_segs 1; pages_in = add32 ppb.pages_in 1 }
                    ∷ rest;
              },
            )))

  pub try_add_page_to : PagePipe → PagePipeBuf → List PagePipeBuf → ℕ → Res (Added × PagePipe)
  unfolding grow_pipe add_to_buf
  try_add_page_to pp ppb rest addr = do
    grown ← grow_pipe (pp.nr_pipes - 1) ppb
    elim grown [ none ↦ ok (need_buf, pp) | some ppb' ↦ add_to_buf pp ppb' rest addr ]

  try_add_last : PagePipe → List PagePipeBuf → ℕ → Res (Added × PagePipe)
  try_add_last pp [] addr = bug
  try_add_last pp (ppb ∷ rest) addr = try_add_page_to pp ppb rest addr

  pub try_add_page : PagePipe → ℕ → Res (Added × PagePipe)
  unfolding try_add_last
  try_add_page pp addr = try_add_last pp pp.bufs addr

  pub page_pipe_add_page : PagePipe → ℕ → Res PagePipe
  page_pipe_add_page pp addr = do
    (first, pp1) ← try_add_page pp addr
    elim first [
      | added ↦ ok pp1
      | need_buf ↦ do
        pp2 ← page_pipe_grow pp1
        (second, pp3) ← try_add_page pp2 addr
        bug_on (elim second [ added ↦ false | need_buf ↦ true ])
        ok pp3
    ]

  pub add_hole_to : PagePipe → ℕ → PagePipe
  add_hole_to pp addr =
      if ltb 0 pp.free_hole && (iov_end (get_or pp.holes (pp.free_hole - 1) k.fresh) == addr)
      then record pp {
        holes =
            set pp.holes (pp.free_hole - 1) (extend (get_or pp.holes (pp.free_hole - 1) k.fresh));
      }
      else record pp {
        holes = set pp.holes pp.free_hole (one_page addr);
        free_hole = add32 pp.free_hole 1;
      }

  pub page_pipe_add_hole : PagePipe → ℕ → Res PagePipe
  unfolding add_hole_to
  page_pipe_add_hole pp addr =
      if leb pp.nr_holes pp.free_hole
      then (if k.grow_holes (add32 pp.nr_holes pp_holes_batch)
          then ok (
              add_hole_to
                (record pp {
                  holes = pp.holes ++ replicate pp_holes_batch k.fresh;
                  nr_holes = add32 pp.nr_holes pp_holes_batch;
                })
                addr)
          else err)
      else ok (add_hole_to pp addr)
