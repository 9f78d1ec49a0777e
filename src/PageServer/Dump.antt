-- ===== src/PageServer/Dump.antt =====
-- A dump through the page server against a dump into local images (page-xfer.c).
use crtools.Base.{ℕ, ◌^◌, ◌<◌, ◌≡◌, refl, Bool, true, List, [], Option, none, Res, ok}
use crtools.PagePipe.{PagePipe}
use crtools.PageXfer.{PageXfer, LocalImage, page_local_xfer}
use crtools.PageServer.{
  PageServerIov, PageXferJob, ps_iov_open, ps_iov_flush, handle, page_server_xfer,
}
use crtools.PageServer.Serve.{Moves, job, served}
use crtools.PageServer.Feeds.{Feeds}

module _ (room : LocalImage → Bool) (roomy : (img : LocalImage) → room img ≡ true)
    (opens : ℕ → ℕ → Bool) (pipe_size : ℕ) (splice : ℕ → ℕ → Option ℕ) (some_pipe : 0 < pipe_size)
    (moves : Moves splice) (dst : ℕ) (small : dst < 2 ^ 64) (sends : List ℕ → Bool)
    (all_sent : (sent : List ℕ) → sends sent ≡ true) where
  abbrev lx : PageXfer LocalImage
  lx = page_local_xfer none room

  abbrev sx : PageXfer (List ℕ)
  sx = page_server_xfer dst sends

  abbrev serve : ℕ → Bool → List ℕ → LocalImage → Res PageXferJob
  serve fuel flushed sk img =
      served room roomy opens pipe_size splice some_pipe moves fuel flushed sk (job dst [] img)

  abbrev empty : LocalImage
  empty = record { entries = []; file = [] }

  abbrev open_message : PageServerIov
  open_message = record { cmd = ps_iov_open; nr_pages = 0; vaddr = 0; dst_id = dst }

  flushed :
      (rest : List ℕ) (s : PageXferJob)
      → handle lx opens pipe_size splice
          (record { cmd = ps_iov_flush; nr_pages = 0; vaddr = 0; dst_id = 0 })
          rest
          s
        ≡ ok (rest, s, true)
  unfolding handle
  flushed rest s = refl
