-- ===== src/PageServer.antt =====
-- The page server and its client (page-xfer.c): the writers of a page_xfer as messages on a socket.
pub mod Wire
pub mod Serve
pub mod Feeds
pub mod Both
pub mod Dump
use crtools.Base.{
  ℕ, zero, suc, ◌+◌, ◌-◌, ◌*◌, ◌/◌, ◌%◌, ◌^◌, Bool, true, false, not, List, [], ◌∷◌, ◌++◌, Option,
  none, some, Res, ok, err, bug, ◌>>=◌, ◌>>◌, fail_on, or_err, ltb, ◌==◌, if◌then◌else◌, min,
  page_size, length, take, drop, slice,
}
use crtools.Iov.{Iovec}
use crtools.PageXfer.{PageXfer, LocalImage}

-- `struct page_server_iov`
pub record PageServerIov : Type 0 where
  pub cmd : ℕ
  pub nr_pages : ℕ
  pub vaddr : ℕ
  pub dst_id : ℕ

abbrev pub ps_iov_add : ℕ
ps_iov_add = 1

abbrev pub ps_iov_hole : ℕ
ps_iov_hole = 2

abbrev pub ps_iov_open : ℕ
ps_iov_open = 3

abbrev pub ps_iov_flush : ℕ
ps_iov_flush = 4131

-- `n` in `k` bytes, the lowest first, and back.
abbrev pub le : (k : ℕ) → ℕ → List ℕ
le zero n = []
le (suc k) n = n % 256 ∷ le k (n / 256)

abbrev pub unle : List ℕ → ℕ
unle [] = 0
unle (b ∷ bs) = b + 256 * unle bs

-- sizeof(struct page_server_iov)
abbrev pub pi_size : ℕ
pi_size = 24

-- The structure as it is written to the socket and read from it.
unfoldable pub encode_iov : PageServerIov → List ℕ
encode_iov pi = le 4 pi.cmd ++ le 4 pi.nr_pages ++ le 8 pi.vaddr ++ le 8 pi.dst_id

unfoldable pub decode_iov : List ℕ → PageServerIov
decode_iov bs = record {
  cmd = unle (take 4 bs);
  nr_pages = unle (take 4 (drop 4 bs));
  vaddr = unle (take 8 (drop 8 bs));
  dst_id = unle (take 8 (drop 16 bs));
}

-- The identifier of an image: its type, below 256, under its number.
unfoldable pub encode_pm_id : ℕ → ℕ → ℕ
encode_pm_id type id = id * 2 ^ 8 % 2 ^ 64 + type

unfoldable pub decode_pm_type : ℕ → ℕ
decode_pm_type dst_id = dst_id % 2 ^ 8

unfoldable pub decode_pm_id : ℕ → ℕ
decode_pm_id dst_id = dst_id / 2 ^ 8

-- `cxfer`, whose `loc_xfer` writes to the image `loc`, and the images that were closed so far.
pub record PageXferJob : Type 0 where
  pub dst_id : ℕ
  pub loc : LocalImage
  pub closed : List (ℕ × LocalImage)

-- ~0
abbrev pub no_dst : ℕ
no_dst = 2 ^ 64 - 1

abbrev pub cxfer : PageXferJob
cxfer = record { dst_id = no_dst; loc = record { entries = []; file = [] }; closed = [] }

unfoldable pub page_server_close : PageXferJob → PageXferJob
page_server_close s =
    if not (s.dst_id == no_dst) then record s { closed = s.closed ++ (s.dst_id, s.loc) ∷ [] } else s

-- What a failed call leaves is not kept. `lxfer` has the writers of `loc_xfer`; `opens type id` says whether `open_page_xfer` succeeds, which
-- empties the images; `splice t n` is how much splice moves of `n` bytes of the socket if they are there, or none for
-- an error, `t` counting its calls down.
module _ (lxfer : PageXfer LocalImage) (opens : ℕ → ℕ → Bool) (pipe_size : ℕ)
    (splice : ℕ → ℕ → Option ℕ) where
  unfoldable pub page_server_open : PageServerIov → PageXferJob → Res PageXferJob
  unfolding page_server_close decode_pm_type decode_pm_id
  page_server_open pi s =
      if opens (decode_pm_type pi.dst_id) (decode_pm_id pi.dst_id)
      then ok (record (page_server_close s) {
        dst_id = pi.dst_id;
        loc = record { entries = []; file = [] };
      })
      else err

  unfoldable pub prep_loc_xfer : PageServerIov → PageXferJob → Res PageXferJob
  unfolding page_server_open
  prep_loc_xfer pi s = if not (s.dst_id == pi.dst_id) then page_server_open pi s else ok s

  -- `while (len > 0)`; without more data the source goes on for ever, which is `bug` here.
  unfoldable pub recv_pages :
      (fuel : ℕ) → (len : ℕ) → List ℕ → LocalImage → Res (List ℕ × LocalImage)
  recv_pages zero len sk img = if len == 0 then ok (sk, img) else bug
  recv_pages (suc fuel) len sk img = elim (len == 0) [
    | true ↦ ok (sk, img)
    | false ↦ do
      n ← or_err (splice fuel (min len pipe_size))
      let chunk = min n (length sk)
      (rest, img') ← lxfer.write_pages (take chunk sk) chunk img
      recv_pages fuel (len - chunk) (drop chunk sk) img'
  ]

  abbrev pub iov_of : PageServerIov → Iovec
  iov_of pi = record { iov_base = pi.vaddr; iov_len = pi.nr_pages * page_size }

  unfoldable pub page_server_add : PageServerIov → List ℕ → PageXferJob → Res (List ℕ × PageXferJob)
  unfolding prep_loc_xfer recv_pages
  page_server_add pi sk s = do
    s1 ← prep_loc_xfer pi s
    img ← lxfer.write_pagemap (iov_of pi) s1.loc
    (sk', img') ← recv_pages (pi.nr_pages * page_size) (pi.nr_pages * page_size) sk img
    ok (sk', record s1 { loc = img' })

  unfoldable pub page_server_hole : PageServerIov → PageXferJob → Res PageXferJob
  unfolding prep_loc_xfer
  page_server_hole pi s = do
    s1 ← prep_loc_xfer pi s
    img ← lxfer.write_hole (iov_of pi) s1.loc
    ok (record s1 { loc = img })

  -- The `switch` on the command: what is left in the socket, the job, and `flushed`. A flush whose answer
  -- cannot be sent sets `ret`, which the source then clears again, so that it changes nothing.
  unfoldable pub handle : PageServerIov → List ℕ → PageXferJob → Res (List ℕ × PageXferJob × Bool)
  unfolding page_server_open page_server_add page_server_hole
  handle pi sk s =
      if pi.cmd == ps_iov_open
      then (page_server_open pi s >>= λ s'. ok (sk, s', false))
      else if pi.cmd == ps_iov_add
      then (page_server_add pi sk s >>= λ r. ok (r.0, r.1, false))
      else if pi.cmd == ps_iov_hole
      then (page_server_hole pi s >>= λ s'. ok (sk, s', false))
      else if pi.cmd == ps_iov_flush
      then ok (sk, s, true)
      else err

  -- `while (1)`, on fuel: every round reads at least one byte.
  unfoldable pub serve_loop : (fuel : ℕ) → (flushed : Bool) → List ℕ → PageXferJob → Res PageXferJob
  unfolding handle decode_iov page_server_close
  serve_loop zero flushed sk s = bug
  serve_loop (suc fuel) flushed [] s = if flushed then ok (page_server_close s) else err
  serve_loop (suc fuel) flushed (b ∷ sk) s = elim (ltb (length (b ∷ sk)) pi_size) [
    | true ↦ err
    | false ↦
        handle (decode_iov (b ∷ sk)) (drop pi_size (b ∷ sk)) s >>= λ r. serve_loop fuel r.2 r.0 r.1
  ]

  -- `piped` tells whether pipe(2) gives the server its pipe.
  unfoldable pub page_server_serve : (piped : Bool) → List ℕ → Res PageXferJob
  unfolding serve_loop
  page_server_serve false sk = err
  page_server_serve true sk = serve_loop (suc (length sk)) false sk cxfer

-- The client's writers, over what was sent to the socket so far; `sends` says whether it can still be
-- written to.
module _ (dst_id : ℕ) (sends : List ℕ → Bool) where
  unfoldable pub send_iov : ℕ → Iovec → List ℕ → Res (List ℕ)
  unfolding encode_iov
  send_iov cmd iov sent =
      if sends sent
      then ok (
          sent
          ++ encode_iov (record {
            cmd = cmd;
            nr_pages = iov.iov_len / page_size % 2 ^ 32;
            vaddr = iov.iov_base;
            dst_id = dst_id;
          }))
      else err

  unfoldable pub write_pagemap_to_server : Iovec → List ℕ → Res (List ℕ)
  unfolding send_iov
  write_pagemap_to_server iov sent = send_iov ps_iov_add iov sent

  unfoldable pub write_pages_to_server : List ℕ → ℕ → List ℕ → Res (List ℕ × List ℕ)
  write_pages_to_server pipe len sent =
      if ltb (length pipe) len
      then err
      else if sends sent
      then ok (drop len pipe, sent ++ take len pipe)
      else err

  unfoldable pub write_hole_to_server : Iovec → List ℕ → Res (List ℕ)
  unfolding send_iov
  write_hole_to_server iov sent = send_iov ps_iov_hole iov sent

  abbrev pub page_server_xfer : PageXfer (List ℕ)
  page_server_xfer = record {
    write_pagemap = write_pagemap_to_server;
    write_pages = write_pages_to_server;
    write_hole = write_hole_to_server;
  }

  -- `open_page_server_xfer` sends the open message.
  unfoldable pub open_page_server_xfer : List ℕ → Res (List ℕ)
  unfolding send_iov
  open_page_server_xfer sent = send_iov ps_iov_open (record { iov_base = 0; iov_len = 0 }) sent

-- The message of `disconnect_from_page_server`.
unfoldable pub flush_message : List ℕ
unfolding encode_iov
flush_message = encode_iov (record { cmd = ps_iov_flush; nr_pages = 0; vaddr = 0; dst_id = 0 })
