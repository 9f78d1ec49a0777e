-- ===== src/PageServer/Serve.antt =====
-- What the page server does with each message (page_server_serve of page-xfer.c).
use crtools.Base.{
  ℕ, zero, suc, ◌+◌, ◌-◌, ◌*◌, ◌/◌, ◌%◌, ◌^◌, ◌≤◌, ◌<◌, ◌≡◌, sym, ap, ap₂, subst, ◌∙◌, Bool, true,
  false, List, [], ◌∷◌, ◌++◌, Option, none, some, Res, ok, ◌>>=◌, Bool-cases, inl, inr, ltb, ◌==◌,
  ==_iff, min, page_size, length, length-append, length-take, length-drop, take, drop, take-add,
  drop-drop, take_whole, take-length_append, drop-length_append, append_assoc, append-nil, arith,
}
use crtools.Iov.{Iovec}
use crtools.PageXfer.{PageXfer, LocalImage, entry_of, page_local_xfer}
use crtools.PageXfer.Local.{with_entry, hole_written, segment_written, pages_written}
use crtools.PageServer.{
  PageServerIov, PageXferJob, pi_size, ps_iov_add, ps_iov_hole, encode_iov, decode_iov,
  prep_loc_xfer, recv_pages, page_server_add, page_server_hole, handle, serve_loop,
}
use crtools.PageServer.Wire.{IsIov, drop-encode_iov, decode_iov-encode_iov}

-- splice moves at least one of the bytes that are there, and no more than it was asked for.
abbrev pub Moves : (ℕ → ℕ → Option ℕ) → Type 0
Moves splice = (t n : ℕ) → 0 < n → (m : ℕ) × (splice t n ≡ some m) × (0 < m) × (m ≤ n)

-- A whole number of pages that the message can tell.
pub record IsSent (iov : Iovec) : Type 0 where
  pub base : iov.iov_base < 2 ^ 64
  pub few : iov.iov_len / page_size < 2 ^ 32
  pub whole : iov.iov_len / page_size * page_size ≡ iov.iov_len

-- The message for an iovec.
abbrev pub message : ℕ → ℕ → Iovec → PageServerIov
message dst cmd iov = record {
  cmd = cmd;
  nr_pages = iov.iov_len / page_size % 2 ^ 32;
  vaddr = iov.iov_base;
  dst_id = dst;
}

iov_of-message :
    (dst cmd : ℕ) (iov : Iovec)
    → IsSent iov
    → (message dst cmd iov).nr_pages * page_size ≡ iov.iov_len
iov_of-message dst cmd iov v = let f = v.few in let w = v.whole in omega (arith, f, w)

pub message-IsIov :
    (dst cmd : ℕ) (iov : Iovec)
    → dst < 2 ^ 64
    → cmd < 2 ^ 32
    → IsSent iov
    → IsIov (message dst cmd iov)
message-IsIov dst cmd iov d c v = record {
  cmd = c;
  nr_pages = omega arith;
  vaddr = v.base;
  dst_id = d;
}

-- The job with the image `img` open.
abbrev pub job : ℕ → List (ℕ × LocalImage) → LocalImage → PageXferJob
job dst closed img = record { dst_id = dst; loc = img; closed = closed }

abbrev pub with_bytes : LocalImage → List ℕ → LocalImage
with_bytes img bytes = record img { file = img.file ++ bytes }

module _ (room : LocalImage → Bool) (roomy : (img : LocalImage) → room img ≡ true)
    (opens : ℕ → ℕ → Bool) (pipe_size : ℕ) (splice : ℕ → ℕ → Option ℕ) (some_pipe : 0 < pipe_size)
    (moves : Moves splice) where
  -- What `recv_pages` leaves if it moves `bytes`.
  abbrev left : List ℕ → LocalImage → List ℕ → Res (List ℕ × LocalImage)
  left sk img bytes = ok (sk, with_bytes img bytes)

  nothing : (sk : List ℕ) (img : LocalImage) → ok (sk, img) ≡ left sk img []
  nothing sk img = ap (λ f. ok (sk, record img { file = f })) (sym (append-nil img.file))

  joined :
      (n m len : ℕ) (sk : List ℕ) (img : LocalImage)
      → n + m ≡ len
      → left (drop m (drop n sk)) (with_bytes img (take n sk)) (take m (drop n sk))
        ≡ left (drop len sk) img (take len sk)
  joined n m len sk img e =
      subst
        (λ k.
          left (drop m (drop n sk)) (with_bytes img (take n sk)) (take m (drop n sk))
          ≡ left (drop k sk) img (take k sk))
        e
        (ap₂ (λ rest f. ok (rest, record img { file = f })) (drop-drop sk n m)
          (append_assoc img.file (take n sk) (take m (drop n sk))
            ∙ ap (◌++◌ img.file) (sym (take-add n m sk))))

  recv_pages-all :
      (fuel len : ℕ) (sk : List ℕ) (img : LocalImage)
      → len ≤ fuel
      → len ≤ length sk
      → recv_pages (page_local_xfer none room) opens pipe_size splice fuel len sk img
        ≡ left (drop len sk) img (take len sk)
  unfolding recv_pages
  recv_pages-all zero len sk img h l = let z : len ≡ 0 = omega arith in rw z (nothing sk img)
  recv_pages-all (suc fuel) len sk img h l = elim (Bool-cases (len == 0)) [
    | inl e ↦ let z : len ≡ 0 = (==_iff len 0).0 e in rw z (nothing sk img)
    | inr e ↦
        let (n, moved, pos, most) = moves fuel (min len pipe_size) (ground arith) in
        let chunk : min n (length sk) ≡ n = omega (arith, most, l) in
        let size : length (take n sk) ≡ n = omega (arith, length-take n sk, chunk) in
        let write =
          pages_written room roomy (take n sk) n img (omega (arith, size))
          ∙ ap (λ bs. ok (drop n (take n sk), with_bytes img bs))
              (take_whole (take n sk) n (sym size)) in
        let ih =
          recv_pages-all fuel (len - n) (drop n sk) (with_bytes img (take n sk))
            (omega (arith, h, pos)) (omega (arith, length-drop n sk, l)) in
        let parts : n + (len - n) ≡ len = omega (arith, most) in
        rw (recv_pages, e, moved, chunk, write) (ih ∙ joined n (len - n) len sk img parts)
  ]

  abbrev lx : PageXfer LocalImage
  lx = page_local_xfer none room

  abbrev pub served : ℕ → Bool → List ℕ → PageXferJob → Res PageXferJob
  served fuel flushed sk s = serve_loop lx opens pipe_size splice fuel flushed sk s

  serve_cons :
      (fuel : ℕ) (flushed : Bool) (b : ℕ) (sk : List ℕ) (s : PageXferJob)
      → ltb (length (b ∷ sk)) pi_size ≡ false
      → served (suc fuel) flushed (b ∷ sk) s ≡ (
          handle lx opens pipe_size splice (decode_iov (b ∷ sk)) (drop pi_size (b ∷ sk)) s >>= λ r.
          served fuel r.2 r.0 r.1)
  unfolding serve_loop
  serve_cons fuel flushed b sk s h = rw (serve_loop, h)

  -- One round on a message that is there.
  pub serve_message :
      (fuel : ℕ) (flushed : Bool) (pi : PageServerIov) (rest : List ℕ) (s : PageXferJob)
      → IsIov pi
      → served (suc fuel) flushed (encode_iov pi ++ rest) s
        ≡ (handle lx opens pipe_size splice pi rest s >>= λ r. served fuel r.2 r.0 r.1)
  unfolding encode_iov
  serve_message fuel flushed pi rest s v =
      serve_cons fuel flushed _ _ s (ground arith)
      ∙ ap₂ (λ p l. handle lx opens pipe_size splice p l s >>= λ r. served fuel r.2 r.0 r.1)
          (decode_iov-encode_iov pi rest v) (drop-encode_iov pi rest)

  pub handle_hole :
      (dst : ℕ) (closed : List (ℕ × LocalImage)) (img : LocalImage) (iov : Iovec) (rest : List ℕ)
      → IsSent iov
      → handle lx opens pipe_size splice (message dst ps_iov_hole iov) rest (job dst closed img)
        ≡ ok (rest, job dst closed (with_entry img (entry_of true iov)), false)
  unfolding handle page_server_hole prep_loc_xfer
  handle_hole dst closed img iov rest v =
      let own : (dst == dst) ≡ true = ground arith in
      rw (own, iov_of-message dst ps_iov_hole iov v, hole_written room roomy iov img)

  pub handle_add :
      (dst : ℕ) (closed : List (ℕ × LocalImage)) (img : LocalImage) (iov : Iovec)
      (bytes rest : List ℕ)
      → IsSent iov
      → length bytes ≡ iov.iov_len
      → handle lx opens pipe_size splice
          (message dst ps_iov_add iov)
          (bytes ++ rest)
          (job dst closed img)
        ≡ ok (rest, job dst closed (with_bytes (with_entry img (entry_of false iov)) bytes), false)
  unfolding handle page_server_add prep_loc_xfer
  handle_add dst closed img iov bytes rest v e =
      let own : (dst == dst) ≡ true = ground arith in
      rw (
        own,
        iov_of-message dst ps_iov_add iov v,
        segment_written room roomy iov img,
        recv_pages-all iov.iov_len iov.iov_len (bytes ++ rest) (with_entry img (entry_of false iov))
            (omega arith) (omega (arith, e, length-append bytes rest)),
        take-length_append bytes rest iov.iov_len (sym e),
        drop-length_append bytes rest iov.iov_len (sym e),
      )
