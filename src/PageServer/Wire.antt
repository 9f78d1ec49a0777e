-- ===== src/PageServer/Wire.antt =====
-- The messages between the page server and its client (struct page_server_iov of page-xfer.c).
use crtools.Base.{
  ℕ, zero, suc, ◌/◌, ◌^◌, ◌<◌, ◌≡◌, refl, sym, ap, ◌∙◌, List, ◌++◌, length, take, drop,
  take-length_append, drop-length_append, arith,
}
use crtools.PageServer.{
  PageServerIov, le, unle, pi_size, encode_iov, decode_iov, encode_pm_id, decode_pm_type,
  decode_pm_id,
}

unle-le : (k n : ℕ) → n < 256 ^ k → unle (le k n) ≡ n
unle-le zero n h = omega (arith, h)
unle-le (suc k) n h = let ih = unle-le k (n / 256) (omega (arith, h)) in omega (arith, ih)

length-le : (k n : ℕ) → length (le k n) ≡ k
length-le zero n = refl
length-le (suc k) n = ap suc (length-le k (n / 256))

unle-take : (k n : ℕ) (rest : List ℕ) → n < 256 ^ k → unle (take k (le k n ++ rest)) ≡ n
unle-take k n rest h =
    ap unle (take-length_append (le k n) rest k (sym (length-le k n))) ∙ unle-le k n h

-- The members fit their types.
pub record IsIov (pi : PageServerIov) : Type 0 where
  pub cmd : pi.cmd < 2 ^ 32
  pub nr_pages : pi.nr_pages < 2 ^ 32
  pub vaddr : pi.vaddr < 2 ^ 64
  pub dst_id : pi.dst_id < 2 ^ 64

pub length-encode_iov : (pi : PageServerIov) → length (encode_iov pi) ≡ pi_size
unfolding encode_iov
length-encode_iov pi = refl

pub drop-encode_iov :
    (pi : PageServerIov) (rest : List ℕ) → drop pi_size (encode_iov pi ++ rest) ≡ rest
drop-encode_iov pi rest =
    drop-length_append (encode_iov pi) rest pi_size (sym (length-encode_iov pi))

-- The server reads from the socket the message that the client wrote to it, whatever follows.
pub decode_iov-encode_iov :
    (pi : PageServerIov) (rest : List ℕ) → IsIov pi → decode_iov (encode_iov pi ++ rest) ≡ pi
unfolding decode_iov encode_iov
decode_iov-encode_iov pi rest v = λ i. record {
  cmd = unle-take 4 pi.cmd (le 4 pi.nr_pages ++ le 8 pi.vaddr ++ le 8 pi.dst_id ++ rest) v.cmd i;
  nr_pages = unle-take 4 pi.nr_pages (le 8 pi.vaddr ++ le 8 pi.dst_id ++ rest) v.nr_pages i;
  vaddr = unle-take 8 pi.vaddr (le 8 pi.dst_id ++ rest) v.vaddr i;
  dst_id = unle-take 8 pi.dst_id rest v.dst_id i;
}

-- The server finds the type and the number of the image in the identifier that the client made, if the
-- number has at most 56 bits.
pub decode_pm_id-encode_pm_id :
    (type id : ℕ)
    → type < 2 ^ 8
    → id < 2 ^ 56
    → (decode_pm_type (encode_pm_id type id) ≡ type) × (decode_pm_id (encode_pm_id type id) ≡ id)
unfolding decode_pm_type decode_pm_id encode_pm_id
decode_pm_id-encode_pm_id type id t h = (omega (arith, t, h), omega (arith, t, h))
