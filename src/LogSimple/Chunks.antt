-- ===== src/LogSimple/Chunks.antt =====
-- The buffer of the log (sbuf_putc, sbuf_flush and print_string of pie/log-simple.c): what is written
-- to it comes out in chunks and in order.
use crtools.Base.{
  ℕ, zero, suc, ◌⊎◌, All, All-append, ◌+◌, ◌-◌, ◌≤◌, ◌<◌, ◌≡◌, refl, sym, ap, subst, ◌∙◌, false,
  List, [], ◌∷◌, ◌++◌, Bool-cases, inl, inr, leb, leb→le, not_leb, ◌==◌, if◌then◌else◌, length,
  length-set, length-take, set, take, drop, slice, append_assoc, append-nil, take-set_behind,
  slice-set_next, slice-set_behind, drop-take, take_whole, arith,
}
use crtools.LogSimple.{
  log_simple_chunk, SimpleBuf, pie, sbuf_init, sbuf_flush, sbuf_putc, print_string,
}

-- The text of one chunk: without the prefix, and without the mark at the end of a full chunk.
abbrev pub chunk_text : List ℕ → List ℕ
chunk_text chunk = if length chunk == log_simple_chunk then slice chunk 5 65 else drop 5 chunk

abbrev pub chunks_text : List (List ℕ) → List ℕ
chunks_text [] = []
chunks_text (c ∷ cs) = chunk_text c ++ chunks_text cs

-- A buffer that is being filled: the prefix is there, and there is room for one more byte and the mark.
pub record IsOpen (b : SimpleBuf) : Type 0 where
  pub sized : length b.buf ≡ log_simple_chunk
  pub prefixed : take 5 b.buf ≡ 112 ∷ 105 ∷ 101 ∷ 58 ∷ 32 ∷ []
  pub low : 5 ≤ b.bp
  pub high : b.bp < 70

-- All that was printed: what was written and what is waiting.
abbrev pub printed : SimpleBuf → List ℕ
printed b = chunks_text b.written ++ slice b.buf 5 (b.bp - 5)

chunks_text-append :
    (cs : List (List ℕ)) (c : List ℕ) → chunks_text (cs ++ c ∷ []) ≡ chunks_text cs ++ chunk_text c
chunks_text-append [] c = append-nil (chunk_text c)
chunks_text-append (d ∷ cs) c =
    ap (◌++◌ (chunk_text d)) (chunks_text-append cs c)
    ∙ sym (append_assoc (chunk_text d) (chunks_text cs) (chunk_text c))

length-pie : (buf : List ℕ) → length (pie buf) ≡ length buf
length-pie buf =
    length-set (set (set (set (set buf 0 112) 1 105) 2 101) 3 58) 4 32
    ∙ length-set (set (set (set buf 0 112) 1 105) 2 101) 3 58
    ∙ length-set (set (set buf 0 112) 1 105) 2 101
    ∙ length-set (set buf 0 112) 1 105
    ∙ length-set buf 0 112

take-pie : (buf : List ℕ) → 5 ≤ length buf → take 5 (pie buf) ≡ 112 ∷ 105 ∷ 101 ∷ 58 ∷ 32 ∷ []
take-pie [] h = absurd (omega arith)
take-pie (_ ∷ []) h = absurd (omega arith)
take-pie (_ ∷ _ ∷ []) h = absurd (omega arith)
take-pie (_ ∷ _ ∷ _ ∷ []) h = absurd (omega arith)
take-pie (_ ∷ _ ∷ _ ∷ _ ∷ []) h = absurd (omega arith)
take-pie (_ ∷ _ ∷ _ ∷ _ ∷ _ ∷ _) h = refl

pub sbuf_init-IsOpen : (b : SimpleBuf) → length b.buf ≡ log_simple_chunk → IsOpen (sbuf_init b)
unfolding sbuf_init
sbuf_init-IsOpen b e = record {
  sized = length-pie b.buf ∙ e;
  prefixed = take-pie b.buf (omega (arith, e));
  low = omega arith;
  high = omega arith;
}

pub sbuf_init-printed : (b : SimpleBuf) → printed (sbuf_init b) ≡ chunks_text b.written
unfolding sbuf_init
sbuf_init-printed b = append-nil (chunks_text b.written)

-- The buffer with its last byte and the mark, and the chunk that it becomes.
abbrev marked : SimpleBuf → ℕ → List ℕ
marked b c = set (set (set b.buf b.bp c) (b.bp + 1) 62) (b.bp + 1 + 1) 10

abbrev full : SimpleBuf → ℕ → SimpleBuf
full b c = record {
  buf = marked b c;
  bp = b.bp + 1 + 2;
  written = b.written ++ take (b.bp + 1 + 2) (marked b c) ∷ [];
}

-- A call of sys_write: the prefix, some text, and the mark behind 65 bytes of text.
pub record IsChunk (chunk : List ℕ) : Type 0 where
  pub prefix : take 5 chunk ≡ 112 ∷ 105 ∷ 101 ∷ 58 ∷ 32 ∷ []
  pub some_text : 5 < length chunk
  pub ending : (length chunk < 70) ⊎ ((length chunk ≡ 72) × (slice chunk 70 2 ≡ 62 ∷ 10 ∷ []))

-- From `b` to `b'`, only such chunks were written.
pub record Writes (b b' : SimpleBuf) : Type 0 where
  pub new : List (List ℕ)
  pub kept : b'.written ≡ b.written ++ new
  pub chunks : All IsChunk new

pub Writes-none : (b b' : SimpleBuf) → b'.written ≡ b.written → Writes b b'
Writes-none b b' e = record { new = []; kept = e ∙ sym (append-nil b.written); chunks = tt }

pub Writes-then : (b b1 b2 : SimpleBuf) → Writes b b1 → Writes b1 b2 → Writes b b2
Writes-then b b1 b2 f g = record {
  new = f.new ++ g.new;
  kept = g.kept ∙ ap (λ l. l ++ g.new) f.kept ∙ append_assoc b.written f.new g.new;
  chunks = All-append IsChunk f.new g.new f.chunks g.chunks;
}

pub sbuf_init-Writes : (b : SimpleBuf) → Writes b (sbuf_init b)
unfolding sbuf_init
sbuf_init-Writes b = Writes-none b (sbuf_init b) refl

put_waiting :
    (b : SimpleBuf) (c : ℕ)
    → IsOpen b
    → slice (set b.buf b.bp c) 5 (suc (b.bp - 5)) ≡ slice b.buf 5 (b.bp - 5) ++ c ∷ []
put_waiting b c o =
    let l = o.low in
    let e : 5 + (b.bp - 5) ≡ b.bp = omega (arith, l) in
    subst (λ i. slice (set b.buf i c) 5 (suc (b.bp - 5)) ≡ slice b.buf 5 (b.bp - 5) ++ c ∷ []) e
      (slice-set_next b.buf 5 (b.bp - 5) c
        (let z = o.sized in let h = o.high in omega (arith, e, z, h)))

pub sbuf_putc-IsOpen : (c : ℕ) (b : SimpleBuf) → IsOpen b → IsOpen (sbuf_putc c b)
unfolding sbuf_putc sbuf_flush
sbuf_putc-IsOpen c b o =
    let z = o.sized in
    let h = o.high in
    let l = o.low in
    elim (Bool-cases (leb (log_simple_chunk - 2) (b.bp + 1))) [
      | inl fills ↦
          let not_start : (b.bp + 1 + 2 == 5) ≡ false = ground arith in
          rw (fills, not_start)
            (sbuf_init-IsOpen (full b c) (
              length-set (set (set b.buf b.bp c) (b.bp + 1) 62) (b.bp + 1 + 1) 10
              ∙ length-set (set b.buf b.bp c) (b.bp + 1) 62
              ∙ length-set b.buf b.bp c
              ∙ z))
      | inr room ↦ rw room (record {
        sized = length-set b.buf b.bp c ∙ z;
        prefixed = take-set_behind b.buf 5 b.bp c l ∙ o.prefixed;
        low = omega (arith, l);
        high = let r = not_leb (log_simple_chunk - 2) (b.bp + 1) room in omega (arith, r);
      })
    ]

take_shorter : (xs : List ℕ) (m n : ℕ) → m ≤ n → take m (take n xs) ≡ take m xs
take_shorter xs zero n h = refl
take_shorter [] (suc m) zero h = absurd (omega arith)
take_shorter (x ∷ xs) (suc m) zero h = absurd (omega arith)
take_shorter [] (suc m) (suc n) h = refl
take_shorter (x ∷ xs) (suc m) (suc n) h = ap (◌∷◌ x) (take_shorter xs m n (omega (arith, h)))

-- The text of a full chunk is what was waiting and the last byte.
full_chunk :
    (b : SimpleBuf) (c : ℕ)
    → IsOpen b
    → b.bp ≡ 69
    → chunk_text
        (take (b.bp + 1 + 2) (set (set (set b.buf b.bp c) (b.bp + 1) 62) (b.bp + 1 + 1) 10))
      ≡ slice b.buf 5 (b.bp - 5) ++ c ∷ []
full_chunk b c o e =
    let buf3 = set (set (set b.buf b.bp c) (b.bp + 1) 62) (b.bp + 1 + 1) 10 in
    let size : length buf3 ≡ 72 =
      length-set (set (set b.buf b.bp c) (b.bp + 1) 62) (b.bp + 1 + 1) 10
      ∙ length-set (set b.buf b.bp c) (b.bp + 1) 62
      ∙ length-set b.buf b.bp c
      ∙ o.sized in
    let whole : take (b.bp + 1 + 2) buf3 ≡ buf3 =
      take_whole buf3 (b.bp + 1 + 2) (omega (arith, e, size)) in
    let n : 65 ≡ suc (b.bp - 5) = omega (arith, e) in
    rw (whole, size)
      (slice-set_behind (set (set b.buf b.bp c) (b.bp + 1) 62) 5 65 (b.bp + 1 + 1) 10
          (omega (arith, e))
        ∙ slice-set_behind (set b.buf b.bp c) 5 65 (b.bp + 1) 62 (omega (arith, e))
        ∙ ap (slice (set b.buf b.bp c) 5) n
        ∙ put_waiting b c o)

pub sbuf_putc-printed :
    (c : ℕ) (b : SimpleBuf) → IsOpen b → printed (sbuf_putc c b) ≡ printed b ++ c ∷ []
unfolding sbuf_putc sbuf_flush
sbuf_putc-printed c b o =
    let h = o.high in
    let l = o.low in
    elim (Bool-cases (leb (log_simple_chunk - 2) (b.bp + 1))) [
      | inl fills ↦
          let not_start : (b.bp + 1 + 2 == 5) ≡ false = ground arith in
          let last : b.bp ≡ 69 =
            let f = leb→le (log_simple_chunk - 2) (b.bp + 1) fills in omega (arith, f, h) in
          rw (fills, not_start)
            (sbuf_init-printed (full b c)
              ∙ chunks_text-append b.written (take (b.bp + 1 + 2) (marked b c))
              ∙ ap (◌++◌ (chunks_text b.written)) (full_chunk b c o last)
              ∙ sym (append_assoc (chunks_text b.written) (slice b.buf 5 (b.bp - 5)) (c ∷ [])))
      | inr room ↦
          let n : b.bp + 1 - 5 ≡ suc (b.bp - 5) = omega (arith, l) in
          rw room (
            ap (λ k. chunks_text b.written ++ slice (set b.buf b.bp c) 5 k) n
            ∙ ap (◌++◌ (chunks_text b.written)) (put_waiting b c o)
            ∙ sym (append_assoc (chunks_text b.written) (slice b.buf 5 (b.bp - 5)) (c ∷ [])))
    ]

marked-IsChunk :
    (b : SimpleBuf) (c : ℕ) → IsOpen b → b.bp ≡ 69 → IsChunk (take (b.bp + 1 + 2) (marked b c))
marked-IsChunk b c o e = subst IsChunk (sym whole) (record {
  prefix =
      take-set_behind (set (set b.buf b.bp c) (b.bp + 1) 62) 5 (b.bp + 1 + 1) 10 (omega (arith, e))
      ∙ take-set_behind (set b.buf b.bp c) 5 (b.bp + 1) 62 (omega (arith, e))
      ∙ take-set_behind b.buf 5 b.bp c (omega (arith, e))
      ∙ o.prefixed;
  some_text = omega (arith, size);
  ending = inr (size, mark);
})
  where
    size1 : length (set b.buf b.bp c) ≡ 72
    size1 = length-set b.buf b.bp c ∙ o.sized

    size2 : length (set (set b.buf b.bp c) (b.bp + 1) 62) ≡ 72
    size2 = length-set (set b.buf b.bp c) (b.bp + 1) 62 ∙ size1

    size : length (marked b c) ≡ 72
    size = length-set (set (set b.buf b.bp c) (b.bp + 1) 62) (b.bp + 1 + 1) 10 ∙ size2

    whole : take (b.bp + 1 + 2) (marked b c) ≡ marked b c
    whole = take_whole (marked b c) (b.bp + 1 + 2) (omega (arith, e, size))

    mark : slice (marked b c) 70 2 ≡ 62 ∷ 10 ∷ []
    mark =
        ap (λ i. slice (set (set (set b.buf b.bp c) (b.bp + 1) 62) i 10) 70 2) {x = b.bp + 1 + 1}
          {y = 70 + 1} (omega (arith, e))
        ∙ slice-set_next (set (set b.buf b.bp c) (b.bp + 1) 62) 70 1 10 (omega (arith, size2))
        ∙ ap (λ l. l ++ 10 ∷ [])
            (ap (λ i. slice (set (set b.buf b.bp c) i 62) 70 1) {x = b.bp + 1} {y = 70 + 0}
                (omega (arith, e))
              ∙ slice-set_next (set b.buf b.bp c) 70 0 62 (omega (arith, size1)))

pub sbuf_putc-Writes : (c : ℕ) (b : SimpleBuf) → IsOpen b → Writes b (sbuf_putc c b)
unfolding sbuf_putc sbuf_flush sbuf_init
sbuf_putc-Writes c b o = elim (Bool-cases (leb (log_simple_chunk - 2) (b.bp + 1))) [
  | inl fills ↦
      let not_start : (b.bp + 1 + 2 == 5) ≡ false = ground arith in
      let last : b.bp ≡ 69 =
        let f = leb→le (log_simple_chunk - 2) (b.bp + 1) fills in
        let h = o.high in omega (arith, f, h) in
      rw (fills, not_start)
        (record {
          new = take (b.bp + 1 + 2) (marked b c) ∷ [];
          kept = refl;
          chunks = (marked-IsChunk b c o last, tt);
        })
  | inr room ↦ rw room (record { new = []; kept = sym (append-nil b.written); chunks = tt })
]

pub sbuf_flush-Writes : (b : SimpleBuf) → IsOpen b → Writes b (sbuf_flush b)
unfolding sbuf_flush sbuf_init
sbuf_flush-Writes b o = elim (Bool-cases (b.bp == 5)) [
  | inl e ↦ rw e (record { new = []; kept = sym (append-nil b.written); chunks = tt })
  | inr e ↦
      let n : length (take b.bp b.buf) ≡ b.bp =
        omega (arith, length-take b.bp b.buf, o.sized, o.high) in
      let more : 5 < b.bp = (let l = o.low in ground arith) in
      rw e (record {
        new = take b.bp b.buf ∷ [];
        kept = refl;
        chunks = (
          record {
            prefix = take_shorter b.buf 5 b.bp o.low ∙ o.prefixed;
            some_text = omega (arith, n, more);
            ending = inl (omega (arith, n, o.high));
          },
          tt,
        );
      })
]

-- What printing `msg` does to an open buffer.
pub record Prints (msg : List ℕ) (b b' : SimpleBuf) : Type 0 where
  pub open' : IsOpen b'
  pub adds : printed b' ≡ printed b ++ msg
  pub writes : Writes b b'

-- Printing a string to an open buffer leaves an open buffer, every byte written inside it, and adds the
-- string to all that was printed, however it is cut into chunks.
pub print_string-Prints :
    (msg : List ℕ) (b : SimpleBuf) → IsOpen b → Prints msg b (print_string msg b)
unfolding print_string
print_string-Prints [] b o = record {
  open' = o;
  adds = sym (append-nil (printed b));
  writes = Writes-none b b refl;
}
print_string-Prints (c ∷ msg) b o =
    let ih = print_string-Prints msg (sbuf_putc c b) (sbuf_putc-IsOpen c b o) in
    record {
      open' = ih.open';
      adds =
          ih.adds
          ∙ ap (λ l. l ++ msg) (sbuf_putc-printed c b o)
          ∙ append_assoc (printed b) (c ∷ []) msg;
      writes = Writes-then b (sbuf_putc c b) _ (sbuf_putc-Writes c b o) ih.writes;
    }

-- After a flush everything that was printed has been written.
pub sbuf_flush-written : (b : SimpleBuf) → IsOpen b → chunks_text (sbuf_flush b).written ≡ printed b
unfolding sbuf_flush sbuf_init
sbuf_flush-written b o = elim (Bool-cases (b.bp == 5)) [
  | inl e ↦
      let z : b.bp - 5 ≡ 0 = ground arith in rw (e, z) (sym (append-nil (chunks_text b.written)))
  | inr e ↦
      let l = o.low in
      let h = o.high in
      let z = o.sized in
      let k : 5 + (b.bp - 5) ≡ b.bp = omega (arith, l) in
      let n : length (take b.bp b.buf) ≡ b.bp = omega (arith, length-take b.bp b.buf, z, h) in
      let short : (b.bp == log_simple_chunk) ≡ false = ground arith in
      let tail : drop 5 (take b.bp b.buf) ≡ slice b.buf 5 (b.bp - 5) =
        subst (λ i. drop 5 (take i b.buf) ≡ slice b.buf 5 (b.bp - 5)) k
          (drop-take b.buf 5 (b.bp - 5)) in
      rw e (
        chunks_text-append b.written (take b.bp b.buf)
        ∙ ap (◌++◌ (chunks_text b.written)) (rw (n, short) tail))
]
