-- ===== src/LogSimple/Hex.antt =====
-- The hexadecimal numbers of the log (hexdigit, print_hex and print_hex_l of pie/log-simple.c).
use crtools.Base.{
  ℕ, zero, suc, ◌+◌, ◌-◌, ◌*◌, ◌/◌, ◌%◌, ◌^◌, ◌≤◌, ◌<◌, ◌≡◌, refl, sym, ap, ◌∙◌, List, [], ◌∷◌,
  Bool-cases, inl, inr, ltb, ◌==◌, ==_iff, if◌then◌else◌, length, length-set, set, drop, drop_all,
  replicate, arith,
}
use crtools.LogSimple.{HexBuf, hex_char, hexdigit, hexdigits, hex_string, hex_text, hex_text_l}

-- The digit that a character stands for, and the value of digits behind those that were read before.
abbrev pub unhex : ℕ → ℕ
unhex c = if ltb c 58 then c - 48 else c - 87

abbrev pub read_hex : ℕ → List ℕ → ℕ
read_hex acc [] = acc
read_hex acc (c ∷ s) = read_hex (acc * 16 + unhex c) s

unhex-hex_char : (d : ℕ) → d < 16 → unhex (hex_char d) ≡ d
unhex-hex_char d h = ground arith

drop-set_at : (xs : List ℕ) (i c : ℕ) → i < length xs → drop i (set xs i c) ≡ c ∷ drop (suc i) xs
drop-set_at [] i c h = absurd (omega arith)
drop-set_at (x ∷ xs) zero c h = refl
drop-set_at (x ∷ xs) (suc i) c h = drop-set_at xs i c (omega arith)

drop-set_before : (xs : List ℕ) (i j c : ℕ) → i < j → drop j (set xs i c) ≡ drop j xs
drop-set_before [] i j c h = refl
drop-set_before (x ∷ xs) i zero c h = absurd (omega arith)
drop-set_before (x ∷ xs) zero (suc j) c h = refl
drop-set_before (x ∷ xs) (suc i) (suc j) c h = drop-set_before xs i j c (omega arith)

-- The digits behind `to` are set, and `z` is at the first of them that counts.
record IsMarked (to : ℕ) (h : HexBuf) : Type 0 where
  low : suc to ≤ h.z
  high : h.z < length h.buf
  same : read_hex 0 (drop h.z h.buf) ≡ read_hex 0 (drop (suc to) h.buf)

-- One more digit in front.
digit_read :
    (num to : ℕ) (h : HexBuf)
    → to < length h.buf
    → read_hex (num / 16) (drop to (hexdigit num to h).buf) ≡ read_hex num (drop (suc to) h.buf)
unfolding hexdigit
digit_read num to h l =
    ap (read_hex (num / 16)) (drop-set_at h.buf to (hex_char (num % 16)) l)
    ∙ ap (λ n. read_hex n (drop (suc to) h.buf))
        (let d = unhex-hex_char (num % 16) (omega arith) in omega (arith, d))

digit-IsMarked :
    (num to : ℕ) (h : HexBuf) → IsMarked (suc to) h → IsMarked to (hexdigit num (suc to) h)
unfolding hexdigit
digit-IsMarked num to h m = elim (Bool-cases (num % 16 == 0)) [
  | inl e ↦
      let low = m.low in
      let high = m.high in
      let zero_digit : num % 16 ≡ 0 = (==_iff (num % 16) 0).0 e in
      rw (hexdigit, e, zero_digit)
        (record {
          low = omega (arith, low);
          high = omega (arith, high, length-set h.buf (suc to) 48);
          same =
              ap (read_hex 0) (drop-set_before h.buf (suc to) h.z 48 low)
              ∙ m.same
              ∙ sym (ap (read_hex 0) (drop-set_at h.buf (suc to) 48 (omega (arith, low, high))));
        })
  | inr e ↦
      let low = m.low in
      let high = m.high in
      rw (hexdigit, e)
        (record {
          low = omega arith;
          high = omega (arith, low, high, length-set h.buf (suc to) (hex_char (num % 16)));
          same = refl;
        })
]

-- What some calls of `hexdigit` leave: all digits of `num` in front of those that were set before.
record Digits (num to calls : ℕ) (h h' : HexBuf) : Type 0 where
  value : read_hex 0 (drop h'.z h'.buf) ≡ read_hex num (drop (suc to) h.buf)
  size : length h'.buf ≡ length h.buf
  high : h'.z < length h'.buf
  low : suc to ≤ h'.z + calls

hexdigit-size : (v t : ℕ) (h : HexBuf) → length (hexdigit v t h).buf ≡ length h.buf
unfolding hexdigit
hexdigit-size v t h = length-set h.buf t (hex_char (v % 16))

hexdigits-Digits :
    (calls num to : ℕ) (h : HexBuf)
    → num < 16 ^ calls
    → calls ≤ to
    → IsMarked to h
    → Digits num to calls h (hexdigits calls num to h)
unfolding hexdigits
hexdigits-Digits zero num to h n c m =
    let z : num ≡ 0 = omega arith in
    let low = m.low in
    rw z (record { value = m.same; size = refl; high = m.high; low = omega (arith, low) })
hexdigits-Digits (suc calls) num zero h n c m = absurd (omega arith)
hexdigits-Digits (suc calls) num (suc to) h n c m =
    let down : suc to - 1 ≡ to = omega arith in
    let ih =
      hexdigits-Digits calls (num / 16) to (hexdigit num (suc to) h) (omega (arith, n))
        (omega arith) (digit-IsMarked num to h m) in
    let low = m.low in
    let high = m.high in
    let below = ih.low in
    rw down (record {
      value = ih.value ∙ digit_read num (suc to) h (omega (arith, low, high));
      size = ih.size ∙ hexdigit-size num (suc to) h;
      high = ih.high;
      low = omega (arith, below);
    })

-- Writing "0x" in front.
prefix-drop :
    (xs : List ℕ) (y : ℕ)
    → suc (suc y) < length xs
    → drop y (set (set xs y 48) (suc y) 120) ≡ 48 ∷ 120 ∷ drop (suc (suc y)) xs
prefix-drop [] y h = absurd (omega arith)
prefix-drop (x ∷ []) y h = absurd (omega arith)
prefix-drop (x ∷ x2 ∷ xs) zero h = refl
prefix-drop (x ∷ x2 ∷ xs) (suc y) h = prefix-drop (x2 ∷ xs) y (omega arith)

hex_string-prefix :
    (h : HexBuf) → 2 ≤ h.z → h.z < length h.buf → hex_string h ≡ 48 ∷ 120 ∷ drop h.z h.buf
hex_string-prefix h two high =
    let up : suc (suc (h.z - 2)) ≡ h.z = omega arith in
    let one : suc (h.z - 2) ≡ h.z - 1 = omega arith in
    ap (λ i. drop (h.z - 2) (set (set h.buf (h.z - 2) 48) i 120)) (sym one)
    ∙ prefix-drop h.buf (h.z - 2) (omega (arith, up))
    ∙ ap (λ i. 48 ∷ 120 ∷ drop i h.buf) up

-- The first call, at the last place.
first-IsMarked :
    (num to : ℕ) (buf : List ℕ)
    → suc to < length buf
    → IsMarked to (hexdigit num (suc to) (record { buf = buf; z = suc to }))
unfolding hexdigit
first-IsMarked num to buf h = elim (Bool-cases (num % 16 == 0)) [
  | inl e ↦
      rw (hexdigit, e)
        (record {
          low = omega arith;
          high = omega (arith, h, length-set buf (suc to) (hex_char (num % 16)));
          same = refl;
        })
  | inr e ↦
      rw (hexdigit, e)
        (record {
          low = omega arith;
          high = omega (arith, h, length-set buf (suc to) (hex_char (num % 16)));
          same = refl;
        })
]

-- A string of "0x" and digits that read as `num`.
pub record IsHex (num : ℕ) (s : List ℕ) : Type 0 where
  pub digits : List ℕ
  pub shape : s ≡ 48 ∷ 120 ∷ digits
  pub value : read_hex 0 digits ≡ num

all_calls-IsHex :
    (calls to num : ℕ) (buf : List ℕ)
    → num < 16 ^ suc calls
    → suc calls ≤ to
    → length buf ≡ suc (suc to)
    → IsHex num (
        hex_string (
          hexdigits calls (num / 16) to (hexdigit num (suc to) (record { buf = buf; z = suc to }))))
all_calls-IsHex calls to num buf n c e =
    let h : HexBuf = record { buf = buf; z = suc to } in
    let r =
      hexdigits-Digits calls (num / 16) to (hexdigit num (suc to) h) (omega (arith, n))
        (omega arith) (first-IsMarked num to buf (omega (arith, e))) in
    let low = r.low in
    record {
      digits = _;
      shape =
          hex_string-prefix (hexdigits calls (num / 16) to (hexdigit num (suc to) h))
            (omega (arith, low, c)) r.high;
      value =
          r.value
          ∙ digit_read num (suc to) h (omega (arith, e))
          ∙ ap (read_hex num) (drop_all buf (suc (suc to)) (omega (arith, e)));
    }

-- The text of an `unsigned int` is "0x" and hexadecimal digits that read as the number.
pub hex_text-IsHex : (num : ℕ) → num < 2 ^ 32 → IsHex num (hex_text num)
unfolding hex_text hexdigits
hex_text-IsHex num h = all_calls-IsHex 7 8 num (replicate 10 0) (omega arith) (omega arith) refl

-- The text of an `unsigned long` is "0x" and hexadecimal digits that read as the number.
pub hex_text_l-IsHex : (num : ℕ) → num < 2 ^ 64 → IsHex num (hex_text_l num)
unfolding hex_text_l hexdigits
hex_text_l-IsHex num h = all_calls-IsHex 15 16 num (replicate 18 0) (omega arith) (omega arith) refl
