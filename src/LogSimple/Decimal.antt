-- ===== src/LogSimple/Decimal.antt =====
-- The decimal numbers of the log (vprint_num and print_num_l of pie/log-simple.c).
use crtools.Base.{
  ℕ, zero, suc, ◌+◌, ◌-◌, ◌*◌, ◌/◌, ◌%◌, ◌^◌, ◌≤◌, ◌<◌, ◌≡◌, refl, ap, ◌∙◌, false, List, [], ◌∷◌,
  Bool-cases, inl, inr, ltb, ◌==◌, ==_iff, if◌then◌else◌, length, All, arith,
}
use crtools.LogSimple.{put_digits, num_text, vprint_num}

-- The value of a string of digits behind those that were read before.
abbrev pub read_digits : ℕ → List ℕ → ℕ
read_digits acc [] = acc
read_digits acc (c ∷ s) = read_digits (acc * 10 + (c - 48)) s

put_digits-read :
    (fuel num : ℕ) (s : List ℕ)
    → num < 10 ^ fuel
    → read_digits 0 (put_digits fuel num s) ≡ read_digits num s
unfolding put_digits
put_digits-read zero num s h = let e : num ≡ 0 = omega arith in rw e
put_digits-read (suc fuel) num s h = elim (Bool-cases (num == 0)) [
  | inl e ↦ let z : num ≡ 0 = ground arith in rw z
  | inr e ↦
      let small : num / 10 < 10 ^ fuel = omega (arith, h) in
      rw (put_digits, e)
        (put_digits-read fuel (num / 10) ((num % 10 + 48) ∷ s) small
          ∙ ap (λ n. read_digits n s) (omega arith))
]

put_digits-All :
    (fuel num : ℕ) (s : List ℕ) → All (λ c. 48 ≤ c) s → All (λ c. 48 ≤ c) (put_digits fuel num s)
unfolding put_digits
put_digits-All zero num s p = p
put_digits-All (suc fuel) num s p = elim (Bool-cases (num == 0)) [
  | inl e ↦ rw (put_digits, e) p
  | inr e ↦
      rw (put_digits, e) (put_digits-All fuel (num / 10) ((num % 10 + 48) ∷ s) (omega arith, p))
]

put_digits-length :
    (fuel k num : ℕ) (s : List ℕ) → num < 10 ^ k → length (put_digits fuel num s) ≤ k + length s
unfolding put_digits
put_digits-length zero k num s h = omega arith
put_digits-length (suc fuel) zero num s h = let z : num ≡ 0 = omega arith in rw z (omega arith)
put_digits-length (suc fuel) (suc k) num s h = elim (Bool-cases (num == 0)) [
  | inl e ↦ rw (put_digits, e) (omega arith)
  | inr e ↦
      let ih = put_digits-length fuel k (num / 10) ((num % 10 + 48) ∷ s) (omega (arith, h)) in
      rw (put_digits, e) (omega (arith, ih))
]

-- The signed number of `w` bits that a text stands for.
abbrev pub read_num : ℕ → List ℕ → ℕ
read_num w [] = 0
read_num w (c ∷ s) = if c == 45 then 2 ^ w - read_digits 0 s else read_digits 0 (c ∷ s)

read_num-digits : (w : ℕ) (s : List ℕ) → All (λ c. 48 ≤ c) s → read_num w s ≡ read_digits 0 s
read_num-digits w [] p = refl
read_num-digits w (c ∷ s) p = let h = p.0 in let e : (c == 45) ≡ false = ground arith in rw e

-- The text of a number of `w` bits that is not the least one reads as the number.
num_text-read :
    (w num : ℕ)
    → 2 ^ w ≡ 2 * 2 ^ (w - 1)
    → 2 ^ w ≤ 10 ^ 21
    → num < 2 ^ w
    → (num == 2 ^ (w - 1)) ≡ false
    → read_num w (num_text w num) ≡ num
unfolding num_text
num_text-read w num twice fits h least = elim (Bool-cases (num == 0)) [
  | inl e ↦ let z : num ≡ 0 = (==_iff num 0).0 e in rw (e, z)
  | inr e ↦ elim (Bool-cases (ltb num (2 ^ (w - 1)))) [
    | inl pos ↦
        rw (e, pos)
          (read_num-digits w (put_digits 21 num []) (put_digits-All 21 num [] tt)
            ∙ put_digits-read 21 num [] (omega (arith, h, fits)))
    | inr neg ↦
        let nonzero : 0 < num = ground arith in
        rw (e, neg, least)
          (ap (◌-◌ (2 ^ w)) (put_digits-read 21 (2 ^ w - num) [] (omega (arith, fits, nonzero, h)))
            ∙ omega (arith, h))
  ]
]

num_text-length :
    (w k num : ℕ)
    → 2 ^ w ≡ 2 * 2 ^ (w - 1)
    → 2 ^ (w - 1) < 10 ^ suc k
    → num < 2 ^ w
    → length (num_text w num) ≤ suc (suc k)
unfolding num_text
num_text-length w k num twice lt h = elim (Bool-cases (num == 0)) [
  | inl e ↦ rw e (omega arith)
  | inr e ↦ elim (Bool-cases (ltb num (2 ^ (w - 1)))) [
    | inl pos ↦
        let p : num < 10 ^ suc k = ground arith in
        let l = put_digits-length 21 (suc k) num [] p in rw (e, pos) (omega (arith, l))
    | inr neg ↦ elim (Bool-cases (num == 2 ^ (w - 1))) [
      | inl least ↦ rw (e, neg, least) (omega arith)
      | inr other ↦
          let p : 2 ^ w - num < 10 ^ suc k = ground arith in
          let l = put_digits-length 21 (suc k) (2 ^ w - num) [] p in
          rw (e, neg, other) (omega (arith, l))
    ]
  ]
]

-- The text of an `int` other than the least one reads as that number, and has at most eleven bytes,
-- so that it fits the buffer of `print_num` with the terminator.
pub vprint_num-read :
    (num : ℕ)
    → num < 2 ^ 32
    → (num == 2 ^ 31) ≡ false
    → (read_num 32 (vprint_num num) ≡ num) × (length (vprint_num num) ≤ 11)
unfolding vprint_num
vprint_num-read num h least =
    (num_text-read 32 num refl (omega arith) h least, num_text-length 32 9 num refl (omega arith) h)

-- The text of a `long` other than the least one reads as that number, and has at most twenty bytes, so
-- that it fits the buffer of `print_num_l` with the terminator.
pub num_text-read_long :
    (num : ℕ)
    → num < 2 ^ 64
    → (num == 2 ^ 63) ≡ false
    → (read_num 64 (num_text 64 num) ≡ num) × (length (num_text 64 num) ≤ 20)
num_text-read_long num h least = (
  num_text-read 64 num refl (omega arith) h least,
  num_text-length 64 18 num refl (omega arith) h,
)
