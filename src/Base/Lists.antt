-- ===== src/Base/Lists.antt =====
-- C arrays and byte sequences as lists with native indices, and the part `[i, i + n)` of one.
use Prim.Native.Nat.{ℕ, zero, suc, ◌+◌, ◌-◌, ◌≤◌, ◌<◌, min}
use mathlib.Core.Path.{◌≡◌, refl, ap, sym, subst, ◌∙◌}
use mathlib.Core.List.{List, [], ◌∷◌, ◌++◌}
use mathlib.Core.Option.{Option, none, some}
use native.Mathlib.Omega.{arith}

module _ {ℓ} {A : Type ℓ} where
  abbrev pub length : List A → ℕ
  length [] = 0
  length (_ ∷ xs) = suc (length xs)

  abbrev pub get_elem? : List A → ℕ → Option A
  get_elem? [] _ = none
  get_elem? (x ∷ _) zero = some x
  get_elem? (_ ∷ xs) (suc i) = get_elem? xs i

  abbrev pub get_or : List A → ℕ → A → A
  get_or [] _ d = d
  get_or (x ∷ _) zero _ = x
  get_or (_ ∷ xs) (suc i) d = get_or xs i d

  -- A write out of range changes nothing.
  abbrev pub set : List A → ℕ → A → List A
  set [] _ _ = []
  set (_ ∷ xs) zero v = v ∷ xs
  set (x ∷ xs) (suc i) v = x ∷ set xs i v

  abbrev pub take : ℕ → List A → List A
  take zero _ = []
  take (suc n) [] = []
  take (suc n) (x ∷ xs) = x ∷ take n xs

  abbrev pub drop : ℕ → List A → List A
  drop zero xs = xs
  drop (suc n) [] = []
  drop (suc n) (_ ∷ xs) = drop n xs

  abbrev pub replicate : ℕ → A → List A
  replicate zero a = []
  replicate (suc n) a = a ∷ replicate n a

  abbrev pub All {κ} : (A → Type κ) → List A → Type κ
  All P [] = Unit
  All P (x ∷ xs) = P x × All P xs

  -- The elements at `i`, …, `i + n - 1`.
  abbrev pub slice : List A → ℕ → ℕ → List A
  slice xs i n = take n (drop i xs)

module _ {ℓ} {A : Type ℓ} where
  pub length-append : (xs ys : List A) → length (xs ++ ys) ≡ length xs + length ys
  length-append [] ys = omega arith
  length-append (x ∷ xs) ys = omega (arith, length-append xs ys)

  pub length-set : (xs : List A) (i : ℕ) (v : A) → length (set xs i v) ≡ length xs
  length-set [] i v = refl
  length-set (x ∷ xs) zero v = refl
  length-set (x ∷ xs) (suc i) v = ap suc (length-set xs i v)

  pub length-take : (n : ℕ) (xs : List A) → length (take n xs) ≡ min n (length xs)
  length-take zero xs = omega arith
  length-take (suc n) [] = omega arith
  length-take (suc n) (x ∷ xs) = omega (arith, length-take n xs)

  pub length-drop : (n : ℕ) (xs : List A) → length (drop n xs) ≡ length xs - n
  length-drop zero xs = omega arith
  length-drop (suc n) [] = omega arith
  length-drop (suc n) (x ∷ xs) = omega (arith, length-drop n xs)

  pub length-replicate : (n : ℕ) (a : A) → length (replicate n a) ≡ n
  length-replicate zero a = refl
  length-replicate (suc n) a = ap suc (length-replicate n a)

  pub get_or-set_self :
      (xs : List A) (i : ℕ) (v d : A) → i < length xs → get_or (set xs i v) i d ≡ v
  get_or-set_self [] i v d h = absurd (omega arith)
  get_or-set_self (x ∷ xs) zero v d h = refl
  get_or-set_self (x ∷ xs) (suc i) v d h = get_or-set_self xs i v d (omega arith)

  -- Writing the next free element of a part extends the part by it.
  pub take-set_next :
      (xs : List A) (n : ℕ) (v : A)
      → n < length xs
      → take (suc n) (set xs n v) ≡ take n xs ++ v ∷ []
  take-set_next [] n v h = absurd (omega arith)
  take-set_next (x ∷ xs) zero v h = refl
  take-set_next (x ∷ xs) (suc n) v h = ap (◌∷◌ x) (take-set_next xs n v (omega arith))

  -- A write behind a part leaves it alone.
  pub take-set_behind : (xs : List A) (n i : ℕ) (v : A) → n ≤ i → take n (set xs i v) ≡ take n xs
  take-set_behind [] n i v h = refl
  take-set_behind (x ∷ xs) zero i v h = refl
  take-set_behind (x ∷ xs) (suc n) zero v h = absurd (omega arith)
  take-set_behind (x ∷ xs) (suc n) (suc i) v h = ap (◌∷◌ x) (take-set_behind xs n i v (omega arith))

  pub take-suc :
      (xs : List A) (n : ℕ) (d : A)
      → n < length xs
      → take (suc n) xs ≡ take n xs ++ get_or xs n d ∷ []
  take-suc [] n d h = absurd (omega arith)
  take-suc (x ∷ xs) zero d h = refl
  take-suc (x ∷ xs) (suc n) d h = ap (◌∷◌ x) (take-suc xs n d (omega arith))

  pub drop-set : (xs : List A) (i j : ℕ) (v : A) → drop i (set xs (i + j) v) ≡ set (drop i xs) j v
  drop-set xs zero j v = let e : 0 + j ≡ j = omega arith in rw e
  drop-set [] (suc i) j v = refl
  drop-set (x ∷ xs) (suc i) j v =
      let e : suc i + j ≡ suc (i + j) = omega arith in rw e (drop-set xs i j v)

  pub get_or-drop : (xs : List A) (i j : ℕ) (d : A) → get_or (drop i xs) j d ≡ get_or xs (i + j) d
  get_or-drop xs zero j d = let e : 0 + j ≡ j = omega arith in rw e
  get_or-drop [] (suc i) j d = refl
  get_or-drop (x ∷ xs) (suc i) j d =
      let e : suc i + j ≡ suc (i + j) = omega arith in rw e (get_or-drop xs i j d)

  pub drop-nil : (n : ℕ) → drop {A = A} n [] ≡ []
  drop-nil zero = refl
  drop-nil (suc n) = refl

  pub take-nil : (n : ℕ) → take {A = A} n [] ≡ []
  take-nil zero = refl
  take-nil (suc n) = refl

  pub drop-drop : (xs : List A) (i j : ℕ) → drop j (drop i xs) ≡ drop (i + j) xs
  drop-drop xs zero j = let e : 0 + j ≡ j = omega arith in rw e
  drop-drop [] (suc i) j = drop-nil j ∙ sym (drop-nil (suc i + j))
  drop-drop (x ∷ xs) (suc i) j =
      let e : suc i + j ≡ suc (i + j) = omega arith in rw e (drop-drop xs i j)

  pub take-append-drop : (n : ℕ) (xs : List A) → take n xs ++ drop n xs ≡ xs
  take-append-drop zero xs = refl
  take-append-drop (suc n) [] = refl
  take-append-drop (suc n) (x ∷ xs) = ap (◌∷◌ x) (take-append-drop n xs)

  pub take-length_append : (xs ys : List A) (n : ℕ) → n ≡ length xs → take n (xs ++ ys) ≡ xs
  take-length_append [] ys zero e = refl
  take-length_append [] ys (suc n) e = absurd (omega arith)
  take-length_append (x ∷ xs) ys zero e = absurd (omega arith)
  take-length_append (x ∷ xs) ys (suc n) e = ap (◌∷◌ x) (take-length_append xs ys n (omega arith))

  pub drop-length_append : (xs ys : List A) (n : ℕ) → n ≡ length xs → drop n (xs ++ ys) ≡ ys
  drop-length_append [] ys zero e = refl
  drop-length_append [] ys (suc n) e = absurd (omega arith)
  drop-length_append (x ∷ xs) ys zero e = absurd (omega arith)
  drop-length_append (x ∷ xs) ys (suc n) e = drop-length_append xs ys n (omega arith)

  pub take-append_left : (xs ys : List A) (n : ℕ) → n ≤ length xs → take n (xs ++ ys) ≡ take n xs
  take-append_left xs ys zero h = refl
  take-append_left [] ys (suc n) h = absurd (omega arith)
  take-append_left (x ∷ xs) ys (suc n) h = ap (◌∷◌ x) (take-append_left xs ys n (omega arith))

  pub drop-append_left :
      (xs ys : List A) (n : ℕ) → n ≤ length xs → drop n (xs ++ ys) ≡ drop n xs ++ ys
  drop-append_left xs ys zero h = refl
  drop-append_left [] ys (suc n) h = absurd (omega arith)
  drop-append_left (x ∷ xs) ys (suc n) h = drop-append_left xs ys n (omega arith)

  pub drop-take : (xs : List A) (i n : ℕ) → drop i (take (i + n) xs) ≡ take n (drop i xs)
  drop-take xs zero n = let e : 0 + n ≡ n = omega arith in rw e
  drop-take [] (suc i) n = let e : suc i + n ≡ suc (i + n) = omega arith in rw e (sym (take-nil n))
  drop-take (x ∷ xs) (suc i) n =
      let e : suc i + n ≡ suc (i + n) = omega arith in rw e (drop-take xs i n)

  pub take-add : (m n : ℕ) (xs : List A) → take (m + n) xs ≡ take m xs ++ take n (drop m xs)
  take-add zero n xs = let e : 0 + n ≡ n = omega arith in rw e
  take-add (suc m) n [] = let e : suc m + n ≡ suc (m + n) = omega arith in rw e (sym (take-nil n))
  take-add (suc m) n (x ∷ xs) =
      let e : suc m + n ≡ suc (m + n) = omega arith in rw e (ap (◌∷◌ x) (take-add m n xs))

  -- Writing the element behind a part extends the part by it.
  pub slice-set_next :
      (xs : List A) (i n : ℕ) (v : A)
      → i + n < length xs
      → slice (set xs (i + n) v) i (suc n) ≡ slice xs i n ++ v ∷ []
  slice-set_next xs i n v h =
      rw (drop-set xs i n v) (take-set_next (drop i xs) n v (omega (arith, length-drop i xs)))

  -- A write behind a part leaves it alone.
  pub slice-set_behind :
      (xs : List A) (i n j : ℕ) (v : A) → i + n ≤ j → slice (set xs j v) i n ≡ slice xs i n
  slice-set_behind xs i n j v h =
      let e : j ≡ i + (j - i) = omega arith in
      rw (e, drop-set xs i (j - i) v) (take-set_behind (drop i xs) n (j - i) v (omega arith))

module _ {ℓ} {A : Type ℓ} where
  pub take_whole : (xs : List A) (n : ℕ) → n ≡ length xs → take n xs ≡ xs
  take_whole [] zero e = refl
  take_whole [] (suc n) e = refl
  take_whole (x ∷ xs) zero e = absurd (omega arith)
  take_whole (x ∷ xs) (suc n) e = ap (◌∷◌ x) (take_whole xs n (omega (arith, e)))

  pub drop_all : (xs : List A) (n : ℕ) → length xs ≤ n → drop n xs ≡ []
  drop_all [] zero h = refl
  drop_all [] (suc n) h = refl
  drop_all (x ∷ xs) zero h = absurd (omega arith)
  drop_all (x ∷ xs) (suc n) h = drop_all xs n (omega arith)

  pub drop-take_cons :
      (xs : List A) (n i : ℕ) (d : A)
      → i < n
      → n ≤ length xs
      → drop i (take n xs) ≡ get_or xs i d ∷ drop (suc i) (take n xs)
  drop-take_cons [] n i d h l = absurd (omega arith)
  drop-take_cons (x ∷ xs) zero i d h l = absurd (omega arith)
  drop-take_cons (x ∷ xs) (suc n) zero d h l = refl
  drop-take_cons (x ∷ xs) (suc n) (suc i) d h l =
      drop-take_cons xs n i d (omega arith) (omega arith)

module _ {ℓ κ} {A : Type ℓ} (P : A → Type κ) where
  pub All-append : (xs ys : List A) → All P xs → All P ys → All P (xs ++ ys)
  All-append [] ys p q = q
  All-append (x ∷ xs) ys p q = (p.0, All-append xs ys p.1 q)

  pub All-take_le : (xs : List A) (m n : ℕ) → m ≤ n → All P (take n xs) → All P (take m xs)
  All-take_le xs zero n h p = tt
  All-take_le xs (suc m) zero h p = absurd (omega arith)
  All-take_le [] (suc m) (suc n) h p = tt
  All-take_le (x ∷ xs) (suc m) (suc n) h p = (p.0, All-take_le xs m n (omega arith) p.1)

  pub All-get_or :
      (xs : List A) (n i : ℕ) (d : A)
      → All P (take n xs)
      → i < n
      → i < length xs
      → P (get_or xs i d)
  All-get_or [] n i d p h l = absurd (omega arith)
  All-get_or (x ∷ xs) zero i d p h l = absurd (omega arith)
  All-get_or (x ∷ xs) (suc n) zero d p h l = p.0
  All-get_or (x ∷ xs) (suc n) (suc i) d p h l = All-get_or xs n i d p.1 (omega arith) (omega arith)

  pub All-take-set :
      (xs : List A) (n : ℕ) (v : A)
      → n < length xs
      → All P (take n xs)
      → P v
      → All P (take (suc n) (set xs n v))
  All-take-set xs n v h p q =
      subst (All P) (sym (take-set_next xs n v h)) (All-append (take n xs) (v ∷ []) p (q, tt))
