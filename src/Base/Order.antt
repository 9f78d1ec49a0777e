-- ===== src/Base/Order.antt =====
-- Lists that grow by one element, and lists of numbers that ascend or differ.
use Prim.Native.Nat.{ℕ, ◌<◌, suc}
use mathlib.Core.Path.{◌≡◌, refl, ap}
use mathlib.Core.Logic.{◌≢◌}
use mathlib.Core.List.{List, [], ◌∷◌, ◌++◌, map}
use native.Mathlib.Omega.{arith}
use crtools.Base.Lists.{All, length}

-- `Inserted a xs ys`: ys is xs with an `a` somewhere.
pub data Inserted {ℓ} {A : Type ℓ} (a : A) : List A → List A → Type ℓ where
  here : (xs : List A) → Inserted a xs (a ∷ xs)
  there : (x : A) {xs ys : List A} → Inserted a xs ys → Inserted a (x ∷ xs) (x ∷ ys)

module _ {ℓ} {A : Type ℓ} {a : A} where
  pub Inserted-append_right :
      {xs ys : List A} (zs : List A) → Inserted a xs ys → Inserted a (xs ++ zs) (ys ++ zs)
  Inserted-append_right zs (here xs) = here (xs ++ zs)
  Inserted-append_right zs (there x i) = there x (Inserted-append_right zs i)

  pub Inserted-append_left :
      (zs : List A) {xs ys : List A} → Inserted a xs ys → Inserted a (zs ++ xs) (zs ++ ys)
  Inserted-append_left [] i = i
  Inserted-append_left (z ∷ zs) i = there z (Inserted-append_left zs i)

  pub All-Inserted {κ} :
      (P : A → Type κ) {xs ys : List A} → Inserted a xs ys → P a → All P xs → All P ys
  All-Inserted P (here xs) p q = (p, q)
  All-Inserted P (there x i) p q = (q.0, All-Inserted P i p q.1)

  pub Inserted-map {κ} :
      {B : Type κ} (f : A → B) {xs ys : List A}
      → Inserted a xs ys
      → Inserted (f a) (map f xs) (map f ys)
  Inserted-map f (here xs) = here (map f xs)
  Inserted-map f (there x i) = there (f x) (Inserted-map f i)

module _ {ℓ κ μ} {A : Type ℓ} {P : A → Type κ} {Q : A → Type μ} (f : (a : A) → P a → Q a) where
  pub All-imp : (xs : List A) → All P xs → All Q xs
  All-imp [] p = tt
  All-imp (x ∷ xs) p = (f x p.0, All-imp xs p.1)

module _ {ℓ κ} {A : Type ℓ} (P : A → Type κ) where
  pub All-left : (xs ys : List A) → All P (xs ++ ys) → All P xs
  All-left [] ys p = tt
  All-left (x ∷ xs) ys p = (p.0, All-left xs ys p.1)

  pub All-right : (xs ys : List A) → All P (xs ++ ys) → All P ys
  All-right [] ys p = p
  All-right (x ∷ xs) ys p = All-right xs ys p.1

-- Every number is less than all behind it.
abbrev pub Ascends : List ℕ → Type 0
Ascends [] = Unit {0}
Ascends (x ∷ xs) = All (λ y. x < y) xs × Ascends xs

abbrev pub Distinct : List ℕ → Type 0
Distinct [] = Unit {0}
Distinct (x ∷ xs) = All (λ y. x ≢ y) xs × Distinct xs

-- A list that ascends, put around a number.
pub record Around (xs : List ℕ) (x : ℕ) (ys : List ℕ) : Type 0 where
  pub left : Ascends xs
  pub below : All (λ y. y < x) xs
  pub above : All (λ y. x < y) ys
  pub right : Ascends ys

pub Ascends-Around : (xs : List ℕ) (x : ℕ) (ys : List ℕ) → Ascends (xs ++ x ∷ ys) → Around xs x ys
Ascends-Around [] x ys a = record { left = tt; below = tt; above = a.0; right = a.1 }
Ascends-Around (z ∷ xs) x ys a =
    let r = Ascends-Around xs x ys a.1 in
    record {
      left = (All-left (λ y. z < y) xs (x ∷ ys) a.0, r.left);
      below = ((All-right (λ y. z < y) xs (x ∷ ys) a.0).0, r.below);
      above = r.above;
      right = r.right;
    }

less_trans : (a b c : ℕ) → a < b → b < c → a < c
less_trans a b c h l = omega arith

All-join :
    (z : ℕ) (xs : List ℕ) (x : ℕ) (ys : List ℕ)
    → All (λ y. z < y) xs
    → z < x
    → All (λ y. x < y) ys
    → All (λ y. z < y) (xs ++ x ∷ ys)
All-join z [] x ys p l q = (l, All-imp (λ y. less_trans z x y l) ys q)
All-join z (w ∷ xs) x ys p l q = (p.0, All-join z xs x ys p.1 l q)

pub Around-Ascends : (xs : List ℕ) (x : ℕ) (ys : List ℕ) → Around xs x ys → Ascends (xs ++ x ∷ ys)
Around-Ascends [] x ys r = (r.above, r.right)
Around-Ascends (z ∷ xs) x ys r = (
  All-join z xs x ys r.left.0 r.below.0 r.above,
  Around-Ascends xs x ys
      (record { left = r.left.1; below = r.below.1; above = r.above; right = r.right }),
)

differs_sym : (a b : ℕ) → a ≢ b → b ≢ a
differs_sym a b n e = n (omega arith)

pub Distinct-Inserted :
    (a : ℕ) {xs ys : List ℕ} → Inserted a xs ys → All (λ y. a ≢ y) xs → Distinct xs → Distinct ys
Distinct-Inserted a (here xs) n d = (n, d)
Distinct-Inserted a (there x i) n d =
    (All-Inserted (λ y. x ≢ y) i (differs_sym a x n.0) d.0, Distinct-Inserted a i n.1 d.1)

pub length-Inserted {ℓ} :
    {A : Type ℓ} {a : A} {xs ys : List A} → Inserted a xs ys → length ys ≡ suc (length xs)
length-Inserted (here xs) = refl
length-Inserted (there x i) = ap suc (length-Inserted i)
