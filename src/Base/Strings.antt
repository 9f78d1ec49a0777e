-- ===== src/Base/Strings.antt =====
-- C strings without their NUL, and their comparison.
use Prim.Native.Nat.{ℕ, zero, suc, ◌+◌, ◌*◌, ◌-◌, ◌≤◌}
use mathlib.Core.Path.{◌≡◌, refl, sym}
use mathlib.Core.Logic.{inl, inr}
use mathlib.Core.Bool.{Bool, true, false, ◌&&◌}
use mathlib.Core.List.{List, [], ◌∷◌, ◌++◌}
use native.Mathlib.Omega.{arith}
use crtools.Base.Lists.{length}
use crtools.Base.Tests.{◌==◌, ==_iff, Bool-cases, leb, if◌then◌else◌}

abbrev pub Text : Type 0
Text = List ℕ

abbrev pub slash : ℕ
slash = 47

-- `!strcmp(a, b)`
unfoldable pub str_eq : Text → Text → Bool
str_eq [] [] = true
str_eq [] (y ∷ ys) = false
str_eq (x ∷ xs) [] = false
str_eq (x ∷ xs) (y ∷ ys) = (x == y) && str_eq xs ys

-- `!strncmp(a, b, n)`
unfoldable pub strn_eq : ℕ → Text → Text → Bool
strn_eq zero a b = true
strn_eq (suc n) [] [] = true
strn_eq (suc n) [] (y ∷ ys) = false
strn_eq (suc n) (x ∷ xs) [] = false
strn_eq (suc n) (x ∷ xs) (y ∷ ys) = (x == y) && strn_eq n xs ys

-- The value of the leading digits.
abbrev digits_from : ℕ → Text → ℕ
digits_from n [] = n
digits_from n (c ∷ cs) = if leb 48 c && leb c 57 then digits_from (n * 10 + (c - 48)) cs else n

-- `atoll` of a text that starts with a digit
unfoldable pub atoll : Text → ℕ
atoll text = digits_from 0 text

-- `path` starts with `prefix`.
abbrev pub StartsWith : Text → Text → Type 0
StartsWith path prefix = (rest : Text) × (path ≡ prefix ++ rest)

pub strn_eq-StartsWith :
    (a b : Text) → length a ≤ length b → strn_eq (length a) a b ≡ true → StartsWith b a
unfolding strn_eq
strn_eq-StartsWith [] b l e = (b, refl)
strn_eq-StartsWith (x ∷ xs) [] l e = absurd (omega arith)
strn_eq-StartsWith (x ∷ xs) (y ∷ ys) l e = elim (Bool-cases (x == y)) [
  | inl h ↦
      let (rest, r) = strn_eq-StartsWith xs ys (omega arith) (rw h at e) in
      let same : y ≡ x = sym ((==_iff x y).0 h) in (rest, rw (same, r) refl)
  | inr h ↦ let f : false ≡ true = (rw h at e) in absurd (cc)
]

pub strn_eq-append : (a rest : Text) → strn_eq (length a) a (a ++ rest) ≡ true
unfolding strn_eq
strn_eq-append [] rest = refl
strn_eq-append (x ∷ xs) rest =
    let h : (x == x) ≡ true = (==_iff x x).1 refl in rw h (strn_eq-append xs rest)
