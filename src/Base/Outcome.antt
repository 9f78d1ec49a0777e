-- ===== src/Base/Outcome.antt =====
-- What a C function of this program comes back with: a value, a negative return code, or a stop at
-- a BUG_ON.
use mathlib.Core.Bool.{Bool, true, false}
use mathlib.Core.Option.{Option, none, some}

pub data Res {ℓ} (A : Type ℓ) : Type ℓ where
  ok : A → Res A
  err : Res A
  bug : Res A

infixl 5 ◌>>=◌ ◌>>◌
abbrev pub ◌>>=◌ {ℓ κ} : {A : Type ℓ} {B : Type κ} → Res A → (A → Res B) → Res B
ok a >>= f = f a
err >>= f = err
bug >>= f = bug

abbrev pub ◌>>◌ {ℓ} : {B : Type ℓ} → Res (Unit {0}) → Res B → Res B
m >> k = m >>= λ _. k

-- BUG_ON(b)
abbrev pub bug_on : Bool → Res (Unit {0})
bug_on true = bug
bug_on false = ok tt

-- `if (b) return -1;`
abbrev pub fail_on : Bool → Res (Unit {0})
fail_on true = err
fail_on false = ok tt

-- A call whose failure is a null pointer or a negative number.
abbrev pub or_err {ℓ} : {A : Type ℓ} → Option A → Res A
or_err none = err
or_err (some a) = ok a
