-- ===== src/Base/Outcomes.antt =====
-- What a call comes to: a value, a panic (an index out of range, an `unwrap` of nothing, an
-- underflow), or a recursion that its fuel does not cover. `Result` is the source's own.
use mathlib.Core.Bool.{Bool, true, false}
use mathlib.Core.Option.{Option, none, some}
use mathlib.Core.Path.{◌≡◌, refl}
use mathlib.Core.Logic.{◌⊎◌, inl, inr}

pub data Outcome {ℓ} (A : Type ℓ) : Type ℓ where
  done : A → Outcome A
  panicked : Outcome A
  exhausted : Outcome A

infixl 5 ◌>>=◌
abbrev pub ◌>>=◌ {ℓ κ} : {A : Type ℓ} {B : Type κ} → Outcome A → (A → Outcome B) → Outcome B
done a >>= f = f a
panicked >>= f = panicked
exhausted >>= f = exhausted

-- `unwrap`, and an index into a vector.
abbrev pub unwrap {ℓ} : {A : Type ℓ} → Option A → Outcome A
unwrap none = panicked
unwrap (some a) = done a

-- `assert!` of the source's own tests.
abbrev pub assert : Bool → Outcome (Unit {0})
assert true = done tt
assert false = panicked

pub data Result {ℓ κ} (A : Type ℓ) (E : Type κ) : Type (ℓ ⊔ κ) where
  ok : A → Result A E
  err : E → Result A E

-- A chain that returns got a value from its first step.
pub bind-returns {ℓ κ} :
    {A : Type ℓ} {B : Type κ} {f : A → Outcome B} {b : B} (o : Outcome A)
    → (o >>= f) ≡ done b
    → (a : A) × (o ≡ done a) × (f a ≡ done b)
bind-returns (done a) e = (a, refl, e)
bind-returns panicked e = cc
bind-returns exhausted e = cc

pub unwrap-returns {ℓ} : {A : Type ℓ} {a : A} (o : Option A) → unwrap o ≡ done a → o ≡ some a
unwrap-returns none e = cc
unwrap-returns (some a) e = cc

pub Result-cases {ℓ κ} :
    {A : Type ℓ} {E : Type κ} (r : Result A E) → ((a : A) × (r ≡ ok a)) ⊎ ((e : E) × (r ≡ err e))
Result-cases (ok a) = inl (a, refl)
Result-cases (err e) = inr (e, refl)
