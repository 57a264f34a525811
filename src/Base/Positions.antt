-- ===== src/Base/Positions.antt =====
-- What stands at a position of a vector after a write and after a push.
use mathlib.Core.Path.{◌≡◌, refl, ap}
use mathlib.Core.Logic.{◌≢◌, ◌⊎◌, inl, inr}
use mathlib.Core.List.{List, [], ◌∷◌, ◌++◌}
use mathlib.Core.Option.{some}
use Prim.Native.Nat.{ℕ, zero, suc, ◌-◌, ◌<◌}
use native.Mathlib.Omega.{arith}
use dht_kad_rs.Base.Lists.{length, get_elem?, set, length-append}

module _ {ℓ} {A : Type ℓ} where
  pub get_elem?-lt : (xs : List A) (i : ℕ) {a : A} → get_elem? xs i ≡ some a → i < length xs
  get_elem?-lt [] i h = cc
  get_elem?-lt (x ∷ xs) zero h = omega arith
  get_elem?-lt (x ∷ xs) (suc i) h = omega (arith, get_elem?-lt xs i h)

  pub get_elem?-in_range :
      (xs : List A) (i : ℕ) → i < length xs → (a : A) × (get_elem? xs i ≡ some a)
  get_elem?-in_range [] i h = absurd (omega arith)
  get_elem?-in_range (x ∷ xs) zero h = (x, refl)
  get_elem?-in_range (x ∷ xs) (suc i) h = get_elem?-in_range xs i (omega arith)

  -- A write is read back at its own position, and nowhere else.
  pub get_elem?-set_cases :
      (xs : List A) (i j : ℕ) (v : A) {a : A}
      → get_elem? (set xs i v) j ≡ some a
      → ((i ≡ j) × (a ≡ v)) ⊎ ((i ≢ j) × (get_elem? xs j ≡ some a))
  get_elem?-set_cases [] i j v h = cc
  get_elem?-set_cases (x ∷ xs) zero zero v h = inl (refl, ground arith)
  get_elem?-set_cases (x ∷ xs) zero (suc j) v h = inr (omega arith, h)
  get_elem?-set_cases (x ∷ xs) (suc i) zero v h = inr (omega arith, h)
  get_elem?-set_cases (x ∷ xs) (suc i) (suc j) v h = elim (get_elem?-set_cases xs i j v h) [
    | inl (same, value) ↦ inl (ap suc same, value)
    | inr (other, old) ↦ inr (omega arith, old)
  ]

  pub get_elem?-set_self :
      (xs : List A) (i : ℕ) (v : A) → i < length xs → get_elem? (set xs i v) i ≡ some v
  get_elem?-set_self [] i v h = absurd (omega arith)
  get_elem?-set_self (x ∷ xs) zero v h = refl
  get_elem?-set_self (x ∷ xs) (suc i) v h = get_elem?-set_self xs i v (omega arith)

  -- A push leaves the old positions and adds one.
  pub get_elem?-push_cases :
      (xs : List A) (j : ℕ) (v : A) {a : A}
      → get_elem? (xs ++ v ∷ []) j ≡ some a
      → ((j < length xs) × (get_elem? xs j ≡ some a)) ⊎ ((j ≡ length xs) × (a ≡ v))
  get_elem?-push_cases [] zero v h = inr (refl, ground arith)
  get_elem?-push_cases [] (suc j) v h = cc
  get_elem?-push_cases (x ∷ xs) zero v h = inl (omega arith, h)
  get_elem?-push_cases (x ∷ xs) (suc j) v h = elim (get_elem?-push_cases xs j v h) [
    | inl (old, value) ↦ inl (omega arith, value)
    | inr (last, value) ↦ inr (ap suc last, value)
  ]

  get_elem?-push : (xs : List A) (v : A) → get_elem? (xs ++ v ∷ []) (length xs) ≡ some v
  get_elem?-push [] v = refl
  get_elem?-push (x ∷ xs) v = get_elem?-push xs v

  pub get_elem?-last_push :
      (xs : List A) (v : A) → get_elem? (xs ++ v ∷ []) (length (xs ++ v ∷ []) - 1) ≡ some v
  get_elem?-last_push xs v =
      let end : length (xs ++ v ∷ []) - 1 ≡ length xs = omega (arith, length-append xs (v ∷ [])) in
      rw end (get_elem?-push xs v)
