-- ===== src/Base/Tests.antt =====
-- Boolean tests on the native numbers, the conditional, and equality as an instance, as the source
-- writes `==` at integers, at vectors of bytes and at peers.
use Prim.Native.Nat.{ℕ, ◌≤◌, ◌<◌, compare, Ordering}
use mathlib.Core.Path.{◌≡◌, refl}
use mathlib.Core.Logic.{◌↔◌, ◌⊎◌, inl, inr}
use mathlib.Core.Bool.{Bool, true, false, ◌&&◌}
use mathlib.Core.Option.{Option, none, some}
use mathlib.Core.List.{List, [], ◌∷◌}
use native.Mathlib.Omega.{arith}

abbrev pub ltb : ℕ → ℕ → Bool
ltb a b = elim (compare a b) [ Ordering.lt ↦ true | _ ↦ false ]

abbrev pub leb : ℕ → ℕ → Bool
leb a b = elim (compare a b) [ Ordering.gt ↦ false | _ ↦ true ]

abbrev pub eqb : ℕ → ℕ → Bool
eqb a b = elim (compare a b) [ Ordering.eq ↦ true | _ ↦ false ]

infix 1 if◌then◌else◌
abbrev pub if◌then◌else◌ {ℓ} : {A : Type ℓ} → Bool → A → A → A
if true then x else y = x
if false then x else y = y

pub ltb→lt : (a b : ℕ) → ltb a b ≡ true → a < b
ltb→lt a b h = ground arith

pub lt→ltb : (a b : ℕ) → a < b → ltb a b ≡ true
lt→ltb a b h = ground arith

pub leb→le : (a b : ℕ) → leb a b ≡ true → a ≤ b
leb→le a b h = ground arith

pub le→leb : (a b : ℕ) → a ≤ b → leb a b ≡ true
le→leb a b h = ground arith

pub eqb_iff : (a b : ℕ) → (eqb a b ≡ true) ↔ (a ≡ b)
eqb_iff a b = ground arith

pub ruleset tests = (arith, ltb→lt, lt→ltb, leb→le, le→leb)

-- To split on a computed value and keep the equation.
pub Bool-cases : (b : Bool) → (b ≡ true) ⊎ (b ≡ false)
Bool-cases true = inl refl
Bool-cases false = inr refl

pub Option-cases {ℓ} : {A : Type ℓ} (o : Option A) → (o ≡ none) ⊎ ((a : A) × (o ≡ some a))
Option-cases none = inl refl
Option-cases (some a) = inr (a, refl)

-- `PartialEq`, with the law that the derived implementations meet.
pub record PartialEq {ℓ} (A : Type ℓ) : Type ℓ where
  pub same : A → A → Bool
  pub same_iff : (a b : A) → (same a b ≡ true) ↔ (a ≡ b)

infix 50 ◌==◌
abbrev pub ◌==◌ {ℓ} : {A : Type ℓ} ⦃e : PartialEq A⦄ → A → A → Bool
◌==◌ ⦃e⦄ = e.same

instance abbrev pub nat_eq : PartialEq ℕ
nat_eq = record { same = eqb; same_iff = eqb_iff }

module _ {ℓ} {A : Type ℓ} ⦃e : PartialEq A⦄ where
  pub eq_of_same : (a b : A) → (a == b) ≡ true → a ≡ b
  eq_of_same a b h = (e.same_iff a b).0 h

  pub same_of_eq : (a b : A) → a ≡ b → (a == b) ≡ true
  same_of_eq a b h = (e.same_iff a b).1 h

  abbrev pub eq_list : List A → List A → Bool
  eq_list [] [] = true
  eq_list [] (y ∷ ys) = false
  eq_list (x ∷ xs) [] = false
  eq_list (x ∷ xs) (y ∷ ys) = (x == y) && eq_list xs ys

  pub eq_list_iff : (xs ys : List A) → (eq_list xs ys ≡ true) ↔ (xs ≡ ys)
  eq_list_iff [] [] = ground arith
  eq_list_iff [] (y ∷ ys) = ground arith
  eq_list_iff (x ∷ xs) [] = ground arith
  eq_list_iff (x ∷ xs) (y ∷ ys) = ground (arith, e.same_iff x y, eq_list_iff xs ys)

instance abbrev pub list_eq {ℓ} : {A : Type ℓ} ⦃e : PartialEq A⦄ → PartialEq (List A)
list_eq = record { same = eq_list; same_iff = eq_list_iff }
