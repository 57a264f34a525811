-- ===== src/Base/Every.antt =====
-- A predicate on every element of a list.
use mathlib.Core.Path.{◌≡◌, subst, sym}
use mathlib.Core.List.{
  List, [], ◌∷◌, ◌++◌, Mem, Mem-prop, mem-cons, not-mem-nil, mem-cons_self, mem-cons_of_mem,
}
use mathlib.Core.Logic.Or
use mathlib.Core.Option.{some}
use Prim.Native.Nat.{ℕ, zero, suc}
use dht_kad_rs.Base.Lists.{get_elem?, set}

abbrev pub All {ℓ κ} : {A : Type ℓ} → (A → Type κ) → List A → Type κ
All P [] = Unit
All P (x ∷ xs) = P x × All P xs

pub All-imp {ℓ κ μ} :
    {A : Type ℓ} {P : A → Type κ} {Q : A → Type μ} (xs : List A)
    → ((x : A) → Mem x xs → P x → Q x)
    → All P xs
    → All Q xs
All-imp [] f h = tt
All-imp (x ∷ xs) f (h, hs) = (f x mem-cons_self h, All-imp xs (λ y m. f y (mem-cons_of_mem x m)) hs)

module _ {ℓ κ} {A : Type ℓ} (P : A → Type κ) where
  pub All-Mem : (xs : List A) → ((x : A) → Mem x xs → P x) → All P xs
  All-Mem [] f = tt
  All-Mem (x ∷ xs) f = (f x mem-cons_self, All-Mem xs (λ y m. f y (mem-cons_of_mem x m)))

  pub All-append : (xs ys : List A) → All P xs → All P ys → All P (xs ++ ys)
  All-append [] ys hx hy = hy
  All-append (x ∷ xs) ys (h, hs) hy = (h, All-append xs ys hs hy)

  pub All-get_elem? : (xs : List A) (i : ℕ) {x : A} → All P xs → get_elem? xs i ≡ some x → P x
  All-get_elem? [] i h e = cc
  All-get_elem? (y ∷ ys) zero {x} (h, hs) e = let same : y ≡ x = cc in subst P same h
  All-get_elem? (y ∷ ys) (suc i) (h, hs) e = All-get_elem? ys i hs e

  pub All-set : (xs : List A) (i : ℕ) (x : A) → All P xs → P x → All P (set xs i x)
  All-set [] i x hs p = tt
  All-set (y ∷ ys) zero x (h, hs) p = (p, hs)
  All-set (y ∷ ys) (suc i) x (h, hs) p = (h, All-set ys i x hs p)

-- `n` times the same element.
abbrev pub repeat {ℓ} : {A : Type ℓ} → ℕ → A → List A
repeat zero x = []
repeat (suc n) x = x ∷ repeat n x

pub All-repeat {ℓ κ} : {A : Type ℓ} (P : A → Type κ) (n : ℕ) (x : A) → P x → All P (repeat n x)
All-repeat P zero x h = tt
All-repeat P (suc n) x h = (h, All-repeat P n x h)

-- Where elements can be compared, what holds of all holds of one that is there.
pub All-find {ℓ κ} :
    {A : Type ℓ} (dec : (a b : A) → Dec (a ≡ b)) (P : A → Type κ) (xs : List A) (x : A)
    → All P xs
    → Mem x xs
    → P x
All-find dec P [] x h m = absurd (not-mem-nil m)
All-find dec P (y ∷ ys) x (h, hs) m = elim (dec x y) [
  | yes same ↦ subst P (sym same) h
  | no other ↦
      All-find dec P ys x hs
        (Or.elim Mem-prop (mem-cons.0 m) (λ z. absurd (other z)) (λ later. later))
]
