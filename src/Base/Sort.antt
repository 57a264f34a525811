-- ===== src/Base/Sort.antt =====
-- `slice::sort_by`, the standard library's stable sort. A stable sort has one result, so the
-- insertion sort below computes it.
use mathlib.Core.Path.{◌≡◌, sym, subst}
use mathlib.Core.Bool.{Bool, true, false, Bool-set}
use mathlib.Core.Logic.Or
use mathlib.Core.Logic.{inl, inr}
use mathlib.Core.List.{List, [], ◌∷◌, Mem, Perm, Pairwise, Pairwise-singleton, mem-cons}
use mathlib.Core.List.Perm
use dht_kad_rs.Base.Every.{All}
use dht_kad_rs.Base.Tests.{if◌then◌else◌, Bool-cases}

module _ {ℓ} {A : Type ℓ} (le : A → A → Bool) where
  -- In front of the first element that is not below `x`, so that equal elements keep their order.
  unfoldable pub insert : A → List A → List A
  insert x [] = x ∷ []
  insert x (y ∷ ys) = if le x y then x ∷ y ∷ ys else y ∷ insert x ys

  unfoldable pub sort_by : List A → List A
  sort_by [] = []
  sort_by (x ∷ xs) = insert x (sort_by xs)

  abbrev pub IsSorted : List A → Type ℓ
  IsSorted = Pairwise (λ a b. le a b ≡ true)

module _ {ℓ} {A : Type ℓ} (le : A → A → Bool) where
  insert-perm : (x : A) (l : List A) → Perm (insert le x l) (x ∷ l)
  unfolding insert
  insert-perm x [] = Perm.rfl
  insert-perm x (y ∷ ys) = elim (Bool-cases (le x y)) [
    | inl first ↦ rw first Perm.rfl
    | inr later ↦ rw later (Perm.trans (Perm.cons y (insert-perm x ys)) (Perm.swap x y ys))
  ]

  pub sort_by-perm : (l : List A) → Perm (sort_by le l) l
  unfolding sort_by
  sort_by-perm [] = Perm.rfl
  sort_by-perm (x ∷ xs) = Perm.trans (insert-perm x (sort_by le xs)) (Perm.cons x (sort_by-perm xs))

module _ {ℓ} {A : Type ℓ} (le : A → A → Bool)
    (trans : (a b c : A) → le a b ≡ true → le b c ≡ true → le a c ≡ true)
    (total : (a b : A) → le a b ≡ false → le b a ≡ true) where
  IsBelow-cons :
      {x y : A} {l : List A}
      → le x y ≡ true
      → ((a : A) → Mem a l → le x a ≡ true)
      → (a : A) → Mem a (y ∷ l)
      → le x a ≡ true
  IsBelow-cons {x} p h a m =
      Or.elim (Bool-set (le x a) true) (mem-cons.0 m) (λ e. subst (λ b. le x b ≡ true) (sym e) p)
        (h a)

  insert-IsSorted : (x : A) {l : List A} → IsSorted le l → IsSorted le (insert le x l)
  unfolding insert
  insert-IsSorted x Pairwise.nil = Pairwise-singleton _ x
  insert-IsSorted x (Pairwise.cons {a = y} {l = ys} below s) =
      let whole = Pairwise.cons below s in
      elim (Bool-cases (le x y)) [
        | inl first ↦
            rw first
              (Pairwise.cons (IsBelow-cons first (λ a m. trans x y a first (below a m))) whole)
        | inr later ↦ rw later (
            Pairwise.cons
              (λ a m.
                IsBelow-cons (total x y later) below a ((Perm.mem_iff (insert-perm le x ys)).0 m))
              (insert-IsSorted x s))
      ]

  pub sort_by-IsSorted : (l : List A) → IsSorted le (sort_by le l)
  unfolding sort_by
  sort_by-IsSorted [] = Pairwise.nil
  sort_by-IsSorted (x ∷ xs) = insert-IsSorted x (sort_by-IsSorted xs)

-- What holds of every element holds of every sorted element.
module _ {ℓ κ} {A : Type ℓ} (T : A → Type κ) (le : A → A → Bool) where
  All-insert : (x : A) (xs : List A) → T x → All T xs → All T (insert le x xs)
  unfolding insert
  All-insert x [] t ts = (t, tt)
  All-insert x (y ∷ ys) t (u, us) = elim (Bool-cases (le x y)) [
    | inl first ↦ rw first (t, (u, us))
    | inr later ↦ rw later (u, All-insert x ys t us)
  ]

  pub All-sort_by : (xs : List A) → All T xs → All T (sort_by le xs)
  unfolding sort_by
  All-sort_by [] ts = tt
  All-sort_by (x ∷ xs) (t, ts) = All-insert x (sort_by le xs) t (All-sort_by xs ts)
