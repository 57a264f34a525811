-- ===== src/Base/Lists.antt =====
-- Lists measured and indexed by native numbers, under the library's names; `Vec` in the source.
use Prim.Native.Nat.{ℕ, zero, suc, ◌+◌, ◌≤◌, min}
use mathlib.Core.Path.{◌≡◌, refl, ap, subst, ◌∙◌}
use mathlib.Core.Logic.{∥∥₁_elim}
use mathlib.Core.List.{
  List, [], ◌∷◌, ◌++◌, map, filter, Mem, Perm, Permᴰ, Nodup, Nodup-cons, mem-cons, mem-cons_self,
  mem-cons_of_mem, Mem-prop, exists_perm_cons_of_mem,
}
use mathlib.Core.List.Perm
use mathlib.Core.Logic.Or
use native.Mathlib.Bridge.{le_prop}
use mathlib.Core.Option.{Option, none, some}
use native.Mathlib.Nat.{ℕ_set}
use native.Mathlib.Omega.{arith}

module _ {ℓ} {A : Type ℓ} where
  abbrev pub length : List A → ℕ
  length [] = 0
  length (x ∷ xs) = suc (length xs)

  -- `Vec::last`.
  abbrev pub last : List A → Option A
  last [] = none
  last (x ∷ xs) = elim xs [ [] ↦ some x | y ∷ ys ↦ last xs ]

  abbrev pub get_elem? : List A → ℕ → Option A
  get_elem? [] i = none
  get_elem? (x ∷ xs) zero = some x
  get_elem? (x ∷ xs) (suc i) = get_elem? xs i

  -- A write out of bounds changes nothing.
  abbrev pub set : List A → ℕ → A → List A
  set [] i v = []
  set (x ∷ xs) zero v = v ∷ xs
  set (x ∷ xs) (suc i) v = x ∷ set xs i v

  abbrev pub take : ℕ → List A → List A
  take zero xs = []
  take (suc n) [] = []
  take (suc n) (x ∷ xs) = x ∷ take n xs

  abbrev pub drop : ℕ → List A → List A
  drop zero xs = xs
  drop (suc n) [] = []
  drop (suc n) (x ∷ xs) = drop n xs

module _ {ℓ} {A : Type ℓ} where
  pub length-append : (xs ys : List A) → length (xs ++ ys) ≡ length xs + length ys
  length-append [] ys = omega arith
  length-append (x ∷ xs) ys = omega (arith, length-append xs ys)

  pub length-map {κ} : {B : Type κ} (f : A → B) (xs : List A) → length (map f xs) ≡ length xs
  length-map f [] = refl
  length-map f (x ∷ xs) = ap suc (length-map f xs)

  pub length-set : (xs : List A) (i : ℕ) (v : A) → length (set xs i v) ≡ length xs
  length-set [] i v = refl
  length-set (x ∷ xs) zero v = refl
  length-set (x ∷ xs) (suc i) v = ap suc (length-set xs i v)

  pub length-take : (n : ℕ) (xs : List A) → length (take n xs) ≡ min n (length xs)
  length-take zero xs = omega arith
  length-take (suc n) [] = omega arith
  length-take (suc n) (x ∷ xs) = omega (arith, length-take n xs)

  pub take-append-drop : (n : ℕ) (xs : List A) → take n xs ++ drop n xs ≡ xs
  take-append-drop zero xs = refl
  take-append-drop (suc n) [] = refl
  take-append-drop (suc n) (x ∷ xs) = rw (take-append-drop n xs)

  pub take_all : (n : ℕ) (xs : List A) → length xs ≤ n → take n xs ≡ xs
  take_all zero [] h = refl
  take_all zero (x ∷ xs) h = absurd (omega arith)
  take_all (suc n) [] h = refl
  take_all (suc n) (x ∷ xs) h = ap (◌∷◌ x) (take_all n xs (omega arith))

  pub length-filter-le {κ} :
      {P : A → Type κ} (d : (a : A) → Dec (P a)) (xs : List A) → length (filter d xs) ≤ length xs
  length-filter-le d [] = omega arith
  length-filter-le d (x ∷ xs) = ground (arith, length-filter-le d xs)

  length-Permᴰ : {xs ys : List A} → Permᴰ xs ys → length xs ≡ length ys
  length-Permᴰ Permᴰ.nil = refl
  length-Permᴰ (Permᴰ.cons x h) = ap suc (length-Permᴰ h)
  length-Permᴰ (Permᴰ.swap x y) = refl
  length-Permᴰ (Permᴰ.trans h k) = length-Permᴰ h ∙ length-Permᴰ k

  pub length-perm : {xs ys : List A} → Perm xs ys → length xs ≡ length ys
  length-perm h = ∥∥₁_elim h (ℕ_set _ _) length-Permᴰ

  -- Distinct elements of a list are no more than its elements.
  pub length-Nodup :
      (xs ys : List A) → Nodup xs → ((a : A) → Mem a xs → Mem a ys) → length xs ≤ length ys
  length-Nodup [] ys d inside = omega arith
  length-Nodup (x ∷ xs) ys d inside =
      ∥∥₁_elim (exists_perm_cons_of_mem (inside x mem-cons_self)) le_prop (λ w.
        let (rest, q) = w in
        let others = λ (a : A) (m : Mem a xs).
          Or.elim Mem-prop (mem-cons.0 ((Perm.mem_iff ∣ q ∣₁).0 (inside a (mem-cons_of_mem x m))))
            (λ z. absurd ((Nodup-cons.0 d).0 (subst (λ b. Mem b xs) z m))) (λ later. later) in
        omega (arith, length-Permᴰ q, length-Nodup xs rest (Nodup-cons.0 d).1 others))
