-- ===== src/Base/Front.antt =====
-- The front of a list and what is left of it, and a list that is there only if a test holds.
use mathlib.Core.Path.{◌≡◌, refl, sym, subst}
use mathlib.Core.List.{
  List, [], ◌++◌, Mem, not-mem-nil, Nodup-nil, Nodup, Pairwise, Nodup-append, Pairwise-append,
  mem-append, mem-append_left,
}
use mathlib.Core.Logic.{◌∨₁◌}
use Prim.Native.Nat.{ℕ}
use mathlib.Core.Bool.{Bool, true, false}
use dht_kad_rs.Base.Tests.{if◌then◌else◌}
use dht_kad_rs.Base.Lists.{take, drop, take-append-drop}

module _ {ℓ} {A : Type ℓ} (n : ℕ) (xs : List A) where
  pub mem-take : {a : A} → Mem a (take n xs) → Mem a xs
  mem-take {a} m = subst (Mem a) (take-append-drop n xs) (mem-append_left (drop n xs) m)

  pub mem-take-or-drop : {a : A} → Mem a xs → Mem a (take n xs) ∨₁ Mem a (drop n xs)
  mem-take-or-drop {a} m = mem-append.0 (subst (Mem a) (sym (take-append-drop n xs)) m)

  pub Nodup-take : Nodup xs → Nodup (take n xs)
  Nodup-take h = (Nodup-append.0 (subst Nodup (sym (take-append-drop n xs)) h)).0

module _ {ℓ κ} {A : Type ℓ} (R : A → A → Type κ) (prop : (a b : A) → IsProp (R a b)) (n : ℕ)
    (xs : List A) where
  split_pairs : Pairwise R xs → Pairwise R (take n xs ++ drop n xs)
  split_pairs h = subst (Pairwise R) (sym (take-append-drop n xs)) h

  pub Pairwise-take : Pairwise R xs → Pairwise R (take n xs)
  Pairwise-take h = ((Pairwise-append prop).0 (split_pairs h)).0

  -- In a sorted list the front comes before the rest.
  pub take-before-drop : Pairwise R xs → {a b : A} → Mem a (take n xs) → Mem b (drop n xs) → R a b
  take-before-drop h ma mb = ((Pairwise-append prop).0 (split_pairs h)).2 _ ma _ mb

module _ {ℓ} {A : Type ℓ} where
  pub mem-if :
      (test : Bool) (xs : List A) {a : A}
      → Mem a (if test then xs else [])
      → (test ≡ true) × Mem a xs
  mem-if true xs m = (refl, m)
  mem-if false xs m = absurd (not-mem-nil m)

  pub Nodup-if : (test : Bool) (xs : List A) → Nodup xs → Nodup (if test then xs else [])
  Nodup-if true xs h = h
  Nodup-if false xs h = Nodup-nil
