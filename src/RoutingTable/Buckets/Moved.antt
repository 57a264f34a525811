-- ===== src/RoutingTable/Buckets/Moved.antt =====
-- `move_to_front_if_exists` moves the peer to the end of its bucket, where the source keeps the one
-- that was seen last, and loses nobody.
use mathlib.Core.List.{not-mem-nil, mem-cons}
use mathlib.Core.List.Perm
use mathlib.Core.Logic.Or
use mathlib.Core.HLevel.{⊥_prop}
use dht_kad_rs.Base.{
  ℕ, suc, Bool, true, false, ◌≡◌, refl, sym, ◌⊎◌, inl, inr, List, [], ◌∷◌, ◌++◌, Mem, Perm, none,
  some, ◌==◌, PartialEq, get_elem?, Bool-cases, Option-cases, arith, same_of_eq, eq_of_same,
}
use dht_kad_rs.RoutingTable.Peers.{Peer, peer_eq}
use dht_kad_rs.RoutingTable.Buckets.{Bucket, position, remove, move_to_end, move_to_front_if_exists}

module _ {ℓ} {A : Type ℓ} ⦃e : PartialEq A⦄ (p : A) where
  position_skip :
      (x : A) (xs : List A)
      → position (λ x. x == p) (x ∷ xs) ≡ none
      → ((x == p) ≡ false) × (position (λ x. x == p) xs ≡ none)
  unfolding position
  position_skip x xs h = ground arith

  -- Either the element is at the head, or it is further on.
  position_step :
      (x : A) (xs : List A) (i : ℕ)
      → position (λ x. x == p) (x ∷ xs) ≡ some i
      → (((x == p) ≡ true) × (i ≡ 0))
        ⊎ ((j : ℕ) × ((x == p) ≡ false) × (position (λ x. x == p) xs ≡ some j) × (i ≡ suc j))
  unfolding position
  position_step x xs i h = elim (Option-cases (position (λ y. y == p) xs)) [
    | inl nowhere ↦ ground arith
    | inr (j, later) ↦ elim (Bool-cases (x == p)) [
      | inl hit ↦ inl (hit, ground arith)
      | inr miss ↦ inr (j, miss, later, ground arith)
    ]
  ]

  position_empty : (i : ℕ) → position (λ x. x == p) [] ≡ some i → ⊥
  unfolding position
  position_empty i h = cc

  position-none : (xs : List A) → position (λ x. x == p) xs ≡ none → ¬ Mem p xs
  position-none [] h m = not-mem-nil m
  position-none (x ∷ xs) h m =
      let (miss, rest) = position_skip x xs h in
      Or.elim ⊥_prop (mem-cons.0 m) (λ here. cc (miss, same_of_eq x p (sym here)))
        (position-none xs rest)

  -- The element that is found comes out whole, and the rest keeps its order.
  position-some :
      (xs : List A) (i : ℕ)
      → position (λ x. x == p) xs ≡ some i
      → (get_elem? xs i ≡ some p) × Perm (p ∷ remove xs i) xs
  unfolding remove
  position-some [] i h = absurd (position_empty i h)
  position-some (x ∷ xs) i h = elim (position_step x xs i h) [
    | inl (hit, at_head) ↦ let same = eq_of_same x p hit in rw (at_head, same) (refl, Perm.rfl)
    | inr (j, miss, later, next) ↦
        let (found, rest) = position-some xs j later in
        rw next (found, Perm.trans (Perm.swap x p (remove xs j)) (Perm.cons x rest))
  ]

-- The two outcomes of `move_to_front_if_exists`.
pub data Moves (b : Bucket) (p : Peer) : Bucket × Bool → Type 0 where
  absent : ¬ Mem p b.peers → Moves b p (b, false)
  present :
      {rest : List Peer}
      → Perm (p ∷ rest) b.peers
      → Moves b p (record b { peers = rest ++ p ∷ [] }, true)

pub move_to_front_if_exists_lem : (b : Bucket) (p : Peer) → Moves b p (move_to_front_if_exists b p)
unfolding move_to_front_if_exists move_to_end
move_to_front_if_exists_lem b p = elim (Option-cases (position (λ x. x == p) b.peers)) [
  | inl nowhere ↦ rw (nowhere, move_to_front_if_exists) (absent (position-none p b.peers nowhere))
  | inr (i, at) ↦
      let (found, rest) = position-some p b.peers i at in
      rw (at, move_to_front_if_exists, found, move_to_end) (present rest)
]
