-- ===== src/RoutingTable/Buckets.antt =====
-- `Bucket` of src/routing_table.rs.
pub mod Moved
pub mod Halves
use mathlib.Core.Option
use dht_kad_rs.Base.{
  ℕ, zero, suc, ◌+◌, Bool, true, false, List, [], ◌∷◌, ◌++◌, filter, Option, none, some, ◌==◌,
  if◌then◌else◌, dec_lt, dec_le, get_elem?,
}
use dht_kad_rs.Keyutil.{common_prefix_length}
use dht_kad_rs.RoutingTable.Peers.{Peer, peer_eq}

pub record Bucket : Type 0 where
  pub index : ℕ
  pub peers : List Peer

unfoldable pub new : ℕ → Bucket
new index = record { index = index; peers = [] }

module _ {ℓ} {A : Type ℓ} where
  -- `iter().position`.
  unfoldable pub position : (A → Bool) → List A → Option ℕ
  position f [] = none
  position f (x ∷ xs) = if f x then some 0 else Option.map suc (position f xs)

  -- `Vec::remove`, less the value that it returns.
  unfoldable pub remove : List A → ℕ → List A
  remove [] i = []
  remove (x ∷ xs) zero = xs
  remove (x ∷ xs) (suc i) = x ∷ remove xs i

  -- `v.push(v.remove(i))`. The index comes from `position`, so it is in range.
  unfoldable pub move_to_end : List A → ℕ → List A
  unfolding remove
  move_to_end xs i = elim (get_elem? xs i) [ none ↦ xs | some x ↦ remove xs i ++ x ∷ [] ]

unfoldable pub move_to_front_if_exists : Bucket → Peer → Bucket × Bool
move_to_front_if_exists b p = elim (position (λ x. x == p) b.peers) [
  | none ↦ (b, false)
  | some i ↦ (record b { peers = move_to_end b.peers i }, true)
]

-- The bucket itself, less the peers that do not belong in it, and the next bucket with those.
unfoldable pub split : Bucket → ℕ → Bucket × Bucket
split b target = (
  record b { peers = filter (λ p. dec_le (common_prefix_length p.id target) b.index) b.peers },
  record {
    index = b.index + 1;
    peers = filter (λ p. dec_lt b.index (common_prefix_length p.id target)) b.peers;
  },
)
