-- ===== src/RoutingTable/Filled.antt =====
-- A table with one bucket that is not full: a new peer goes to its end, and the nearest peers are all.
use dht_kad_rs.Base.{
  Bool-cases, inl, inr, ℕ, ◌≤◌, ◌<◌, ◌≡◌, refl, ap, List, [], ◌∷◌, ◌++◌, Mem, ltb, true, false,
  length, length-perm, take_all, arith, Bool, done, ok,
}
use mathlib.Core.List.{append-nil}
use dht_kad_rs.Base.Sort.{sort_by, sort_by-perm}
use dht_kad_rs.Keyutil.{common_prefix_length}
use dht_kad_rs.RoutingTable.{
  RoutingTable, update, insert_new, add_peer_to_bucket, with_bucket, last_index, bucket_at,
  ideal_index, nearest_peers, k_nearest_peers, surrounding, nearer,
}
use dht_kad_rs.RoutingTable.Peers.{Peer}
use dht_kad_rs.RoutingTable.Buckets.{Bucket, move_to_front_if_exists}
use dht_kad_rs.RoutingTable.Buckets.Moved.{Moves, absent, present, move_to_front_if_exists_lem}
use dht_kad_rs.RoutingTable.Home.{ideal_index_bounds}
use mathlib.Core.List.{mem-cons_self}
use mathlib.Core.List.Perm

abbrev pub filled : ℕ → Peer → List Peer → RoutingTable
filled k local ps = record { k = k; local = local; buckets = record { index = 0; peers = ps } ∷ [] }

first_bucket : (a b : ℕ) → ideal_index (common_prefix_length a b) 0 ≡ 0
first_bucket a b = omega (arith, (ideal_index_bounds (common_prefix_length a b) 0).0)

-- A peer that is not there is not moved.
unmoved :
    (b : Bucket) (p : Peer) (r : Bucket × Bool) → Moves b p r → ¬ Mem p b.peers → r ≡ (b, false)
unmoved b p r (absent _) out = refl
unmoved b p r (present perm) out = absurd (out ((Perm.mem_iff perm).0 mem-cons_self))

pub update-filled :
    (k : ℕ) (local p : Peer) (ps : List Peer)
    → ¬ Mem p ps
    → length ps < k
    → update (filled k local ps) p ≡ done (filled k local (ps ++ p ∷ []), ok tt)
unfolding update insert_new add_peer_to_bucket with_bucket last_index bucket_at
update-filled k local p ps out space =
    let b : Bucket = record { index = 0; peers = ps } in
    let same = unmoved b p (move_to_front_if_exists b p) (move_to_front_if_exists_lem b p) out in
    let room : ltb (length ps) k ≡ true = ground arith in
    rw (first_bucket local.id p.id, same, room)

pub k_nearest_peers-filled :
    (k : ℕ) (local : Peer) (ps : List Peer) (target : ℕ)
    → length ps ≤ k
    → k_nearest_peers (filled k local ps) target ≡ done (sort_by (nearer target) ps)
unfolding k_nearest_peers nearest_peers last_index bucket_at surrounding
k_nearest_peers-filled k local ps target few =
    let whole =
      take_all k (sort_by (nearer target) ps)
        (omega (arith, few, length-perm (sort_by-perm (nearer target) ps))) in
    elim (Bool-cases (ltb (length ps) k)) [
      | inl small ↦ rw (first_bucket local.id target, small, append-nil ps) (ap done whole)
      | inr full ↦ rw (first_bucket local.id target, full, append-nil ps) (ap done whole)
    ]
