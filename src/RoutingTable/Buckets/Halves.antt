-- ===== src/RoutingTable/Buckets/Halves.antt =====
-- `split` shares the peers of a bucket out between it and the next one, by their prefix length.
use mathlib.Core.List.{mem-filter, perm_middle, filter-sublist}
use mathlib.Core.List.Nodup
use mathlib.Core.List.Perm
use dht_kad_rs.Base.{
  ℕ, ◌+◌, ◌≤◌, ◌<◌, ◌≡◌, refl, List, [], ◌∷◌, ◌++◌, filter, Mem, Perm, Nodup, dec_lt, dec_le,
  length, length-filter-le, arith,
}
use dht_kad_rs.Keyutil.{common_prefix_length}
use dht_kad_rs.RoutingTable.Peers.{Peer}
use dht_kad_rs.RoutingTable.Buckets.{Bucket, split}

module _ (b : Bucket) (target : ℕ) where
  abbrev pub kept : Bucket
  kept = (split b target).0

  abbrev pub moved : Bucket
  moved = (split b target).1

  pub split-index : (kept.index ≡ b.index) × (moved.index ≡ b.index + 1)
  unfolding split
  split-index = (refl, refl)

  -- What stays shares no more than the index of the bucket, and what moves shares more.
  pub mem-kept :
      {p : Peer} → Mem p kept.peers → Mem p b.peers × (common_prefix_length p.id target ≤ b.index)
  unfolding split
  mem-kept m = (mem-filter _).0 m

  pub mem-moved :
      {p : Peer} → Mem p moved.peers → Mem p b.peers × (b.index < common_prefix_length p.id target)
  unfolding split
  mem-moved m = (mem-filter _).0 m

  pub split-length : (length kept.peers ≤ length b.peers) × (length moved.peers ≤ length b.peers)
  unfolding split
  split-length = (length-filter-le _ b.peers, length-filter-le _ b.peers)

  pub split-Nodup : Nodup b.peers → Nodup kept.peers × Nodup moved.peers
  unfolding split
  split-Nodup h = (Nodup.sublist (filter-sublist _) h, Nodup.sublist (filter-sublist _) h)

shared_out :
    (i target : ℕ) (ps : List Peer)
    → Perm ps (
        filter (λ p. dec_le (common_prefix_length p.id target) i) ps
        ++ filter (λ p. dec_lt i (common_prefix_length p.id target)) ps)
shared_out i target [] = Perm.nil
shared_out i target (p ∷ ps) =
    let rest = Perm.cons p (shared_out i target ps) in
    ground (
      arith,
      rest,
      Perm.trans rest (
          Perm.symm (
            perm_middle (filter (λ q. dec_le (common_prefix_length q.id target) i) ps)
              (filter (λ q. dec_lt i (common_prefix_length q.id target)) ps))),
    )

-- No peer is lost, copied or made up.
pub split-perm :
    (b : Bucket) (target : ℕ) → Perm ((kept b target).peers ++ (moved b target).peers) b.peers
unfolding split
split-perm b target = Perm.symm (shared_out b.index target b.peers)
