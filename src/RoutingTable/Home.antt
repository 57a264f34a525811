-- ===== src/RoutingTable/Home.antt =====
-- The one bucket of a well-formed table that can hold a peer, and what may be put there.
use mathlib.Core.List.{Mem-prop, mem-cons, Nodup-cons}
use mathlib.Core.List.Perm
use mathlib.Core.Logic.{∥∥₁_elim}
use mathlib.Core.Logic.Or
use native.Mathlib.Bridge.{le_prop}
use native.Mathlib.Nat.{ℕ_set}
use dht_kad_rs.Base.{
  ℕ, ◌-◌, ◌≤◌, ◌<◌, ◌≡◌, sym, ◌∙◌, List, ◌∷◌, Mem, Perm, some, length, length-perm, get_elem?,
  get_elem?-lt, arith,
}
use dht_kad_rs.Keyutil.{IsKey, common_prefix_length}
use dht_kad_rs.RoutingTable.{RoutingTable, ideal_index}
use dht_kad_rs.RoutingTable.Peers.{Peer}
use dht_kad_rs.RoutingTable.Buckets.{Bucket}
use dht_kad_rs.RoutingTable.Members.{members, stands_somewhere}
use dht_kad_rs.RoutingTable.Invariant.{Fits, IsWellFormed}

-- Where `update` looks for `p`.
abbrev pub home : RoutingTable → Peer → ℕ
home rt p = ideal_index (common_prefix_length rt.local.id p.id) (length rt.buckets - 1)

pub ideal_index_bounds :
    (cpl last : ℕ)
    → (ideal_index cpl last ≤ last)
      × (ideal_index cpl last ≤ cpl)
      × (ideal_index cpl last < last → cpl ≡ ideal_index cpl last)
unfolding ideal_index
ideal_index_bounds cpl last = (ground arith, ground arith, λ h. ground arith)

pub ideal_index_unique :
    (cpl last i : ℕ) → i ≤ last → i ≤ cpl → (i < last → cpl ≡ i) → i ≡ ideal_index cpl last
unfolding ideal_index
ideal_index_unique cpl last i h k e = ground arith

-- A peer that the table holds stands in its home bucket.
pub member_home :
    (rt : RoutingTable) (p : Peer) (b : Bucket)
    → IsWellFormed rt
    → get_elem? rt.buckets (home rt p) ≡ some b
    → Mem p (members rt)
    → Mem p b.peers
member_home rt p b w at m =
    ∥∥₁_elim (stands_somewhere p rt.buckets m) Mem-prop λ (j, (c, found, here)).
      let f = w.fits j c found in
      let place : j ≡ home rt p =
        ideal_index_unique _ _ j (omega (arith, get_elem?-lt rt.buckets j found)) (f.shares p here)
          (λ inner. f.leaves inner p here) in
      let same : c ≡ b = cc in rw (← same) here

module _ {k own i last : ℕ} {b : Bucket} where
  -- The order of the peers in a bucket is free.
  pub Fits-perm :
      (ps : List Peer)
      → Perm ps b.peers
      → Fits k own i last b
      → Fits k own i last (record b { peers = ps })
  Fits-perm ps h f = record {
    indexed = f.indexed;
    shares = λ p m. f.shares p ((Perm.mem_iff h).0 m);
    leaves = λ inner p m. f.leaves inner p ((Perm.mem_iff h).0 m);
    within = omega (arith, length-perm h, f.within);
    distinct = Perm.nodup (Perm.symm h) f.distinct;
    keys = λ p m. f.keys p ((Perm.mem_iff h).0 m);
  }

  -- A new peer may be put in front of a home bucket with room.
  pub Fits-add :
      (p : Peer)
      → Fits k own i last b
      → i ≡ ideal_index (common_prefix_length own p.id) last
      → IsKey p.id
      → ¬ Mem p b.peers
      → length b.peers < k
      → Fits k own i last (record b { peers = p ∷ b.peers })
  Fits-add p f e key new room =
      let bounds = ideal_index_bounds (common_prefix_length own p.id) last in
      record {
        indexed = f.indexed;
        shares = λ q m.
            Or.elim le_prop (mem-cons.0 m) (λ same. rw same (omega (arith, e, bounds.1)))
              (f.shares q);
        leaves = λ inner q m.
            Or.elim (ℕ_set _ _) (mem-cons.0 m) (λ same. rw same (bounds.2 (omega arith) ∙ sym e))
              (f.leaves inner q);
        within = omega arith;
        distinct = Nodup-cons.1 (new, f.distinct);
        keys = λ q m. Or.elim le_prop (mem-cons.0 m) (λ same. rw same key) (f.keys q);
      }
