-- ===== src/RoutingTable/Gathered.antt =====
-- The candidates of `nearest_peers` are distinct members of the table, from three buckets at most.
use mathlib.Core.List.{mem-append, Nodup-append, Mem-prop}
use mathlib.Core.Logic.Or
use mathlib.Core.HLevel.{×₃_prop}
use native.Mathlib.Bridge.{le_prop}
use dht_kad_rs.Base.{ℕ, ◌+◌, ◌-◌, ◌≤◌, ◌≢◌, Mem, Nodup, length, arith, ltb, ltb→lt}
use dht_kad_rs.Base.Front.{mem-if, Nodup-if}
use dht_kad_rs.RoutingTable.{RoutingTable}
use dht_kad_rs.RoutingTable.Peers.{Peer}
use dht_kad_rs.RoutingTable.Members.{members}
use dht_kad_rs.RoutingTable.Invariant.{IsWellFormed}
use dht_kad_rs.RoutingTable.Home.{home}
use dht_kad_rs.RoutingTable.Candidates.{
  peers_at, neighbours, candidates, peers_at-home, peers_at-Nodup,
}

module _ (rt : RoutingTable) (w : IsWellFormed rt) where
  -- The two neighbours of `i` are homes of other peers than its own.
  mem-neighbours :
      (p : Peer) (i : ℕ)
      → Mem p (neighbours rt i)
      → (home rt p ≢ i) × (home rt p ≤ i + 1) × (i ≤ home rt p + 1) × Mem p (members rt)
  unfolding neighbours
  mem-neighbours p i m =
      Or.elim (hlevel (le_prop, Mem-prop)) (mem-append.0 m)
        (λ below.
          let (test, here) = mem-if (ltb 0 i) _ below in
          let (place, member) = peers_at-home rt w p (i - 1) here in
          let pos = ltb→lt 0 i test in (omega arith, omega arith, omega arith, member))
        (λ above.
          let (_, here) = mem-if (ltb i _) _ above in
          let (place, member) = peers_at-home rt w p (i + 1) here in
          (omega arith, omega arith, omega arith, member))

  neighbours-Nodup : (i : ℕ) → Nodup (neighbours rt i)
  unfolding neighbours
  neighbours-Nodup i = Nodup-append.1 (
    Nodup-if (ltb 0 i) _ (peers_at-Nodup rt w (i - 1)),
    Nodup-if (ltb i _) _ (peers_at-Nodup rt w (i + 1)),
    λ p below above.
        let b = (peers_at-home rt w p (i - 1) (mem-if (ltb 0 i) _ below).1).0 in
        let a = (peers_at-home rt w p (i + 1) (mem-if (ltb i _) _ above).1).0 in
        absurd (omega (arith, a, b)),
  )

  pub candidates-Nodup : (i n : ℕ) → Nodup (candidates rt i n)
  unfolding candidates
  candidates-Nodup i n = Nodup-append.1 (
    peers_at-Nodup rt w i,
    Nodup-if (ltb (length (peers_at rt i)) n) _ (neighbours-Nodup i),
    λ p own around.
        (mem-neighbours p i (mem-if (ltb (length (peers_at rt i)) n) _ around).1).0
          (peers_at-home rt w p i own).0,
  )

  pub mem-candidates :
      (p : Peer) (i n : ℕ)
      → Mem p (candidates rt i n)
      → (home rt p ≤ i + 1) × (i ≤ home rt p + 1) × Mem p (members rt)
  unfolding candidates
  mem-candidates p i n m =
      Or.elim (×₃_prop le_prop le_prop Mem-prop) (mem-append.0 m)
        (λ own.
          let (place, member) = peers_at-home rt w p i own in (omega arith, omega arith, member))
        (λ around.
          let near = mem-neighbours p i (mem-if (ltb (length (peers_at rt i)) n) _ around).1 in
          (near.1, near.2, near.3))
