-- ===== src/RoutingTable/Missed.antt =====
-- `nearest_peers` looks at three buckets only, and what it can pass over.
use mathlib.Core.List.{mem-append_left, mem-append_right}
use mathlib.Core.List.Perm
use dht_kad_rs.Base.{
  ℕ, ◌+◌, ◌-◌, ◌≤◌, ◌<◌, ◌≡◌, List, Mem, length, length-perm, take_all, lt→ltb, arith, done,
}
use dht_kad_rs.Base.Sort.{sort_by, sort_by-perm}
use dht_kad_rs.Keyutil.{IsKey, common_prefix_length}
use dht_kad_rs.RoutingTable.{RoutingTable, nearer, nearest_peers}
use dht_kad_rs.RoutingTable.Peers.{Peer}
use dht_kad_rs.RoutingTable.Members.{members}
use dht_kad_rs.RoutingTable.Invariant.{IsWellFormed}
use dht_kad_rs.RoutingTable.Home.{home}
use dht_kad_rs.RoutingTable.Candidates.{
  peers_at, target_index, neighbours, candidates, nearest_peers_lem,
}
use dht_kad_rs.RoutingTable.Gathered.{mem-candidates}
use dht_kad_rs.Keyutil.Prefix.{common_prefix_length_comm, distance_of_prefix, prefix_of_lt}
use dht_kad_rs.RoutingTable.Home.{ideal_index_bounds}
use dht_kad_rs.RoutingTable.Nearest.{distance}
use dht_kad_rs.RoutingTable.Exact.{member-IsKey, home-peers_at}

-- With room left, the peers one bucket below are among the candidates.
candidates-below :
    (rt : RoutingTable) (p : Peer) (i n : ℕ)
    → IsWellFormed rt
    → Mem p (members rt)
    → home rt p + 1 ≡ i
    → length (peers_at rt i) < n
    → Mem p (candidates rt i n)
unfolding candidates neighbours
candidates-below rt p i n w m e short =
    let below : i - 1 ≡ home rt p = omega arith in
    let here : Mem p (peers_at rt (i - 1)) = rw below (home-peers_at rt p w m) in
    mem-append_right (peers_at rt i) (
      rw (lt→ltb (length (peers_at rt i)) n short, lt→ltb 0 i (omega arith))
        (mem-append_left _ here))

-- Behind the bucket of the target everybody is nearer than before it.
beyond_closer :
    (rt : RoutingTable) (target : ℕ) (p q : Peer)
    → IsWellFormed rt
    → IsKey target
    → Mem p (members rt)
    → Mem q (members rt)
    → home rt p < target_index rt target
    → target_index rt target < home rt q
    → distance target q < distance target p
beyond_closer rt target p q w kt mp mq before after =
    let own = rt.local.id in
    let last = length rt.buckets - 1 in
    let kp = member-IsKey rt p w mp in
    let kq = member-IsKey rt q w mq in
    let bp = ideal_index_bounds (common_prefix_length own p.id) last in
    let bq = ideal_index_bounds (common_prefix_length own q.id) last in
    let bt = ideal_index_bounds (common_prefix_length own target) last in
    let exact_p = bp.2 (omega (arith, bt.0)) in
    let exact_t = bt.2 (omega (arith, bq.0)) in
    let apart_p = prefix_of_lt own p.id target w.own_key kp kt (omega (arith, bt.1)) in
    let apart_q = prefix_of_lt own target q.id w.own_key kt kq (omega (arith, bq.1)) in
    distance_of_prefix q.id p.id target kq kp kt
      (omega (arith, apart_p, apart_q, exact_p, exact_t, common_prefix_length_comm target q.id))

-- On a well-formed table, let the bucket of a target below 2^128 hold fewer than `n` peers, and let it
-- and its two neighbours together hold `n` at most. Then of two members whose homes are one bucket
-- before and two buckets behind that of the target, the second is nearer to the target, and
-- `nearest_peers` returns the first and not the second.
pub nearest_peers_misses :
    (rt : RoutingTable) (target n : ℕ) (p q : Peer)
    → IsWellFormed rt
    → IsKey target
    → Mem p (members rt)
    → Mem q (members rt)
    → home rt p + 1 ≡ target_index rt target
    → home rt q ≡ target_index rt target + 2
    → length (candidates rt (target_index rt target) n) ≤ n
    → length (peers_at rt (target_index rt target)) < n
    → (out : List Peer) × (nearest_peers rt target n ≡ done out)
      × Mem p out
      × ¬ Mem q out
      × (distance target q < distance target p)
nearest_peers_misses rt target n p q w kt mp mq hp hq fits short =
    let i = target_index rt target in
    let sorted = sort_by (nearer target) (candidates rt i n) in
    let all = sort_by-perm (nearer target) (candidates rt i n) in
    let whole = take_all n sorted (omega (arith, length-perm all)) in
    let p_in = candidates-below rt p i n w mp hp short in
    (
      sorted,
      rw whole at (nearest_peers_lem rt w target n),
      (Perm.mem_iff all).1 p_in,
      λ m. absurd (omega (arith, (mem-candidates rt w q i n ((Perm.mem_iff all).0 m)).0)),
      beyond_closer rt target p q w kt mp mq (omega arith) (omega arith),
    )
