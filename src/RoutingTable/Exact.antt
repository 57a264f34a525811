-- ===== src/RoutingTable/Exact.antt =====
-- When the bucket of the target has enough peers, the answer is exact: bits shared with the target
-- fall from bucket to bucket.
use mathlib.Core.List.{append-nil}
use mathlib.Core.List.Perm
use mathlib.Core.Logic.Or
use mathlib.Core.Logic.{∥∥₁_elim}
use native.Mathlib.Bridge.{le_prop}
use dht_kad_rs.Base.{
  dec_lt, ℕ_discrete, ℕ, ◌-◌, ◌≤◌, ◌<◌, ◌≡◌, ◌≢◌, List, Mem, length, length-take, length-perm, take,
  arith, done,
}
use dht_kad_rs.Base.Front.{mem-take, mem-take-or-drop, take-before-drop}
use dht_kad_rs.Base.Sort.{sort_by, sort_by-perm}
use dht_kad_rs.Keyutil.{IsKey, common_prefix_length}
use dht_kad_rs.RoutingTable.{RoutingTable, nearer, nearest_peers}
use dht_kad_rs.RoutingTable.Peers.{Peer}
use dht_kad_rs.RoutingTable.Members.{members}
use dht_kad_rs.RoutingTable.Invariant.{IsWellFormed}
use dht_kad_rs.RoutingTable.Home.{home}
use dht_kad_rs.RoutingTable.Candidates.{
  peers_at, target_index, candidates, nearest_peers_lem, peers_at-home,
}
use dht_kad_rs.Keyutil.Prefix.{
  common_prefix_length-le, common_prefix_length_comm, distance_of_prefix, prefix_trans,
  prefix_of_lt, prefix_of_eq,
}
use dht_kad_rs.RoutingTable.Home.{ideal_index_bounds, member_home}
use dht_kad_rs.RoutingTable.Overflow.{IsHome-bucket}
use dht_kad_rs.RoutingTable.Members.{stands_somewhere}
use dht_kad_rs.RoutingTable.Nearest.{distance, nearer-IsSorted}

-- A member has an identifier of 128 bits.
pub member-IsKey :
    (rt : RoutingTable) (p : Peer) → IsWellFormed rt → Mem p (members rt) → IsKey p.id
member-IsKey rt p w m =
    ∥∥₁_elim (stands_somewhere p rt.buckets m) le_prop
      (λ (i, (b, at, here)). (w.fits i b at).keys p here)

module _ (rt : RoutingTable) (target : ℕ) (w : IsWellFormed rt) (kt : IsKey target) where
  -- A peer of the target's bucket shares a longer prefix with the target than any other member.
  pub shares_more :
      (p q : Peer)
      → IsKey p.id
      → IsKey q.id
      → home rt p ≡ target_index rt target
      → home rt q ≢ target_index rt target
      → common_prefix_length q.id target < common_prefix_length p.id target
  shares_more p q kp kq hp hq =
      let own = rt.local.id in
      let last = length rt.buckets - 1 in
      let bp = ideal_index_bounds (common_prefix_length own p.id) last in
      let bq = ideal_index_bounds (common_prefix_length own q.id) last in
      let bt = ideal_index_bounds (common_prefix_length own target) last in
      elim (dec_lt (home rt q) (target_index rt target)) [
        | yes before ↦
            let exact = bq.2 (omega arith) in
            let apart = prefix_of_lt own q.id target w.own_key kq kt (omega arith) in
            omega (arith, prefix_trans own p.id target w.own_key kp kt, bp.1, bt.1, apart, exact)
        | no after ↦
            let exact_t = bt.2 (omega (arith, bq.0)) in
            let exact_p = bp.2 (omega (arith, bq.0)) in
            let apart = prefix_of_lt own target q.id w.own_key kt kq (omega (arith, bq.1)) in
            let small = common_prefix_length-le own q.id in
            let agree =
              prefix_of_eq own p.id target w.own_key kp kt (omega arith) (omega (arith, bq.1)) in
            omega (arith, apart, agree, exact_t, common_prefix_length_comm target q.id)
      ]

  pub closer :
      (p q : Peer)
      → Mem p (members rt)
      → Mem q (members rt)
      → home rt p ≡ target_index rt target
      → home rt q ≢ target_index rt target
      → distance target p < distance target q
  closer p q mp mq hp hq =
      let kp = member-IsKey rt p w mp in
      let kq = member-IsKey rt q w mq in
      distance_of_prefix p.id q.id target kp kq kt (shares_more p q kp kq hp hq)

-- The peers of a bucket are the members whose home it is.
pub home-peers_at :
    (rt : RoutingTable) (q : Peer)
    → IsWellFormed rt
    → Mem q (members rt)
    → Mem q (peers_at rt (home rt q))
home-peers_at rt q w m = let (b, at) = IsHome-bucket rt q w in rw at (member_home rt q b w at m)

candidates_own :
    (rt : RoutingTable) (i n : ℕ) → n ≤ length (peers_at rt i) → candidates rt i n ≡ peers_at rt i
unfolding candidates
candidates_own rt i n h = ground (arith, append-nil (peers_at rt i))

-- On a well-formed table, where the bucket of a target below 2^128 holds `n` peers or more, `nearest_peers` returns exactly `n`, and no
-- other member of the table is nearer to the target than one of them.
pub nearest_peers_exact :
    (rt : RoutingTable) (target n : ℕ)
    → IsWellFormed rt
    → IsKey target
    → n ≤ length (peers_at rt (target_index rt target))
    → (out : List Peer) × (nearest_peers rt target n ≡ done out)
      × (length out ≡ n)
      × ((p q : Peer)
          → Mem p out
          → Mem q (members rt)
          → ¬ Mem q out
          → distance target p ≤ distance target q)
nearest_peers_exact rt target n w kt enough =
    let i = target_index rt target in
    let ps = peers_at rt i in
    let own : candidates rt i n ≡ ps = candidates_own rt i n enough in
    let sorted = sort_by (nearer target) ps in
    (
      take n sorted,
      rw own at (nearest_peers_lem rt w target n),
      omega (arith, length-take n sorted, length-perm (sort_by-perm (nearer target) ps)),
      λ p q mp mq out_q.
          let in_ps = (Perm.mem_iff (sort_by-perm (nearer target) ps)).0 (mem-take n sorted mp) in
          let (hp, member) = peers_at-home rt w p i in_ps in
          elim (ℕ_discrete (home rt q) i) [
            | yes same ↦
                let q_in = rw same at (home-peers_at rt q w mq) in
                let q_sorted = (Perm.mem_iff (sort_by-perm (nearer target) ps)).1 q_in in
                Or.elim le_prop (mem-take-or-drop n sorted q_sorted) (λ m. absurd (out_q m))
                  (take-before-drop (λ a b. distance target a ≤ distance target b) (λ a b. le_prop)
                    n sorted (nearer-IsSorted target ps) mp)
            | no other ↦ omega (arith, closer rt target w kt p q member mq hp other)
          ],
    )
