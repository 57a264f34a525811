-- ===== src/Service/Waiting.antt =====
-- When `wait_for_connection` ends.
use mathlib.Core.List.{not-mem-nil, mem-cons_self}
use dht_kad_rs.Base.{
  ℕ, ◌<◌, ◌≤◌, ◌≡◌, refl, ap, ◌∙◌, List, [], ◌∷◌, ◌++◌, All, Mem, length, leb, true, arith, done,
  exhausted, length-take, length-append, ◌-◌, length-perm,
}
use dht_kad_rs.Base.Sort.{sort_by, sort_by-perm}
use dht_kad_rs.RoutingTable.{RoutingTable, nearest_peers, nearer}
use dht_kad_rs.RoutingTable.Peers.{Peer}
use dht_kad_rs.RoutingTable.Buckets.{Bucket}
use dht_kad_rs.RoutingTable.Members.{members}
use dht_kad_rs.RoutingTable.Candidates.{candidates, peers_at, target_index, nearest_peers_lem}
use dht_kad_rs.Keyutil.{common_prefix_length}
use dht_kad_rs.RoutingTable.Home.{ideal_index_bounds}
use dht_kad_rs.RoutingTable.Nearest.{nearest_peers-Answers, front}
use dht_kad_rs.RoutingTable.Invariant.{IsWellFormed}
use dht_kad_rs.Service.{wait_for_connection}

-- Nobody is in the table.
abbrev pub IsQuiet : RoutingTable → Type 0
IsQuiet rt = IsWellFormed rt × (members rt ≡ [])

-- The table has one bucket, with a peer in it.
abbrev pub IsEntered : RoutingTable → Type 0
IsEntered rt = IsWellFormed rt × (b : Bucket) × (rt.buckets ≡ b ∷ []) × (0 < length b.peers)

all_gone : (out : List Peer) → ((p : Peer) → ¬ Mem p out) → out ≡ []
all_gone [] none_in = refl
all_gone (p ∷ ps) none_in = absurd (none_in p mem-cons_self)

quiet_lem : (rt : RoutingTable) (target n : ℕ) → IsQuiet rt → nearest_peers rt target n ≡ done []
quiet_lem rt target n (w, nobody) =
    let (out, e, a) = nearest_peers-Answers rt target n w in
    e ∙ ap done (all_gone out (λ p m. not-mem-nil (rw nobody at (a.from_table p m))))

in_only_bucket :
    (rt : RoutingTable) (target n : ℕ)
    → IsEntered rt
    → 1 ≤ length (candidates rt (target_index rt target) n)
unfolding candidates
in_only_bucket rt target n (w, b, one, some_peer) =
    let bounds =
      ideal_index_bounds (common_prefix_length rt.local.id target) (length rt.buckets - 1) in
    let alone : length rt.buckets ≡ 1 = ap length one in
    let first : target_index rt target ≡ 0 = omega (arith, bounds.0, alone) in
    let here : peers_at rt (target_index rt target) ≡ b.peers = rw (first, one) in
    rw (length-append, here) (omega arith)

entered_lem :
    (rt : RoutingTable) (target : ℕ)
    → IsEntered rt
    → (near : List Peer) × (nearest_peers rt target 2 ≡ done near) × (1 ≤ length near)
entered_lem rt target entered =
    let all = candidates rt (target_index rt target) 2 in
    let sorted = length-perm (sort_by-perm (nearer target) all) in
    (
      front rt target 2,
      nearest_peers_lem rt entered.0 target 2,
      omega (
        arith,
        length-take 2 (sort_by (nearer target) all),
        sorted,
        in_only_bucket rt target 2 entered,
      ),
    )

-- The wait goes on over every table that nobody has entered, and it ends at the first table that has a
-- peer in its only bucket.
pub wait_for_connection_lem :
    (id : ℕ) (quiet : List RoutingTable) (rt : RoutingTable) (rest : List RoutingTable)
    → All IsQuiet quiet
    → IsEntered rt
    → (wait_for_connection id quiet ≡ exhausted)
      × (wait_for_connection id (quiet ++ rt ∷ rest) ≡ done tt)
unfolding wait_for_connection
wait_for_connection_lem id [] rt rest tt entered =
    let (near, e, found) = entered_lem rt id entered in
    let ends : leb 1 (length near) ≡ true = ground arith in (refl, rw (e, ends))
wait_for_connection_lem id (q ∷ quiet) rt rest (nobody, others) entered =
    let (waits, ends) = wait_for_connection_lem id quiet rt rest others entered in
    (rw (quiet_lem q id 2 nobody) waits, rw (quiet_lem q id 2 nobody) ends)
