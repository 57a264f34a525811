-- ===== src/RoutingTable/Candidates.antt =====
-- `nearest_peers` reads the bucket of the target and, when that has too few peers, its neighbours.
use mathlib.Core.List.{not-mem-nil, Nodup-nil}
use dht_kad_rs.Base.{
  ℕ, ◌+◌, ◌-◌, ◌<◌, ◌≡◌, refl, sym, List, [], ◌++◌, Mem, Nodup, Bool, true, false, Option, none,
  some, length, take, get_elem?, get_elem?-lt, get_elem?-in_range, arith, Outcome, done, ◌>>=◌, inl,
  inr, ltb, ltb→lt, if◌then◌else◌, Option-cases,
}
use dht_kad_rs.Base.Sort.{sort_by}
use dht_kad_rs.Keyutil.{common_prefix_length}
use dht_kad_rs.RoutingTable.{
  RoutingTable, bucket_at, ideal_index, nearer, surrounding, nearest_peers,
}
use dht_kad_rs.RoutingTable.Peers.{Peer}
use dht_kad_rs.RoutingTable.Buckets.{Bucket}
use dht_kad_rs.RoutingTable.Members.{members, mem-all_peers}
use dht_kad_rs.RoutingTable.Invariant.{IsWellFormed}
use dht_kad_rs.RoutingTable.Home.{home, ideal_index_bounds, ideal_index_unique}
use dht_kad_rs.RoutingTable.Overflow.{last_index_lem, bucket_at_lem}

-- The peers of a bucket that may not be there.
abbrev peers_of : Option Bucket → List Peer
peers_of none = []
peers_of (some b) = b.peers

abbrev pub peers_at : RoutingTable → ℕ → List Peer
peers_at rt i = peers_of (get_elem? rt.buckets i)

-- The bucket that a target belongs to.
abbrev pub target_index : RoutingTable → ℕ → ℕ
target_index rt target =
    ideal_index (common_prefix_length rt.local.id target) (length rt.buckets - 1)

unfoldable pub neighbours : RoutingTable → ℕ → List Peer
neighbours rt i =
    (if ltb 0 i then peers_at rt (i - 1) else [])
    ++ (if ltb i (length rt.buckets - 1) then peers_at rt (i + 1) else [])

unfoldable pub candidates : RoutingTable → ℕ → ℕ → List Peer
candidates rt i n =
    peers_at rt i ++ (if ltb (length (peers_at rt i)) n then neighbours rt i else [])

-- A read that is made only if a test holds.
read_if :
    (test : Bool) (m : Outcome (List Peer)) (ps : List Peer)
    → (test ≡ true → m ≡ done ps)
    → (if test then m else done []) ≡ done (if test then ps else [])
read_if true m ps h = h refl
read_if false m ps h = refl

module _ (rt : RoutingTable) (w : IsWellFormed rt) where
  read_at :
      (i : ℕ)
      → i < length rt.buckets
      → (bucket_at rt i >>= λ b. done b.peers) ≡ done (peers_at rt i)
  read_at i h = let (b, at) = get_elem?-in_range rt.buckets i h in rw (bucket_at_lem rt i b at, at)

  surrounding_lem :
      (i : ℕ)
      → i < length rt.buckets
      → surrounding rt i (length rt.buckets - 1) ≡ done (neighbours rt i)
  unfolding surrounding neighbours
  surrounding_lem i h =
      let below = read_if (ltb 0 i) _ (peers_at rt (i - 1)) (λ t. read_at (i - 1) (omega arith)) in
      let above =
        read_if (ltb i (length rt.buckets - 1)) _ (peers_at rt (i + 1))
          (λ t. read_at (i + 1) (omega (arith, ltb→lt _ _ t))) in
      rw (below, ◌>>=◌, above)

  -- `nearest_peers` returns, and what it returns is the front of the sorted candidates.
  pub nearest_peers_lem :
      (target n : ℕ)
      → nearest_peers rt target n
        ≡ done (take n (sort_by (nearer target) (candidates rt (target_index rt target) n)))
  unfolding nearest_peers candidates
  nearest_peers_lem target n =
      let i = target_index rt target in
      let bounds =
        ideal_index_bounds (common_prefix_length rt.local.id target) (length rt.buckets - 1) in
      let in_range : i < length rt.buckets = omega (arith, bounds.0, w.populated) in
      let (b, at) = get_elem?-in_range rt.buckets i in_range in
      let around =
        read_if (ltb (length b.peers) n) _ (neighbours rt i) (λ _. surrounding_lem i in_range) in
      rw (last_index_lem rt w, ◌>>=◌, bucket_at_lem rt i b at, ◌>>=◌, around, at)

  -- The peers of a bucket are members, and their home is that bucket.
  pub peers_at-home :
      (p : Peer) (i : ℕ) → Mem p (peers_at rt i) → (home rt p ≡ i) × Mem p (members rt)
  peers_at-home p i m = elim (Option-cases (get_elem? rt.buckets i)) [
    | inl nothing ↦ absurd (not-mem-nil (rw nothing at m))
    | inr (b, at) ↦
        let here = rw at at m in
        let f = w.fits i b at in
        let found = get_elem?-lt rt.buckets i at in
        (
          sym (
              ideal_index_unique _ _ i (omega arith) (f.shares p here)
                (λ inner. f.leaves inner p here)),
          mem-all_peers p rt.buckets i (b, at, here),
        )
  ]

  pub peers_at-Nodup : (i : ℕ) → Nodup (peers_at rt i)
  peers_at-Nodup i = elim (Option-cases (get_elem? rt.buckets i)) [
    | inl nothing ↦ rw nothing Nodup-nil
    | inr (b, at) ↦ rw at (w.fits i b at).distinct
  ]
