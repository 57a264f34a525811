-- ===== src/RoutingTable.antt =====
-- src/routing_table.rs: peers in buckets by the length of the prefix that they share with the local
-- identifier. The last bucket stands for all longer prefixes; when it is full it is unfolded.
pub mod First
pub mod Peers
pub mod Buckets
pub mod Members
pub mod Invariant
pub mod Halved
pub mod Unfold
pub mod Home
pub mod Inserted
pub mod Overflow
pub mod Update
pub mod Candidates
pub mod Gathered
pub mod Nearest
pub mod Exact
pub mod Missed
pub mod Filled
pub mod UnitTests
pub mod Tests
use Peers.{Peer}
use Buckets
use Buckets.{Bucket, move_to_front_if_exists, split}
use dht_kad_rs.Base.{
  ℕ, zero, suc, ◌+◌, ◌-◌, bit_xor, Bool, true, false, List, [], ◌∷◌, ◌++◌, eqb, ltb, leb,
  if◌then◌else◌, length, get_elem?, set, take, Outcome, done, panicked, exhausted, ◌>>=◌, unwrap,
  Result, ok, err,
}
use dht_kad_rs.Base.Sort.{sort_by}
use dht_kad_rs.Keyutil.{common_prefix_length}

pub record RoutingTable : Type 0 where
  pub k : ℕ
  pub local : Peer
  pub buckets : List Bucket

pub data NoCapacityError : Type 0 where
  no_capacity : NoCapacityError

unfoldable pub new : ℕ → Peer → RoutingTable
new k local = record { k = k; local = local; buckets = Buckets.new 0 ∷ [] }

-- `self.buckets.len() - 1`, which underflows on a table without buckets.
unfoldable pub last_index : RoutingTable → Outcome ℕ
last_index rt = if eqb (length rt.buckets) 0 then panicked else done (length rt.buckets - 1)

-- `self.buckets[i]`.
unfoldable pub bucket_at : RoutingTable → ℕ → Outcome Bucket
bucket_at rt i = unwrap (get_elem? rt.buckets i)

unfoldable pub with_bucket : RoutingTable → ℕ → Bucket → RoutingTable
with_bucket rt i b = record rt { buckets = set rt.buckets i b }

-- The bucket of a prefix length, or the last one if that bucket does not exist yet.
unfoldable pub ideal_index : ℕ → ℕ → ℕ
ideal_index cpl last = if ltb last cpl then last else cpl

unfoldable pub add_peer_to_bucket : RoutingTable → ℕ → Peer → Outcome RoutingTable
add_peer_to_bucket rt i p = do
  b ← bucket_at rt i
  done (with_bucket rt i (record b { peers = b.peers ++ p ∷ [] }))

-- One level of `unfold_buckets`, with the length of the new bucket.
unfoldable pub split_last : RoutingTable → Outcome (RoutingTable × ℕ)
split_last rt = do
  index ← last_index rt
  b ← bucket_at rt index
  let (kept, moved) = split b rt.local.id
  let halved = with_bucket rt index kept
  done (record halved { buckets = halved.buckets ++ moved ∷ [] }, length moved.peers)

-- The recursion goes on while the new bucket is full.
unfoldable pub unfold_buckets : ℕ → RoutingTable → Outcome RoutingTable
unfold_buckets zero rt = exhausted
unfold_buckets (suc fuel) rt = split_last rt >>= λ r. elim (leb r.0.k r.1) [
  | true ↦ unfold_buckets fuel r.0
  | false ↦ done r.0
]

-- Identifiers have 128 bits, so that a 129th split finds nothing left to move.
abbrev pub unfold_fuel : ℕ
unfold_fuel = 129

unfoldable pub insert_unfolded :
    RoutingTable → ℕ → Peer → Outcome (RoutingTable × Result (Unit {0}) NoCapacityError)
insert_unfolded rt cpl p = do
  unfolded ← unfold_buckets unfold_fuel rt
  last ← last_index unfolded
  let i = ideal_index cpl last
  b ← bucket_at unfolded i
  if leb unfolded.k (length b.peers)
      then done (unfolded, err no_capacity)
      else (add_peer_to_bucket unfolded i p >>= λ added. done (added, ok tt))

-- `update` from the test of the bucket's size on.
unfoldable pub insert_new :
    RoutingTable
    → Peer
    → ℕ
    → ℕ
    → ℕ
    → Bucket
    → Outcome (RoutingTable × Result (Unit {0}) NoCapacityError)
insert_new rt p cpl last i b =
    if ltb (length b.peers) rt.k
    then (add_peer_to_bucket rt i p >>= λ added. done (added, ok tt))
    else if eqb i last
    then insert_unfolded rt cpl p
    else done (rt, err no_capacity)

unfoldable pub update :
    RoutingTable → Peer → Outcome (RoutingTable × Result (Unit {0}) NoCapacityError)
update rt p = do
  let cpl = common_prefix_length rt.local.id p.id
  last ← last_index rt
  let i = ideal_index cpl last
  b ← bucket_at rt i
  let (b', found) = move_to_front_if_exists b p
  if found then done (with_bucket rt i b', ok tt) else insert_new rt p cpl last i b

-- `a.id ^ target_id` in the order of `cmp`.
unfoldable pub nearer : ℕ → Peer → Peer → Bool
nearer target a b = leb (bit_xor a.id target) (bit_xor b.id target)

unfoldable pub surrounding : RoutingTable → ℕ → ℕ → Outcome (List Peer)
surrounding rt i last = do
  below ← if ltb 0 i then (bucket_at rt (i - 1) >>= λ b. done b.peers) else done []
  above ← if ltb i last then (bucket_at rt (i + 1) >>= λ b. done b.peers) else done []
  done (below ++ above)

unfoldable pub nearest_peers : RoutingTable → ℕ → ℕ → Outcome (List Peer)
nearest_peers rt target num_results = do
  last ← last_index rt
  let i = ideal_index (common_prefix_length rt.local.id target) last
  b ← bucket_at rt i
  around ← if ltb (length b.peers) num_results then surrounding rt i last else done []
  done (take num_results (sort_by (nearer target) (b.peers ++ around)))

unfoldable pub k_nearest_peers : RoutingTable → ℕ → Outcome (List Peer)
k_nearest_peers rt target = nearest_peers rt target rt.k
