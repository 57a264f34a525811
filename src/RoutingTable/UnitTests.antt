-- ===== src/RoutingTable/UnitTests.antt =====
-- The unit tests of src/routing_table.rs as functions of the numbers that they draw: an assertion that
-- fails is a panic.
pub mod Pass
use mathlib.Core.Bool.{not}
use dht_kad_rs.Base.{
  ℕ, zero, suc, ◌+◌, Bool, true, List, repeat, Option, [], ◌∷◌, ◌++◌, length, last, get_elem?, eqb,
  ◌==◌, ◌||◌, false, Outcome, done, ◌>>=◌, unwrap, assert, Result, ok, err,
}
use dht_kad_rs.Base.Text.{codes, digits}
use dht_kad_rs.Keyutil.{common_prefix_length, key_from_bytes}
use dht_kad_rs.RoutingTable.{RoutingTable, NoCapacityError, new, update, bucket_at}
use dht_kad_rs.RoutingTable.Peers.{Peer, peer_eq}
use dht_kad_rs.RoutingTable.Buckets.{Bucket, move_to_front_if_exists, split}

-- What `rand` draws for a peer: an identifier and a port.
abbrev pub Draw : Type 0
Draw = ℕ × ℕ

unfoldable pub random_peer_with_id : ℕ → ℕ → Peer
random_peer_with_id id port = record { id = id; address = codes "0.0.0.0:" ++ digits 5 port }

unfoldable pub random_peer : Draw → Peer
unfolding random_peer_with_id
random_peer (id, port) = random_peer_with_id id port

-- The loop of `bucket_with_peers`, with the draws of each round.
unfoldable pub random_peers : (ℕ → Draw) → ℕ → List Peer
random_peers draws zero = []
random_peers draws (suc n) = random_peers draws n ++ random_peer (draws n) ∷ []

unfoldable pub bucket_with_peers : ℕ → ℕ → (ℕ → Draw) → Bucket
bucket_with_peers index num draws = record { index = index; peers = random_peers draws num }

abbrev pub fresh_peer : ℕ → Peer
fresh_peer id = record { id = id; address = codes "1.2.3.4:1234" }

-- The second half of the test: a peer that is not there.
unfoldable pub test_absent : Bucket → Bucket × Bool → Outcome (Unit {0})
test_absent b1 (b2, found) = do
  _ ← assert (not found)
  assert (eqb (length b2.peers) (length b1.peers))

unfoldable pub test_present : Peer → ℕ → Bucket × Bool → Outcome (Unit {0})
test_present peer id (b1, found) = do
  _ ← assert found
  back ← unwrap (last b1.peers)
  _ ← assert (back == peer)
  test_absent b1 (move_to_front_if_exists b1 (fresh_peer id))

unfoldable pub test_bucket_move_to_front : (ℕ → Draw) → ℕ → ℕ → Outcome (Unit {0})
test_bucket_move_to_front draws random_index id = do
  let b1 = bucket_with_peers 0 100 draws
  peer ← unwrap (get_elem? b1.peers random_index)
  test_present peer id (move_to_front_if_exists b1 peer)

-- The last loop of the test: every peer that stays shares as many bits as the bucket says.
unfoldable pub all_share : ℕ → ℕ → List Peer → Outcome (Unit {0})
all_share my_id index [] = done tt
all_share my_id index (p ∷ ps) = do
  _ ← assert (eqb (common_prefix_length p.id my_id) index)
  all_share my_id index ps

unfoldable pub test_bucket_split : (ℕ → Draw) → ℕ → Outcome (Unit {0})
test_bucket_split draws my_id = do
  let (b1, b2) = split (bucket_with_peers 0 100 draws) my_id
  _ ← assert (eqb b2.index 1)
  _ ← assert (eqb (length b1.peers + length b2.peers) 100)
  all_share my_id b1.index b1.peers

-- Fifteen zeros after the first byte.
abbrev pub id_with : ℕ → Option ℕ
id_with b = key_from_bytes (b ∷ repeat 15 0)

abbrev pub is_ok : RoutingTable × Result (Unit {0}) NoCapacityError → Bool
is_ok (rt, ok _) = true
is_ok (rt, err _) = false

-- `peers.contains`.
abbrev pub has : List Peer → Peer → Bool
has [] p = false
has (q ∷ qs) p = (q == p) || has qs p

-- The ports of the three peers are drawn; `Vec::contains` is `has`.
unfoldable pub test_routing_table_update : ℕ → ℕ → ℕ → Outcome (Unit {0})
test_routing_table_update port1 port2 port3 = do
  id1 ← unwrap (id_with 0x10)
  id2 ← unwrap (id_with 0x20)
  id3 ← unwrap (id_with 0x40)
  let r = new 1 (random_peer_with_id id1 port1)
  let p1 = random_peer_with_id id2 port2
  let p2 = random_peer_with_id id3 port3
  r1 ← update r p1
  _ ← assert (is_ok r1)
  r2 ← update r1.0 p2
  _ ← assert (is_ok r2)
  b2 ← bucket_at r2.0 2
  _ ← assert (has b2.peers p1)
  b1 ← bucket_at r2.0 1
  assert (has b1.peers p2)
