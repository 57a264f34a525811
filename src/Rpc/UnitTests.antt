-- ===== src/Rpc/UnitTests.antt =====
-- The unit tests of src/rpc/mod.rs. An assertion that fails is a panic.
pub mod Pass
use dht_kad_rs.Base.{
  ℕ, zero, suc, ◌+◌, Bool, true, false, List, [], ◌∷◌, ◌++◌, length, take, get_elem?, eqb, ◌==◌,
  list_eq, nat_eq, Option, Outcome, done, panicked, ◌>>=◌, unwrap, assert, Result, ok, err,
}
use dht_kad_rs.Base.Text.{codes, digits}
use dht_kad_rs.Keyutil.{key_to_bytes}
use dht_kad_rs.Kvstore.{Bytes, memory_store}
use dht_kad_rs.Kvstore
use dht_kad_rs.Messages.{Protobuf, ProtoPeer, Message, code_of}
use dht_kad_rs.Messages.Util.{
  is_ok, proto_peer_to_peer, create_store_request, create_find_node_request,
  create_find_value_request, create_ping_request,
}
use dht_kad_rs.Mock
use dht_kad_rs.RoutingTable.{RoutingTable, NoCapacityError, update, k_nearest_peers}
use dht_kad_rs.RoutingTable.Peers.{Peer, peer_eq}
use dht_kad_rs.Rpc.{store_async, find_node_async, find_value_async, ping_async}
use dht_kad_rs.Rpc.State.{DhtServer, new_server}

abbrev pub me : Peer
me = Mock.peer (codes "0.0.0.0:1234") 1234

-- Two times `unwrap`, on what `get` returns.
abbrev pub unwrapped {ℓ κ} : {A : Type ℓ} {E : Type κ} → Result A E → Outcome A
unwrapped (ok a) = done a
unwrapped (err e) = panicked

module _ (P : Protobuf) where
  abbrev pub says_ok : Message P → Bool
  says_ok m = is_ok (code_of m)

  unfoldable pub store_test : Outcome (Unit {0})
  store_test = do
    let value = 1 ∷ 2 ∷ 3 ∷ 4 ∷ []
    let server = new_server {K = memory_store} Mock.kv_store (Mock.routing_table me 10)
    let (after, answer) = store_async memory_store P (create_store_request P me 123 value) server
    resp ← answer
    _ ← assert (says_ok resp)
    found ← unwrapped (Kvstore.get after.kvstore (key_to_bytes 123))
    stored ← unwrap found
    _ ← assert (stored == value)
    known_peers ← k_nearest_peers after.routing_table 0
    _ ← assert (eqb (length known_peers) 1)
    first ← unwrap (get_elem? known_peers 0)
    assert (first == me)

  -- The loop of the test: the peers 1 to `n`, and the table that was offered them.
  unfoldable pub close_to_zero : ℕ → RoutingTable → Outcome (List Peer × RoutingTable)
  close_to_zero zero rt = done ([], rt)
  close_to_zero (suc n) rt = do
    (peers, before) ← close_to_zero n rt
    let peer = Mock.peer (codes "0.0.0.0:" ++ digits 2 (n + 1)) (n + 1)
    r ← update before peer
    done (peers ++ peer ∷ [], r.0)

  unfoldable pub read_peers : List ProtoPeer → Outcome (List Peer)
  read_peers [] = done []
  read_peers (mp ∷ mps) = do p ← proto_peer_to_peer mp; ps ← read_peers mps; done (p ∷ ps)

  -- What the test asserts of the answer.
  unfoldable pub nearest_ten : List Peer → Message P → Outcome (Unit {0})
  nearest_ten peers resp = do
    _ ← assert (says_ok resp)
    response_peers ← read_peers resp.closer_peers
    assert (response_peers == take 10 peers)

  unfoldable pub find_node_test : Outcome (Unit {0})
  find_node_test = do
    (peers, table) ← close_to_zero 20 (Mock.routing_table me 10)
    let server = new_server {K = memory_store} Mock.kv_store table
    let (_, answer) = find_node_async memory_store P (create_find_node_request P 0 me) server
    resp ← answer
    nearest_ten peers resp

  unfoldable pub find_value_test : Outcome (Unit {0})
  find_value_test = do
    let value = 1 ∷ 2 ∷ 3 ∷ 4 ∷ []
    let closer_peer = Mock.peer (codes "0.0.0.0:1235") 1
    r ← update (Mock.routing_table me 10) closer_peer
    _ ← unwrapped r.1
    let server = new_server {K = memory_store} Mock.kv_store r.0
    let (missed, answer) = find_value_async memory_store P (create_find_value_request P 0 me) server
    resp ← answer
    _ ← assert (says_ok resp)
    _ ← assert (eqb (length resp.value) 0)
    _ ← assert (eqb (length resp.closer_peers) 2)
    mp ← unwrap (get_elem? resp.closer_peers 0)
    first ← proto_peer_to_peer mp
    _ ← assert (first == closer_peer)
    let (kv, put) = Kvstore.put missed.kvstore (key_to_bytes 0) value
    _ ← unwrapped put
    let filled = record missed { kvstore = kv }
    let (_, answer) = find_value_async memory_store P (create_find_value_request P 0 me) filled
    resp ← answer
    _ ← assert (says_ok resp)
    assert (resp.value == value)

  unfoldable pub ping_test : Outcome (Unit {0})
  ping_test = do
    let server = new_server {K = memory_store} Mock.kv_store (Mock.routing_table me 10)
    let (_, answer) = ping_async memory_store P (create_ping_request P me) server
    resp ← answer
    assert (says_ok resp)
