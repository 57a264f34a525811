-- ===== src/Client/UnitTests.antt =====
-- The unit test `test_store` of src/client.rs and its mock server, over a network where mock servers run.
-- An assertion that fails is a panic.
pub mod Pass
use dht_kad_rs.Base.{
  ℕ, Bool, true, false, List, [], ◌∷◌, ◌&&◌, Option, none, some, ◌==◌, list_eq, nat_eq, Outcome,
  done, panicked, unwrap, assert, Result, ok, err,
}
use dht_kad_rs.Base
use dht_kad_rs.Base.Effects.{Effect, ◌>>=◌, lift}
use dht_kad_rs.Base.Text.{codes}
use dht_kad_rs.Keyutil.{key_to_bytes}
use dht_kad_rs.Kvstore.{Bytes, memory_store}
use dht_kad_rs.Messages.{Protobuf, Message, new_message}
use dht_kad_rs.Messages.Util.{RpcError, create_store_response, create_find_value_response}
use dht_kad_rs.Mock
use dht_kad_rs.RoutingTable.{RoutingTable, update}
use dht_kad_rs.RoutingTable.Peers.{Peer}
use dht_kad_rs.Rpc.{Method}
use dht_kad_rs.Transport.{Network}
use dht_kad_rs.Client.{DhtClient, new_client}
use dht_kad_rs.Client.Store.{store}

-- `MockDHTServer`, with the message behind its mutex.
pub record MockDhtServer (P : Protobuf) : Type 0 where
  pub last_request : Message P
  pub address : List ℕ
  pub retrieve_result : Bytes

unfoldable pub new_mock : (P : Protobuf) → List ℕ → MockDhtServer P
new_mock P addr = record {
  last_request = new_message P;
  address = addr;
  retrieve_result = 1 ∷ 2 ∷ 3 ∷ [];
}

-- Its four methods.
unfoldable pub serve_mock :
    {P : Protobuf} → Method → Message P → MockDhtServer P → MockDhtServer P × Outcome (Message P)
serve_mock {P} Method.store message s =
    (record s { last_request = message }, done (create_store_response P true))
serve_mock {P} Method.find_node message s = (s, done (new_message P))
serve_mock {P} Method.find_value message s = (
  record s { last_request = message },
  done (create_find_value_response P message.key s.retrieve_result),
)
serve_mock {P} Method.ping message s = (s, done (new_message P))

-- A server that runs: its address, and the identifier that is drawn for it.
abbrev pub Running : Type 0
Running = List ℕ × ℕ

abbrev pub peer_of : Running → Peer
peer_of (address, id) = record { id = id; address = address }

-- The loop that fills the table; a peer that it refuses is ignored.
unfoldable pub offer_servers : RoutingTable → List Running → Outcome RoutingTable
offer_servers rt [] = done rt
offer_servers rt (s ∷ servers) = Base.◌>>=◌ (update rt (peer_of s)) (λ r. offer_servers r.0 servers)

abbrev pub key : ℕ
key = 123

abbrev pub value : Bytes
value = 1 ∷ 2 ∷ 3 ∷ []

abbrev pub me : Peer
me = Mock.peer (codes "0.0.0.0:1234") 1234

-- What the test asks of the last request of a server.
unfoldable pub is_received : {P : Protobuf} → Option (MockDhtServer P) → Bool
is_received none = false
is_received (some s) = (s.last_request.key == key_to_bytes key) && (s.last_request.value == value)

module _ {P : Protobuf} (net : Network P)
    (mock : net.World → net.SocketAddr → Option (MockDhtServer P)) where
  abbrev pub received : Running → Effect net.World (Unit {0})
  received s w = (w, Base.◌>>=◌ (unwrap (net.parse s.0)) (λ a. assert (is_received (mock w a))))

  unfoldable pub all_received : List Running → Effect net.World (Unit {0})
  all_received [] = lift (done tt)
  all_received (s ∷ servers) = do _ ← received s; all_received servers

  abbrev pub unwrapped : Result (Unit {0}) RpcError → Outcome (Unit {0})
  unwrapped (ok u) = done u
  unwrapped (err e) = panicked

  -- The test, from the `n` servers that `run_n_servers` started.
  unfoldable pub test_store : ℕ → List Running → Effect net.World (Unit {0})
  test_store n servers = do
    rt ← lift (offer_servers (Mock.routing_table me n) servers)
    let dht_client = new_client {K = memory_store} 5 me Mock.kv_store rt
    r ← store net dht_client key value
    _ ← lift (unwrapped r)
    all_received servers
