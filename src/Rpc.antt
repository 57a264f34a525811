-- ===== src/Rpc.antt =====
-- src/rpc/mod.rs: the server's handlers. A request is checked, its sender is put into the routing
-- table, and the request is answered from the table and the key-value store. The store is any that
-- implements the trait.
pub mod State
pub mod Sender
pub mod Rejected
pub mod Answered
pub mod Interleaved
pub mod UnitTests
pub mod Tests
use State.{DhtServer, M, ◌>>=◌, pure, on_table, read_table, put_value, get_value, lift}
use dht_kad_rs.Base.{
  Bool, true, false, List, Option, none, some, if◌then◌else◌, Outcome, done, panicked, unwrap,
  Result, ok, err,
}
use dht_kad_rs.Base
use dht_kad_rs.Keyutil.{key_from_bytes}
use dht_kad_rs.Kvstore.{Bytes, KvStore, DatastoreError}
use dht_kad_rs.Messages.{Protobuf, ProtoPeer, Message}
use dht_kad_rs.Messages.Utf8.{from_utf8}
use dht_kad_rs.Messages.Util.{
  validate_request, proto_peer_to_peer, create_invalid_response, create_store_response,
  create_find_node_response, create_find_value_response, create_ping_response,
}
use dht_kad_rs.RoutingTable.{RoutingTable, NoCapacityError, update, k_nearest_peers}
use dht_kad_rs.RoutingTable.Peers.{Peer}

-- A refused peer is logged, with its address as a text.
unfoldable pub table_after_reply :
    ProtoPeer → RoutingTable × Result (Unit {0}) NoCapacityError → Outcome (RoutingTable × Unit {0})
table_after_reply mp (rt, ok _) = done (rt, tt)
table_after_reply mp (rt, err _) = Base.◌>>=◌ (unwrap (from_utf8 mp.addrs)) (λ _. done (rt, tt))

unfoldable pub update_routing_table : RoutingTable → ProtoPeer → Outcome (RoutingTable × Unit {0})
update_routing_table rt mp =
    Base.◌>>=◌ (proto_peer_to_peer mp) (λ p. Base.◌>>=◌ (update rt p) (table_after_reply mp))

module _ (K : KvStore) (P : Protobuf) where
  unfoldable pub admit : ProtoPeer → M K (Unit {0})
  admit sender = on_table (λ rt. update_routing_table rt sender)

  -- `update_routing_table(&mut self.routing_table.lock().await, &message.myself.unwrap())`.
  unfoldable pub admit_sender : Message P → M K (Unit {0})
  admit_sender m = lift (unwrap m.myself) >>= admit

  pub store_reply : Result (Unit {0}) DatastoreError → Message P
  store_reply (ok _) = create_store_response P true
  store_reply (err _) = create_store_response P false

  -- Each handler is split into its check, the entry of the sender, and the answer.
  pub answer_store : Message P → Unit {0} → M K (Message P)
  answer_store m _ = do r ← put_value m.key m.value; pure (store_reply r)

  pub store_async : Message P → M K (Message P)
  store_async m =
      if validate_request m
      then admit_sender m >>= answer_store m
      else pure (create_invalid_response P)

  unfoldable pub answer_find_node : Message P → Unit {0} → M K (Message P)
  answer_find_node m _ = do
    target ← lift (unwrap (key_from_bytes m.key))
    peers ← read_table (λ rt. k_nearest_peers rt target)
    pure (create_find_node_response P peers)

  unfoldable pub find_node_async : Message P → M K (Message P)
  find_node_async m =
      if validate_request m
      then admit_sender m >>= answer_find_node m
      else pure (create_invalid_response P)

  -- A value that is found is the answer; otherwise, and if the store fails, the request is answered
  -- as a `find node` from the start.
  pub find_value_reply : Message P → Result (Option Bytes) DatastoreError → M K (Message P)
  find_value_reply m (ok (some value)) = pure (create_find_value_response P m.key value)
  find_value_reply m (ok none) = find_node_async m
  find_value_reply m (err _) = find_node_async m

  pub answer_find_value : Message P → Unit {0} → M K (Message P)
  answer_find_value m _ = do r ← get_value m.key; find_value_reply m r

  pub find_value_async : Message P → M K (Message P)
  find_value_async m =
      if validate_request m
      then admit_sender m >>= answer_find_value m
      else pure (create_invalid_response P)

  pub answer_ping : Message P → Unit {0} → M K (Message P)
  answer_ping m _ = pure (create_ping_response P)

  pub ping_async : Message P → M K (Message P)
  ping_async m =
      if validate_request m
      then admit_sender m >>= answer_ping m
      else pure (create_invalid_response P)

-- The methods of the trait `Service`.
pub data Method : Type 0 where
  store : Method
  find_node : Method
  find_value : Method
  ping : Method

unfoldable pub serve : (K : KvStore) (P : Protobuf) → Method → Message P → M K (Message P)
serve K P store = store_async K P
serve K P find_node = find_node_async K P
serve K P find_value = find_value_async K P
serve K P ping = ping_async K P
