-- ===== src/Rpc/Tests.antt =====
-- The handlers of a server with an empty table, on requests of one sender.
use dht_kad_rs.Base.{
  ◌⊎◌, ◌≡◌, refl, List, [], ◌∷◌, true, some, arith, done, panicked, ◌==◌, list_eq, nat_eq,
  if◌then◌else◌,
}
use dht_kad_rs.Keyutil.{key_from_bytes, key_to_bytes}
use dht_kad_rs.Keyutil.Bytes.{key_from_bytes-key_to_bytes}
use dht_kad_rs.Kvstore.{Bytes, KvStore, memory_store}
use dht_kad_rs.Kvstore
use dht_kad_rs.Kvstore.Laws.{view, memory_store-IsMap}
use dht_kad_rs.Messages.{ProtoPeer, Message, ErrorCode, code_of, new_message}
use dht_kad_rs.Messages.Tests.{plain_protobuf, sender, sender-CanSend}
use dht_kad_rs.Messages.Utf8.{is_utf8}
use dht_kad_rs.Messages.Validity.{requests-IsFrom}
use dht_kad_rs.Messages.Util.{
  validate_request, create_store_response, create_find_node_response, create_find_value_response,
  create_store_request, create_find_node_request, create_find_value_request, create_ping_request,
}
use dht_kad_rs.RoutingTable.{k_nearest_peers}
use dht_kad_rs.RoutingTable
use dht_kad_rs.RoutingTable.Peers.{Peer}
use dht_kad_rs.RoutingTable.Invariant.{new-IsWellFormed}
use dht_kad_rs.RoutingTable.Nearest.{Answers}
use dht_kad_rs.Rpc.{store_async, find_node_async, find_value_async, Method, serve}
use dht_kad_rs.Rpc.State.{DhtServer}
use dht_kad_rs.Rpc.Sender.{IsReady, SentBy, request-SentBy}
use dht_kad_rs.Rpc.Rejected.{HasSender, Serves, serve_bad_request, serve_short_id}
use dht_kad_rs.Rpc.Answered.{
  Entered, find_node_async_lem, find_node_async_panics, store_async_lem, find_value-store,
}

abbrev pub server : DhtServer memory_store
server = record {
  kvstore = Kvstore.new;
  routing_table = RoutingTable.new 2 (record { id = 5; address = [] });
}

pub server-IsReady : IsReady server
unfolding RoutingTable.new
server-IsReady = record {
  well_formed = new-IsWellFormed 2 (record { id = 5; address = [] }) (omega arith);
  room = omega arith;
}

abbrev pub Request : Type 0
Request = Message plain_protobuf

abbrev pub store_request : Request
store_request = create_store_request plain_protobuf sender 77 (9 ∷ [])

abbrev find_node_request : Request
find_node_request = create_find_node_request plain_protobuf 77 sender

abbrev pub find_value_request : Request
find_value_request = create_find_value_request plain_protobuf 77 sender

abbrev pub ping_request : Request
ping_request = create_ping_request plain_protobuf sender

store_request-SentBy : SentBy store_request sender
store_request-SentBy =
    request-SentBy store_request sender sender-CanSend
      (requests-IsFrom plain_protobuf sender 77 (9 ∷ []) sender-CanSend).0

find_node_request-SentBy : SentBy find_node_request sender
find_node_request-SentBy =
    request-SentBy find_node_request sender sender-CanSend
      (requests-IsFrom plain_protobuf sender 77 [] sender-CanSend).1

find_value_request-SentBy : SentBy find_value_request sender
find_value_request-SentBy =
    request-SentBy find_value_request sender sender-CanSend
      (requests-IsFrom plain_protobuf sender 77 [] sender-CanSend).2

pub ping_request-SentBy : SentBy ping_request sender
ping_request-SentBy =
    request-SentBy ping_request sender sender-CanSend
      (requests-IsFrom plain_protobuf sender 77 [] sender-CanSend).3

reads_77 : key_from_bytes find_node_request.key ≡ some 77
unfolding create_find_node_request
reads_77 = key_from_bytes-key_to_bytes 77 (omega arith)

find_node_async_lem_example :
    (s' : DhtServer memory_store) × (peers : List Peer) × (find_node_async memory_store
        plain_protobuf find_node_request server
      ≡ (s', done (create_find_node_response plain_protobuf peers)))
    × Entered server sender s'
    × (s'.kvstore ≡ server.kvstore)
    × (k_nearest_peers s'.routing_table 77 ≡ done peers)
    × Answers s'.routing_table 77 s'.routing_table.k peers
find_node_async_lem_example =
    find_node_async_lem find_node_request sender server server-IsReady find_node_request-SentBy 77
      reads_77

-- A ping has no key, and is sent to `find_node` here.
find_node_async_panics_example :
    (s' : DhtServer memory_store) × (find_node_async memory_store plain_protobuf ping_request server
      ≡ (s', panicked))
    × Entered server sender s'
unfolding create_ping_request new_message
find_node_async_panics_example =
    find_node_async_panics ping_request sender server server-IsReady ping_request-SentBy
      (omega arith)

store_async_lem_example :
    (s' : DhtServer memory_store) × (store_async memory_store plain_protobuf store_request server
      ≡ (s', done (create_store_response plain_protobuf true)))
    × Entered server sender s'
    × ((j : Bytes)
        → view s'.kvstore j
          ≡ (if store_request.key == j then some store_request.value else view server.kvstore j))
store_async_lem_example =
    store_async_lem store_request sender server server-IsReady store_request-SentBy
      memory_store-IsMap

abbrev pub holding : DhtServer memory_store
holding = record server { kvstore = record { store = (key_to_bytes 77, 9 ∷ []) ∷ [] } }

find_value-store_example :
    (s' s'' : DhtServer memory_store) × (store_async memory_store plain_protobuf store_request
        server
      ≡ (s', done (create_store_response plain_protobuf true)))
    × (find_value_async memory_store plain_protobuf find_value_request s' ≡ (
      s'',
      done (create_find_value_response plain_protobuf find_value_request.key store_request.value),
    ))
    × Entered server sender s'
    × Entered s' sender s''
unfolding create_store_request create_find_value_request
find_value-store_example =
    find_value-store store_request find_value_request sender sender server server-IsReady
      store_request-SentBy find_value_request-SentBy refl memory_store-IsMap

serve_bad_request_example :
    let empty = new_message plain_protobuf in
    let answer = serve memory_store plain_protobuf Method.store empty server in
    (HasSender memory_store plain_protobuf empty × Serves memory_store plain_protobuf answer.1)
    ⊎ ((¬ HasSender memory_store plain_protobuf empty)
        × ((r : Message plain_protobuf) × (answer ≡ (server, done r))
            × (code_of r ≡ ErrorCode.bad_request)))
serve_bad_request_example =
    serve_bad_request memory_store plain_protobuf Method.store (new_message plain_protobuf) server

abbrev short_sender : ProtoPeer
short_sender = record { id = 7 ∷ []; addrs = 65 ∷ [] }

abbrev short_ping : Request
short_ping = record (new_message plain_protobuf) { myself = some short_sender }

serve_short_id_example :
    serve memory_store plain_protobuf Method.ping short_ping server ≡ (server, panicked)
unfolding validate_request new_message is_utf8
serve_short_id_example =
    serve_short_id memory_store plain_protobuf Method.ping short_ping short_sender server refl refl
      (omega arith)
