-- ===== src/Rpc/Interleaved/Tests.antt =====
-- A `store` and a `ping` that run at once: the `ping` enters the table between the two sections of the
-- `store`.
use dht_kad_rs.Base.{ℕ, set, ◌≡◌, refl, subst, [], ◌∷◌, some}
use dht_kad_rs.Base.HashMap
use dht_kad_rs.Keyutil.Bytes.{IsBytes, key_to_bytes-IsBytes}
use dht_kad_rs.Kvstore.{Bytes, memory_store}
use dht_kad_rs.Kvstore.Laws.{view, memory_store-IsMap}
use dht_kad_rs.Messages.{ProtoPeer}
use dht_kad_rs.Messages.Tests.{plain_protobuf, sender}
use dht_kad_rs.Messages.Util.{proto_peer_from_peer, create_store_request, create_ping_request}
use dht_kad_rs.Rpc.{Method}
use dht_kad_rs.Rpc.State.{DhtServer}
use dht_kad_rs.Rpc.Sender.{IsReady}
use dht_kad_rs.Rpc.Tests.{server, server-IsReady, store_request, find_value_request, ping_request}
use dht_kad_rs.Rpc.Interleaved.{
  Task, begins, advance, System, arrives, goes_on, Reach, here, next, idle,
}
use dht_kad_rs.Rpc.Interleaved.Kept.{OfBytes}
use dht_kad_rs.Rpc.Interleaved.Ready.{Reach-IsReady}
use dht_kad_rs.Rpc.Interleaved.Origin.{From, Reach-From, Reach-keeps}

abbrev Run : Type 0
Run = System memory_store plain_protobuf

abbrev received : Run
received = record {
  server = server;
  tasks = begins Method.store store_request ∷ begins Method.ping ping_request ∷ [];
  received = (Method.ping, ping_request) ∷ (Method.store, store_request) ∷ [];
}

abbrev went_on : (σ : Run) (i : ℕ) (t : Task plain_protobuf) → Run
went_on σ i t = record σ {
  server = (advance memory_store plain_protobuf t σ.server).0;
  tasks = set σ.tasks i (advance memory_store plain_protobuf t σ.server).1;
}

abbrev first : Run
first = went_on received 0 (begins Method.store store_request)

abbrev second : Run
second = went_on first 1 (begins Method.ping ping_request)

abbrev third : Run
third =
    went_on second 0
      (advance memory_store plain_protobuf (begins Method.store store_request) server).1

reaches_third : Reach memory_store plain_protobuf (idle memory_store plain_protobuf server) third
reaches_third =
    next
      (next
        (next
          (next (next here (arrives Method.store store_request)) (arrives Method.ping ping_request))
          (goes_on 0 (begins Method.store store_request) refl))
        (goes_on 1 (begins Method.ping ping_request) refl))
      (goes_on 0 (advance memory_store plain_protobuf (begins Method.store store_request) server).1
        refl)

store_request-OfBytes : OfBytes store_request
unfolding create_store_request proto_peer_from_peer
store_request-OfBytes mp e =
    let same : proto_peer_from_peer sender ≡ mp = cc in
    subst (λ (q : ProtoPeer). IsBytes q.id) same (key_to_bytes-IsBytes 1234)

ping_request-OfBytes : OfBytes ping_request
unfolding create_ping_request proto_peer_from_peer
ping_request-OfBytes mp e =
    let same : proto_peer_from_peer sender ≡ mp = cc in
    subst (λ (q : ProtoPeer). IsBytes q.id) same (key_to_bytes-IsBytes 1234)

Reach-IsReady_example : IsReady third.server
Reach-IsReady_example =
    Reach-IsReady memory_store plain_protobuf reaches_third server-IsReady
      (ping_request-OfBytes, (store_request-OfBytes, tt))

-- The store holds a value from the start.
abbrev holding : DhtServer memory_store
holding = record server { kvstore = record { store = (1 ∷ [], 9 ∷ []) ∷ [] } }

abbrev asked : Run
asked = record (idle memory_store plain_protobuf holding) {
  tasks = begins Method.find_value find_value_request ∷ [];
  received = (Method.find_value, find_value_request) ∷ [];
}

Reach-From_example :
    From memory_store plain_protobuf memory_store-IsMap holding.kvstore asked.received
      (1 ∷ [])
      (9 ∷ [])
unfolding view HashMap.get
Reach-From_example =
    Reach-From memory_store plain_protobuf memory_store-IsMap {s = holding}
      (next here (arrives Method.find_value find_value_request)) (1 ∷ []) (9 ∷ []) refl

Reach-keeps_example : (v : Bytes) × (view asked.server.kvstore (1 ∷ []) ≡ some v)
unfolding view HashMap.get
Reach-keeps_example =
    Reach-keeps memory_store plain_protobuf memory_store-IsMap
      {σ = idle memory_store plain_protobuf holding} (1 ∷ []) (9 ∷ [])
      (next here (arrives Method.find_value find_value_request)) refl
