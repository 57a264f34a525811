-- ===== src/Client/Tests.antt =====
-- The client on networks of one or two peers.
use mathlib.Core.List.{Nodup-nil, Nodup-cons, mem-cons, not-mem-nil}
use mathlib.Core.Logic.Or
use mathlib.Core.HLevel.{⊥_prop}
use dht_kad_rs.Base.{
  ◌≡◌, refl, subst, List, [], ◌∷◌, arith, done, Result, ok, err, All, Mem, Nodup, same_of_eq,
  list_eq, nat_eq,
}
use dht_kad_rs.Base.Sort.{sort_by, insert}
use dht_kad_rs.Base.Text.{codes}
use dht_kad_rs.Base.HashMap
use dht_kad_rs.Keyutil.Bytes.{IsBytes, key_to_bytes-IsBytes}
use dht_kad_rs.RoutingTable.Buckets
use dht_kad_rs.Rpc.Interleaved.Kept.{OfBytes}
use dht_kad_rs.Messages.{ProtoPeer}
use dht_kad_rs.Messages.Util.{proto_peer_from_peer, create_find_value_request}
use dht_kad_rs.Keyutil.{common_prefix_length, leading_zeros, key_to_bytes}
use dht_kad_rs.Kvstore.{memory_store}
use dht_kad_rs.Kvstore
use dht_kad_rs.Messages.{Message, new_message}
use dht_kad_rs.Messages.Util.{IoError, RpcError, create_store_request}
use dht_kad_rs.Messages.Tests.{plain_protobuf, sender, sender-CanSend}
use dht_kad_rs.RoutingTable.{
  RoutingTable, k_nearest_peers, nearest_peers, last_index, bucket_at, ideal_index, surrounding,
  nearer,
}
use dht_kad_rs.RoutingTable.Peers.{Peer}
use dht_kad_rs.RoutingTable.Tests.{local, three, three-IsWellFormed}
use dht_kad_rs.RoutingTable
use dht_kad_rs.Rpc.{Method, serve}
use dht_kad_rs.Rpc.Tests.{server as ready, server-IsReady, find_value_request}
use dht_kad_rs.Client.Understood.{IsOrderly, Understood, serve-Understood}
use dht_kad_rs.Kvstore.Laws.{memory_store-IsMap}
use dht_kad_rs.Transport.{addresses}
use dht_kad_rs.Client.UnitTests.{Running, MockDhtServer, new_mock, serve_mock, test_store}
use dht_kad_rs.Client.UnitTests.Pass.{test_store_passes}
use dht_kad_rs.Transport.Tests.{
  at, lossless_to, lossless_to-DeliversTo, Address, Servers, server, lossless, lossless-Delivers,
}
use dht_kad_rs.Client.{
  DhtClient, Progress, answered, not_found, closer, lookup, find_value, find_value_local,
}
use dht_kad_rs.Client.Store.{store}
use dht_kad_rs.Client.Replication.{Stored, stored, store_lem}
use dht_kad_rs.Client.Replicated.{IsUp, Holds}
use dht_kad_rs.Client.PutGet.{store_replicates}
use dht_kad_rs.Client.Search.{Stands, find_value_lem, lookup_gives_up}

abbrev pub peer_a : Peer
peer_a = record { id = 3; address = codes "a" }

abbrev pub peer_b : Peer
peer_b = record { id = 6; address = codes "b" }

abbrev pub table : RoutingTable
table = record {
  k = 2;
  local = sender;
  buckets = record { index = 0; peers = peer_a ∷ peer_b ∷ [] } ∷ [];
}

abbrev pub client : DhtClient memory_store
client = record { alpha = 2; myself = sender; kvstore = Kvstore.new; routing_table = table }

-- Both peers are up.
abbrev pub world : Servers
world = (codes "a", ready) ∷ (codes "b", ready) ∷ []

abbrev refusal : IoError
refusal = record { text = codes "refused" }

-- The peers that are nearest to the key 3, and their addresses.
pub near_three : k_nearest_peers table 3 ≡ done (peer_a ∷ peer_b ∷ [])
unfolding k_nearest_peers nearest_peers last_index bucket_at ideal_index surrounding nearer sort_by
    insert common_prefix_length leading_zeros
near_three = refl

abbrev pub both : List Address
both = codes "a" ∷ codes "b" ∷ []

pub read_both : addresses lossless (peer_a ∷ peer_b ∷ []) ≡ done both
unfolding addresses
read_both = refl

store_lem_example :
    let sent = stored lossless (create_store_request plain_protobuf sender 3 (9 ∷ [])) both world in
    (r : Result (Unit {0}) RpcError) × (store lossless client 3 (9 ∷ []) world ≡ (sent.0, done r))
    × Stored sent.1 r
store_lem_example =
    store_lem lossless client 3 (9 ∷ []) world (peer_a ∷ peer_b ∷ []) both near_three read_both

pub both-Nodup : Nodup both
both-Nodup = Nodup-cons.1 (
  λ m. Or.elim ⊥_prop (mem-cons.0 m) (λ e. cc (same_of_eq (codes "a") (codes "b") e)) not-mem-nil,
  Nodup-cons.1 (not-mem-nil, Nodup-nil),
)

pub All-IsUp : All (IsUp lossless server lossless-Delivers memory_store-IsMap world) both
unfolding HashMap.get
All-IsUp = ((ready, refl, server-IsReady), ((ready, refl, server-IsReady), tt))

store_replicates_example :
    (w' : Servers) × (store lossless client 3 (9 ∷ []) world ≡ (w', done (ok tt)))
    × All
        (Holds lossless server lossless-Delivers memory_store-IsMap (key_to_bytes 3) (9 ∷ []) w')
        both
    × ((b : Address) → ¬ Mem b both → server w' b ≡ server world b)
store_replicates_example =
    store_replicates lossless server lossless-Delivers memory_store-IsMap client 3 (9 ∷ []) world
      peer_a (peer_b ∷ []) both sender-CanSend near_three read_both both-Nodup All-IsUp

abbrev value_reply : Message plain_protobuf
value_reply = record (new_message plain_protobuf) { value = 9 ∷ [] }

abbrev arrivals : List (Result (Message plain_protobuf) IoError)
arrivals = err refusal ∷ ok value_reply ∷ []

-- A client whose table holds three peers.
abbrev asker : DhtClient memory_store
asker = record { alpha = 2; myself = local; kvstore = Kvstore.new; routing_table = three }

find_value_lem_example :
    (o : Progress) × (find_value asker 3 arrivals ≡ done o) × Stands 2 arrivals o
unfolding find_value_local closer Kvstore.new Kvstore.get HashMap.get new_message
find_value_lem_example =
    find_value_lem asker 3 arrivals three-IsWellFormed refl (omega arith)
      (tt, (([], refl, Nodup-nil), tt))

-- The second reply would have brought the value.
lookup_gives_up_example :
    lookup 2 3 arrivals
      (record { candidates = peer_a ∷ peer_b ∷ []; queried = []; in_progress = 0 })
    ≡ done (answered (err not_found))
lookup_gives_up_example =
    lookup_gives_up 2 3
      (record { candidates = peer_a ∷ peer_b ∷ []; queried = []; in_progress = 0 }) refusal
      (ok value_reply ∷ []) (omega arith) (omega arith)

find_value_request-OfBytes : OfBytes find_value_request
unfolding create_find_value_request proto_peer_from_peer
find_value_request-OfBytes mp e =
    let same : proto_peer_from_peer sender ≡ mp = cc in
    subst (λ (q : ProtoPeer). IsBytes q.id) same (key_to_bytes-IsBytes 1234)

ready-IsOrderly : IsOrderly ready
unfolding RoutingTable.new Buckets.new
ready-IsOrderly = record { ready = server-IsReady; named = λ q m. absurd (not-mem-nil m) }

serve-Understood_example :
    IsOrderly (serve memory_store plain_protobuf Method.find_value find_value_request ready).0
    × Understood find_value_request
        (serve memory_store plain_protobuf Method.find_value find_value_request ready).1
serve-Understood_example =
    serve-Understood memory_store plain_protobuf memory_store-IsMap Method.find_value
      find_value_request ready find_value_request-OfBytes ready-IsOrderly

-- Two mock servers.
abbrev running : List Running
running = (codes "a", 3) ∷ (codes "b", 6) ∷ []

abbrev mocks : List (Address × MockDhtServer plain_protobuf)
mocks =
    (codes "a", new_mock plain_protobuf (codes "a"))
    ∷ (codes "b", new_mock plain_protobuf (codes "b"))
    ∷ []

test_store_passes_example :
    (w' : List (Address × MockDhtServer plain_protobuf)) × (test_store
        (lossless_to serve_mock)
        at
        2
        running
        mocks
      ≡ (w', done tt))
unfolding HashMap.get
test_store_passes_example =
    test_store_passes (lossless_to serve_mock) at (lossless_to-DeliversTo serve_mock)
      (λ p. p.address) running mocks (omega arith) both-Nodup
      (
        (refl, (new_mock plain_protobuf (codes "a"), refl)),
        ((refl, (new_mock plain_protobuf (codes "b"), refl)), tt),
      )
