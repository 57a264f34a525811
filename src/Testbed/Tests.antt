-- ===== src/Testbed/Tests.antt =====
-- The test bed on a network of one server, and its arguments.
use mathlib.Core.List.{Nodup-nil, Nodup-cons, not-mem-nil}
use dht_kad_rs.Base.{
  ℕ, ◌%◌, ◌^◌, ◌<◌, ◌≡◌, refl, List, [], ◌∷◌, Option, none, some, done, panicked, ◌⊎◌, ok, arith,
  list_eq, nat_eq,
}
use dht_kad_rs.Base.Sort.{sort_by, insert}
use dht_kad_rs.Base.Text.{codes}
use dht_kad_rs.Base.HashMap
use dht_kad_rs.Keyutil.{
  Hasher128, calculate_hash, common_prefix_length, leading_zeros, key_from_bytes, key_to_bytes,
  from_be_bytes, to_be_bytes,
}
use dht_kad_rs.Kvstore.{Bytes, memory_store}
use dht_kad_rs.Kvstore
use dht_kad_rs.Kvstore.Laws.{memory_store-IsMap}
use dht_kad_rs.Messages.Tests.{sender, sender-CanSend}
use dht_kad_rs.Rpc.{
  serve, find_node_async, admit, admit_sender, answer_find_node, update_routing_table,
  table_after_reply,
}
use dht_kad_rs.Messages.{new_message}
use dht_kad_rs.Messages.Utf8.{is_utf8, from_utf8}
use dht_kad_rs.Messages.Util.{
  validate_request, proto_peer_to_peer, proto_peer_from_peer, create_find_node_request,
  create_find_node_response, create_ping_request,
}
use dht_kad_rs.RoutingTable.Buckets.{move_to_front_if_exists}
use dht_kad_rs.RoutingTable.{
  nearer, update, insert_new, add_peer_to_bucket, with_bucket, k_nearest_peers, nearest_peers,
  last_index, bucket_at, ideal_index, surrounding,
}
use dht_kad_rs.RoutingTable.Peers.{Peer}
use dht_kad_rs.RoutingTable.First.{entered_by, entered_by-IsWellFormed}
use dht_kad_rs.RoutingTable
use dht_kad_rs.RoutingTable.Buckets
use dht_kad_rs.Rpc.State.{DhtServer}
use dht_kad_rs.Rpc.Sender.{IsReady}
use dht_kad_rs.Service.{
  bootstrap, await_first, alive_peers, ask, alive, named, candidate_peers, dedup, dedup_after,
  unvisited, update_all,
}
use dht_kad_rs.Client.{closer, contains}
use dht_kad_rs.RoutingTable.Home.{ideal_index_bounds}
use dht_kad_rs.Rpc.Tests.{server as ready}
use dht_kad_rs.Transport.{addresses, join_all, find_node, ping, remote}
use dht_kad_rs.Transport.Tests.{Address, Servers, server, lossless, lossless-Delivers, address_dec}
use dht_kad_rs.Client.{find_value_local}
use dht_kad_rs.Service.Node.{DhtConfig, DhtService, new, init, dht_client}
use dht_kad_rs.Testbed.{Text, Parsers, run_testbed, bootstrap_peers}
use dht_kad_rs.Testbed.Arguments.{SayAll, bootstrap_peers_lem}
use dht_kad_rs.Testbed.Connected.{IsConnected, on_network}
use dht_kad_rs.Testbed.Networked.{run_testbed-on_network}

-- Addresses resolve to themselves, and the text of an identifier is one character.
abbrev one_digit : Text → Option ℕ
one_digit [] = none
one_digit (c ∷ cs) = some c

abbrev plain_parsers : Parsers Address
plain_parsers = record {
  to_socket_addrs = λ t. some (t ∷ []);
  parse_u128 = one_digit;
  parse_usize = one_digit;
}

abbrev first_peer : Peer
first_peer = record { id = 3; address = codes "a" }

abbrev second_peer : Peer
second_peer = record { id = 6; address = codes "b" }

abbrev texts : List Text
texts = codes "a" ∷ codes "b" ∷ []

abbrev ids : List Text
ids = (3 ∷ []) ∷ (6 ∷ []) ∷ []

bootstrap_peers_lem_example :
    let said = bootstrap_peers lossless plain_parsers texts ids in
    ((ps : List Peer) × (said ≡ done ps)
      × SayAll lossless plain_parsers texts ids ps
      × ((qs : List Peer) → SayAll lossless plain_parsers texts ids qs → qs ≡ ps))
    ⊎ ((said ≡ panicked) × ((qs : List Peer) → ¬ SayAll lossless plain_parsers texts ids qs))
bootstrap_peers_lem_example = bootstrap_peers_lem lossless plain_parsers texts ids

-- The hash of a key is its first byte.
abbrev small : List ℕ → ℕ
small [] = 0
small (b ∷ bs) = b % 256

abbrev small_hash : Hasher128
small_hash = record { State = ℕ; new = 0; write = λ s bs. small bs; finish_ext = λ s. s }

-- A service after its start, which knows one peer, and the one that `main` makes.
abbrev conf : DhtConfig lossless
conf = record {
  k = 2;
  alpha = 2;
  bootstrap_peers = first_peer ∷ [];
  id = sender.id;
  address = sender.address;
}

abbrev lone : DhtService lossless memory_store
lone = record {
  conf = conf;
  local = sender;
  shared = record { kvstore = Kvstore.new; routing_table = entered_by first_peer 2 sender };
}

abbrev world : Servers
world = (codes "a", ready) ∷ []

nearest_one :
    (target : ℕ) → k_nearest_peers (entered_by first_peer 2 sender) target ≡ done (first_peer ∷ [])
unfolding k_nearest_peers nearest_peers last_index bucket_at surrounding sort_by insert
nearest_one target =
    let first : ideal_index (common_prefix_length sender.id target) 0 ≡ 0 =
      omega (arith, (ideal_index_bounds (common_prefix_length sender.id target) 0).0) in
    rw first

small-IsKey : (key : List ℕ) → small key < 2 ^ 128
small-IsKey [] = omega arith
small-IsKey (b ∷ bs) = omega arith

lone_connected : IsConnected lossless small_hash memory_store lone
unfolding calculate_hash find_value_local dht_client Kvstore.new Kvstore.get HashMap.get addresses
lone_connected = record {
  can_send = sender-CanSend;
  asks_some = omega arith;
  hashes = small-IsKey;
  has_none = λ key. refl;
  nearest = λ key. first_peer;
  others = λ key. [];
  near = λ key. nearest_one (small key);
  places = λ key. codes "a" ∷ [];
  reads = λ key. refl;
  distinct = λ key. Nodup-cons.1 (not-mem-nil, Nodup-nil);
}

abbrev data_of_test : List (Bytes × Bytes)
data_of_test = (1 ∷ [], 7 ∷ []) ∷ (2 ∷ [], 8 ∷ []) ∷ []

-- The server has the service in its table after it was called.
abbrev after_call : DhtServer memory_store
after_call = record {
  kvstore = Kvstore.new;
  routing_table = entered_by sender 2 (record { id = 5; address = [] });
}

after_call-IsReady : IsReady after_call
after_call-IsReady = record {
  well_formed =
      entered_by-IsWellFormed sender 2 (record { id = 5; address = [] }) (omega arith) (omega arith)
        (omega arith);
  room = omega arith;
}

abbrev called : Servers
called = (codes "a", after_call) ∷ []

abbrev fresh : Servers × DhtService lossless memory_store
fresh = (world, new lossless memory_store conf)

starts : init lossless [] fresh ≡ ((called, lone), done (ok tt))
unfolding init new RoutingTable.new Buckets.new bootstrap await_first alive_peers ask alive named
    candidate_peers dedup dedup_after unvisited sort_by insert closer contains update_all join_all
    find_node ping remote addresses HashMap.get HashMap.insert serve find_node_async admit
    admit_sender answer_find_node update_routing_table validate_request is_utf8 proto_peer_to_peer
    proto_peer_from_peer update insert_new add_peer_to_bucket with_bucket move_to_front_if_exists
    k_nearest_peers nearest_peers last_index bucket_at ideal_index surrounding nearer
    common_prefix_length leading_zeros create_find_node_request create_find_node_response
    create_ping_request key_from_bytes key_to_bytes from_be_bytes to_be_bytes new_message from_utf8
    Buckets.position table_after_reply
starts = refl

run_testbed-on_network_example :
    (end : Servers × DhtService lossless memory_store) × (run_testbed
        (on_network lossless small_hash memory_store [] 2)
        data_of_test
        fresh
      ≡ (end, done tt))
unfolding HashMap.get calculate_hash lone_connected
run_testbed-on_network_example =
    run_testbed-on_network lossless server lossless-Delivers memory_store-IsMap address_dec
      small_hash lone lone_connected [] 0 data_of_test fresh called starts
      (λ key. ((after_call, refl, after_call-IsReady), tt)) (omega arith, (omega arith, tt))
      (((λ e. omega (arith, e)), tt), (tt, tt))
