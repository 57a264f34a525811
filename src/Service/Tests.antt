-- ===== src/Service/Tests.antt =====
-- The start of a service, and what two services put and get.
use mathlib.Core.List.{mem-cons, not-mem-nil}
use mathlib.Core.Bool.{Bool-set}
use mathlib.Core.Logic.Or
use dht_kad_rs.Base.{
  exhausted, ◌++◌, All, repeat, sym, subst, ap, ◌∙◌, Mem, Nodup, eqb, if◌then◌else◌, ◌==◌,
  eq_of_same, true, ℕ, ◌≡◌, refl, List, [], ◌∷◌, arith, done, ok,
}
use dht_kad_rs.Base.Text.{codes}
use dht_kad_rs.Messages.Tests.{plain_protobuf, sender}
use dht_kad_rs.RoutingTable.{RoutingTable}
use dht_kad_rs.RoutingTable
use dht_kad_rs.RoutingTable.Peers.{Peer, peer_eq}
use dht_kad_rs.Transport.{Network, addresses, join_all, find_node, ping, remote}
use dht_kad_rs.Base.HashMap
use dht_kad_rs.Keyutil.{Hasher128, calculate_hash}
use dht_kad_rs.Kvstore.{Bytes, memory_store}
use dht_kad_rs.Kvstore
use dht_kad_rs.Kvstore.Laws.{memory_store-IsMap}
use dht_kad_rs.Messages.Tests.{sender-CanSend}
use dht_kad_rs.Messages.Util.{create_find_value_request, create_ping_response}
use dht_kad_rs.Rpc.{Method, serve}
use dht_kad_rs.Rpc.State.{DhtServer}
use dht_kad_rs.Rpc.Tests.{ping_request, ping_request-SentBy}
use dht_kad_rs.Transport
use dht_kad_rs.Transport.Tests.{Servers, server, lossless, lossless-Delivers}
use dht_kad_rs.Client.{answered, find_value_local}
use dht_kad_rs.Client.Tests.{
  peer_a, peer_b, table, world, both, near_three, read_both, both-Nodup, All-IsUp,
}
use dht_kad_rs.Service.Node.{DhtConfig, DhtService, new, dht_client, get, put}
use dht_kad_rs.Service.Started.{first_connection}
use dht_kad_rs.Service.Shared.{get-put}
use dht_kad_rs.Service.{wait_for_connection, candidate_peers}
use dht_kad_rs.Service.Distinct.{Identified, candidate_peers-Nodup}
use dht_kad_rs.RoutingTable.Buckets
use dht_kad_rs.Client.Queries.Community.Tests.{world as trio}

abbrev known : Peer
known = record { id = 6; address = codes "b" }

abbrev start : RoutingTable
start = RoutingTable.new 2 sender

-- Two peers that two bootstrap peers name each.
abbrev a : Peer
a = record { id = 3; address = codes "a" }

-- The peer that an identifier belongs to.
abbrev peer_of : ℕ → Peer
peer_of id = record { id = id; address = if eqb id 3 then codes "a" else codes "b" }

-- The identifier tells the two peers apart.
told_apart : (p : Peer) → Mem p (known ∷ a ∷ known ∷ []) → (p == peer_of p.id) ≡ true
told_apart p m = Or.elim (Bool-set _ true) (mem-cons.0 m) (is_it known refl) (λ m'.
    Or.elim (Bool-set _ true) (mem-cons.0 m') (is_it a refl) (λ m''.
      Or.elim (Bool-set _ true) (mem-cons.0 m'') (is_it known refl)
        (λ none_left. absurd (not-mem-nil none_left))))
  where
    is_it : (q : Peer) → (q == peer_of q.id) ≡ true → p ≡ q → (p == peer_of p.id) ≡ true
    is_it q e z = subst (λ (x : Peer). (x == peer_of x.id) ≡ true) (sym z) e

two-Identified : Identified (known ∷ a ∷ known ∷ [])
two-Identified p q mp mq e =
    eq_of_same p _ (told_apart p mp) ∙ ap peer_of e ∙ sym (eq_of_same q _ (told_apart q mq))

candidate_peers-Nodup_example : Nodup (candidate_peers [] (known ∷ a ∷ known ∷ []))
candidate_peers-Nodup_example = candidate_peers-Nodup [] (known ∷ a ∷ known ∷ []) two-Identified

-- A hash by the first byte.
abbrev first_byte : List ℕ → ℕ
first_byte [] = 0
first_byte (b ∷ bs) = b

abbrev plain_hash : Hasher128
plain_hash = record { State = ℕ; new = 0; write = λ s bs. first_byte bs; finish_ext = λ s. s }

-- A service whose table has two peers that are up.
abbrev connected : DhtService lossless memory_store
connected = record {
  conf = record {
    k = 2;
    alpha = 2;
    bootstrap_peers = [];
    id = sender.id;
    address = sender.address;
  };
  local = sender;
  shared = record { kvstore = Kvstore.new; routing_table = table };
}

get-put_example :
    (w' : Servers) × (put lossless plain_hash connected (3 ∷ []) (9 ∷ []) world
      ≡ (w', done (ok tt)))
    × All
        (λ a.
          get lossless plain_hash connected (3 ∷ []) (
            (Transport.find_value lossless a
              (create_find_value_request plain_protobuf (calculate_hash plain_hash (3 ∷ [])) sender)
              w').1
            ∷ [])
          ≡ done (answered (ok (9 ∷ []))))
        both
unfolding find_value_local Kvstore.new Kvstore.get HashMap.get calculate_hash dht_client
get-put_example =
    get-put lossless server lossless-Delivers memory_store-IsMap plain_hash connected connected
      (3 ∷ []) (9 ∷ []) world peer_a peer_a (peer_b ∷ []) (peer_b ∷ []) both sender-CanSend
      near_three read_both both-Nodup All-IsUp (omega arith) sender-CanSend refl near_three
      (omega arith) []

abbrev conf : DhtConfig lossless
conf = record { k = 2; alpha = 2; bootstrap_peers = []; id = sender.id; address = sender.address }

first_connection_example :
    let s = (new lossless memory_store conf).shared in
    (s' : DhtServer memory_store) × (serve memory_store plain_protobuf Method.ping ping_request s
      ≡ (s', done (create_ping_response plain_protobuf)))
    × (wait_for_connection conf.id (repeat 3 s.routing_table) ≡ exhausted)
    × (wait_for_connection conf.id (repeat 3 s.routing_table ++ s'.routing_table ∷ []) ≡ done tt)
first_connection_example =
    first_connection lossless memory_store-IsMap conf ping_request sender 3 [] (omega arith)
      (omega arith) ping_request-SentBy
