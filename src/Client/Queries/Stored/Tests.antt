-- ===== src/Client/Queries/Stored/Tests.antt =====
-- A client stores a value at two peers, and another client, which knows one of them, looks it up.
use mathlib.Core.List.{mem-cons, mem-cons_self, not-mem-nil, Mem-prop}
use mathlib.Core.Logic.Or
use dht_kad_rs.Base.{
  ◌*◌, ◌≤◌, ◌≡◌, ◌⊎◌, refl, sym, subst, [], ◌∷◌, Mem, length, none, arith, done, Result, ok,
}
use dht_kad_rs.Base.HashMap
use dht_kad_rs.Base.Sort.{sort_by, insert}
use dht_kad_rs.Base.Text.{codes}
use dht_kad_rs.Keyutil.{common_prefix_length, leading_zeros}
use dht_kad_rs.Kvstore
use dht_kad_rs.Kvstore.{Bytes, memory_store}
use dht_kad_rs.Kvstore.Laws.{memory_store-IsMap}
use dht_kad_rs.Messages.{Message}
use dht_kad_rs.Messages.Tests.{plain_protobuf, sender, sender-CanSend}
use dht_kad_rs.Messages.Util.{IoError, create_find_value_request}
use dht_kad_rs.RoutingTable.{
  k_nearest_peers, nearest_peers, last_index, bucket_at, ideal_index, surrounding, nearer,
}
use dht_kad_rs.RoutingTable.First.{entered_by, entered_by-IsWellFormed}
use dht_kad_rs.Transport.{find_value}
use dht_kad_rs.Transport.Tests.{Servers, server, lossless, lossless-Delivers, address_dec}
use dht_kad_rs.Client.{
  DhtClient, find_value_local, Lookup, lookup, sort_and_spawn, spawn, pop, answered,
}
use dht_kad_rs.Client.Store.{store}
use dht_kad_rs.Client.Tests.{
  client, peer_a, peer_b, world, near_three, both, read_both, both-Nodup, All-IsUp,
}
use dht_kad_rs.Client.Queries.{
  Search, started, begin, ended, reading, spawned, spawn_query, Step, ends, reads, Reach, here,
  next,
}
use dht_kad_rs.Client.Queries.Bounded.{IsBounded, Reach-IsBounded}
use dht_kad_rs.Client.Queries.Ending.{steps}
use dht_kad_rs.Client.Queries.Stored.{lookup_after_store}

abbrev asker : DhtClient memory_store
asker = record {
  alpha = 2;
  myself = sender;
  kvstore = Kvstore.new;
  routing_table = entered_by peer_a 2 sender;
}

asker-near : k_nearest_peers asker.routing_table 3 ≡ done (peer_a ∷ [])
unfolding k_nearest_peers nearest_peers last_index bucket_at ideal_index surrounding nearer sort_by
    insert common_prefix_length leading_zeros
asker-near = refl

nothing_local : find_value_local asker 3 ≡ none
unfolding find_value_local Kvstore.new Kvstore.get HashMap.get
nothing_local = refl

abbrev value : Bytes
value = 9 ∷ []

abbrev after : Servers
after = (store {P = plain_protobuf} lossless client 3 value world).0

abbrev begun : Search lossless 2 3 sender
begun = started lossless asker 3 after

abbrev replied : Search lossless 2 3 sender
replied = ended lossless 2 3 sender begun 0 peer_a

abbrev asked : Lookup
asked = record { candidates = []; queried = peer_a ∷ []; in_progress = 1 }

abbrev reply : Result (Message plain_protobuf) IoError
reply =
    (find_value lossless (codes "a") (create_find_value_request plain_protobuf 3 sender) after).1

abbrev over : Search lossless 2 3 sender
over = reading lossless 2 3 sender replied asked reply []

-- The task of the only candidate ends, and the function reads its reply.
reaches : Reach lossless 2 3 sender begun over
unfolding started find_value_local HashMap.get Kvstore.new Kvstore.get k_nearest_peers nearest_peers
    last_index bucket_at ideal_index surrounding nearer common_prefix_length leading_zeros begin
    ended lookup sort_and_spawn spawn pop spawned spawn_query sort_by insert
reaches = next (next here (ends 0 peer_a refl)) (reads asked reply [] refl refl)

lookup_after_store_example :
    ((store {P = plain_protobuf} lossless client 3 value world).1 ≡ done (ok tt))
    × (steps lossless 2 3 sender reaches ≤ 2 * length (peer_a ∷ []))
    × ((over.function ≡ done (answered (ok value)))
        ⊎ ((τ : Search lossless 2 3 sender) × Step lossless 2 3 sender over τ))
lookup_after_store_example =
    lookup_after_store lossless server lossless-Delivers memory_store-IsMap address_dec client asker
      3 value world peer_a peer_a (peer_b ∷ []) [] both sender-CanSend near_three read_both
      both-Nodup All-IsUp (omega arith) sender-CanSend nothing_local
      (entered_by-IsWellFormed peer_a 2 sender (omega arith) (omega arith) (omega arith)) asker-near
      (λ x m.
        Or.elim Mem-prop (mem-cons.0 m)
          (λ z. subst (λ y. Mem y (peer_a ∷ peer_b ∷ [])) (sym z) mem-cons_self)
          (λ never. absurd (not-mem-nil never)))
      (omega arith) reaches

one_reply : Reach lossless 2 3 sender begun replied
unfolding started find_value_local HashMap.get Kvstore.new Kvstore.get k_nearest_peers nearest_peers
    last_index bucket_at ideal_index surrounding nearer common_prefix_length leading_zeros begin
    lookup sort_and_spawn spawn pop spawned sort_by insert
one_reply = next here (ends 0 peer_a refl)

Reach-IsBounded_example : IsBounded lossless asker 3 replied
unfolding ended started find_value_local HashMap.get Kvstore.new Kvstore.get k_nearest_peers
    nearest_peers last_index bucket_at ideal_index surrounding nearer common_prefix_length
    leading_zeros begin
Reach-IsBounded_example =
    Reach-IsBounded lossless asker 3 after
      (entered_by-IsWellFormed peer_a 2 sender (omega arith) (omega arith) (omega arith))
      nothing_local (omega arith) one_reply tt
