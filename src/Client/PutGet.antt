-- ===== src/Client/PutGet.antt =====
-- `store` by one client and then `find_value` by another, over a network of servers.
use dht_kad_rs.Base.{
  ℕ, ◌<◌, ◌≡◌, refl, ap, ◌∙◌, true, false, List, [], ◌∷◌, map, All, All-imp, Mem, Nodup, Option,
  none, length, arith, done, Result, ok, eqb, ltb,
}
use dht_kad_rs.Kvstore.{Bytes, KvStore}
use dht_kad_rs.Kvstore.Laws.{IsMap}
use dht_kad_rs.Keyutil.{key_to_bytes}
use dht_kad_rs.Messages.{Protobuf, ErrorCode, Message}
use dht_kad_rs.Messages.Validity.{CanSend, requests-IsFrom}
use dht_kad_rs.Messages.Util.{
  IoError, RpcError, create_store_request, create_store_response, create_find_value_request,
  create_find_value_response, validate_store_result,
}
use dht_kad_rs.RoutingTable.{k_nearest_peers}
use dht_kad_rs.RoutingTable.Peers.{Peer}
use dht_kad_rs.Rpc.State.{DhtServer}
use dht_kad_rs.Rpc.Sender.{request-SentBy}
use dht_kad_rs.Transport.{Network, addresses, join_all, store_value, find_value}
use dht_kad_rs.Transport.Delivered.{Delivers}
use dht_kad_rs.Client.{
  DhtClient, Lookup, Progress, answered, handle, handle_reply, lookup, find_value_local,
  sort_and_spawn,
}
use dht_kad_rs.Client
use dht_kad_rs.Client.Store.{no_error, tally, store_at, store}
use dht_kad_rs.Client.Spawned.{sort_and_spawn-Spawned}
use dht_kad_rs.Client.Search.{round_busy}
use dht_kad_rs.Client.Replicated.{IsUp, Took, Holds, Took-Holds, join_all_stores, find_value_held}

accepted_lem :
    (P : Protobuf) → validate_store_result {P = P} (ok (create_store_response P true)) ≡ ok tt
unfolding validate_store_result create_store_response
accepted_lem P = rw (P.codes.value-new ErrorCode.ok)

tally_accepted :
    (P : Protobuf) {A : Type 0} (addrs : List A) (n : ℕ) (e : RpcError)
    → tally {P = P} (map (λ _. ok (create_store_response P true)) addrs) n e ≡ (n, e)
unfolding tally
tally_accepted P [] n e = refl
tally_accepted P (a ∷ addrs) n e = rw (tally, accepted_lem P) (tally_accepted P addrs n e)

-- The first reply ends a lookup if it brings a value.
pub find_value_first :
    {K : KvStore} {P : Protobuf} (c : DhtClient K) (key : ℕ) (m : Message P)
    (rs : List (Result (Message P) IoError)) (p : Peer) (ps : List Peer)
    → find_value_local c key ≡ none
    → k_nearest_peers c.routing_table key ≡ done (p ∷ ps)
    → 0 < c.alpha
    → 0 < length m.value
    → Client.find_value c key (ok m ∷ rs) ≡ done (answered (ok m.value))
unfolding Client.find_value lookup handle handle_reply
find_value_first c key m rs p ps nothing near pos full =
    let start : Lookup = record { candidates = p ∷ ps; queried = []; in_progress = 0 } in
    let busy = round_busy (sort_and_spawn-Spawned c.alpha key start) pos (omega arith) in
    let left : eqb (length start.candidates) 0 ≡ false = ground arith in
    let some_open : eqb (sort_and_spawn c.alpha key start).in_progress 0 ≡ false = ground arith in
    let filled : ltb 0 (length m.value) ≡ true = ground arith in
    rw (Client.find_value, nothing, near, left, some_open, filled)

pub store_at_accepted :
    {P : Protobuf} (net : Network P) (n : ℕ) (request : Message P) (addrs : List net.SocketAddr)
    (w w' : net.World)
    → 0 < n
    → join_all net (λ a. store_value net a request) addrs w
      ≡ (w', map (λ _. ok (create_store_response P true)) addrs)
    → store_at net n request addrs w ≡ (w', done (ok tt))
unfolding store_at
store_at_accepted {P} net n request addrs w w' some_asked e =
    let none_failed : eqb 0 n ≡ false = ground arith in
    rw (e, tally_accepted P addrs 0 no_error, none_failed)

pub store_starts :
    {K : KvStore} {P : Protobuf} (net : Network P) (c : DhtClient K) (key : ℕ) (value : Bytes)
    (w : net.World) (ps : List Peer) (addrs : List net.SocketAddr)
    → k_nearest_peers c.routing_table key ≡ done ps
    → addresses net ps ≡ done addrs
    → store net c key value w
      ≡ store_at net (length ps) (create_store_request P c.myself key value) addrs w
unfolding store
store_starts net c key value w ps addrs near read = rw (near, read)

module _ {K : KvStore} {P : Protobuf} (net : Network P)
    (server : net.World → net.SocketAddr → Option (DhtServer K)) (d : Delivers net server)
    {view : K.Store → Bytes → Option Bytes} (map_law : IsMap K view) where
  -- The servers at the nearest peers take the value, and the other servers are as they were.
  pub store-Took :
      (c : DhtClient K) (key : ℕ) (value : Bytes) (w : net.World) (p : Peer) (ps : List Peer)
      (addrs : List net.SocketAddr)
      → CanSend c.myself
      → k_nearest_peers c.routing_table key ≡ done (p ∷ ps)
      → addresses net (p ∷ ps) ≡ done addrs
      → Nodup addrs
      → All (IsUp net server d map_law w) addrs
      → (w' : net.World) × (store net c key value w ≡ (w', done (ok tt)))
        × All (Took net server d map_law (key_to_bytes key) value w w') addrs
        × ((b : net.SocketAddr) → ¬ Mem b addrs → server w' b ≡ server w b)
  unfolding create_store_request
  store-Took c key value w p ps addrs can near read distinct up =
      let request = create_store_request P c.myself key value in
      let from = request-SentBy request c.myself can (requests-IsFrom P c.myself key value can).0 in
      let (w', e, took, same) =
        join_all_stores net server d map_law request c.myself from addrs w distinct up in
      (
        w',
        store_starts net c key value w (p ∷ ps) addrs near read
            ∙ store_at_accepted net (length (p ∷ ps)) request addrs w w' (omega arith) e,
        took,
        same,
      )

  -- A client that can send stores a value at the peers that are nearest to the key, one at least, whose
  -- addresses read and are distinct, and at each of which a server in good order stands. Then `store`
  -- reports success, every one of these servers holds the value, and the servers at other addresses
  -- are as they were.
  pub store_replicates :
      (c : DhtClient K) (key : ℕ) (value : Bytes) (w : net.World) (p : Peer) (ps : List Peer)
      (addrs : List net.SocketAddr)
      → CanSend c.myself
      → k_nearest_peers c.routing_table key ≡ done (p ∷ ps)
      → addresses net (p ∷ ps) ≡ done addrs
      → Nodup addrs
      → All (IsUp net server d map_law w) addrs
      → (w' : net.World) × (store net c key value w ≡ (w', done (ok tt)))
        × All (Holds net server d map_law (key_to_bytes key) value w') addrs
        × ((b : net.SocketAddr) → ¬ Mem b addrs → server w' b ≡ server w b)
  store_replicates c key value w p ps addrs can near read distinct up =
      let (w', e, took, same) = store-Took c key value w p ps addrs can near read distinct up in
      (
        w',
        e,
        All-imp addrs (λ a _ t. Took-Holds net server d map_law (key_to_bytes key) value w w' a t)
            took,
        same,
      )

  -- What a server answers to the find value of a client ends the lookup of that client.
  finds_held :
      (c : DhtClient K) (key : ℕ) (value : Bytes) (w : net.World) (a : net.SocketAddr) (p : Peer)
      (ps : List Peer)
      → CanSend c.myself
      → find_value_local c key ≡ none
      → k_nearest_peers c.routing_table key ≡ done (p ∷ ps)
      → 0 < c.alpha
      → 0 < length value
      → (rs : List (Result (Message P) IoError))
      → Holds net server d map_law (key_to_bytes key) value w a
      → Client.find_value c key
          ((find_value net a (create_find_value_request P key c.myself) w).1 ∷ rs)
        ≡ done (answered (ok value))
  unfolding create_find_value_request create_find_value_response
  finds_held c key value w a p ps can nothing near pos full rs held =
      let request = create_find_value_request P key c.myself in
      let from = request-SentBy request c.myself can (requests-IsFrom P c.myself key [] can).2 in
      let (w', e, _, _) =
        find_value_held net server d map_law request c.myself from value w a held in
      let answer = create_find_value_response P (key_to_bytes key) value in
      ap (λ (r : net.World × Result (Message P) IoError). Client.find_value c key (r.1 ∷ rs)) e
      ∙ find_value_first c key answer rs p ps nothing near pos full

  -- A client stores a value that is not empty, as in `store_replicates`. After that another client,
  -- which can send, has no value of its own for the key, knows a peer and has `alpha` above zero, looks
  -- the key up. If the first reply that it reads comes from one of the servers of the store, whichever it
  -- is and whatever replies follow, the lookup returns the value.
  pub find_value_after_store :
      (c l : DhtClient K) (key : ℕ) (value : Bytes) (w : net.World) (p q : Peer) (ps qs : List Peer)
      (addrs : List net.SocketAddr)
      → CanSend c.myself
      → k_nearest_peers c.routing_table key ≡ done (p ∷ ps)
      → addresses net (p ∷ ps) ≡ done addrs
      → Nodup addrs
      → All (IsUp net server d map_law w) addrs
      → 0 < length value
      → CanSend l.myself
      → find_value_local l key ≡ none
      → k_nearest_peers l.routing_table key ≡ done (q ∷ qs)
      → 0 < l.alpha
      → (rs : List (Result (Message P) IoError))
      → (w' : net.World) × (store net c key value w ≡ (w', done (ok tt)))
        × All
            (λ a.
              Client.find_value l key
                ((find_value net a (create_find_value_request P key l.myself) w').1 ∷ rs)
              ≡ done (answered (ok value)))
            addrs
  find_value_after_store c l key value w p q ps qs addrs can near read distinct up full can' nothing
        near' pos rs =
      let (w', e, hold, _) = store_replicates c key value w p ps addrs can near read distinct up in
      (
        w',
        e,
        All-imp addrs
            (λ a _ held. finds_held l key value w' a q qs can' nothing near' pos full rs held) hold,
      )
