-- ===== src/Client/Replicated.antt =====
-- The client against servers: a value that was stored is at every peer that was asked, and a lookup
-- whose first reply comes from one of them returns it.
use mathlib.Core.List.{Nodup-cons, mem-cons_of_mem, mem-cons_self}
use dht_kad_rs.Base.{
  ◌≡◌, ◌≢◌, refl, sym, subst, ◌∙◌, true, List, [], ◌∷◌, map, Mem, Nodup, Option, some, list_eq,
  ◌==◌, if◌then◌else◌, nat_eq, same_of_eq, All, All-imp, ok,
}
use dht_kad_rs.Kvstore.{Bytes, KvStore}
use dht_kad_rs.Kvstore.Laws.{IsMap}
use dht_kad_rs.Messages.{Protobuf, Message}
use dht_kad_rs.Messages.Util.{create_store_response, create_find_value_response}
use dht_kad_rs.RoutingTable.Peers.{Peer}
use dht_kad_rs.Rpc.{Method, serve}
use dht_kad_rs.Rpc.State.{DhtServer}
use dht_kad_rs.Rpc.Sender.{IsReady, SentBy}
use dht_kad_rs.Rpc.Answered.{store_async_lem, find_value_async_hit}
use dht_kad_rs.Transport.{Network, join_all, store_value, find_value}
use dht_kad_rs.Transport.Delivered.{Delivers, remote_delivered}

module _ {K : KvStore} {P : Protobuf} (net : Network P)
    (server : net.World → net.SocketAddr → Option (DhtServer K)) (d : Delivers net server)
    {view : K.Store → Bytes → Option Bytes} (map_law : IsMap K view) where
  -- A server in good order stands at `a`.
  abbrev pub IsUp : net.World → net.SocketAddr → Type 0
  IsUp w a = (s : DhtServer K) × (server w a ≡ some s) × IsReady s

  -- A server in good order stands at `a`, and it has the value `v` for the key.
  abbrev pub Holds : Bytes → Bytes → net.World → net.SocketAddr → Type 0
  Holds key v w a =
      (s : DhtServer K) × (server w a ≡ some s) × IsReady s × (view s.kvstore key ≡ some v)

  -- A server in good order stands at `a` in `w`. In `w'` it is in good order, with the value `v` for the
  -- key and with what it had for every other key.
  abbrev pub Took : Bytes → Bytes → net.World → net.World → net.SocketAddr → Type 0
  Took key v w w' a =
      (s s' : DhtServer K) × (server w a ≡ some s)
      × (server w' a ≡ some s')
      × IsReady s'
      × ((j : Bytes) → view s'.kvstore j ≡ (if key == j then some v else view s.kvstore j))

  pub Took-Holds :
      (key v : Bytes) (w w' : net.World) (a : net.SocketAddr) → Took key v w w' a → Holds key v w' a
  Took-Holds key v w w' a (_, s', _, now, ready, holds) =
      (s', now, ready, holds key ∙ rw (same_of_eq key key refl))

  module _ (m : Message P) (p : Peer) (from : SentBy m p) where
    store_value_lem :
        (w : net.World) (a : net.SocketAddr)
        → IsUp w a
        → (w' : net.World) × (store_value net a m w ≡ (w', ok (create_store_response P true)))
          × Took m.key m.value w w' a
          × ((b : net.SocketAddr) → b ≢ a → server w' b ≡ server w b)
    unfolding store_value serve
    store_value_lem w a (s, here, ready) =
        let (s', e, entered, holds) = store_async_lem m p s ready from map_law in
        let (w', sent, now, same) =
          remote_delivered d w a Method.store m s s' (create_store_response P true) here e in
        (w', sent, (s, s', here, now, entered.ready, holds), same)

    -- Every one of the servers stores the value and answers so.
    pub join_all_stores :
        (addrs : List net.SocketAddr) (w : net.World)
        → Nodup addrs
        → All (IsUp w) addrs
        → (w' : net.World) × (join_all net (λ a. store_value net a m) addrs w
            ≡ (w', map (λ _. ok (create_store_response P true)) addrs))
          × All (Took m.key m.value w w') addrs
          × ((b : net.SocketAddr) → ¬ Mem b addrs → server w' b ≡ server w b)
    unfolding join_all
    join_all_stores [] w distinct up = (w, refl, tt, λ b _. refl)
    join_all_stores (a ∷ addrs) w distinct (here, up) =
        let (fresh, distinct') = Nodup-cons.0 distinct in
        let (w1, e1, (s, s', was, now, ready, holds), same1) = store_value_lem w a here in
        let still = λ (b : net.SocketAddr) (mb : Mem b addrs).
          same1 b (λ z. fresh (subst (λ x. Mem x addrs) z mb)) in
        let up1 : All (IsUp w1) addrs =
          All-imp addrs (λ b mb (t, at, r). (t, still b mb ∙ at, r)) up in
        let (w2, e2, took, same2) = join_all_stores addrs w1 distinct' up1 in
        let took' : All (Took m.key m.value w w2) addrs =
          All-imp addrs
            (λ b mb (t, t', at, at', ok_t, all). (t, t', sym (still b mb) ∙ at, at', ok_t, all))
            took in
        (
          w2,
          rw (e1, e2),
          ((s, s', was, same2 a fresh ∙ now, ready, holds), took'),
          λ b out.
              same2 b (λ mb. out (mem-cons_of_mem a mb))
              ∙ same1 b (λ z. out (subst (λ x. Mem x (a ∷ addrs)) (sym z) mem-cons_self)),
        )

    -- A server that holds a value for the key of a request answers a find value by it. It is in good
    -- order after that, and its store and every other server are as they were.
    pub find_value_held :
        (v : Bytes) (w : net.World) (a : net.SocketAddr)
        → Holds m.key v w a
        → (w' : net.World) × (find_value net a m w
            ≡ (w', ok (create_find_value_response P m.key v)))
          × ((s s' : DhtServer K) × (server w a ≡ some s)
              × (server w' a ≡ some s')
              × IsReady s'
              × (s'.kvstore ≡ s.kvstore))
          × ((b : net.SocketAddr) → b ≢ a → server w' b ≡ server w b)
    unfolding find_value serve
    find_value_held v w a (s, here, ready, has) =
        let (s', e, entered, kv) = find_value_async_hit m p s ready from map_law v has in
        let (w', sent, now, same) =
          remote_delivered d w a Method.find_value m s s' (create_find_value_response P m.key v)
            here e in
        (w', sent, (s, s', here, now, entered.ready, kv), same)
