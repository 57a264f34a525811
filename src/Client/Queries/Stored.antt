-- ===== src/Client/Queries/Stored.antt =====
-- A lookup with its tasks, after a `store` at the peers that it asks.
mod Tests
use mathlib.Core.List.{mem-cons, mem-cons_self, mem-cons_of_mem, not-mem-nil, Mem-prop, Nodup-nil}
use mathlib.Core.Logic.Or
use dht_kad_rs.Base.{
  ℕ, ◌*◌, ◌≤◌, ◌<◌, ◌≡◌, ◌≢◌, ◌⊎◌, inl, inr, refl, sym, subst, ap, ◌∙◌, List, [], ◌∷◌, Mem, Nodup,
  All, All-imp, All-find, Option, Option-cases, bind-returns, unwrap-returns, none, some, unwrap,
  length, Outcome, done, Result, ok,
}
use dht_kad_rs.Keyutil.{key_to_bytes}
use dht_kad_rs.Kvstore.{Bytes, KvStore}
use dht_kad_rs.Kvstore.Laws.{IsMap}
use dht_kad_rs.Messages.{Protobuf, Message}
use dht_kad_rs.Messages.Validity.{CanSend, requests-IsFrom}
use dht_kad_rs.Messages.Util.{
  IoError, RpcError, create_find_value_request, create_find_value_response,
}
use dht_kad_rs.RoutingTable.{k_nearest_peers}
use dht_kad_rs.RoutingTable.Invariant.{IsWellFormed}
use dht_kad_rs.RoutingTable.Nearest.{nearest_peers-Answers}
use dht_kad_rs.RoutingTable.Peers.{Peer}
use dht_kad_rs.Rpc.State.{DhtServer}
use dht_kad_rs.Rpc.Sender.{request-SentBy}
use dht_kad_rs.Transport.{Network, addresses, find_value}
use dht_kad_rs.Transport.Delivered.{Delivers}
use dht_kad_rs.Client.{DhtClient, closer, answered, find_value_local}
use dht_kad_rs.Client.Store.{store}
use dht_kad_rs.Client.PutGet.{store_replicates}
use dht_kad_rs.Client.Replicated.{IsUp, Holds, find_value_held}
use dht_kad_rs.Client.Queries.{Search, begin, started, Step, Reach}
use dht_kad_rs.Client.Queries.Ending.{starting, steps, lookup_terminates}
use dht_kad_rs.Client.Queries.Flow.{Serves, Serves-imp}
use dht_kad_rs.Client.Queries.Replicas.{Brings, lookup_of_replicas}
use dht_kad_rs.Client.Queries.Within.{Names}
use dht_kad_rs.Client.Queries.Started.{found-Names, started_begins, addresses-found}

module _ {K : KvStore} {P : Protobuf} (net : Network P)
    (server : net.World → net.SocketAddr → Option (DhtServer K)) (d : Delivers net server)
    {view : K.Store → Bytes → Option Bytes} (map_law : IsMap K view)
    (dec : (a b : net.SocketAddr) → Dec (a ≡ b)) where
  -- Servers that hold a value still hold it after one of them has answered by it.
  find_value-Holds :
      (key : ℕ) (value : Bytes) (myself : Peer) (addrs : List net.SocketAddr) (a : net.SocketAddr)
      (w : net.World)
      → CanSend myself
      → All (Holds net server d map_law (key_to_bytes key) value w) addrs
      → Mem a addrs
      → let answer = find_value net a (create_find_value_request P key myself) w in
        All (Holds net server d map_law (key_to_bytes key) value answer.0) addrs
        × (answer.1 ≡ ok (create_find_value_response P (key_to_bytes key) value))
  unfolding create_find_value_request
  find_value-Holds key value myself addrs a w can hold m =
      let request = create_find_value_request P key myself in
      let from = request-SentBy request myself can (requests-IsFrom P myself key [] can).2 in
      let here =
        All-find dec (Holds net server d map_law (key_to_bytes key) value w) addrs a hold m in
      let (w', e, (s, s', was, now, ready, same), others) =
        find_value_held net server d map_law request myself from value w a here in
      (
        subst (λ (x : net.World). All (Holds net server d map_law (key_to_bytes key) value x) addrs)
            (sym (ap (λ (z : net.World × Result (Message P) IoError). z.0) e))
            (All-imp addrs
              (λ b mb (t, at, ok_t, has). elim (dec b a) [
                | yes z ↦
                    let found : some t ≡ some s = sym at ∙ ap (server w) z ∙ was in
                    let one : t ≡ s = cc in
                    (
                      s',
                      ap (server w') z ∙ now,
                      ready,
                      ap (λ (k : K.Store). view k (key_to_bytes key))
                            (same ∙ ap (λ (x : DhtServer K). x.kvstore) (sym one))
                          ∙ has,
                    )
                | no other ↦ (t, others b other ∙ at, ok_t, has)
              ])
              hold),
        ap (λ (z : net.World × Result (Message P) IoError). z.1) e,
      )

  -- Servers that hold a value answer the lookup of a client by it.
  holders-Serves :
      (key alpha : ℕ) (value : Bytes) (myself : Peer) (ps candidates : List Peer)
      (addrs : List net.SocketAddr)
      → CanSend myself
      → addresses net ps ≡ done addrs
      → ((p : Peer) → Mem p candidates → Mem p ps)
      → Serves net alpha key myself candidates
          (λ w. All (Holds net server d map_law (key_to_bytes key) value w) addrs)
          (λ r. r ≡ ok (create_find_value_response P (key_to_bytes key) value))
  holders-Serves key alpha value myself ps candidates addrs can read inside = record {
    addressed = λ p m. elim (Option-cases (net.parse p.address)) [
      | inl unread ↦ absurd ((addresses-found net ps addrs p read (inside p m)).0 unread)
      | inr found ↦ found
    ];
    answers = λ p a w m at hold.
        find_value-Holds key value myself addrs a w can hold
          ((addresses-found net ps addrs p read (inside p m)).1 a at);
  }

  -- The lookup, from where the local store has no value.
  lookup_from_begin :
      (c l : DhtClient K) (key : ℕ) (value : Bytes) (w : net.World) (p q : Peer) (ps qs : List Peer)
      (addrs : List net.SocketAddr) {σ : Search net l.alpha key l.myself}
      → CanSend c.myself
      → k_nearest_peers c.routing_table key ≡ done (p ∷ ps)
      → addresses net (p ∷ ps) ≡ done addrs
      → Nodup addrs
      → All (IsUp net server d map_law w) addrs
      → 0 < length value
      → CanSend l.myself
      → IsWellFormed l.routing_table
      → k_nearest_peers l.routing_table key ≡ done (q ∷ qs)
      → ((x : Peer) → Mem x (q ∷ qs) → Mem x (p ∷ ps))
      → 0 < l.alpha
      → (r : Reach net l.alpha key l.myself
          (begin net l.alpha key l.myself (starting (q ∷ qs)) (store net c key value w).0)
          σ)
      → ((store net c key value w).1 ≡ done (ok tt))
        × (steps net l.alpha key l.myself r ≤ 2 * length (q ∷ qs))
        × ((σ.function ≡ done (answered (ok value)))
            ⊎ ((τ : Search net l.alpha key l.myself) × Step net l.alpha key l.myself σ τ))
  unfolding k_nearest_peers create_find_value_response
  lookup_from_begin c l key value w p q ps qs addrs can near read distinct up full can' wf near'
        inside pos r =
      let (w', e, hold, _) =
        store_replicates net server d map_law c key value w p ps addrs can near read distinct up in
      let (xs, near_too, found) = nearest_peers-Answers l.routing_table key l.routing_table.k wf in
      let same : xs ≡ q ∷ qs = cc in
      let good =
        subst (λ (x : net.World). All (Holds net server d map_law (key_to_bytes key) value x) addrs)
          (sym (ap (λ (z : net.World × Outcome (Result (Unit {0}) RpcError)). z.0) e)) hold in
      let serves =
        holders-Serves key l.alpha value l.myself (p ∷ ps) (q ∷ qs) addrs can' read inside in
      let names =
        Serves-imp net l.alpha key l.myself (q ∷ qs) _ {Fine' = Names (q ∷ qs) (λ v. v ≡ value)}
          (λ r told.
            subst (Names (q ∷ qs) (λ v. v ≡ value)) (sym told)
              (found-Names P (key_to_bytes key) value (q ∷ qs)))
          serves in
      let brings =
        Serves-imp net l.alpha key l.myself (q ∷ qs) _ {Fine' = Brings value}
          (λ r told. (_, told, refl)) serves in
      let (few, _) =
        lookup_terminates net l.alpha key l.myself (q ∷ qs) (λ v. v ≡ value) _ (q ∷ qs) _ names pos
          (subst Nodup same found.distinct) (λ x m. m) good r in
      (
        ap (λ (z : net.World × Outcome (Result (Unit {0}) RpcError)). z.1) e,
        few,
        elim (lookup_of_replicas net l.alpha key l.myself value q qs _ brings full _ pos good r) [
          | inl returned ↦ inl returned
          | inr (_, goes_on) ↦ inr goes_on
        ],
      )

  -- On a network of servers, a client that can send stores a value that is not empty: the peers of its
  -- table that are nearest to the key are one at least, their addresses read and are distinct, and servers
  -- in good order stand there. After that another client calls `find_value`, which can send, has no value
  -- of its own for the key, has a well-formed table and `alpha` above zero, and whose nearest peers for the
  -- key are one at least, all among those of the store. Then `store` has reported success, and in every
  -- run of this `find_value`, whatever the order in which its tasks end, there are at most two steps for
  -- each of its nearest peers, and the run has returned the value or can go on.
  pub lookup_after_store :
      (c l : DhtClient K) (key : ℕ) (value : Bytes) (w : net.World) (p q : Peer) (ps qs : List Peer)
      (addrs : List net.SocketAddr) {σ : Search net l.alpha key l.myself}
      → CanSend c.myself
      → k_nearest_peers c.routing_table key ≡ done (p ∷ ps)
      → addresses net (p ∷ ps) ≡ done addrs
      → Nodup addrs
      → All (IsUp net server d map_law w) addrs
      → 0 < length value
      → CanSend l.myself
      → find_value_local l key ≡ none
      → IsWellFormed l.routing_table
      → k_nearest_peers l.routing_table key ≡ done (q ∷ qs)
      → ((x : Peer) → Mem x (q ∷ qs) → Mem x (p ∷ ps))
      → 0 < l.alpha
      → (r : Reach net l.alpha key l.myself (started net l key (store net c key value w).0) σ)
      → ((store net c key value w).1 ≡ done (ok tt))
        × (steps net l.alpha key l.myself r ≤ 2 * length (q ∷ qs))
        × ((σ.function ≡ done (answered (ok value)))
            ⊎ ((τ : Search net l.alpha key l.myself) × Step net l.alpha key l.myself σ τ))
  lookup_after_store c l key value w p q ps qs addrs {σ} can near read distinct up full can' nothing
        wf near' inside pos r =
      let start = started_begins net l key (q ∷ qs) (store net c key value w).0 nothing near' in
      subst
        (λ (x : Search net l.alpha key l.myself).
          (r : Reach net l.alpha key l.myself x σ)
          → ((store net c key value w).1 ≡ done (ok tt))
            × (steps net l.alpha key l.myself r ≤ 2 * length (q ∷ qs))
            × ((σ.function ≡ done (answered (ok value)))
                ⊎ ((τ : Search net l.alpha key l.myself) × Step net l.alpha key l.myself σ τ)))
        (sym start)
        (λ r.
          lookup_from_begin c l key value w p q ps qs addrs can near read distinct up full can' wf
            near' inside pos r)
        r
