-- ===== src/Rpc/Answered.antt =====
-- Requests that are served: their sender enters the routing table, and the answer is read off the
-- store and the table. The store is any that keeps the promise of a map.
use dht_kad_rs.Base.{
  ◌∙◌, ℕ, ◌<◌, ◌≡◌, refl, List, Option, true, length, some, none, arith, done, panicked, Result,
  list_eq, nat_eq, ◌==◌, same_of_eq, if◌then◌else◌,
}
use dht_kad_rs.Keyutil.{key_from_bytes}
use dht_kad_rs.Keyutil.Bytes.{key_from_bytes_panics}
use dht_kad_rs.Kvstore.{Bytes, KvStore}
use dht_kad_rs.Kvstore.Laws.{IsMap}
use dht_kad_rs.Messages.{Protobuf, Message}
use dht_kad_rs.Messages.Util.{
  create_store_response, create_find_node_response, create_find_value_response,
  create_ping_response,
}
use dht_kad_rs.RoutingTable.{update, k_nearest_peers}
use dht_kad_rs.RoutingTable.Peers.{Peer}
use dht_kad_rs.RoutingTable.Inserted.{Inserted}
use dht_kad_rs.RoutingTable.Nearest.{Answers, nearest_peers-Answers}
use dht_kad_rs.Rpc.{
  admit_sender, store_reply, answer_store, answer_find_node, answer_find_value, answer_ping,
  store_async, find_node_async, find_value_reply, find_value_async, ping_async,
}
use dht_kad_rs.Rpc.State.{DhtServer, bind_done}
use dht_kad_rs.Rpc.Sender.{IsReady, SentBy, admit_sender_lem, with_table}

-- The server after `p` was offered to its table: in good order again, with the abstract insertion done.
pub record Entered {K : KvStore} (s : DhtServer K) (p : Peer) (s' : DhtServer K) : Type 0 where
  pub result : Result (Unit {0}) _
  pub updated : update s.routing_table p ≡ done (s'.routing_table, result)
  pub inserted : Inserted s.routing_table p (s'.routing_table, result)
  pub ready : IsReady s'

module _ {K : KvStore} {P : Protobuf} (m : Message P) (p : Peer) (s : DhtServer K)
    (ready : IsReady s) (from : SentBy m p) where
  -- The table after the sender was admitted.
  pub admitted :
      (s' : DhtServer K) × (admit_sender K P m s ≡ (s', done tt))
      × Entered s p s'
      × (s'.kvstore ≡ s.kvstore)
  admitted =
      let (r, e, updated, kept, inserted) = admit_sender_lem m p s ready from in
      (
        with_table s r.0,
        e,
        record {
          result = r.1;
          updated = updated;
          inserted = inserted;
          ready = record {
            well_formed = kept.well_formed;
            room = omega (arith, kept.same_k, ready.room);
          };
        },
        refl,
      )

  -- A ping of a valid sender is answered, and its sender is inserted into the table.
  pub ping_async_lem :
      (s' : DhtServer K) × (ping_async K P m s ≡ (s', done (create_ping_response P)))
      × Entered s p s'
      × (s'.kvstore ≡ s.kvstore)
  unfolding ping_async answer_ping
  ping_async_lem =
      let (s', e, entered, kv) = admitted in
      (s', rw from.valid (bind_done (admit_sender K P m) (answer_ping K P m) e), entered, kv)

  -- A find node of a valid sender for a key of sixteen bytes or more inserts the sender, and is
  -- answered by the `k` peers that the table then has for the key.
  pub find_node_async_lem :
      (target : ℕ)
      → key_from_bytes m.key ≡ some target
      → (s' : DhtServer K) × (peers : List Peer) × (find_node_async K P m s
          ≡ (s', done (create_find_node_response P peers)))
        × Entered s p s'
        × (s'.kvstore ≡ s.kvstore)
        × (k_nearest_peers s'.routing_table target ≡ done peers)
        × Answers s'.routing_table target s'.routing_table.k peers
  unfolding find_node_async answer_find_node k_nearest_peers
  find_node_async_lem target reads =
      let (s', e, entered, kv) = admitted in
      let (peers, found, answers) =
        nearest_peers-Answers s'.routing_table target s'.routing_table.k
          entered.ready.well_formed in
      (
        s',
        peers,
        rw (from.valid, bind_done (admit_sender K P m) (answer_find_node K P m) e, reads, found),
        entered,
        kv,
        found,
        answers,
      )

  -- A find node of a valid sender for a key of fewer than sixteen bytes panics, and it does so after
  -- the sender was inserted.
  pub find_node_async_panics :
      length m.key < 16
      → (s' : DhtServer K) × (find_node_async K P m s ≡ (s', panicked)) × Entered s p s'
  unfolding find_node_async answer_find_node
  find_node_async_panics short =
      let (s', e, entered, _) = admitted in
      (
        s',
        rw (
          from.valid,
          bind_done (admit_sender K P m) (answer_find_node K P m) e,
          (key_from_bytes_panics m.key).1 short,
        ),
        entered,
      )

  module _ {view : K.Store → Bytes → Option Bytes} (map : IsMap K view) where
    -- A store of a valid sender is answered by success, inserts the sender, and sets the value of its
    -- key and of no other key.
    pub store_async_lem :
        (s' : DhtServer K) × (store_async K P m s ≡ (s', done (create_store_response P true)))
        × Entered s p s'
        × ((j : Bytes)
            → view s'.kvstore j ≡ (if m.key == j then some m.value else view s.kvstore j))
    unfolding store_async answer_store store_reply
    store_async_lem =
        let (s1, e, entered, kv) = admitted in
        let stored = record s1 { kvstore = (K.put s1.kvstore m.key m.value).0 } in
        (
          stored,
          rw (
            from.valid,
            bind_done (admit_sender K P m) (answer_store K P m) e,
            map.put_ok s1.kvstore m.key m.value,
          ),
          record {
            result = entered.result;
            updated = entered.updated;
            inserted = entered.inserted;
            ready = record { well_formed = entered.ready.well_formed; room = entered.ready.room };
          },
          λ j. map.view-put s1.kvstore m.key m.value j ∙ rw kv,
        )

    -- A find value of a valid sender whose key has a value in the store is answered by that value.
    pub find_value_async_hit :
        (v : Bytes)
        → view s.kvstore m.key ≡ some v
        → (s' : DhtServer K) × (find_value_async K P m s
            ≡ (s', done (create_find_value_response P m.key v)))
          × Entered s p s'
          × (s'.kvstore ≡ s.kvstore)
    unfolding find_value_async answer_find_value find_value_reply
    find_value_async_hit v has =
        let (s', e, entered, kv) = admitted in
        (
          s',
          rw (
            from.valid,
            bind_done (admit_sender K P m) (answer_find_value K P m) e,
            kv,
            map.get_view s.kvstore m.key,
            has,
          ),
          entered,
          kv,
        )

    -- A find value of a valid sender whose key has no value is a find node, begun after its sender was
    -- inserted.
    pub find_value_async_miss :
        view s.kvstore m.key ≡ none
        → (s' : DhtServer K) × (find_value_async K P m s ≡ find_node_async K P m s')
          × Entered s p s'
          × (s'.kvstore ≡ s.kvstore)
    unfolding find_value_async answer_find_value find_value_reply
    find_value_async_miss missing =
        let (s', e, entered, kv) = admitted in
        (
          s',
          rw (
            from.valid,
            bind_done (admit_sender K P m) (answer_find_value K P m) e,
            kv,
            map.get_view s.kvstore m.key,
            missing,
          ),
          entered,
          kv,
        )

-- A store and then a find value for the same key, of any two valid senders, are both served, and the
-- answer to the second holds the value that the first stored.
pub find_value-store :
    {K : KvStore} {P : Protobuf} (a b : Message P) (p q : Peer) (s : DhtServer K)
    → IsReady s
    → SentBy a p
    → SentBy b q
    → b.key ≡ a.key
    → {view : K.Store → Bytes → Option Bytes} → IsMap K view
    → (s' s'' : DhtServer K) × (store_async K P a s ≡ (s', done (create_store_response P true)))
      × (find_value_async K P b s' ≡ (s'', done (create_find_value_response P b.key a.value)))
      × Entered s p s'
      × Entered s' q s''
find_value-store a b p q s ready from from' same map =
    let (s', stored, entered, holds) = store_async_lem a p s ready from map in
    let (s'', found, entered', _) =
      find_value_async_hit b q s' entered.ready from' map a.value
        (holds b.key ∙ rw (same_of_eq a.key b.key (cc))) in
    (s', s'', stored, found, entered, entered')
