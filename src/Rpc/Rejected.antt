-- ===== src/Rpc/Rejected.antt =====
-- Requests that the server does not serve: the invalid ones, which it answers, and those that pass the
-- check and panic.
use dht_kad_rs.Base.{
  ◌≢◌, ◌⊎◌, inr, Bool-cases, Option, none, unwrap, ℕ, List, Outcome, exhausted, Result, ok, err,
  ◌<◌, ◌≡◌, inl, length, some, true, false, done, panicked,
}
use dht_kad_rs.Kvstore.{Bytes, KvStore, DatastoreError}
use dht_kad_rs.Messages.{Protobuf, ProtoPeer, Message, ErrorCode, code_of, new_message}
use dht_kad_rs.Base.Effects.{after}
use dht_kad_rs.Messages.Conversion.{proto_peer_to_peer_panics}
use dht_kad_rs.Messages.Util.{
  validate_request, create_invalid_response, create_store_response, create_find_value_response,
  create_find_node_response, create_ping_response,
}
use dht_kad_rs.Messages.Validity.{IsSender, validate_request_iff}
use dht_kad_rs.Keyutil.{key_from_bytes}
use dht_kad_rs.RoutingTable.{k_nearest_peers}
use dht_kad_rs.Rpc.{
  update_routing_table, admit, admit_sender, store_reply, answer_store, answer_find_node,
  answer_find_value, find_value_reply, answer_ping, store_async, find_node_async, find_value_async,
  ping_async, Method, store, find_node, find_value, ping, serve,
}
use dht_kad_rs.Rpc.State.{DhtServer, M, read_table, pure, ◌>>=◌, bind_panicked}
use dht_kad_rs.RoutingTable.Peers.{Peer}

module _ (K : KvStore) (P : Protobuf) where
  -- A request that the check refuses is answered by `BAD_REQUEST`, whatever its method is, and changes
  -- neither the table nor the store.
  pub serve_invalid :
      (c : Method) (m : Message P) (s : DhtServer K)
      → validate_request m ≡ false
      → serve K P c m s ≡ (s, done (create_invalid_response P))
  unfolding serve store_async find_node_async find_value_async ping_async
  serve_invalid store m s h = rw h
  serve_invalid find_node m s h = rw h
  serve_invalid find_value m s h = rw h
  serve_invalid ping m s h = rw h

  admit_sender_panics :
      (m : Message P) (sender : ProtoPeer) (s : DhtServer K)
      → m.myself ≡ some sender
      → length sender.id < 16
      → admit_sender K P m s ≡ (s, panicked)
  unfolding admit admit_sender update_routing_table
  admit_sender_panics m sender s sent short =
      rw (sent, (proto_peer_to_peer_panics sender).1 (inl short))

  -- A request that passes the check and whose sender has an identifier of fewer than sixteen bytes
  -- panics the handler of every method, before anything is written.
  pub serve_short_id :
      (c : Method) (m : Message P) (sender : ProtoPeer) (s : DhtServer K)
      → validate_request m ≡ true
      → m.myself ≡ some sender
      → length sender.id < 16
      → serve K P c m s ≡ (s, panicked)
  unfolding serve store_async find_node_async find_value_async ping_async
  serve_short_id store m sender s h sent short = rw h (
      bind_panicked (admit_sender K P m) (answer_store K P m)
        (admit_sender_panics m sender s sent short))
  serve_short_id find_node m sender s h sent short = rw h (
      bind_panicked (admit_sender K P m) (answer_find_node K P m)
        (admit_sender_panics m sender s sent short))
  serve_short_id find_value m sender s h sent short = rw h (
      bind_panicked (admit_sender K P m) (answer_find_value K P m)
        (admit_sender_panics m sender s sent short))
  serve_short_id ping m sender s h sent short = rw h (
      bind_panicked (admit_sender K P m) (answer_ping K P m)
        (admit_sender_panics m sender s sent short))

  -- The call does not answer by `BAD_REQUEST`.
  abbrev pub Serves : Outcome (Message P) → Type 0
  Serves (done r) = code_of r ≢ ErrorCode.bad_request
  Serves panicked = Unit {0}
  Serves exhausted = Unit {0}

  after-Serves :
      {A : Type 0} (f : A → M K (Message P))
      → ((a : A) (s : DhtServer K) → Serves (f a s).1)
      → (r : DhtServer K × Outcome A) → Serves (after f r).1
  after-Serves f serves (s, done a) = serves a s
  after-Serves f serves (s, panicked) = tt
  after-Serves f serves (s, exhausted) = tt

  -- A response whose code was not set reads as `OK`.
  unset_serves : P.codes.enum_value_or_default P.codes.unset ≢ ErrorCode.bad_request
  unset_serves e = cc (e, P.codes.value-unset)

  answer_store-Serves : (m : Message P) (s : DhtServer K) → Serves (answer_store K P m tt s).1
  unfolding answer_store store_reply create_store_response
  answer_store-Serves m s = stored (K.put s.kvstore m.key m.value).1
    where
      stored :
          (r : Result (Unit {0}) DatastoreError)
          → code_of (store_reply K P r) ≢ ErrorCode.bad_request
      stored (ok u) e = cc (e, P.codes.value-new ErrorCode.ok)
      stored (err x) e = cc (e, P.codes.value-new ErrorCode.internal_error)

  answer_find_node-Serves :
      (m : Message P) (s : DhtServer K) → Serves (answer_find_node K P m tt s).1
  unfolding answer_find_node create_find_node_response new_message
  answer_find_node-Serves m s =
      let near = λ (target : ℕ). read_table (λ rt. k_nearest_peers rt target) in
      let respond = λ (peers : List Peer). pure (create_find_node_response P peers) in
      after-Serves (λ target. near target >>= respond)
        (λ target s1. after-Serves respond (λ peers s2. unset_serves) (near target s1))
        (s, unwrap (key_from_bytes m.key))

  find_node-Serves :
      (m : Message P) (s : DhtServer K)
      → validate_request m ≡ true
      → Serves (find_node_async K P m s).1
  unfolding find_node_async
  find_node-Serves m s valid = rw valid (
      after-Serves (answer_find_node K P m) (λ u s1. answer_find_node-Serves m s1)
        (admit_sender K P m s))

  answer_find_value-Serves :
      (m : Message P) (s : DhtServer K)
      → validate_request m ≡ true
      → Serves (answer_find_value K P m tt s).1
  unfolding answer_find_value find_value_reply create_find_value_response new_message
  answer_find_value-Serves m s valid = replied (K.get s.kvstore m.key)
    where
      replied : (r : Result (Option Bytes) DatastoreError) → Serves (find_value_reply K P m r s).1
      replied (ok (some v)) = unset_serves
      replied (ok none) = find_node-Serves m s valid
      replied (err e) = find_node-Serves m s valid

  serve-Serves :
      (c : Method) (m : Message P) (s : DhtServer K)
      → validate_request m ≡ true
      → Serves (serve K P c m s).1
  unfolding serve store_async find_value_async ping_async answer_ping create_ping_response
      new_message
  serve-Serves store m s valid =
      rw valid (
        after-Serves (answer_store K P m) (λ u s1. answer_store-Serves m s1) (admit_sender K P m s))
  serve-Serves find_node m s valid = find_node-Serves m s valid
  serve-Serves find_value m s valid = rw valid (
      after-Serves (answer_find_value K P m) (λ u s1. answer_find_value-Serves m s1 valid)
        (admit_sender K P m s))
  serve-Serves ping m s valid =
      rw valid (after-Serves (answer_ping K P m) (λ u s1. unset_serves) (admit_sender K P m s))

  -- The request has a sender with an identifier and with an address that is a text; neither is empty.
  abbrev pub HasSender : Message P → Type 0
  HasSender m = (p : ProtoPeer) × (m.myself ≡ some p) × IsSender p

  -- A server answers by `BAD_REQUEST` exactly the requests that do not have a sender with an identifier and
  -- with an address that is UTF-8, neither of them empty. Whatever the method is, such a request changes
  -- neither the table nor the store, and every other request is not answered by `BAD_REQUEST`.
  pub serve_bad_request :
      (c : Method) (m : Message P) (s : DhtServer K)
      → (HasSender m × Serves (serve K P c m s).1)
        ⊎ ((¬ HasSender m)
            × ((r : Message P) × (serve K P c m s ≡ (s, done r))
                × (code_of r ≡ ErrorCode.bad_request)))
  unfolding create_invalid_response
  serve_bad_request c m s = elim (Bool-cases (validate_request m)) [
    | inl valid ↦ inl ((validate_request_iff m).0 valid, serve-Serves c m s valid)
    | inr invalid ↦ inr (
      λ sender. cc (invalid, (validate_request_iff m).1 sender),
      (
        create_invalid_response P,
        serve_invalid c m s invalid,
        P.codes.value-new ErrorCode.bad_request,
      ),
    )
  ]
