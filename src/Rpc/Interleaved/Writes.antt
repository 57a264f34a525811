-- ===== src/Rpc/Interleaved/Writes.antt =====
-- Which section of which task writes the store.
use dht_kad_rs.Base.{
  ◌≡◌, refl, ap, ◌∙◌, true, some, none, inl, inr, Option, Option-cases, Bool-cases, Outcome, done,
  panicked, exhausted, Result, ok, err, List, Mem,
}
use dht_kad_rs.Base.Effects.{after}
use dht_kad_rs.Kvstore.{Bytes, KvStore, DatastoreError}
use dht_kad_rs.Messages.{Protobuf, Message}
use dht_kad_rs.Messages.Util.{validate_request}
use dht_kad_rs.RoutingTable.{RoutingTable}
use dht_kad_rs.Rpc.{
  Method, update_routing_table, admit, admit_sender, answer_store, find_node_async,
  answer_find_node, ping_async, answer_ping,
}
use dht_kad_rs.Rpc.State.{DhtServer, written}
use dht_kad_rs.Rpc.Interleaved.{Task, begins, puts, gets, finds, ends, proceed, advance, after_get}
use dht_kad_rs.Rpc.Interleaved.Kept.{answer_find_node_state}

module _ {K : KvStore} where
  written_store :
      (s : DhtServer K) (o : Outcome (RoutingTable × Unit {0}))
      → (written s o).0.kvstore ≡ s.kvstore
  written_store s (done (rt, u)) = refl
  written_store s panicked = refl
  written_store s exhausted = refl

  after_store :
      {A B : Type 0} (f : A → DhtServer K → DhtServer K × Outcome B) (r : DhtServer K × Outcome A)
      → ((a : A) (s : DhtServer K) → (f a s).0.kvstore ≡ s.kvstore)
      → (after f r).0.kvstore ≡ r.0.kvstore
  after_store f (s, done a) h = h a s
  after_store f (s, panicked) h = refl
  after_store f (s, exhausted) h = refl

  module _ {P : Protobuf} (m : Message P) (s : DhtServer K) where
    admit_sender_store : (admit_sender K P m s).0.kvstore ≡ s.kvstore
    unfolding admit_sender admit
    admit_sender_store = elim (Option-cases m.myself) [
      | inl nobody ↦ rw nobody
      | inr (mp, sent) ↦ rw sent (written_store s (update_routing_table s.routing_table mp))
    ]

    find_node_async_store : (find_node_async K P m s).0.kvstore ≡ s.kvstore
    unfolding find_node_async
    find_node_async_store = elim (Bool-cases (validate_request m)) [
      | inr invalid ↦ rw invalid
      | inl valid ↦ rw valid (
          after_store (answer_find_node K P m) (admit_sender K P m s)
            (λ u t. ap (λ (x : DhtServer K). x.kvstore) (answer_find_node_state m u t))
          ∙ admit_sender_store)
    ]

    ping_async_store : (ping_async K P m s).0.kvstore ≡ s.kvstore
    unfolding ping_async answer_ping
    ping_async_store = elim (Bool-cases (validate_request m)) [
      | inr invalid ↦ rw invalid
      | inl valid ↦ rw valid (
          after_store (answer_ping K P m) (admit_sender K P m s) (λ u t. refl) ∙ admit_sender_store)
    ]

-- A section leaves the store, or it is the one of a `store` that writes it.
pub data Wrote {K : KvStore} {P : Protobuf} (t : Task P) (s : DhtServer K) (kv : K.Store)
    : Type 0 where
  nothing : kv ≡ s.kvstore → Wrote t s kv
  one : (m : Message P) → t ≡ puts m → kv ≡ (K.put s.kvstore m.key m.value).0 → Wrote t s kv

module _ (K : KvStore) (P : Protobuf) where
  proceed_store :
      (t : Task P) (r : DhtServer K × Outcome (Unit {0}))
      → (proceed K P t r).0.kvstore ≡ r.0.kvstore
  proceed_store t (s, done u) = refl
  proceed_store t (s, panicked) = refl
  proceed_store t (s, exhausted) = refl

  pub advance-Wrote : (t : Task P) (s : DhtServer K) → Wrote t s (advance K P t s).0.kvstore
  unfolding advance answer_store
  advance-Wrote (begins Method.store m) s = elim (Bool-cases (validate_request m)) [
    | inr invalid ↦ rw invalid (nothing refl)
    | inl valid ↦
        rw valid (nothing (proceed_store (puts m) (admit_sender K P m s) ∙ admit_sender_store m s))
  ]
  advance-Wrote (begins Method.find_value m) s = elim (Bool-cases (validate_request m)) [
    | inr invalid ↦ rw invalid (nothing refl)
    | inl valid ↦
        rw valid (nothing (proceed_store (gets m) (admit_sender K P m s) ∙ admit_sender_store m s))
  ]
  advance-Wrote (begins Method.find_node m) s = nothing (find_node_async_store m s)
  advance-Wrote (begins Method.ping m) s = nothing (ping_async_store m s)
  advance-Wrote (puts m) s = one m refl refl
  advance-Wrote (gets m) s = nothing refl
  advance-Wrote (finds m) s = nothing (find_node_async_store m s)
  advance-Wrote (ends o) s = nothing refl

  -- A task that is to write the store belongs to a valid `store` among the requests.
  abbrev pub Honest : List (Method × Message P) → Task P → Type 0
  Honest received (begins c m) = Mem (c, m) received
  Honest received (puts m) = Mem (Method.store, m) received × (validate_request m ≡ true)
  Honest received _ = Unit {0}

  proceed-Honest :
      (received : List (Method × Message P)) (t : Task P) (r : DhtServer K × Outcome (Unit {0}))
      → Honest received t
      → Honest received (proceed K P t r).1
  proceed-Honest received t (s, done u) h = h
  proceed-Honest received t (s, panicked) h = tt
  proceed-Honest received t (s, exhausted) h = tt

  after_get-Honest :
      (received : List (Method × Message P)) (m : Message P)
      (r : Result (Option Bytes) DatastoreError)
      → Honest received (after_get K P m r)
  after_get-Honest received m (ok (some v)) = tt
  after_get-Honest received m (ok none) = tt
  after_get-Honest received m (err e) = tt

  pub advance-Honest :
      (received : List (Method × Message P)) (t : Task P) (s : DhtServer K)
      → Honest received t
      → Honest received (advance K P t s).1
  unfolding advance
  advance-Honest received (begins Method.store m) s h = elim (Bool-cases (validate_request m)) [
    | inr invalid ↦ rw invalid tt
    | inl valid ↦ rw valid (proceed-Honest received (puts m) (admit_sender K P m s) (h, valid))
  ]
  advance-Honest received (begins Method.find_value m) s h =
      elim (Bool-cases (validate_request m)) [
        | inr invalid ↦ rw invalid tt
        | inl valid ↦ rw valid (proceed-Honest received (gets m) (admit_sender K P m s) tt)
      ]
  advance-Honest received (begins Method.find_node m) s h = tt
  advance-Honest received (begins Method.ping m) s h = tt
  advance-Honest received (puts m) s h = tt
  advance-Honest received (gets m) s h = after_get-Honest received m (K.get s.kvstore m.key)
  advance-Honest received (finds m) s h = tt
  advance-Honest received (ends o) s h = tt
