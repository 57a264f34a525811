-- ===== src/Rpc/Interleaved/Alone.antt =====
-- A task that is not interrupted does what its handler does.
use dht_kad_rs.Base.{
  Bool-cases, inl, inr, ◌≡◌, refl, ℕ, zero, suc, none, some, Outcome, done, panicked, exhausted,
  Result, ok, err,
}
use dht_kad_rs.Base.Effects.{after}
use dht_kad_rs.Base.{Option}
use dht_kad_rs.Kvstore.{Bytes, KvStore, DatastoreError}
use dht_kad_rs.Messages.{Protobuf, Message}
use dht_kad_rs.Messages.Util.{validate_request}
use dht_kad_rs.Rpc.{
  Method, serve, admit_sender, store_async, find_value_async, answer_store, answer_find_value,
  find_value_reply,
}
use dht_kad_rs.Rpc.State.{DhtServer}
use dht_kad_rs.Rpc.Interleaved.{Task, begins, puts, gets, finish, proceed, advance, after_get}

module _ (K : KvStore) (P : Protobuf) where
  -- The task goes on `n` times.
  abbrev pub sections : ℕ → DhtServer K × Task P → DhtServer K × Task P
  sections zero st = st
  sections (suc n) (s, t) = sections n (advance K P t s)

  puts_alone :
      (m : Message P) (r : DhtServer K × Outcome (Unit {0}))
      → sections 2 (proceed K P (puts m) r) ≡ finish K P (after (answer_store K P m) r)
  unfolding advance answer_store
  puts_alone m (s, done u) = refl
  puts_alone m (s, panicked) = refl
  puts_alone m (s, exhausted) = refl

  reads_alone :
      (m : Message P) (s : DhtServer K) (g : Result (Option Bytes) DatastoreError)
      → advance K P (after_get K P m g) s ≡ finish K P (find_value_reply K P m g s)
  unfolding advance find_value_reply
  reads_alone m s (ok (some v)) = refl
  reads_alone m s (ok none) = refl
  reads_alone m s (err e) = refl

  gets_alone :
      (m : Message P) (r : DhtServer K × Outcome (Unit {0}))
      → sections 2 (proceed K P (gets m) r) ≡ finish K P (after (answer_find_value K P m) r)
  unfolding advance answer_find_value
  gets_alone m (s, done u) = reads_alone m s (K.get s.kvstore m.key)
  gets_alone m (s, panicked) = refl
  gets_alone m (s, exhausted) = refl

  -- A task that goes on three times without a break in between ends in the state and with the outcome
  -- of its handler, for every method and every message.
  pub advance-serve :
      (c : Method) (m : Message P) (s : DhtServer K)
      → sections 3 (s, begins c m) ≡ finish K P (serve K P c m s)
  unfolding advance serve store_async find_value_async
  advance-serve Method.ping m s = refl
  advance-serve Method.find_node m s = refl
  advance-serve Method.store m s = elim (Bool-cases (validate_request m)) [
    | inl valid ↦ rw valid (puts_alone m (admit_sender K P m s))
    | inr invalid ↦ rw invalid
  ]
  advance-serve Method.find_value m s = elim (Bool-cases (validate_request m)) [
    | inl valid ↦ rw valid (gets_alone m (admit_sender K P m s))
    | inr invalid ↦ rw invalid
  ]
