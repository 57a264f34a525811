-- ===== src/Rpc/Interleaved/Ready.antt =====
-- Whatever arrives and in whatever order the tasks go on, the routing table stays in good order.
use dht_kad_rs.Base.{
  none, some, Outcome, done, panicked, exhausted, Result, ok, err, [], ◌∷◌, Bool-cases, inl, inr,
  Option,
}
use dht_kad_rs.Kvstore.{Bytes, KvStore, DatastoreError}
use dht_kad_rs.Messages.{Protobuf, Message}
use dht_kad_rs.Messages.Util.{validate_request}
use dht_kad_rs.Rpc.{Method, admit_sender, answer_store, find_node_async, ping_async}
use dht_kad_rs.Rpc.State.{DhtServer}
use dht_kad_rs.Rpc.Sender.{IsReady}
use dht_kad_rs.Rpc.Interleaved.{
  Task, begins, puts, gets, finds, ends, finish, proceed, advance, after_get, System, Step, arrives,
  goes_on, Reach, here, next, idle,
}
use dht_kad_rs.Base.{All, All-append, All-get_elem?, All-set}
use dht_kad_rs.Rpc.Interleaved.Kept.{
  Fine, OfBytes, admit_sender-Fine, find_node_async-Fine, ping_async-Fine,
}

-- The messages that a task holds are made of bytes.
abbrev TaskOfBytes : {P : Protobuf} → Task P → Type 0
TaskOfBytes (begins c m) = OfBytes m
TaskOfBytes (puts m) = OfBytes m
TaskOfBytes (gets m) = OfBytes m
TaskOfBytes (finds m) = OfBytes m
TaskOfBytes (ends o) = Unit {0}

module _ (K : KvStore) (P : Protobuf) where
  -- A section keeps the table in good order, and goes on with messages that are made of bytes.
  abbrev FineAfter : DhtServer K × Task P → Type 0
  FineAfter (s, t) = Fine s.routing_table × TaskOfBytes t

  finish-FineAfter :
      (r : DhtServer K × Outcome (Message P)) → Fine r.0.routing_table → FineAfter (finish K P r)
  finish-FineAfter (s, o) fine = (fine, tt)

  proceed-FineAfter :
      (t : Task P) (r : DhtServer K × Outcome (Unit {0}))
      → TaskOfBytes t
      → Fine r.0.routing_table
      → FineAfter (proceed K P t r)
  proceed-FineAfter t (s, done u) bytes fine = (fine, bytes)
  proceed-FineAfter t (s, panicked) bytes fine = (fine, tt)
  proceed-FineAfter t (s, exhausted) bytes fine = (fine, tt)

  after_get-TaskOfBytes :
      (m : Message P) (r : Result (Option Bytes) DatastoreError)
      → OfBytes m
      → TaskOfBytes (after_get K P m r)
  after_get-TaskOfBytes m (ok (some v)) bytes = tt
  after_get-TaskOfBytes m (ok none) bytes = bytes
  after_get-TaskOfBytes m (err e) bytes = bytes

  advance-FineAfter :
      (t : Task P) (s : DhtServer K)
      → TaskOfBytes t
      → Fine s.routing_table
      → FineAfter (advance K P t s)
  unfolding advance answer_store
  advance-FineAfter (begins Method.store m) s bytes fine = elim (Bool-cases (validate_request m)) [
    | inr invalid ↦ rw invalid (fine, tt)
    | inl valid ↦
        rw valid (
          proceed-FineAfter (puts m) (admit_sender K P m s) bytes
            (admit_sender-Fine m bytes s fine))
  ]
  advance-FineAfter (begins Method.find_value m) s bytes fine =
      elim (Bool-cases (validate_request m)) [
        | inr invalid ↦ rw invalid (fine, tt)
        | inl valid ↦ rw valid (
            proceed-FineAfter (gets m) (admit_sender K P m s) bytes
              (admit_sender-Fine m bytes s fine))
      ]
  advance-FineAfter (begins Method.find_node m) s bytes fine =
      finish-FineAfter (find_node_async K P m s) (find_node_async-Fine m s bytes fine)
  advance-FineAfter (begins Method.ping m) s bytes fine =
      finish-FineAfter (ping_async K P m s) (ping_async-Fine m s bytes fine)
  advance-FineAfter (puts m) s bytes fine = (fine, tt)
  advance-FineAfter (gets m) s bytes fine =
      (fine, after_get-TaskOfBytes m (K.get s.kvstore m.key) bytes)
  advance-FineAfter (finds m) s bytes fine =
      finish-FineAfter (find_node_async K P m s) (find_node_async-Fine m s bytes fine)
  advance-FineAfter (ends o) s bytes fine = (fine, tt)

  abbrev IsFine : System K P → Type 0
  IsFine σ = Fine σ.server.routing_table × All TaskOfBytes σ.tasks

  Step-IsFine :
      {σ τ : System K P} → Step K P σ τ → All (λ r. OfBytes r.1) τ.received → IsFine σ → IsFine τ
  Step-IsFine {σ} (arrives c m) (bytes, _) (fine, tasks) =
      (fine, All-append TaskOfBytes σ.tasks (begins c m ∷ []) tasks (bytes, tt))
  Step-IsFine {σ} (goes_on i t at) bytes (fine, tasks) =
      let (fine', bytes') =
        advance-FineAfter t σ.server (All-get_elem? TaskOfBytes σ.tasks i tasks at) fine in
      (fine', All-set TaskOfBytes σ.tasks i (advance K P t σ.server).1 tasks bytes')

  earlier-OfBytes :
      {σ τ : System K P}
      → Step K P σ τ
      → All (λ r. OfBytes r.1) τ.received
      → All (λ r. OfBytes r.1) σ.received
  earlier-OfBytes (arrives c m) (_, bytes) = bytes
  earlier-OfBytes (goes_on i t at) bytes = bytes

  Reach-IsFine :
      {s : DhtServer K} {τ : System K P}
      → Reach K P (idle K P s) τ
      → Fine s.routing_table
      → All (λ r. OfBytes r.1) τ.received
      → IsFine τ
  Reach-IsFine here fine bytes = (fine, tt)
  Reach-IsFine (next r st) fine bytes =
      Step-IsFine st bytes (Reach-IsFine r fine (earlier-OfBytes st bytes))

  -- From a server in good order that has received nothing, every state that requests and tasks lead to,
  -- in any order and whatever the requests hold, has a server in good order, if the identifiers of the
  -- senders are made of bytes.
  pub Reach-IsReady :
      {s : DhtServer K} {τ : System K P}
      → Reach K P (idle K P s) τ
      → IsReady s
      → All (λ r. OfBytes r.1) τ.received
      → IsReady τ.server
  Reach-IsReady r ready bytes =
      let ((w, pos), _) = Reach-IsFine r (ready.well_formed, ready.room) bytes in
      record { well_formed = w; room = pos }
