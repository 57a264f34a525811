-- ===== src/Rpc/Interleaved.antt =====
-- The handlers of src/rpc/mod.rs as tasks that run at once. A task gives way to others where it takes a
-- lock: `store` and `find_value` release the table before they take the store, and a `find_value`
-- without a value takes the table again. `find_node` holds the table from its update to its answer.
pub mod Alone
pub mod Kept
pub mod Ready
pub mod Writes
pub mod Origin
mod Tests
use dht_kad_rs.Base.{
  Bool, true, false, ◌≡◌, List, [], ◌∷◌, ◌++◌, Mem, ℕ, Option, none, some, get_elem?, set, Outcome,
  done, panicked, exhausted, Result, ok, err, if◌then◌else◌,
}
use dht_kad_rs.Kvstore.{Bytes, KvStore, DatastoreError}
use dht_kad_rs.Messages.{Protobuf, Message}
use dht_kad_rs.Messages.Util.{
  validate_request, create_invalid_response, create_find_value_response, create_ping_response,
}
use dht_kad_rs.Rpc.{Method, admit_sender, answer_store, find_node_async, ping_async}
use dht_kad_rs.Rpc.State.{DhtServer}

-- Where a task stands.
pub data Task (P : Protobuf) : Type 0 where
  -- The request was received.
  begins : Method → Message P → Task P
  -- The sender is in the table, and the store is to be written or read.
  puts : Message P → Task P
  gets : Message P → Task P
  -- The store has no value, and the request is answered as a `find node`.
  finds : Message P → Task P
  ends : Outcome (Message P) → Task P

module _ (K : KvStore) (P : Protobuf) where
  abbrev pub finish : DhtServer K × Outcome (Message P) → DhtServer K × Task P
  finish (s, o) = (s, ends o)

  -- On to `next` if the section before it returned.
  abbrev pub proceed : Task P → DhtServer K × Outcome (Unit {0}) → DhtServer K × Task P
  proceed next (s, done _) = (s, next)
  proceed next (s, panicked) = (s, ends panicked)
  proceed next (s, exhausted) = (s, ends exhausted)

  abbrev pub checked :
      Message P → (DhtServer K → DhtServer K × Task P) → DhtServer K → DhtServer K × Task P
  checked m section s =
      if validate_request m then section s else (s, ends (done (create_invalid_response P)))

  abbrev pub after_get : Message P → Result (Option Bytes) DatastoreError → Task P
  after_get m (ok (some value)) = ends (done (create_find_value_response P m.key value))
  after_get m (ok none) = finds m
  after_get m (err _) = finds m

  -- What a task does up to the next lock.
  unfoldable pub advance : Task P → DhtServer K → DhtServer K × Task P
  advance (begins Method.store m) s = checked m (λ s1. proceed (puts m) (admit_sender K P m s1)) s
  advance (begins Method.find_node m) s = finish (find_node_async K P m s)
  advance (begins Method.find_value m) s =
      checked m (λ s1. proceed (gets m) (admit_sender K P m s1)) s
  advance (begins Method.ping m) s = finish (ping_async K P m s)
  advance (puts m) s = finish (answer_store K P m tt s)
  advance (gets m) s = (s, after_get m (K.get s.kvstore m.key))
  advance (finds m) s = finish (find_node_async K P m s)
  advance (ends o) s = (s, ends o)

  -- The server, the tasks that it started, and the requests that it received.
  pub record System : Type 0 where
    pub server : DhtServer K
    pub tasks : List (Task P)
    pub received : List (Method × Message P)

  -- Any request may arrive, and any task may go on.
  pub data Step (σ : System) : System → Type 0 where
    arrives :
        (c : Method) (m : Message P)
        → Step σ (record σ { tasks = σ.tasks ++ begins c m ∷ []; received = (c, m) ∷ σ.received })
    goes_on :
        (i : ℕ) (t : Task P)
        → get_elem? σ.tasks i ≡ some t
        → Step σ (record σ {
          server = (advance t σ.server).0;
          tasks = set σ.tasks i (advance t σ.server).1;
        })

  pub data Reach (σ : System) : System → Type 0 where
    here : Reach σ σ
    next : {τ υ : System} → Reach σ τ → Step τ υ → Reach σ υ

  -- A server that has received nothing.
  abbrev pub idle : DhtServer K → System
  idle s = record { server = s; tasks = []; received = [] }
