-- ===== src/Rpc/State.antt =====
-- The state that the handlers share, behind the two mutexes of the source, and the handlers' monad.
-- A panic unwinds the task: the locks are released and what was written stays.
pub use dht_kad_rs.Base.Effects.{◌>>=◌, lift, pure, bind_done, bind_panicked}
use dht_kad_rs.Base.Effects.{Effect}
use dht_kad_rs.Base.{Option, Outcome, done, panicked, exhausted, Result}
use dht_kad_rs.Kvstore.{Bytes, KvStore, DatastoreError}
use dht_kad_rs.RoutingTable.{RoutingTable}

pub record DhtServer (K : KvStore) : Type 0 where
  pub kvstore : K.Store
  pub routing_table : RoutingTable

-- `DHTServer::new`.
abbrev pub new_server : {K : KvStore} → K.Store → RoutingTable → DhtServer K
new_server kvstore routing_table = record { kvstore = kvstore; routing_table = routing_table }

abbrev pub M : KvStore → Type 0 → Type 0
M K A = Effect (DhtServer K) A

abbrev pub written :
    {K : KvStore} {A : Type 0} → DhtServer K → Outcome (RoutingTable × A) → DhtServer K × Outcome A
written s (done (rt, a)) = (record s { routing_table = rt }, done a)
written s panicked = (s, panicked)
written s exhausted = (s, exhausted)

-- A write under the lock of the table.
abbrev pub on_table :
    {K : KvStore} {A : Type 0} → (RoutingTable → Outcome (RoutingTable × A)) → M K A
on_table f s = written s (f s.routing_table)

abbrev pub read_table : {K : KvStore} {A : Type 0} → (RoutingTable → Outcome A) → M K A
read_table f s = (s, f s.routing_table)

abbrev pub put_value : {K : KvStore} → Bytes → Bytes → M K (Result (Unit {0}) DatastoreError)
put_value {K} key value s =
    let (kv, r) = K.put s.kvstore key value in (record s { kvstore = kv }, done r)

abbrev pub get_value : {K : KvStore} → Bytes → M K (Result (Option Bytes) DatastoreError)
get_value {K} key s = (s, done (K.get s.kvstore key))
