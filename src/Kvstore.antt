-- ===== src/Kvstore.antt =====
-- src/kvstore.rs: the trait of a key-value store as an interface, and the store in memory that
-- implements it.
pub mod Laws
mod Tests
use dht_kad_rs.Base.{List, [], Option, Result, ok, err, list_eq, nat_eq}
use dht_kad_rs.Base.HashMap
use dht_kad_rs.Base.{ℕ}

abbrev pub Bytes : Type 0
Bytes = List ℕ

pub data DatastoreError : Type 0 where
  datastore_error : DatastoreError

-- The trait. A method that takes `&mut self` returns the new store beside its result.
pub record KvStore : Type 1 where
  pub Store : Type 0
  pub new : Store
  pub put : Store → Bytes → Bytes → Store × Result (Unit {0}) DatastoreError
  pub get : Store → Bytes → Result (Option Bytes) DatastoreError
  pub delete : Store → Bytes → Store × Result (Option Bytes) DatastoreError

pub record MemoryStore : Type 0 where
  pub store : List (Bytes × Bytes)

unfoldable pub new : MemoryStore
new = record { store = [] }

unfoldable pub put : MemoryStore → Bytes → Bytes → MemoryStore × Result (Unit {0}) DatastoreError
put s key value = (record { store = HashMap.insert s.store key value }, ok tt)

unfoldable pub get : MemoryStore → Bytes → Result (Option Bytes) DatastoreError
get s key = ok (HashMap.get s.store key)

unfoldable pub delete : MemoryStore → Bytes → MemoryStore × Result (Option Bytes) DatastoreError
delete s key = (record { store = HashMap.remove s.store key }, ok (HashMap.get s.store key))

abbrev pub memory_store : KvStore
memory_store = record { Store = MemoryStore; new = new; put = put; get = get; delete = delete }
