-- ===== src/Kvstore/Laws.antt =====
-- What a key-value store promises: it is a partial function from keys to values.
use dht_kad_rs.Base.{◌≡◌, refl, Option, none, some, ok, ◌==◌, if◌then◌else◌, list_eq, nat_eq}
use dht_kad_rs.Base.HashMap
use dht_kad_rs.Base.HashMap.{get-empty, get-insert, get-remove}
use dht_kad_rs.Kvstore.{Bytes, KvStore, MemoryStore, new, put, get, delete, memory_store}

-- The abstract store is a function. Each method is the update of that function that its name says,
-- reports what the function says, and does not fail.
pub record IsMap (K : KvStore) (view : K.Store → Bytes → Option Bytes) : Type 0 where
  pub view-new : (j : Bytes) → view K.new j ≡ none
  pub get_view : (s : K.Store) (j : Bytes) → K.get s j ≡ ok (view s j)
  pub put_ok : (s : K.Store) (k v : Bytes) → (K.put s k v).1 ≡ ok tt
  pub view-put :
      (s : K.Store) (k v j : Bytes) → view (K.put s k v).0 j ≡ (if k == j then some v else view s j)
  pub delete_view : (s : K.Store) (k : Bytes) → (K.delete s k).1 ≡ ok (view s k)
  pub view-delete :
      (s : K.Store) (k j : Bytes) → view (K.delete s k).0 j ≡ (if k == j then none else view s j)

-- The function that a store in memory stands for.
unfoldable pub view : MemoryStore → Bytes → Option Bytes
view s k = HashMap.get s.store k

-- `MemoryStore` implements the abstract store: its methods are the updates of one function from keys
-- to values, and none of them fails.
pub memory_store-IsMap : IsMap memory_store view
unfolding view new put get delete
memory_store-IsMap = record {
  view-new = λ j. get-empty j;
  get_view = λ s j. refl;
  put_ok = λ s k v. refl;
  view-put = λ s k v j. get-insert s.store k j v;
  delete_view = λ s k. refl;
  view-delete = λ s k j. get-remove s.store k j;
}
