-- ===== src/Kvstore/Tests.antt =====
-- The store in memory on a few keys.
use dht_kad_rs.Base.{◌≡◌, refl, [], ◌∷◌, some, none, ok, list_eq, nat_eq}
use dht_kad_rs.Base.HashMap
use dht_kad_rs.Kvstore.{MemoryStore, put, get, delete}

abbrev one_key : MemoryStore
one_key = record { store = (1 ∷ [], 7 ∷ 8 ∷ []) ∷ [] }

overwritten : get (put one_key (1 ∷ []) (9 ∷ [])).0 (1 ∷ []) ≡ ok (some (9 ∷ []))
unfolding get put HashMap.get HashMap.insert
overwritten = refl

deleted : get (delete (put one_key (2 ∷ []) (9 ∷ [])).0 (1 ∷ [])).0 (1 ∷ []) ≡ ok none
unfolding get put delete HashMap.get HashMap.insert HashMap.remove
deleted = refl
