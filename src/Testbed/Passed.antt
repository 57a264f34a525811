-- ===== src/Testbed/Passed.antt =====
-- When the test bed passes: what it asks of a service, and a run over a service that keeps to it.
use dht_kad_rs.Base.{◌≡◌, refl, List, [], ◌∷◌, All, All-imp, ok, done, list_eq, nat_eq, same_of_eq}
use dht_kad_rs.Kvstore.{Bytes}
use dht_kad_rs.Testbed.{Dht, puts, gets, run_testbed}

-- A service that keeps what is put: in a world in order, a put succeeds and the service then has the
-- value, and still has what it had under keys that are apart from the new one; a get of a key that it
-- has brings the value and takes nothing away. `Good` says which values it takes.
pub record KeepsWhatIsPut (dht : Dht) : Type 1 where
  pub InOrder : dht.World → Type 0
  pub Has : dht.World → Bytes → Bytes → Type 0
  pub Apart : Bytes → Bytes → Type 0
  pub Good : Bytes → Type 0
  pub put_ok :
      (w : dht.World) (k v : Bytes)
      → InOrder w
      → Good v
      → (w' : dht.World) × (dht.put k v w ≡ (w', done (ok tt)))
        × InOrder w'
        × Has w' k v
        × ((j u : Bytes) → Apart k j → Has w j u → Has w' j u)
  pub get_ok :
      (w : dht.World) (k v : Bytes)
      → InOrder w
      → Good v
      → Has w k v
      → (w' : dht.World) × (dht.get k w ≡ (w', done (ok v)))
        × InOrder w'
        × ((j u : Bytes) → Has w j u → Has w' j u)

module _ (dht : Dht) (law : KeepsWhatIsPut dht) where
  -- Every key is apart from the later ones.
  abbrev pub AllApart : List (Bytes × Bytes) → Type 0
  AllApart [] = Unit {0}
  AllApart ((k, v) ∷ rest) = All (λ d. law.Apart d.0 k) rest × AllApart rest

  abbrev HasAll : dht.World → List (Bytes × Bytes) → Type 0
  HasAll w = All (λ d. law.Has w d.0 d.1)

  -- What was there before the loop and is apart from all that it puts is there after it.
  abbrev Spared : dht.World → dht.World → List (Bytes × Bytes) → Type 0
  Spared w w' data' =
      (j u : Bytes) → All (λ d. law.Apart d.0 j) data' → law.Has w j u → law.Has w' j u

  puts_lem :
      (test_data : List (Bytes × Bytes)) (w : dht.World)
      → law.InOrder w
      → All (λ d. law.Good d.1) test_data
      → AllApart test_data
      → (w' : dht.World) × (puts dht test_data w ≡ (w', done tt))
        × law.InOrder w'
        × HasAll w' test_data
        × Spared w w' test_data
  unfolding puts
  puts_lem [] w order good apart = (w, refl, order, tt, λ j u a h. h)
  puts_lem ((k, v) ∷ rest) w order (fine, good) (away, apart) =
      let (w1, e1, order1, has, spared1) = law.put_ok w k v order fine in
      let (w2, e2, order2, all, spared2) = puts_lem rest w1 order1 good apart in
      (
        w2,
        rw e1 e2,
        order2,
        (spared2 k v away has, all),
        λ j u (a, as_before) h. spared2 j u as_before (spared1 j u a h),
      )

  gets_lem :
      (test_data : List (Bytes × Bytes)) (w : dht.World)
      → law.InOrder w
      → All (λ d. law.Good d.1) test_data
      → HasAll w test_data
      → (w' : dht.World) × (gets dht test_data w ≡ (w', done tt))
  unfolding gets
  gets_lem [] w order good all = (w, refl)
  gets_lem ((k, v) ∷ rest) w order (fine, good) (has, all) =
      let (w1, e1, order1, kept) = law.get_ok w k v order fine has in
      let still = All-imp rest (λ d _ h. kept d.0 d.1 h) all in
      let (w2, e2) = gets_lem rest w1 order1 good still in (w2, rw (e1, same_of_eq v v refl) e2)

  -- Over a service whose start ends in order and which keeps what is put, the test bed passes: no put
  -- and no get fails and no assertion does, if the service takes the values and the keys are apart from
  -- each other.
  pub run_testbed_passes :
      (test_data : List (Bytes × Bytes)) (w w' : dht.World)
      → dht.init w ≡ (w', done (ok tt))
      → law.InOrder w'
      → All (λ d. law.Good d.1) test_data
      → AllApart test_data
      → (w'' : dht.World) × (run_testbed dht test_data w ≡ (w'', done tt))
  unfolding run_testbed
  run_testbed_passes test_data w w' starts order good apart =
      let (w1, e1, order1, all, _) = puts_lem test_data w' order good apart in
      let (w2, e2) = gets_lem test_data w1 order1 good all in (w2, rw (starts, e1) e2)
