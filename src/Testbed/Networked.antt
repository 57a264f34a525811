-- ===== src/Testbed/Networked.antt =====
-- A run of the test bed over a service on a network of servers.
use dht_kad_rs.Base.{
  ℕ, ◌<◌, ◌≡◌, ◌≢◌, refl, sym, ap, ◌∙◌, List, [], ◌∷◌, All, All-imp, All-find, Mem, suc,
  Option-cases, inl, inr, Option, some, length, Outcome, done, Result, ok,
}
use dht_kad_rs.Keyutil.{Hasher128, calculate_hash, key_to_bytes, key_from_bytes}
use dht_kad_rs.Keyutil.Bytes.{key_from_bytes-key_to_bytes}
use dht_kad_rs.Kvstore.{Bytes, KvStore}
use dht_kad_rs.Kvstore.Laws.{IsMap}
use dht_kad_rs.Messages.{Protobuf}
use dht_kad_rs.Messages.Validity.{requests-IsFrom}
use dht_kad_rs.Messages.Util.{RpcError, create_find_value_request, create_find_value_response}
use dht_kad_rs.RoutingTable.Peers.{Peer}
use dht_kad_rs.Rpc.State.{DhtServer}
use dht_kad_rs.Rpc.Sender.{request-SentBy}
use dht_kad_rs.Transport.{Network, join_all}
use dht_kad_rs.Transport.Delivered.{Delivers}
use dht_kad_rs.Client.{Progress}
use dht_kad_rs.Client.Replicated.{IsUp, Holds, Took-Holds}
use dht_kad_rs.Client.PutGet.{store-Took}
use dht_kad_rs.Client.Spared.{Spares, Took-Spares, join_all_finds}
use dht_kad_rs.Client.Queries.{Search, begin, spawn_query, spawned}
use dht_kad_rs.Client.Queries.Replicas.{first_task}
use dht_kad_rs.Client.Queries.Started.{started_begins, addresses-found}
use dht_kad_rs.Client.Queries.Settled.{result_of, settle, settle_first, after_round, begin-round}
use dht_kad_rs.RoutingTable.{RoutingTable}
use dht_kad_rs.Service.Node.{DhtService, dht_client, init, put}
use dht_kad_rs.Testbed.{run_testbed}
use dht_kad_rs.Testbed.Passed.{KeepsWhatIsPut, AllApart, run_testbed_passes}
use dht_kad_rs.Testbed.Connected.{State, put_over, get_over, on_network, IsConnected}

module _ {K : KvStore} {P : Protobuf} (net : Network P)
    (server : net.World → net.SocketAddr → Option (DhtServer K)) (d : Delivers net server)
    {view : K.Store → Bytes → Option Bytes} (map_law : IsMap K view)
    (dec : (a b : net.SocketAddr) → Dec (a ≡ b)) (h : Hasher128) (s : DhtService net K)
    (c : IsConnected net h K s) where
  abbrev AllUp : net.World → Type 0
  AllUp w = (key : Bytes) → All (IsUp net server d map_law w) (c.places key)

  abbrev HasAt : net.World → Bytes → Bytes → Type 0
  HasAt w key v =
      All (Holds net server d map_law (key_to_bytes (calculate_hash h key)) v w) (c.places key)

  spared_up :
      {Q : Bytes → Type 0} {w w' : net.World}
      → Spares net server d map_law Q w w'
      → AllUp w
      → AllUp w'
  spared_up spares up key = All-imp (c.places key) (λ b _ t. spares.stays_up b t) (up key)

  spared_has :
      {Q : Bytes → Type 0} {w w' : net.World} (key v : Bytes)
      → Spares net server d map_law Q w w'
      → Q (key_to_bytes (calculate_hash h key))
      → HasAt w key v
      → HasAt w' key v
  spared_has key v spares q has =
      All-imp (c.places key) (λ b _ t. spares.keeps b (key_to_bytes (calculate_hash h key)) v q t)
        has

  hash_apart :
      (k j : Bytes)
      → calculate_hash h k ≢ calculate_hash h j
      → key_to_bytes (calculate_hash h k) ≢ key_to_bytes (calculate_hash h j)
  hash_apart k j apart e =
      let same : some (calculate_hash h k) ≡ some (calculate_hash h j) =
        sym (key_from_bytes-key_to_bytes _ (c.hashes k))
        ∙ ap key_from_bytes e
        ∙ key_from_bytes-key_to_bytes _ (c.hashes j) in
      apart (cc)

  put_keeps :
      (w : net.World) (k v : Bytes)
      → AllUp w
      → (w' : net.World) × (put net h s k v w ≡ (w', done (ok tt)))
        × AllUp w'
        × HasAt w' k v
        × ((j u : Bytes) → calculate_hash h k ≢ calculate_hash h j → HasAt w j u → HasAt w' j u)
  unfolding put dht_client
  put_keeps w k v up =
      let (w', e, took, same) =
        store-Took net server d map_law (dht_client net s) (calculate_hash h k) v w (c.nearest k)
          (c.others k) (c.places k) c.can_send (c.near k) (c.reads k) (c.distinct k) (up k) in
      let key = key_to_bytes (calculate_hash h k) in
      let spares = Took-Spares net server d map_law dec key v w w' (c.places k) took same in
      (
        w',
        e,
        spared_up spares up,
        All-imp (c.places k) (λ a _ t. Took-Holds net server d map_law key v w w' a t) took,
        λ j u apart has. spared_has j u spares (hash_apart k j apart) has,
      )

  put_passes :
      (w w' : net.World) (k v : Bytes)
      → put net h s k v w ≡ (w', done (ok tt))
      → put_over net h K k v (w, s) ≡ ((w', s), done (ok tt))
  unfolding put_over
  put_passes w w' k v e = rw (put_over, e) refl

  -- A server that has the value is asked first.
  asked_first :
      (w : net.World) (k v : Bytes) (q : Peer)
      → Mem q (c.nearest k ∷ c.others k)
      → HasAt w k v
      → let hashed = calculate_hash h k in
        (w' : net.World) × (spawn_query net (create_find_value_request P hashed s.local) q w
          ≡ (w', ok (create_find_value_response P (key_to_bytes hashed) v) ∷ []))
        × Spares net server d map_law (λ j. Unit {0}) w w'
  unfolding spawn_query create_find_value_request join_all
  asked_first w k v q m has =
      let hashed = calculate_hash h k in
      let request = create_find_value_request P hashed s.local in
      let from =
        request-SentBy request s.local c.can_send
          (requests-IsFrom P s.local hashed [] c.can_send).2 in
      let (reads, among) =
        addresses-found net (c.nearest k ∷ c.others k) (c.places k) q (c.reads k) m in
      elim (Option-cases (net.parse q.address)) [
        | inl unread ↦ absurd (reads unread)
        | inr (a, at) ↦
            let held =
              All-find dec (Holds net server d map_law request.key v w) (c.places k) a has
                (among a at) in
            let (w', e, spares) =
              join_all_finds net server d map_law dec request s.local from v (a ∷ []) w
                (held, tt) in
            (w', rw (spawn_query, at) e, spares)
      ]

  get_keeps :
      (n : ℕ) (w : net.World) (k v : Bytes)
      → AllUp w
      → 0 < length v
      → HasAt w k v
      → (w' : net.World) × (get_over net h K (suc (suc n)) k (w, s) ≡ ((w', s), done (ok v)))
        × AllUp w'
        × ((j u : Bytes) → HasAt w j u → HasAt w' j u)
  unfolding get_over begin spawned dht_client create_find_value_response
  get_keeps n w k v up full has =
      let hashed = calculate_hash h k in
      let client = dht_client net s in
      let (st, q, more, e, same, m, busy) =
        first_task P client.alpha hashed (c.nearest k) (c.others k) c.asks_some in
      let (w', told, spares) = asked_first w k v q m has in
      let start =
        started_begins net client hashed (c.nearest k ∷ c.others k) w (c.has_none k) (c.near k) in
      let (there, over) =
        settle_first net client.alpha hashed client.myself n st q more
          (create_find_value_response P (key_to_bytes hashed) v) w w' told busy full in
      let begun = begin-round net client.alpha hashed client.myself _ st q more w e same in
      let out : Search net client.alpha hashed client.myself
          → State net h K × Outcome (Result Bytes RpcError) =
        λ σ. ((σ.world, s), result_of σ.function) in
      let with_result : net.World
          → Outcome Progress
          → State net h K × Outcome (Result Bytes RpcError) =
        λ x o. ((x, s), result_of o) in
      let run = settle net client.alpha hashed client.myself (suc (suc n)) in
      let τ = run (after_round net client.alpha hashed client.myself st q more w) in
      (
        w',
        ap (λ σ. out (run σ)) (start ∙ begun)
            ∙ ap (λ x. with_result x τ.function) there
            ∙ ap (λ o. with_result w' o) over,
        spared_up spares up,
        λ j u t. spared_has j u spares tt t,
      )

  -- The keys of the test data have different hashes.
  abbrev pub HashesDiffer : List (Bytes × Bytes) → Type 0
  HashesDiffer [] = Unit {0}
  HashesDiffer ((k, v) ∷ rest) =
      All (λ d. calculate_hash h d.0 ≢ calculate_hash h k) rest × HashesDiffer rest

  -- A connected service on a network of servers keeps what is put, as long as all these servers are
  -- up: values that are not empty, under keys whose hashes differ.
  abbrev kept_on_network :
      (polled : List RoutingTable) (n : ℕ)
      → KeepsWhatIsPut (on_network net h K polled (suc (suc n)))
  kept_on_network polled n = record {
    InOrder = λ (w, t). (t ≡ s) × AllUp w;
    Has = λ (w, t) k v. HasAt w k v;
    Apart = λ k j. calculate_hash h k ≢ calculate_hash h j;
    Good = λ v. 0 < length v;
    put_ok = λ (w, t) k v (same, up) good.
        let (w', e, up', has, others) = put_keeps w k v up in
        rw same ((w', s), put_passes w w' k v e, (refl, up'), has, others);
    get_ok = λ (w, t) k v (same, up) good has.
        let (w', e, up', others) = get_keeps n w k v up good has in
        rw same ((w', s), e, (refl, up'), others);
  }

  -- The test bed runs on a service whose start succeeds, which fills its table. After the start the service
  -- can send, has `alpha` above zero and no value of its own, and for every key, whose hash has 128 bits, its
  -- table has nearest peers, one at least, whose addresses read and are distinct and where servers in good
  -- order stand. A get runs the tasks of its lookup, the earliest first, and may take two steps or more. If
  -- the keys of the test data have different hashes and no value is empty, the test bed passes: no put and no
  -- get fails, and every get returns what was put.
  pub run_testbed-on_network :
      (polled : List RoutingTable) (n : ℕ) (test_data : List (Bytes × Bytes))
      (start : net.World × DhtService net K) (w : net.World)
      → init net polled start ≡ ((w, s), done (ok tt))
      → ((key : Bytes) → All (IsUp net server d map_law w) (c.places key))
      → All (λ t. 0 < length t.1) test_data
      → HashesDiffer test_data
      → (end : net.World × DhtService net K) × (run_testbed
            (on_network net h K polled (suc (suc n)))
            test_data
            start
          ≡ (end, done tt))
  run_testbed-on_network polled n test_data start w starts up full differ =
      run_testbed_passes (on_network net h K polled (suc (suc n))) (kept_on_network polled n)
        test_data start (w, s) starts (refl, up) full (apart test_data differ)
    where
      apart :
          (test_data : List (Bytes × Bytes))
          → HashesDiffer test_data
          → AllApart (on_network net h K polled (suc (suc n))) (kept_on_network polled n) test_data
      apart [] differ = tt
      apart ((k, v) ∷ rest) (away, differ) = (away, apart rest differ)
