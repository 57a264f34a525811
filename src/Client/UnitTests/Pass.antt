-- ===== src/Client/UnitTests/Pass.antt =====
-- The unit test `test_store` passes where its mock servers run.
use mathlib.Core.List.{
  append_assoc, append-nil, Nodup-append, Nodup-nil, Nodup-cons, mem-cons, not-mem-nil,
  mem-cons_self, mem-cons_of_mem, mem-map_of_mem,
}
use mathlib.Core.List.Perm
use mathlib.Core.Logic.Or
use dht_kad_rs.Base.{
  ℕ, ◌+◌, ◌≤◌, ◌<◌, ◌≡◌, refl, sym, ap, ◌∙◌, subst, true, List, [], ◌∷◌, ◌++◌, map, All, All-imp,
  All-Mem, Mem, Nodup, Perm, length, length-append, length-map, length-perm, Option, some, arith,
  same_of_eq, list_eq, nat_eq, done, ok,
}
use dht_kad_rs.Base.Sort.{sort_by, sort_by-perm, All-sort_by}
use dht_kad_rs.Keyutil.{key_to_bytes}
use dht_kad_rs.Kvstore.{memory_store}
use dht_kad_rs.Messages.{Protobuf}
use dht_kad_rs.Messages.Util.{create_store_request, create_store_response}
use dht_kad_rs.Mock
use dht_kad_rs.RoutingTable.{new, nearer}
use dht_kad_rs.RoutingTable.Buckets
use dht_kad_rs.RoutingTable.Filled.{filled, update-filled, k_nearest_peers-filled}
use dht_kad_rs.RoutingTable.Peers.{Peer}
use dht_kad_rs.Rpc.{Method}
use dht_kad_rs.Transport.{Network, addresses, join_all, store_value}
use dht_kad_rs.Transport.Delivered.{DeliversTo, remote_delivered}
use dht_kad_rs.Client.{new_client}
use dht_kad_rs.Client.Store.{store}
use dht_kad_rs.Client.PutGet.{store_at_accepted, store_starts}
use dht_kad_rs.Client.UnitTests.{
  MockDhtServer, serve_mock, Running, peer_of, offer_servers, key, value, me, is_received,
  all_received, test_store,
}

-- A new table with room for all keeps the order of the offers.
offer_servers_lem :
    (n : ℕ) (ps : List Peer) (servers : List Running)
    → Nodup (ps ++ map peer_of servers)
    → length ps + length servers ≤ n
    → offer_servers (filled n me ps) servers ≡ done (filled n me (ps ++ map peer_of servers))
unfolding offer_servers
offer_servers_lem n ps [] distinct room = rw (append-nil ps)
offer_servers_lem n ps (s ∷ servers) distinct room =
    let p = peer_of s in
    let (_, _, apart) = Nodup-append.0 distinct in
    let fresh = λ (m : Mem p ps). apart p m mem-cons_self in
    let later = append_assoc ps (p ∷ []) (map peer_of servers) in
    rw (update-filled n me p ps fresh (omega (arith, room))) (
      offer_servers_lem n (ps ++ p ∷ []) servers (subst Nodup (sym later) distinct)
        (omega (arith, room, length-append ps (p ∷ [])))
      ∙ ap (λ qs. done (filled n me qs)) later)

Nodup-of_map : {A B : Type 0} (f : A → B) (xs : List A) → Nodup (map f xs) → Nodup xs
Nodup-of_map f [] h = Nodup-nil
Nodup-of_map f (x ∷ xs) h =
    let (fresh, rest) = Nodup-cons.0 h in
    Nodup-cons.1 (λ m. fresh (mem-map_of_mem f m), Nodup-of_map f xs rest)

-- The messages of the test.
is_received_lem :
    {P : Protobuf} (s : MockDhtServer P)
    → is_received (some (record s { last_request = create_store_request P me key value })) ≡ true
unfolding is_received create_store_request
is_received_lem s = rw (same_of_eq (key_to_bytes key) (key_to_bytes key) refl) refl

module _ {P : Protobuf} (net : Network P)
    (mock : net.World → net.SocketAddr → Option (MockDhtServer P))
    (d : DeliversTo net serve_mock mock) (place : Peer → net.SocketAddr) where
  -- The address of the peer reads, and a mock server stands there.
  abbrev IsRunning : net.World → Peer → Type 0
  IsRunning w p =
      (net.parse p.address ≡ some (place p)) × ((s : MockDhtServer P) × (mock w (place p) ≡ some s))

  Standing : net.World → net.SocketAddr → Type 0
  Standing w a = (s : MockDhtServer P) × (mock w a ≡ some s)

  addresses_lem :
      (w : net.World) (ps : List Peer)
      → All (IsRunning w) ps
      → (addresses net ps ≡ done (map place ps)) × All (Standing w) (map place ps)
  unfolding addresses Standing
  addresses_lem w [] run = (refl, tt)
  addresses_lem w (p ∷ ps) ((read, standing), run) =
      let (e, standings) = addresses_lem w ps run in (rw (read, e), (standing, standings))

  abbrev Got : net.World → net.SocketAddr → Type 0
  Got w a = is_received (mock w a) ≡ true

  -- Every mock server receives the request and answers so.
  join_all_lem :
      (w : net.World) (addrs : List net.SocketAddr)
      → Nodup addrs
      → All (Standing w) addrs
      → let m = create_store_request P me key value in
        (w' : net.World) × (join_all net (λ a. store_value net a m) addrs w
          ≡ (w', map (λ _. ok (create_store_response P true)) addrs))
        × All (Got w') addrs
        × ((b : net.SocketAddr) → ¬ Mem b addrs → mock w' b ≡ mock w b)
  unfolding join_all store_value serve_mock Standing
  join_all_lem w [] distinct standing = (w, refl, tt, λ b _. refl)
  join_all_lem w (a ∷ addrs) distinct ((s, here), standing) =
      let m = create_store_request P me key value in
      let (fresh, distinct') = Nodup-cons.0 distinct in
      let s' : MockDhtServer P = record s { last_request = m } in
      let (w1, e1, now, same1) =
        remote_delivered d w a Method.store m s s' (create_store_response P true) here refl in
      let still = λ (b : net.SocketAddr) (mb : Mem b addrs).
        same1 b (λ z. fresh (subst (λ x. Mem x addrs) z mb)) in
      let standing1 : All (Standing w1) addrs =
        All-imp addrs (λ b mb (t, at). (t, still b mb ∙ at)) standing in
      let (w2, e2, got, same2) = join_all_lem w1 addrs distinct' standing1 in
      let kept : mock w2 a ≡ some s' = same2 a fresh ∙ now in
      (
        w2,
        rw (e1, e2),
        (ap is_received kept ∙ is_received_lem s, got),
        λ b out.
            same2 b (λ mb. out (mem-cons_of_mem a mb))
            ∙ same1 b (λ z. out (subst (λ x. Mem x (a ∷ addrs)) (sym z) mem-cons_self)),
      )

  all_received_lem :
      (w : net.World) (servers : List Running)
      → All (λ s. net.parse s.0 ≡ some (place (peer_of s))) servers
      → All (λ s. Got w (place (peer_of s))) servers
      → all_received net mock servers w ≡ (w, done tt)
  unfolding all_received
  all_received_lem w [] reads got = refl
  all_received_lem w (s ∷ servers) (read, reads) (here, got) =
      rw (read, here) (all_received_lem w servers reads got)

  -- The store of the test.
  store_received :
      (n : ℕ) (peers : List Peer) (w : net.World)
      → 0 < length peers
      → length peers ≤ n
      → Nodup (map place peers)
      → All (IsRunning w) peers
      → let c = new_client {K = memory_store} 5 me Mock.kv_store (filled n me peers) in
        (w' : net.World) × (store net c key value w ≡ (w', done (ok tt)))
        × ((a : net.SocketAddr) → Mem a (map place peers) → Got w' a)
  store_received n peers w some_run room distinct run =
      let c = new_client {K = memory_store} 5 me Mock.kv_store (filled n me peers) in
      let sorted = sort_by (nearer key) peers in
      let same : Perm (map place sorted) (map place peers) =
        Perm.map place (sort_by-perm (nearer key) peers) in
      let (read, standing) =
        addresses_lem w sorted (All-sort_by (IsRunning w) (nearer key) peers run) in
      let (w', e, got, _) =
        join_all_lem w (map place sorted) (Perm.nodup (Perm.symm same) distinct) standing in
      let asked : 0 < length sorted =
        omega (arith, some_run, length-perm (sort_by-perm (nearer key) peers)) in
      (
        w',
        store_starts net c key value w sorted (map place sorted)
              (k_nearest_peers-filled n me peers key room) read
            ∙ store_at_accepted net (length sorted) (create_store_request P me key value)
                (map place sorted) w w' asked e,
        λ a m. of_all w' (map place sorted) got a ((Perm.mem_iff (Perm.symm same)).0 m),
      )
    where
      of_all :
          (w' : net.World) (addrs : List net.SocketAddr)
          → All (Got w') addrs
          → (a : net.SocketAddr) → Mem a addrs
          → Got w' a
      of_all w' [] got a m = absurd (not-mem-nil m)
      of_all w' (b ∷ addrs) (here, got) a m =
          Or.elim (hlevel) (mem-cons.0 m) (λ z. subst (Got w') (sym z) here) (of_all w' addrs got a)

  All-reads :
      (w : net.World) (servers : List Running)
      → All (IsRunning w) (map peer_of servers)
      → All (λ s. net.parse s.0 ≡ some (place (peer_of s))) servers
  All-reads w [] run = tt
  All-reads w (s ∷ servers) ((read, _), run) = (read, All-reads w servers run)

  -- Over a network where a mock server runs at the distinct address of each of the servers, one at least,
  -- whatever identifiers are drawn for them, the test `test_store` passes: the store reports success, and
  -- each of the servers has received the request.
  pub test_store_passes :
      (servers : List Running) (w : net.World)
      → 0 < length servers
      → Nodup (map place (map peer_of servers))
      → All (IsRunning w) (map peer_of servers)
      → (w' : net.World) × (test_store net mock (length servers) servers w ≡ (w', done tt))
  unfolding test_store new Buckets.new
  test_store_passes servers w some_run distinct run =
      let n = length servers in
      let peers = map peer_of servers in
      let count = length-map peer_of servers in
      let table =
        offer_servers_lem n [] servers (Nodup-of_map place peers distinct) (omega arith) in
      let (w', e, got) =
        store_received n peers w (omega (arith, some_run, count)) (omega (arith, count)) distinct
          run in
      (
        w',
        rw (table, e)
            (all_received_lem w' servers (All-reads w servers run) (
              All-Mem _ servers (λ s m.
                got (place (peer_of s)) (mem-map_of_mem place (mem-map_of_mem peer_of m))))),
      )
