-- ===== src/Client/Queries/Flow.antt =====
-- The tasks and the replies of a lookup whose queries go to peers that can be asked.
use dht_kad_rs.Base.{
  ℕ, zero, suc, ◌+◌, ◌≡◌, refl, sym, subst, ap, List, [], ◌∷◌, ◌++◌, Mem, length, length-append,
  some, get_elem?, All, All-append, All-get_elem?, arith, Result,
}
use dht_kad_rs.Messages.{Protobuf, Message}
use dht_kad_rs.Messages.Util.{IoError, create_find_value_request}
use dht_kad_rs.RoutingTable.Peers.{Peer}
use dht_kad_rs.RoutingTable.Buckets.{remove}
use dht_kad_rs.Transport.{Network, find_value}
use dht_kad_rs.Client.{Lookup}
use dht_kad_rs.Client.Queries.{Search, spawn_query, spawned, ended, reading, resume}

All-remove : {A : Type 0} (P : A → Type 0) (xs : List A) (i : ℕ) → All P xs → All P (remove xs i)
unfolding remove
All-remove P [] i h = tt
All-remove P (x ∷ xs) zero (h, hs) = hs
All-remove P (x ∷ xs) (suc i) (h, hs) = (h, All-remove P xs i hs)

module _ {P : Protobuf} (net : Network P) (alpha key : ℕ) (myself : Peer) where
  -- The addresses of `peers` read, and in a world that is `Good` a query to one of them comes back with what
  -- is `Fine` and leaves a world that is `Good`.
  pub record Serves (peers : List Peer) (Good : net.World → Type 0)
      (Fine : Result (Message P) IoError → Type 0) : Type 0 where
    pub addressed : (p : Peer) → Mem p peers → (a : net.SocketAddr) × (net.parse p.address ≡ some a)
    pub answers :
        (p : Peer) (a : net.SocketAddr) (w : net.World)
        → Mem p peers
        → net.parse p.address ≡ some a
        → Good w
        → Good (find_value net a (create_find_value_request P key myself) w).0
          × Fine (find_value net a (create_find_value_request P key myself) w).1

  pub Serves-imp :
      (peers : List Peer) (Good : net.World → Type 0)
      {Fine Fine' : Result (Message P) IoError → Type 0}
      → ((r : Result (Message P) IoError) → Fine r → Fine' r)
      → Serves peers Good Fine
      → Serves peers Good Fine'
  Serves-imp peers Good weaker serves = record {
    addressed = serves.addressed;
    answers = λ p a w m read good.
        let (good', fine) = serves.answers p a w m read good in (good', weaker _ fine);
  }

  module _ (peers : List Peer) (Good : net.World → Type 0)
      (Fine : Result (Message P) IoError → Type 0) (serves : Serves peers Good Fine) where
    -- Every task will send a reply, and the replies on their way are fine.
    pub record Flow (σ : Search net alpha key myself) : Type 0 where
      pub good : Good σ.world
      pub none_lost : σ.lost ≡ 0
      pub tasks : All (λ p. Mem p peers) σ.in_flight
      pub replies : All Fine σ.channel

    one_reply :
        (p : Peer) (w : net.World)
        → Mem p peers
        → Good w
        → let o = spawn_query net (create_find_value_request P key myself) p w in
          Good o.0 × ((r : _) × (o.1 ≡ r ∷ []) × Fine r)
    unfolding spawn_query
    one_reply p w m good =
        let (a, read) = serves.addressed p m in
        let (good', fine) = serves.answers p a w m read good in
        rw (spawn_query, read) (good', (_, refl, fine))

    pub ended-Flow :
        (σ : Search net alpha key myself) (i : ℕ) (p : Peer)
        → get_elem? σ.in_flight i ≡ some p
        → Flow σ
        → Flow (ended net alpha key myself σ i p)
          × (length (ended net alpha key myself σ i p).channel ≡ length σ.channel + 1)
    unfolding ended
    ended-Flow σ i p at h =
        let m = All-get_elem? (λ p. Mem p peers) σ.in_flight i h.tasks at in
        let (good, (r, sent, fine)) = one_reply p σ.world m h.good in
        let channel = ap (λ l. σ.channel ++ l) sent in
        (
          record {
            good = good;
            none_lost = omega (arith, h.none_lost, ap length sent);
            tasks = All-remove (λ p. Mem p peers) σ.in_flight i h.tasks;
            replies =
                subst (All Fine) (sym channel)
                  (All-append Fine σ.channel (r ∷ []) h.replies (fine, tt));
          },
          omega (arith, length-append σ.channel (r ∷ []), ap length channel),
        )

    -- A reply is read, and the function queries others of `peers`.
    pub reading-Flow :
        (σ : Search net alpha key myself) (s : Lookup) (r : Result (Message P) IoError)
        (rest : List (Result (Message P) IoError))
        → σ.channel ≡ r ∷ rest
        → Flow σ
        → (Fine r → All (λ p. Mem p peers) (spawned s (resume {P = P} alpha key s r)))
        → Fine r × Flow (reading net alpha key myself σ s r rest)
    unfolding reading
    reading-Flow σ s r rest c h new =
        let (fine, replies) = subst (All Fine) c h.replies in
        (
          fine,
          record {
            good = h.good;
            none_lost = h.none_lost;
            tasks =
                All-append (λ p. Mem p peers) σ.in_flight (spawned s (resume {P = P} alpha key s r))
                  h.tasks (new fine);
            replies = replies;
          },
        )
