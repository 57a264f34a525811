-- ===== src/Client/Queries/Stuck.antt =====
-- When a lookup can go on, and when it waits for ever.
use dht_kad_rs.Base.{
  ℕ, ◌+◌, ◌<◌, ◌≡◌, refl, ap, List, [], ◌∷◌, ltb, length, true, none, some, get_elem?, arith, done,
  Result,
}
use dht_kad_rs.Base.Sort.{sort_by, insert}
use dht_kad_rs.Messages.{Protobuf, Message}
use dht_kad_rs.Messages.Util.{IoError}
use dht_kad_rs.RoutingTable.Peers.{Peer}
use dht_kad_rs.RoutingTable.Buckets.{remove}
use dht_kad_rs.Transport.{Network}
use dht_kad_rs.Client.{Lookup, waiting, lookup, sort_and_spawn, spawn, pop}
use dht_kad_rs.Client.Queries.{
  Search, spawn_query, spawned, begin, ended, Step, ends, reads, Reach, here, next,
}
use dht_kad_rs.Client.Queries.Counted.{Reach-in_progress}

module _ {P : Protobuf} (net : Network P) (alpha key : ℕ) (myself : Peer) where
  -- A lookup that begins with nothing in progress and with `alpha` above zero, and that has lost no task,
  -- can take a step as long as its function waits: a task can end, or there is a reply to read.
  pub Reach-goes_on :
      (s : Lookup) (w : net.World) {σ : Search net alpha key myself} (s' : Lookup)
      → 0 < alpha
      → s.in_progress ≡ 0
      → Reach net alpha key myself (begin net alpha key myself s w) σ
      → σ.function ≡ done (waiting s')
      → σ.lost ≡ 0
      → (τ : Search net alpha key myself) × Step net alpha key myself σ τ
  Reach-goes_on s w {σ} s' pos idle r waits all_sent =
      let (counts, busy) = Reach-in_progress net alpha key myself s w s' pos idle r waits in
      from σ.in_flight σ.channel refl refl (omega (arith, counts, busy, all_sent))
    where
      from :
          (tasks : List Peer) (replies : List (Result (Message P) IoError))
          → σ.in_flight ≡ tasks
          → σ.channel ≡ replies
          → 0 < length tasks + length replies
          → (τ : Search net alpha key myself) × Step net alpha key myself σ τ
      from (p ∷ tasks) replies e c some_left =
          (ended net alpha key myself σ 0 p, ends 0 p (ap (λ ts. get_elem? ts 0) e))
      from [] (q ∷ replies) e c some_left = (_, reads s' q replies waits c)
      from [] [] e c some_left = absurd (omega (arith, some_left))

  no-Step :
      (σ τ : Search net alpha key myself)
      → σ.in_flight ≡ []
      → σ.channel ≡ []
      → ¬ Step net alpha key myself σ τ
  no-Step σ τ e c (ends i p at) = let nothing : get_elem? [] i ≡ some p = rw e at at in cc
  no-Step σ τ e c (reads s r rest e0 c0) = cc

  sends_nothing :
      (m : Message P) (p : Peer) (w : net.World)
      → net.parse p.address ≡ none
      → spawn_query net m p w ≡ (w, [])
  unfolding spawn_query
  sends_nothing m p w unread = rw (spawn_query, unread)

  -- One round with one candidate.
  one_round :
      (p : Peer)
      → 0 < alpha
      → lookup {P = P} alpha key [] (record { candidates = p ∷ []; queried = []; in_progress = 0 })
        ≡ done (waiting (record { candidates = []; queried = p ∷ []; in_progress = 1 }))
  unfolding lookup sort_and_spawn spawn pop sort_by insert
  one_round p pos = let free : ltb 0 alpha ≡ true = ground arith in rw free

  -- A lookup whose only candidate has an address that does not read, with `alpha` above zero, comes to a
  -- state in which its function waits and no step is possible.
  pub lookup_hangs :
      (p : Peer) (w : net.World)
      → 0 < alpha
      → net.parse p.address ≡ none
      → let s : Lookup = record { candidates = p ∷ []; queried = []; in_progress = 0 } in
        (σ : Search net alpha key myself) × Reach net alpha key myself
          (begin net alpha key myself s w)
          σ
        × ((s' : Lookup) × (σ.function ≡ done (waiting s')))
        × ((τ : Search net alpha key myself) → ¬ Step net alpha key myself σ τ)
  unfolding begin spawned ended remove
  lookup_hangs p w pos unread =
      let s : Lookup = record { candidates = p ∷ []; queried = []; in_progress = 0 } in
      let start = begin net alpha key myself s w in
      let round = one_round p pos in
      let tasks : start.in_flight ≡ p ∷ [] = ap (spawned s) round in
      let σ = ended net alpha key myself start 0 p in
      (
        σ,
        next here (ends 0 p (ap (λ ts. get_elem? ts 0) tasks)),
        (_, round),
        λ τ. no-Step σ τ (ap (λ ts. remove ts 0) tasks) (
            ap (λ (r : net.World × List (Result (Message P) IoError)). r.1)
              (sends_nothing _ p w unread)),
      )
