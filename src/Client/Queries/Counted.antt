-- ===== src/Client/Queries/Counted.antt =====
-- The counter of queries in progress, and what it counts.
use dht_kad_rs.Base.{
  ℕ, ◌+◌, ◌-◌, ◌≤◌, ◌<◌, ◌≡◌, refl, ap, sym, subst, ◌∙◌, List, [], ◌∷◌, ◌++◌, zero, suc, drop,
  length, length-append, eqb, ltb, Bool-cases, inl, inr, Option-cases, some, get_elem?, arith, done,
  bind-returns, Result, ok, err,
}
use dht_kad_rs.Messages.{Protobuf, Message}
use dht_kad_rs.Messages.Util.{IoError, create_find_value_request}
use dht_kad_rs.RoutingTable.Peers.{Peer}
use dht_kad_rs.RoutingTable.Buckets.{remove}
use dht_kad_rs.Transport.{Network}
use dht_kad_rs.Client.{
  Lookup, Next, again, return, waiting, answered, handle, handle_reply, closer, unseen, lookup,
  sort_and_spawn,
}
use dht_kad_rs.Client.Spawned.{sort_and_spawn-Spawned}
use dht_kad_rs.Client.Search.{round_busy}
use dht_kad_rs.Client.Queries.{
  Search, spawn_query, spawned, begin, ended, reading, resume, Step, ends, reads, Reach, here, next,
}

module _ {A : Type 0} where
  pub drop-append : (xs ys : List A) → drop (length xs) (xs ++ ys) ≡ ys
  drop-append [] ys = refl
  drop-append (x ∷ xs) ys = drop-append xs ys

  pub length-remove :
      (xs : List A) (i : ℕ) (x : A) → get_elem? xs i ≡ some x → length (remove xs i) + 1 ≡ length xs
  unfolding remove
  length-remove [] i x e = cc
  length-remove (y ∷ ys) zero x e = omega arith
  length-remove (y ∷ ys) (suc i) x e = omega (arith, length-remove ys i x e)

module _ (P : Protobuf) (alpha key : ℕ) where
  -- The round before a wait: it had a candidate, it counts the tasks that it spawned, and it leaves one
  -- in progress at least.
  pub round_counts :
      (s s' : Lookup)
      → 0 < alpha
      → lookup {P = P} alpha key [] s ≡ done (waiting s')
      → (s'.in_progress ≡ s.in_progress + length (spawned s (done (waiting s'))))
        × (0 < s'.in_progress)
  unfolding lookup spawned
  round_counts s s' pos e = elim (Bool-cases (eqb (length s.candidates) 0)) [
    | inl none_left ↦ cc (rw none_left at e)
    | inr some_left ↦
        let same : sort_and_spawn alpha key s ≡ s' = cc (rw some_left at e) in
        let sp = sort_and_spawn-Spawned alpha key s in
        let issued : drop (length s.queried) s'.queried ≡ sp.issued =
          ap (λ (x : Lookup). drop (length s.queried) x.queried) (sym same)
          ∙ ap (drop (length s.queried)) sp.recorded
          ∙ drop-append s.queried sp.issued in
        let busy = round_busy sp pos (ground (arith, some_left)) in
        (
          ap (λ (x : Lookup). x.in_progress) (sym same)
              ∙ sp.counted
              ∙ omega (arith, ap length issued),
          subst (λ (x : Lookup). 0 < x.in_progress) same busy,
        )
  ]

  -- A reply takes one off the counter and leaves the queried peers.
  handle_counts :
      (s s1 : Lookup) (r : Result (Message P) IoError)
      → handle s r ≡ done (again s1)
      → (s1.in_progress + 1 ≡ s.in_progress) × (s1.queried ≡ s.queried)
  unfolding handle handle_reply
  handle_counts s s1 r e = elim (Bool-cases (eqb s.in_progress 0)) [
    | inl idle ↦ cc (rw idle at e)
    | inr busy ↦ taken (ground (arith, busy)) r (rw busy at e)
  ]
    where
      one_less :
          (s2 : Lookup)
          → (s2.in_progress + 1 ≡ s.in_progress) × (s2.queried ≡ s.queried)
          → again s2 ≡ again s1
          → (s1.in_progress + 1 ≡ s.in_progress) × (s1.queried ≡ s.queried)
      one_less s2 counts z =
          let same : s2 ≡ s1 = cc in
          subst (λ (x : Lookup). (x.in_progress + 1 ≡ s.in_progress) × (x.queried ≡ s.queried)) same
            counts

      taken :
          0 < s.in_progress
          → (r : Result (Message P) IoError)
          → handle_reply (record s { in_progress = s.in_progress - 1 }) r ≡ done (again s1)
          → (s1.in_progress + 1 ≡ s.in_progress) × (s1.queried ≡ s.queried)
      taken pos (err e0) e =
          one_less (record s { in_progress = s.in_progress - 1 }) (omega (arith, pos), refl) (cc)
      taken pos (ok m) e = elim (Bool-cases (ltb 0 (length m.value))) [
        | inl found ↦ cc (rw found at e)
        | inr none_here ↦
            let (ps, _, f) = bind-returns (closer m.closer_peers) (rw none_here at e) in
            let left : Lookup = record s { in_progress = s.in_progress - 1 } in
            one_less (record left { candidates = s.candidates ++ unseen left ps })
              (omega (arith, pos), refl) (cc f)
      ]

  -- From one wait to the next, with the reply that was read in between.
  resume_counts :
      (s s' : Lookup) (r : Result (Message P) IoError)
      → 0 < alpha
      → resume alpha key s r ≡ done (waiting s')
      → (s'.in_progress + 1 ≡ s.in_progress + length (spawned s (done (waiting s'))))
        × (0 < s'.in_progress)
  unfolding resume spawned
  resume_counts s s' r pos e = let (n, e1, f) = bind-returns (handle s r) e in from_next n e1 f
    where
      from_next :
          (n : Next)
          → handle s r ≡ done n
          → elim n [ again s1 ↦ lookup {P = P} alpha key [] s1 | return v ↦ done (answered v) ]
            ≡ done (waiting s')
          → (s'.in_progress + 1 ≡ s.in_progress + length (drop (length s.queried) s'.queried))
            × (0 < s'.in_progress)
      from_next (again s1) e1 f =
          let (less, same) = handle_counts s s1 r e1 in
          let (counts, busy) = round_counts s1 s' pos f in
          let tasks = ap (λ qs. length (drop (length qs) s'.queried)) same in
          (omega (arith, less, counts, tasks), busy)
      from_next (return v) e1 f = cc

module _ {P : Protobuf} (net : Network P) (alpha key : ℕ) (myself : Peer) where
  -- While the function waits, the counter is above zero, and it is the number of tasks that have not
  -- ended, of replies that are not read, and of tasks that ended without a send.
  abbrev Counts : Search net alpha key myself → Type 0
  Counts σ =
      (s : Lookup)
      → σ.function ≡ done (waiting s)
      → (s.in_progress ≡ length σ.in_flight + length σ.channel + σ.lost) × (0 < s.in_progress)

  one_send : (m : Message P) (p : Peer) (w : net.World) → length (spawn_query net m p w).1 ≤ 1
  unfolding spawn_query
  one_send m p w = elim (Option-cases (net.parse p.address)) [
    | inl unread ↦ rw (length, unread) (omega arith)
    | inr (a, read) ↦ rw (length, read) (omega arith)
  ]

  Step-Counts :
      {σ τ : Search net alpha key myself}
      → 0 < alpha
      → Step net alpha key myself σ τ
      → Counts σ
      → Counts τ
  unfolding ended reading
  Step-Counts {σ} pos (ends i p at) counts s e =
      let (all, busy) = counts s e in
      let sent = (spawn_query net (create_find_value_request P key myself) p σ.world).1 in
      (
        omega (
          arith,
          all,
          length-remove σ.in_flight i p at,
          length-append σ.channel sent,
          one_send (create_find_value_request P key myself) p σ.world,
        ),
        busy,
      )
  Step-Counts {σ} pos (reads s r rest e0 c) counts s' e =
      let (all, _) = counts s e0 in
      let (next_count, busy) = resume_counts P alpha key s s' r pos e in
      let tasks = ap (λ o. length (spawned s o)) e in
      (
        omega (
          arith,
          all,
          next_count,
          tasks,
          ap length c,
          length-append σ.in_flight (spawned s (resume alpha key s r)),
        ),
        busy,
      )

  -- Every state that the tasks of a lookup lead to, in any order, is of this kind.
  Reach-Counts :
      (s : Lookup) (w : net.World) {σ : Search net alpha key myself}
      → 0 < alpha
      → s.in_progress ≡ 0
      → Reach net alpha key myself (begin net alpha key myself s w) σ
      → Counts σ
  unfolding begin
  Reach-Counts s w pos idle here s' e =
      let (counts, busy) = round_counts P alpha key s s' pos e in
      let tasks = ap (λ o. length (spawned s o)) e in (omega (arith, counts, idle, tasks), busy)
  Reach-Counts s w pos idle (next r st) s' e = Step-Counts pos st (Reach-Counts s w pos idle r) s' e

  -- In every state that the tasks of a lookup lead to, in any order, while the function waits, the counter
  -- is the number of tasks that have not ended, of replies that are not read, and of tasks that ended
  -- without a send, and it is above zero, if the lookup began with nothing in progress and `alpha` is
  -- above zero.
  pub Reach-in_progress :
      (s : Lookup) (w : net.World) {σ : Search net alpha key myself} (s' : Lookup)
      → 0 < alpha
      → s.in_progress ≡ 0
      → Reach net alpha key myself (begin net alpha key myself s w) σ
      → σ.function ≡ done (waiting s')
      → (s'.in_progress ≡ length σ.in_flight + length σ.channel + σ.lost) × (0 < s'.in_progress)
  Reach-in_progress s w s' pos idle r waits = Reach-Counts s w pos idle r s' waits
