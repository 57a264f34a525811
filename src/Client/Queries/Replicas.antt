-- ===== src/Client/Queries/Replicas.antt =====
-- A lookup whose candidates all have the value.
use mathlib.Core.List.{mem-append_left}
use mathlib.Core.List.Perm
use dht_kad_rs.Base.{
  ℕ, ◌<◌, ◌≡◌, ◌⊎◌, inl, inr, refl, ap, subst, ◌∙◌, List, [], ◌∷◌, Mem, All, All-Mem, eqb, false,
  some, get_elem?, length, arith, Outcome, done, Result, ok,
}
use dht_kad_rs.Kvstore.{Bytes}
use dht_kad_rs.Messages.{Protobuf, Message}
use dht_kad_rs.Messages.Util.{IoError}
use dht_kad_rs.RoutingTable.Peers.{Peer}
use dht_kad_rs.Transport.{Network}
use dht_kad_rs.Client.{Lookup, Progress, waiting, answered, lookup, sort_and_spawn}
use dht_kad_rs.Client.Search.{round_busy}
use dht_kad_rs.Client.Spawned.{sort_and_spawn-Spawned}
use dht_kad_rs.Client.Queries.{
  Search, spawned, begin, ended, reading, resume, Step, ends, reads, Reach, here, next,
}
use dht_kad_rs.Client.Queries.Counted.{Reach-in_progress}
use dht_kad_rs.Client.Queries.Ending.{starting}
use dht_kad_rs.Client.Queries.Flow.{Serves, Flow, ended-Flow, reading-Flow}
use dht_kad_rs.Client.Queries.Found.{value_ends}
use dht_kad_rs.Client.Queries.Stuck.{Reach-goes_on}

-- The reply brings the value.
abbrev pub Brings : {P : Protobuf} → Bytes → Result (Message P) IoError → Type 0
Brings {P} value r = (m : Message P) × (r ≡ ok m) × (m.value ≡ value)

-- The first round of a lookup queries some of its candidates.
first_round :
    (P : Protobuf) (alpha key : ℕ) (p : Peer) (ps : List Peer)
    → let s = sort_and_spawn alpha key (starting (p ∷ ps)) in
      (lookup {P = P} alpha key [] (starting (p ∷ ps)) ≡ done (waiting s))
      × All (λ q. Mem q (p ∷ ps)) s.queried
unfolding lookup
first_round P alpha key p ps =
    let s0 = starting (p ∷ ps) in
    let sp = sort_and_spawn-Spawned alpha key s0 in
    let left : eqb (length s0.candidates) 0 ≡ false = ground arith in
    (
      rw left refl,
      All-Mem (λ q. Mem q (p ∷ ps)) (sort_and_spawn alpha key s0).queried
          (λ q m. (Perm.mem_iff sp.partition).0 (mem-append_left _ (subst (Mem q) sp.recorded m))),
    )

-- There is a first task, for one of the candidates.
pub first_task :
    (P : Protobuf) (alpha key : ℕ) (p : Peer) (ps : List Peer)
    → 0 < alpha
    → (s : Lookup) × (q : Peer) × (qs : List Peer) × (lookup {P = P} alpha key []
          (starting (p ∷ ps))
        ≡ done (waiting s))
      × (s.queried ≡ q ∷ qs)
      × Mem q (p ∷ ps)
      × (0 < s.in_progress)
first_task P alpha key p ps pos =
    let (e, tasks) = first_round P alpha key p ps in
    let s = sort_and_spawn alpha key (starting (p ∷ ps)) in
    let sp = sort_and_spawn-Spawned alpha key (starting (p ∷ ps)) in
    let busy = round_busy sp pos (omega arith) in
    let some_asked : 0 < length s.queried =
      omega (arith, busy, sp.counted, ap length sp.recorded) in
    let (q, qs, same, there) = first_of s.queried some_asked tasks in
    (s, q, qs, e, same, there, busy)
  where
    first_of :
        (xs : List Peer)
        → 0 < length xs
        → All (λ x. Mem x (p ∷ ps)) xs
        → (q : Peer) × (qs : List Peer) × (xs ≡ q ∷ qs) × Mem q (p ∷ ps)
    first_of [] none_there all = absurd (omega (arith, none_there))
    first_of (x ∷ xs) _ (there, _) = (x, xs, refl, there)

module _ {P : Protobuf} (net : Network P) (alpha key : ℕ) (myself : Peer) (value : Bytes)
    (p0 : Peer) (ps : List Peer) (Good : net.World → Type 0)
    (serves : Serves net alpha key myself (p0 ∷ ps) Good (Brings value))
    (full : 0 < length value) where
  -- The function has read nothing, or it has returned the value.
  data Course : Outcome Progress → List (Result (Message P) IoError) → Type 0 where
    waits : {s : Lookup} → Course (done (waiting s)) []
    over : {rs : List (Result (Message P) IoError)} → Course (done (answered (ok value))) rs

  record Going (σ : Search net alpha key myself) : Type 0 where
    flow : Flow net alpha key myself (p0 ∷ ps) Good (Brings value) serves σ
    course : Course σ.function σ.read

  -- The first reply that is read ends the lookup.
  resumes :
      (s : Lookup) (r : Result (Message P) IoError)
      → 0 < s.in_progress
      → Brings value r
      → resume alpha key s r ≡ done (answered (ok value))
  resumes s r busy (m, same, has) =
      ap (resume alpha key s) same
      ∙ value_ends alpha key s m busy (omega (arith, full, ap length has))
      ∙ ap (λ v. done (answered (ok v))) has

  ended-Going :
      (σ : Search net alpha key myself) (i : ℕ) (p : Peer)
      → get_elem? σ.in_flight i ≡ some p
      → Going σ
      → Going (ended net alpha key myself σ i p)
  unfolding ended
  ended-Going σ i p at h = record {
    flow = (ended-Flow net alpha key myself (p0 ∷ ps) Good (Brings value) serves σ i p at h.flow).0;
    course = h.course;
  }

  reading-Going :
      (σ : Search net alpha key myself) (s : Lookup) (r : Result (Message P) IoError)
      (rest : List (Result (Message P) IoError))
      → 0 < s.in_progress
      → σ.channel ≡ r ∷ rest
      → Going σ
      → Going (reading net alpha key myself σ s r rest)
  unfolding reading spawned
  reading-Going σ s r rest busy c h =
      let (brings, flow) =
        reading-Flow net alpha key myself (p0 ∷ ps) Good (Brings value) serves σ s r rest c h.flow
          (λ brings. rw (resumes s r busy brings) tt) in
      record { flow = flow; course = rw (resumes s r busy brings) over }

  begin-Going : (w : net.World) → Good w → Going (begin net alpha key myself (starting (p0 ∷ ps)) w)
  unfolding begin spawned
  begin-Going w good =
      let (e, tasks) = first_round P alpha key p0 ps in
      rw e (record {
        flow = record { good = good; none_lost = refl; tasks = tasks; replies = tt };
        course = waits;
      })

  Reach-Going :
      (w : net.World) {σ : Search net alpha key myself}
      → 0 < alpha
      → Good w
      → Reach net alpha key myself (begin net alpha key myself (starting (p0 ∷ ps)) w) σ
      → Going σ
  unfolding begin ended reading
  Reach-Going w pos good here = begin-Going w good
  Reach-Going w pos good (next {τ} r (ends i p at)) =
      ended-Going τ i p at (Reach-Going w pos good r)
  Reach-Going w pos good (next {τ} r (reads s q rest e c)) =
      let (_, busy) =
        Reach-in_progress net alpha key myself (starting (p0 ∷ ps)) w s pos refl r e in
      reading-Going τ s q rest busy c (Reach-Going w pos good r)

  -- A lookup that begins with candidates, one at least, and with `alpha` above zero, in a world that is
  -- `Good`, where each candidate can be asked and answers by the same value, which is not empty: in every
  -- run, whatever the order in which the tasks end, it has returned the value, or it has read nothing and
  -- can go on.
  pub lookup_of_replicas :
      (w : net.World) {σ : Search net alpha key myself}
      → 0 < alpha
      → Good w
      → Reach net alpha key myself (begin net alpha key myself (starting (p0 ∷ ps)) w) σ
      → (σ.function ≡ done (answered (ok value)))
        ⊎ ((σ.read ≡ []) × ((τ : Search net alpha key myself) × Step net alpha key myself σ τ))
  lookup_of_replicas w {σ} pos good r =
      let h = Reach-Going w pos good r in stands_at h σ.function σ.read refl refl h.course
    where
      stands_at :
          Going σ
          → (o : Outcome Progress) (rs : List (Result (Message P) IoError)) → σ.function ≡ o
          → σ.read ≡ rs
          → Course o rs
          → (σ.function ≡ done (answered (ok value)))
            ⊎ ((σ.read ≡ []) × ((τ : Search net alpha key myself) × Step net alpha key myself σ τ))
      stands_at h o rs e n over = inl e
      stands_at h o rs e n (waits {s}) = inr (
        n,
        Reach-goes_on net alpha key myself (starting (p0 ∷ ps)) w s pos refl r e h.flow.none_lost,
      )
