-- ===== src/Client/Queries/Ending.antt =====
-- A lookup among peers of a fixed number comes to its end, whatever the order in which its tasks end.
use dht_kad_rs.Base.{
  ℕ, ◌+◌, ◌*◌, ◌≤◌, ◌<◌, ◌≡◌, refl, subst, ap, List, [], ◌∷◌, Mem, Nodup, length, length-append,
  inl, inr, ◌⊎◌, some, get_elem?, arith, Outcome, done, Result,
}
use dht_kad_rs.Messages.{Protobuf, Message}
use dht_kad_rs.Messages.Util.{IoError, RpcError}
use dht_kad_rs.Kvstore.{Bytes}
use dht_kad_rs.RoutingTable.Peers.{Peer}
use dht_kad_rs.Transport.{Network}
use dht_kad_rs.Client.{Lookup, Progress, waiting, answered, lookup}
use dht_kad_rs.Client.Queries.{
  Search, spawned, begin, ended, reading, resume, Step, ends, reads, Reach, here, next,
}
use dht_kad_rs.Client.Queries.Counted.{length-remove, Reach-in_progress}
use dht_kad_rs.Client.Queries.Stuck.{Reach-goes_on}
use dht_kad_rs.Client.Queries.Flow.{Serves, Flow, ended-Flow, reading-Flow}
use dht_kad_rs.Client.Queries.Resumed.{resume-Goes}
use dht_kad_rs.Client.Queries.Within.{Names, IsResult, Within, Course, waits, over, round-Goes}

-- How `find_value` begins.
abbrev pub starting : List Peer → Lookup
starting candidates = record { candidates = candidates; queried = []; in_progress = 0 }

module _ {P : Protobuf} (net : Network P) (alpha key : ℕ) (myself : Peer) where
  -- The peers among `all_peers` can be asked: their addresses read, and in a world that is `Good` a query
  -- to one of them brings an error or a reply that names distinct peers among `all_peers`, and leaves a
  -- world that is `Good`.
  abbrev pub Answers : List Peer → (Bytes → Type 0) → (net.World → Type 0) → Type 0
  Answers all_peers Held Good = Serves net alpha key myself all_peers Good (Names all_peers Held)

  waits_at :
      {all_peers : List Peer} {Held : Bytes → Type 0} {n : ℕ} (s : Lookup)
      → Course all_peers Held n (done (waiting s))
      → Within all_peers s × (length s.queried ≡ n)
  waits_at s (waits inside e) = (inside, e)

  -- The steps of a run.
  unfoldable pub steps : {σ τ : Search net alpha key myself} → Reach net alpha key myself σ τ → ℕ
  steps here = 0
  steps (next r st) = steps r + 1

  module _ (all_peers : List Peer) (Held : Bytes → Type 0) (Good : net.World → Type 0)
      (answers : Answers all_peers Held Good) where
    -- What holds on the way.
    record Going (σ : Search net alpha key myself) : Type 0 where
      flow : Flow net alpha key myself all_peers Good (Names all_peers Held) answers σ
      course :
          Course all_peers Held (length σ.in_flight + length σ.channel + length σ.read) σ.function
      few : length σ.in_flight + length σ.channel + length σ.read ≤ length all_peers

    ended-Going :
        (σ : Search net alpha key myself) (i : ℕ) (p : Peer)
        → get_elem? σ.in_flight i ≡ some p
        → Going σ
        → Going (ended net alpha key myself σ i p)
          × (length (ended net alpha key myself σ i p).channel ≡ length σ.channel + 1)
    unfolding ended
    ended-Going σ i p at h =
        let (flow, more) =
          ended-Flow net alpha key myself all_peers Good (Names all_peers Held) answers σ i p at
            h.flow in
        let fewer = length-remove σ.in_flight i p at in
        (
          record {
            flow = flow;
            course =
                subst (λ n. Course all_peers Held n σ.function) (omega (arith, fewer, more))
                  h.course;
            few = omega (arith, h.few, fewer, more);
          },
          more,
        )

    reading-Going :
        (σ : Search net alpha key myself) (s : Lookup) (r : Result (Message P) IoError)
        (rest : List (Result (Message P) IoError))
        → 0 < s.in_progress
        → σ.function ≡ done (waiting s)
        → σ.channel ≡ r ∷ rest
        → Going σ
        → Going (reading net alpha key myself σ s r rest)
    unfolding reading
    reading-Going σ s r rest busy e c h =
        let (inside, queries) = waits_at s (subst (Course all_peers Held _) e h.course) in
        let goes = λ (names : Names all_peers Held r).
          resume-Goes P alpha key all_peers Held s r busy names inside in
        let (names, flow) =
          reading-Flow net alpha key myself all_peers Good (Names all_peers Held) answers σ s r rest
            c h.flow (λ names. (goes names).1) in
        let (course, tasks, few) = goes names in
        let new = spawned s (resume {P = P} alpha key s r) in
        let more = length-append σ.in_flight new in
        let one_more = length-append σ.read (r ∷ []) in
        record {
          flow = flow;
          course =
              subst (λ n. Course all_peers Held n (resume {P = P} alpha key s r))
                (omega (arith, queries, more, one_more, ap length c)) course;
          few = omega (arith, few, queries, more, one_more, ap length c);
        }

    begin-Going :
        (s : Lookup) (w : net.World)
        → s.queried ≡ []
        → Within all_peers s
        → Good w
        → Going (begin net alpha key myself s w)
    unfolding begin
    begin-Going s w fresh inside good =
        let (course, tasks, few) = round-Goes P alpha key all_peers Held s inside in
        record {
          flow = record { good = good; none_lost = refl; tasks = tasks; replies = tt };
          course =
              subst (λ n. Course all_peers Held n (lookup {P = P} alpha key [] s))
                (omega (arith, ap length fresh)) course;
          few = omega (arith, few, ap length fresh);
        }

    -- A run sends a reply for every task that ends, and reads a part of them.
    Reach-Going :
        (s : Lookup) (w : net.World) {σ : Search net alpha key myself}
        → 0 < alpha
        → s.in_progress ≡ 0
        → s.queried ≡ []
        → Within all_peers s
        → Good w
        → (r : Reach net alpha key myself (begin net alpha key myself s w) σ)
        → Going σ × (steps r ≡ length σ.channel + 2 * length σ.read)
    unfolding steps begin ended reading
    Reach-Going s w pos idle fresh inside good here = (begin-Going s w fresh inside good, refl)
    Reach-Going s w pos idle fresh inside good (next {τ} r (ends i p at)) =
        let (h, counted) = Reach-Going s w pos idle fresh inside good r in
        let (h', more) = ended-Going τ i p at h in (h', omega (arith, counted, more))
    Reach-Going s w pos idle fresh inside good (next {τ} r (reads s' q rest e c)) =
        let (h, counted) = Reach-Going s w pos idle fresh inside good r in
        let (_, busy) = Reach-in_progress net alpha key myself s w s' pos idle r e in
        (
          reading-Going τ s' q rest busy e c h,
          omega (arith, counted, ap length c, length-append τ.read (q ∷ [])),
        )

  -- A lookup that begins with distinct candidates among `all_peers` and with `alpha` above zero, in a
  -- world that is `Good`, where the peers among `all_peers` can be asked and name peers among
  -- `all_peers` alone: in every run, whatever the order in which the tasks end, there are at most two
  -- steps for each of `all_peers`, and the run has come to a result or can go on.
  pub lookup_terminates :
      (all_peers : List Peer) (Held : Bytes → Type 0) (Good : net.World → Type 0)
      (candidates : List Peer) (w : net.World) {σ : Search net alpha key myself}
      → Answers all_peers Held Good
      → 0 < alpha
      → Nodup candidates
      → ((p : Peer) → Mem p candidates → Mem p all_peers)
      → Good w
      → (r : Reach net alpha key myself (begin net alpha key myself (starting candidates) w) σ)
      → (steps r ≤ 2 * length all_peers)
        × (((v : Result Bytes RpcError) × (σ.function ≡ done (answered v)) × IsResult Held v)
            ⊎ ((τ : Search net alpha key myself) × Step net alpha key myself σ τ))
  lookup_terminates all_peers Held Good candidates w {σ} answers pos distinct known good r =
      let s = starting candidates in
      let (h, counted) =
        Reach-Going all_peers Held Good answers s w pos refl refl (distinct, known) good r in
      (omega (arith, counted, h.few), stands_at h σ.function refl h.course)
    where
      stands_at :
          {n : ℕ}
          → Going all_peers Held Good answers σ
          → (o : Outcome Progress) → σ.function ≡ o
          → Course all_peers Held n o
          → ((v : Result Bytes RpcError) × (σ.function ≡ done (answered v)) × IsResult Held v)
            ⊎ ((τ : Search net alpha key myself) × Step net alpha key myself σ τ)
      stands_at h o e (over {v} result) = inl (v, e, result)
      stands_at h o e (waits {s} _ _) = inr (
          Reach-goes_on net alpha key myself (starting candidates) w s pos refl r e
            h.flow.none_lost)
