-- ===== src/Client/Search.antt =====
-- The lookup as a whole: it does not panic, keeps `alpha`, asks no peer twice, and returns a value
-- only if a peer sent it.
use mathlib.Core.List.{mem-cons_self, mem-cons_of_mem}
use dht_kad_rs.Base.{
  ℕ, ◌+◌, ◌-◌, ◌≤◌, ◌<◌, ◌≡◌, refl, sym, subst, ap, List, [], ◌∷◌, Mem, length, arith, eqb,
  length-perm, length-append, none, some, false, Bool-cases, inl, inr, done, Result, ok, err,
}
use dht_kad_rs.Kvstore.{Bytes, KvStore}
use dht_kad_rs.Messages.{Protobuf, Message}
use dht_kad_rs.Messages.Util.{IoError}
use dht_kad_rs.RoutingTable.{k_nearest_peers}
use dht_kad_rs.RoutingTable.Invariant.{IsWellFormed}
use dht_kad_rs.RoutingTable.Nearest.{nearest_peers-Answers}
use dht_kad_rs.RoutingTable.Peers.{peer_eq}
use dht_kad_rs.Client.{
  DhtClient, Lookup, Next, again, return, Progress, waiting, answered, handle_reply, handle, lookup,
  sort_and_spawn, not_found, find_value, find_value_local,
}
use dht_kad_rs.Client.Spawned.{Spawned, sort_and_spawn-Spawned}
use dht_kad_rs.Client.Handled.{
  Distinct, AllReadable, Spawned-Distinct, Handled, goes_on, finds, handle_lem,
}

-- How a lookup stands after the replies `rs`.
pub data Stands {P : Protobuf} (alpha : ℕ) (rs : List (Result (Message P) IoError))
    : Progress → Type 0 where
  waits :
      {s : Lookup}
      → 0 < s.in_progress
      → s.in_progress ≤ alpha
      → Distinct s
      → Stands alpha rs (waiting s)
  found :
      {m : Message P} → Mem (ok m) rs → 0 < length m.value → Stands alpha rs (answered (ok m.value))
  exhausts : Stands alpha rs (answered (err not_found))

Stands-cons :
    {P : Protobuf} {alpha : ℕ} {r : Result (Message P) IoError}
    {rs : List (Result (Message P) IoError)} {o : Progress}
    → Stands alpha rs o
    → Stands alpha (r ∷ rs) o
Stands-cons (waits a b d) = waits a b d
Stands-cons {r = r} (found m h) = found (mem-cons_of_mem r m) h
Stands-cons exhausts = exhausts

-- A round with a candidate leaves a query in progress.
pub round_busy :
    {alpha key : ℕ} {s s' : Lookup}
    → Spawned alpha key s s'
    → 0 < alpha
    → 0 < length s.candidates
    → 0 < s'.in_progress
round_busy {s = s} {s'} sp pos some_left =
    let counts = length-perm sp.partition in
    let both = length-append sp.issued s'.candidates in
    elim sp.greedy [
      | inl none_left ↦ omega (arith, ap length none_left, sp.counted)
      | inr full ↦ omega arith
    ]

abbrev Proceeds : {P : Protobuf} → ℕ → ℕ → List (Result (Message P) IoError) → Lookup → Type 0
Proceeds alpha key rs s = (o : Progress) × (lookup alpha key rs s ≡ done o) × Stands alpha rs o

-- After a reply, from what holds of the replies behind it.
resume_lem :
    {P : Protobuf} (alpha key : ℕ) (r : Result (Message P) IoError)
    (rs : List (Result (Message P) IoError)) (s : Lookup) (n : Next)
    → Handled s r n
    → s.in_progress ≤ alpha
    → Distinct s
    → ((s' : Lookup) → s'.in_progress ≤ alpha → Distinct s' → Proceeds alpha key rs s')
    → (o : Progress) × ((elim n [
      | again s' ↦ lookup alpha key rs s'
      | return v ↦ done (answered v)
    ])
        ≡ done o)
      × Stands alpha (r ∷ rs) o
resume_lem alpha key r rs s (again s') (goes_on distinct same) within d next =
    let (o, e, stands) = next s' (omega (arith, same)) (distinct d) in (o, e, Stands-cons stands)
resume_lem alpha key r rs s n (finds m here full) within d next = (
  answered (ok m.value),
  refl,
  found (subst (λ x. Mem (ok m) (x ∷ rs)) (sym here) mem-cons_self) full,
)

pub lookup_lem :
    {P : Protobuf} (alpha key : ℕ) (rs : List (Result (Message P) IoError)) (s : Lookup)
    → 0 < alpha
    → s.in_progress ≤ alpha
    → Distinct s
    → AllReadable rs
    → Proceeds alpha key rs s
unfolding lookup
lookup_lem alpha key [] s pos within d readable = elim (Bool-cases (eqb (length s.candidates) 0)) [
  | inl z ↦ (answered (err not_found), rw z, exhausts)
  | inr z ↦
      let sp = sort_and_spawn-Spawned alpha key s in
      (
        waiting (sort_and_spawn alpha key s),
        rw z,
        waits (round_busy sp pos (ground arith)) (sp.bounded within) (Spawned-Distinct sp d),
      )
]
lookup_lem alpha key (r ∷ rs) s pos within d (first, readable) =
    elim (Bool-cases (eqb (length s.candidates) 0)) [
      | inl z ↦ (answered (err not_found), rw z, exhausts)
      | inr z ↦
          let sp = sort_and_spawn-Spawned alpha key s in
          let (n, e, h) =
            handle_lem (sort_and_spawn alpha key s) r (round_busy sp pos (ground arith)) first in
          let asked = record (sort_and_spawn alpha key s) {
            in_progress = (sort_and_spawn alpha key s).in_progress - 1;
          } in
          let (o, f, stands) =
            resume_lem alpha key r rs asked n h (omega (arith, sp.bounded within))
              (Spawned-Distinct sp d)
              (λ s' within' d'. lookup_lem alpha key rs s' pos within' d' readable) in
          (o, rw (z, e, f), stands)
    ]

-- At a client with a well-formed table and `alpha` above zero, a lookup for a key without a local value
-- does not panic on replies that read and name distinct peers. It waits, with between one and `alpha`
-- queries in progress, no peer queried twice and none that was queried among the candidates; or it
-- returned a value that is not empty and that one of the replies holds; or it returned `NOT_FOUND`.
pub find_value_lem :
    {K : KvStore} {P : Protobuf} (c : DhtClient K) (key : ℕ)
    (rs : List (Result (Message P) IoError))
    → IsWellFormed c.routing_table
    → find_value_local c key ≡ none
    → 0 < c.alpha
    → AllReadable rs
    → (o : Progress) × (find_value c key rs ≡ done o) × Stands c.alpha rs o
unfolding find_value k_nearest_peers
find_value_lem c key rs w nothing pos readable =
    let (peers, near, answers) = nearest_peers-Answers c.routing_table key c.routing_table.k w in
    let start : Lookup = record { candidates = peers; queried = []; in_progress = 0 } in
    let (o, e, stands) =
      lookup_lem c.alpha key rs start pos (omega arith) answers.distinct readable in
    (o, rw (find_value, nothing, near, e), stands)

-- A value in the local store is returned at once, whatever replies arrive.
pub find_value-local :
    {K : KvStore} {P : Protobuf} (c : DhtClient K) (key : ℕ)
    (rs : List (Result (Message P) IoError)) (v : Bytes)
    → find_value_local c key ≡ some v
    → find_value c key rs ≡ done (answered (ok v))
unfolding find_value
find_value-local c key rs v here = rw (find_value, here)

lookup_empty :
    {P : Protobuf} (alpha key : ℕ) (rs : List (Result (Message P) IoError)) (s : Lookup)
    → length s.candidates ≡ 0
    → lookup alpha key rs s ≡ done (answered (err not_found))
unfolding lookup
lookup_empty alpha key [] s z = rw z
lookup_empty alpha key (r ∷ rs) s z = rw z

-- A round whose candidates all fit under `alpha` leaves none.
all_taken :
    {alpha key : ℕ} {s s' : Lookup}
    → Spawned alpha key s s'
    → s.in_progress + length s.candidates ≤ alpha
    → length s'.candidates ≡ 0
all_taken {s = s} {s'} sp all_fit =
    let counts = length-perm sp.partition in
    let both = length-append sp.issued s'.candidates in
    elim sp.greedy [ inl none_left ↦ ap length none_left | inr full ↦ omega (arith, sp.counted) ]

nonzero : (n : ℕ) → 0 < n → eqb n 0 ≡ false
nonzero n h = ground arith

-- The loop ends when it finds no candidate, queries in progress or not: if every candidate fits under
-- `alpha` and the first reply is an error, the lookup returns `NOT_FOUND`, whatever the others would
-- have answered.
pub lookup_gives_up :
    {P : Protobuf} (alpha key : ℕ) (s : Lookup) (e : IoError)
    (rs : List (Result (Message P) IoError))
    → 0 < length s.candidates
    → s.in_progress + length s.candidates ≤ alpha
    → lookup {P = P} alpha key (err e ∷ rs) s ≡ done (answered (err not_found))
unfolding lookup handle handle_reply
lookup_gives_up alpha key s e rs some_left all_fit =
    let left : eqb (length s.candidates) 0 ≡ false = ground arith in
    let s' = sort_and_spawn alpha key s in
    let sp = sort_and_spawn-Spawned alpha key s in
    let busy : eqb s'.in_progress 0 ≡ false =
      nonzero s'.in_progress (round_busy sp (omega arith) some_left) in
    rw (left, busy)
      (lookup_empty alpha key rs (record s' { in_progress = s'.in_progress - 1 })
        (all_taken sp all_fit))
