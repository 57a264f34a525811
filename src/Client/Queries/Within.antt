-- ===== src/Client/Queries/Within.antt =====
-- A lookup among peers of a fixed number, and what a round does.
use mathlib.Core.List.{append_assoc, mem-append_left, mem-append_right, Nodup-append}
use mathlib.Core.List.Perm
use dht_kad_rs.Base.{
  ℕ, ◌+◌, ◌≤◌, ◌<◌, ◌≡◌, refl, sym, ◌∙◌, subst, ap, List, [], ◌++◌, Mem, Perm, Nodup, length,
  length-append, length-Nodup, drop, eqb, Bool-cases, inl, inr, All, All-Mem, arith, Outcome, done,
  Result, ok, err,
}
use dht_kad_rs.Messages.{Protobuf, Message}
use dht_kad_rs.Messages.Util.{IoError, RpcError}
use dht_kad_rs.Kvstore.{Bytes}
use dht_kad_rs.RoutingTable.Peers.{Peer}
use dht_kad_rs.Client.{Lookup, Progress, waiting, answered, closer, lookup, not_found}
use dht_kad_rs.Client.Spawned.{Spawned, sort_and_spawn-Spawned}
use dht_kad_rs.Client.Handled.{Distinct, Readable, Spawned-Distinct}
use dht_kad_rs.Client.Queries.{spawned}
use dht_kad_rs.Client.Queries.Counted.{drop-append}

-- The reply can be read, it names distinct peers, all among `all_peers`, and if it has a value then that
-- is `Held`.
abbrev pub Names :
    {P : Protobuf} → List Peer → (Bytes → Type 0) → Result (Message P) IoError → Type 0
Names all_peers Held (err e) = Unit {0}
Names all_peers Held (ok m) =
    (ps : List Peer) × (closer m.closer_peers ≡ done ps)
    × Nodup ps
    × ((p : Peer) → Mem p ps → Mem p all_peers)
    × (0 < length m.value → Held m.value)

pub Names-Readable :
    {P : Protobuf} (all_peers : List Peer) (Held : Bytes → Type 0) (r : Result (Message P) IoError)
    → Names all_peers Held r
    → Readable r
Names-Readable all_peers Held (err e) n = tt
Names-Readable all_peers Held (ok m) (ps, read, distinct, _, _) = (ps, read, distinct)

-- The peers of a lookup are distinct, and all among `all_peers`.
abbrev pub Within : List Peer → Lookup → Type 0
Within all_peers s = Distinct s × ((p : Peer) → Mem p (s.queried ++ s.candidates) → Mem p all_peers)

-- A result is a value that is `Held`, or `NOT_FOUND`.
abbrev pub IsResult : (Bytes → Type 0) → Result Bytes RpcError → Type 0
IsResult Held (ok v) = Held v
IsResult Held (err e) = e ≡ not_found

-- Where the function stands after `n` queries.
pub data Course (all_peers : List Peer) (Held : Bytes → Type 0) (n : ℕ)
    : Outcome Progress → Type 0 where
  waits :
      {s : Lookup}
      → Within all_peers s
      → length s.queried ≡ n
      → Course all_peers Held n (done (waiting s))
  over : {v : Result Bytes RpcError} → IsResult Held v → Course all_peers Held n (done (answered v))

-- After a round that began with `s`: where the function stands, the peers that tasks were spawned for, and
-- their number.
abbrev pub Goes : List Peer → (Bytes → Type 0) → Lookup → Outcome Progress → Type 0
Goes all_peers Held s o =
    Course all_peers Held (length s.queried + length (spawned s o)) o
    × All (λ p. Mem p all_peers) (spawned s o)
    × (length s.queried + length (spawned s o) ≤ length all_peers)

Within-bound :
    (all_peers : List Peer) (s : Lookup) → Within all_peers s → length s.queried ≤ length all_peers
Within-bound all_peers s (d, inside) =
    length-Nodup s.queried all_peers (Nodup-append.0 d).0 (λ p m. inside p (mem-append_left _ m))

pub over-Goes :
    (all_peers : List Peer) (Held : Bytes → Type 0) (s : Lookup) (v : Result Bytes RpcError)
    → IsResult Held v
    → Within all_peers s
    → Goes all_peers Held s (done (answered v))
unfolding spawned
over-Goes all_peers Held s v result inside =
    (over result, tt, omega (arith, Within-bound all_peers s inside))

-- A round moves peers from the candidates to those that were queried.
round-perm :
    {alpha key : ℕ} {s s' : Lookup}
    → Spawned alpha key s s'
    → Perm (s'.queried ++ s'.candidates) (s.queried ++ s.candidates)
round-perm {s = s} {s'} sp =
    let together = append_assoc s.queried sp.issued s'.candidates in
    subst (λ l. Perm l (s.queried ++ s.candidates))
      (sym (ap (λ l. l ++ s'.candidates) sp.recorded ∙ together))
      (Perm.append_left s.queried sp.partition)

module _ (P : Protobuf) (alpha key : ℕ) (all_peers : List Peer) (Held : Bytes → Type 0) where
  issued-Goes :
      {s s' : Lookup}
      → Spawned alpha key s s'
      → Within all_peers s
      → Goes all_peers Held s (done (waiting s'))
  unfolding spawned
  issued-Goes {s} {s'} sp (d, inside) =
      let issued : drop (length s.queried) s'.queried ≡ sp.issued =
        ap (drop (length s.queried)) sp.recorded ∙ drop-append s.queried sp.issued in
      let counts = length-append s.queried sp.issued in
      let from = λ (p : Peer) (m : Mem p (s'.queried ++ s'.candidates)).
        inside p ((Perm.mem_iff (round-perm sp)).0 m) in
      let after : Within all_peers s' = (Spawned-Distinct sp d, from) in
      (
        waits after (omega (arith, ap length sp.recorded, counts, ap length issued)),
        subst (All (λ p. Mem p all_peers)) (sym issued) (
            All-Mem (λ p. Mem p all_peers) sp.issued
              (λ p m.
                from p
                  (mem-append_left _ (subst (Mem p) (sym sp.recorded) (mem-append_right _ m))))),
        omega (
          arith,
          Within-bound all_peers s' after,
          ap length sp.recorded,
          counts,
          ap length issued,
        ),
      )

  pub round-Goes :
      (s : Lookup) → Within all_peers s → Goes all_peers Held s (lookup {P = P} alpha key [] s)
  unfolding lookup
  round-Goes s inside = elim (Bool-cases (eqb (length s.candidates) 0)) [
    | inl none_left ↦ rw none_left (over-Goes all_peers Held s _ refl inside)
    | inr some_left ↦ rw some_left (issued-Goes (sort_and_spawn-Spawned alpha key s) inside)
  ]
