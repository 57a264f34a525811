-- ===== src/Client/Queries/Resumed.antt =====
-- A lookup among peers of a fixed number: what a reply does.
use mathlib.Core.List.{Mem-prop, append_assoc, mem-append}
use mathlib.Core.Logic.Or
use dht_kad_rs.Base.{
  ℕ, ◌+◌, ◌-◌, ◌<◌, ◌≡◌, refl, sym, ◌∙◌, subst, ap, List, [], ◌++◌, Mem, Nodup, length, drop, eqb,
  ltb, Bool-cases, inl, inr, All, arith, Outcome, done, panicked, exhausted, Result, ok, err,
}
use dht_kad_rs.Messages.{Protobuf, Message}
use dht_kad_rs.Messages.Util.{IoError}
use dht_kad_rs.Kvstore.{Bytes}
use dht_kad_rs.RoutingTable.Peers.{Peer}
use dht_kad_rs.Client.{
  Lookup, Next, again, return, Progress, waiting, answered, unseen, handle, handle_reply, lookup,
}
use dht_kad_rs.Client.Handled.{Handled, finds, handle_lem, unseen_lem, unseen-Distinct}
use dht_kad_rs.Client.Queries.{spawned, resume}
use dht_kad_rs.Client.Queries.Within.{
  Names, Names-Readable, Within, Course, Goes, over-Goes, round-Goes,
}

module _ (P : Protobuf) (alpha key : ℕ) (all_peers : List Peer) (Held : Bytes → Type 0) where
  unseen-Within :
      (s : Lookup) (ps : List Peer)
      → Nodup ps
      → ((p : Peer) → Mem p ps → Mem p all_peers)
      → Within all_peers s
      → Within all_peers (record s { candidates = s.candidates ++ unseen s ps })
  unseen-Within s ps distinct known (d, inside) = (
    unseen-Distinct s ps distinct d,
    λ p m.
        Or.elim Mem-prop
          (mem-append.0 (subst (Mem p) (sym (append_assoc s.queried s.candidates _)) m)) (inside p)
          (λ new. known p ((unseen_lem s ps distinct).1 p new).0),
  )

  abbrev left : Lookup → Lookup
  left s = record s { in_progress = s.in_progress - 1 }

  -- What a reply adds to the candidates.
  again-Within :
      (s s1 : Lookup) (r : Result (Message P) IoError)
      → Names all_peers Held r
      → Within all_peers s
      → handle s r ≡ done (again s1)
      → Within all_peers s1 × (s1.queried ≡ s.queried)
  unfolding handle handle_reply
  again-Within s s1 r names inside e = elim (Bool-cases (eqb s.in_progress 0)) [
    | inl idle ↦ cc (rw idle at e)
    | inr busy ↦ taken r names (rw busy at e)
  ]
    where
      taken :
          (r : Result (Message P) IoError)
          → Names all_peers Held r
          → handle_reply (left s) r ≡ done (again s1)
          → Within all_peers s1 × (s1.queried ≡ s.queried)
      taken (err e0) names e =
          let same : left s ≡ s1 = cc in
          subst (λ (x : Lookup). Within all_peers x × (x.queried ≡ s.queried)) same (inside, refl)
      taken (ok m) (ps, read, distinct, known, _) e = elim (Bool-cases (ltb 0 (length m.value))) [
        | inl found ↦ cc (rw found at e)
        | inr none_here ↦
            let same : record (left s) { candidates = s.candidates ++ unseen (left s) ps } ≡ s1 =
              cc (rw (none_here, read) at e) in
            subst (λ (x : Lookup). Within all_peers x × (x.queried ≡ s.queried)) same
              (unseen-Within (left s) ps distinct known inside, refl)
      ]

  spawned_same :
      (s s1 : Lookup) (o : Outcome Progress) → s1.queried ≡ s.queried → spawned s1 o ≡ spawned s o
  unfolding spawned
  spawned_same s s1 (done (waiting s')) e = ap (λ qs. drop (length qs) s'.queried) e
  spawned_same s s1 (done (answered v)) e = refl
  spawned_same s s1 panicked e = refl
  spawned_same s s1 exhausted e = refl

  pub resume-Goes :
      (s : Lookup) (r : Result (Message P) IoError)
      → 0 < s.in_progress
      → Names all_peers Held r
      → Within all_peers s
      → Goes all_peers Held s (resume alpha key s r)
  unfolding resume
  resume-Goes s r busy names inside =
      let (n, e, h) = handle_lem s r busy (Names-Readable all_peers Held r names) in
      rw e (from_next n e h)
    where
      value_of :
          (r' : Result (Message P) IoError) (m : Message P)
          → Names all_peers Held r'
          → r' ≡ ok m
          → 0 < length m.value
          → Held m.value
      value_of (ok m') m (_, _, _, _, held) e full =
          let same : m' ≡ m = cc in
          subst (λ (x : Message P). 0 < length x.value → Held x.value) same held full
      value_of (err e0) m names e full = cc

      from_next :
          (n : Next)
          → handle s r ≡ done n
          → Handled (left s) r n
          → Goes all_peers Held s
              (elim n [ again s1 ↦ lookup {P = P} alpha key [] s1 | return v ↦ done (answered v) ])
      from_next (again s1) e _ =
          let (after, same) = again-Within s s1 r names inside e in
          let o = lookup {P = P} alpha key [] s1 in
          let (course, tasks, few) = round-Goes P alpha key all_peers Held s1 after in
          let tasks_same = spawned_same s s1 o same in
          (
            subst (λ n. Course all_peers Held n o)
                (ap (λ (qs : List Peer). length qs + length (spawned s1 o)) same
                  ∙ ap (λ ts. length s.queried + length ts) tasks_same)
                course,
            subst (All (λ p. Mem p all_peers)) tasks_same tasks,
            omega (arith, few, ap length same, ap length tasks_same),
          )
      from_next n e (finds m same full) =
          over-Goes all_peers Held s (ok m.value) (value_of r m names same full) inside
