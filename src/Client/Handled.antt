-- ===== src/Client/Handled.antt =====
-- One reply of the lookup: it can be read, leaves the peers distinct, and ends the lookup only with a
-- value.
use mathlib.Core.List.{
  mem-append, append_assoc, Nodup-append, Nodup-cons, mem-cons, mem-cons_self, mem-cons_of_mem,
  not-mem-nil, Mem-prop,
}
use mathlib.Core.List.Perm
use mathlib.Core.Logic.Or
use mathlib.Core.HLevel.{⊥_prop, ×₃_prop, ¬_prop}
use dht_kad_rs.Base.{
  ℕ, ◌-◌, ◌<◌, ◌≡◌, refl, sym, ◌∙◌, subst, ap, List, [], ◌∷◌, ◌++◌, Mem, Nodup, length, arith, eqb,
  ltb, false, ◌==◌, same_of_eq, Bool-cases, inl, inr, done, Result, ok, err,
}
use dht_kad_rs.Messages.{Protobuf, Message}
use dht_kad_rs.Messages.Util.{IoError}
use dht_kad_rs.RoutingTable.Peers.{Peer, peer_eq}
use dht_kad_rs.Client.{Lookup, Next, again, return, closer, contains, unseen, handle_reply, handle}
use dht_kad_rs.Client.Spawned.{Spawned}

-- No peer was queried twice, and none that was is a candidate.
abbrev pub Distinct : Lookup → Type 0
Distinct s = Nodup (s.queried ++ s.candidates)

-- A reply that can be read, with distinct peers.
abbrev pub Readable : {P : Protobuf} → Result (Message P) IoError → Type 0
Readable (err e) = Unit {0}
Readable (ok m) = (ps : List Peer) × (closer m.closer_peers ≡ done ps) × Nodup ps

abbrev pub AllReadable : {P : Protobuf} → List (Result (Message P) IoError) → Type 0
AllReadable [] = Unit {0}
AllReadable (r ∷ rs) = Readable r × AllReadable rs

pub Spawned-Distinct :
    {alpha key : ℕ} {s s' : Lookup} → Spawned alpha key s s' → Distinct s → Distinct s'
Spawned-Distinct {s = s} {s'} sp d =
    let together = append_assoc s.queried sp.issued s'.candidates in
    subst Nodup (sym (ap (λ l. l ++ s'.candidates) sp.recorded ∙ together))
      (Perm.nodup (Perm.append_left s.queried (Perm.symm sp.partition)) d)

not_contained : (qs : List Peer) (p : Peer) → contains qs p ≡ false → ¬ Mem p qs
unfolding contains
not_contained [] p e m = not-mem-nil m
not_contained (q ∷ qs) p e m = elim (Bool-cases (q == p)) [
  | inl same ↦ cc (rw same at e)
  | inr other ↦
      Or.elim ⊥_prop (mem-cons.0 m) (λ z. cc (same_of_eq q p (sym z)))
        (not_contained qs p (rw other at e))
]

-- The peers that are new to the lookup.
pub unseen_lem :
    (s : Lookup) (ps : List Peer)
    → Nodup ps
    → Nodup (unseen s ps)
      × ((p : Peer) → Mem p (unseen s ps) → Mem p ps × (¬ Mem p s.queried) × (¬ Mem p s.candidates))
unfolding unseen
unseen_lem s [] h = (h, λ p m. absurd (not-mem-nil m))
unseen_lem s (p ∷ ps) h =
    let (n, out) = unseen_lem s ps (Nodup-cons.0 h).1 in
    elim (Bool-cases (contains s.queried p)) [
      | inl asked ↦
          rw asked (n, λ q m. let (here, a, b) = out q m in (mem-cons_of_mem p here, a, b))
      | inr fresh ↦ elim (Bool-cases (contains s.candidates p)) [
        | inl known ↦
            rw (fresh, known)
              (n, λ q m. let (here, a, b) = out q m in (mem-cons_of_mem p here, a, b))
        | inr new ↦
            rw (fresh, new)
              (
                Nodup-cons.1 (λ m. (Nodup-cons.0 h).0 (out p m).0, n),
                λ q m.
                    Or.elim (×₃_prop Mem-prop ¬_prop ¬_prop) (mem-cons.0 m)
                      (λ z. (
                        subst (λ x. Mem x (p ∷ ps)) (sym z) mem-cons_self,
                        subst (λ x. ¬ Mem x s.queried) (sym z) (not_contained s.queried p fresh),
                        subst (λ x. ¬ Mem x s.candidates) (sym z)
                            (not_contained s.candidates p new),
                      ))
                      (λ later. let (here, a, b) = out q later in (mem-cons_of_mem p here, a, b)),
              )
      ]
    ]

pub unseen-Distinct :
    (s : Lookup) (ps : List Peer)
    → Nodup ps
    → Distinct s
    → Distinct (record s { candidates = s.candidates ++ unseen s ps })
unseen-Distinct s ps h d =
    let (fresh, out) = unseen_lem s ps h in
    subst Nodup (append_assoc s.queried s.candidates (unseen s ps)) (
      Nodup-append.1
        (d, fresh, λ p old new. Or.elim ⊥_prop (mem-append.0 old) (out p new).1 (out p new).2))

-- What a reply leads to, with the query that it answers taken off the count.
pub data Handled {P : Protobuf} (s : Lookup) (r : Result (Message P) IoError) : Next → Type 0 where
  goes_on :
      {s' : Lookup}
      → (Distinct s → Distinct s')
      → s'.in_progress ≡ s.in_progress
      → Handled s r (again s')
  finds : (m : Message P) → r ≡ ok m → 0 < length m.value → Handled s r (return (ok m.value))

handle_reply_lem :
    {P : Protobuf} (s : Lookup) (r : Result (Message P) IoError)
    → Readable r
    → (n : Next) × (handle_reply s r ≡ done n) × Handled s r n
unfolding handle_reply
handle_reply_lem s (err e) readable = (again s, refl, goes_on (λ d. d) refl)
handle_reply_lem s (ok m) (ps, read, distinct) = elim (Bool-cases (ltb 0 (length m.value))) [
  | inl full ↦ (return (ok m.value), rw full, finds m refl (ground arith))
  | inr empty ↦ (
    again (record s { candidates = s.candidates ++ unseen s ps }),
    rw (empty, read),
    goes_on (unseen-Distinct s ps distinct) refl,
  )
]

pub handle_lem :
    {P : Protobuf} (s : Lookup) (r : Result (Message P) IoError)
    → 0 < s.in_progress
    → Readable r
    → (n : Next) × (handle s r ≡ done n)
      × Handled (record s { in_progress = s.in_progress - 1 }) r n
unfolding handle
handle_lem s r busy readable =
    let some_open : eqb s.in_progress 0 ≡ false = ground arith in
    let (n, e, h) = handle_reply_lem (record s { in_progress = s.in_progress - 1 }) r readable in
    (n, rw (some_open, e), h)
