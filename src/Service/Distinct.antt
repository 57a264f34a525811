-- ===== src/Service/Distinct.antt =====
-- The candidates of `bootstrap` after `dedup`.
use mathlib.Core.List.{
  mem-cons, mem-cons_self, mem-cons_of_mem, not-mem-nil, Mem-prop, Nodup-cons, Nodup-nil,
  Pairwise-cons,
}
use mathlib.Core.List.Perm
use mathlib.Core.List.Pairwise
use mathlib.Core.Logic.Or
use native.Mathlib.Bridge.{le_prop}
use dht_kad_rs.Base.{
  ◌≤◌, ◌≡◌, sym, subst, ap, List, [], ◌∷◌, Mem, Pairwise, Nodup, false, Bool-cases, inl, inr, ◌==◌,
  same_of_eq, arith, leb→le, le→leb,
}
use dht_kad_rs.Base.Sort.{sort_by, sort_by-perm, sort_by-IsSorted}
use dht_kad_rs.RoutingTable.Peers.{Peer, peer_eq}
use dht_kad_rs.Client.{contains}
use dht_kad_rs.Service.{unvisited, by_id, dedup_after, dedup, candidate_peers}

abbrev Ascends : List Peer → Type 0
Ascends = Pairwise (λ p q. p.id ≤ q.id)

-- An identifier belongs to one peer of `ps`.
abbrev pub Identified : List Peer → Type 0
Identified ps = (p q : Peer) → Mem p ps → Mem q ps → p.id ≡ q.id → p ≡ q

mem-dedup_after : (p : Peer) (ps : List Peer) (q : Peer) → Mem q (dedup_after p ps) → Mem q (p ∷ ps)
unfolding dedup_after
mem-dedup_after p [] q m = m
mem-dedup_after p (r ∷ rs) q m = elim (Bool-cases (p == r)) [
  | inl same ↦
      Or.elim Mem-prop (mem-cons.0 (mem-dedup_after p rs q (rw same at m)))
        (λ z. subst (λ x. Mem x (p ∷ r ∷ rs)) (sym z) mem-cons_self)
        (λ later. mem-cons_of_mem p (mem-cons_of_mem r later))
  | inr other ↦
      Or.elim Mem-prop (mem-cons.0 (rw other at m))
        (λ z. subst (λ x. Mem x (p ∷ r ∷ rs)) (sym z) mem-cons_self)
        (λ later. mem-cons_of_mem p (mem-dedup_after r rs q later))
]

-- In an ascending list the first peer that is not equal to the second does not occur again.
first_apart :
    (p r : Peer) (rs : List Peer)
    → Ascends (p ∷ r ∷ rs)
    → Identified (p ∷ r ∷ rs)
    → (p == r) ≡ false
    → ¬ Mem p (r ∷ rs)
first_apart p r rs up one other m =
    let (low, rest) = Pairwise-cons.0 up in
    let (next, _) = Pairwise-cons.0 rest in
    let above : r.id ≤ p.id =
      Or.elim le_prop (mem-cons.0 m) (λ z. omega (arith, ap (λ (q : Peer). q.id) z))
        (λ later. next p later) in
    let below = low r mem-cons_self in
    let same = one p r mem-cons_self (mem-cons_of_mem p mem-cons_self) (omega arith) in
    cc (same_of_eq p r same)

dedup_after-Nodup :
    (p : Peer) (ps : List Peer) → Ascends (p ∷ ps) → Identified (p ∷ ps) → Nodup (dedup_after p ps)
unfolding dedup_after
dedup_after-Nodup p [] up one = Nodup-cons.1 (not-mem-nil, Nodup-nil)
dedup_after-Nodup p (r ∷ rs) up one =
    let (low, rest) = Pairwise-cons.0 up in
    let (_, tail) = Pairwise-cons.0 rest in
    elim (Bool-cases (p == r)) [
      | inl same ↦ rw same (
          dedup_after-Nodup p rs (Pairwise.cons (λ q m. low q (mem-cons_of_mem r m)) tail)
            (λ a b ma mb. one a b (widened a ma) (widened b mb)))
      | inr other ↦ rw other (
          Nodup-cons.1 (
            λ m. first_apart p r rs up one other (mem-dedup_after r rs p m),
            dedup_after-Nodup r rs rest
                (λ a b ma mb. one a b (mem-cons_of_mem p ma) (mem-cons_of_mem p mb)),
          ))
    ]
  where
    widened : (a : Peer) → Mem a (p ∷ rs) → Mem a (p ∷ r ∷ rs)
    widened a m =
        Or.elim Mem-prop (mem-cons.0 m) (λ z. subst (λ x. Mem x (p ∷ r ∷ rs)) (sym z) mem-cons_self)
          (λ later. mem-cons_of_mem p (mem-cons_of_mem r later))

dedup-Nodup : (ps : List Peer) → Ascends ps → Identified ps → Nodup (dedup ps)
unfolding dedup
dedup-Nodup [] up one = Nodup-nil
dedup-Nodup (p ∷ ps) up one = dedup_after-Nodup p ps up one

mem-unvisited : (visited ps : List Peer) (q : Peer) → Mem q (unvisited visited ps) → Mem q ps
unfolding unvisited
mem-unvisited visited [] q m = m
mem-unvisited visited (p ∷ ps) q m = elim (Bool-cases (contains visited p)) [
  | inl seen ↦ mem-cons_of_mem p (mem-unvisited visited ps q (rw seen at m))
  | inr new ↦
      Or.elim Mem-prop (mem-cons.0 (rw new at m))
        (λ z. subst (λ x. Mem x (p ∷ ps)) (sym z) mem-cons_self)
        (λ later. mem-cons_of_mem p (mem-unvisited visited ps q later))
]

mem-dedup : (ps : List Peer) (q : Peer) → Mem q (dedup ps) → Mem q ps
unfolding dedup
mem-dedup [] q m = m
mem-dedup (p ∷ ps) q m = mem-dedup_after p ps q m

-- Every candidate was named.
pub mem-candidate_peers :
    (bootstrap_peers ps : List Peer) (q : Peer)
    → Mem q (candidate_peers bootstrap_peers ps)
    → Mem q ps
unfolding candidate_peers
mem-candidate_peers bootstrap_peers ps q m =
    let new = unvisited bootstrap_peers ps in
    mem-unvisited bootstrap_peers ps q
      ((Perm.mem_iff (sort_by-perm by_id new)).0 (mem-dedup (sort_by by_id new) q m))

-- If an identifier belongs to one peer only among the peers that were named, no candidate of
-- `bootstrap` is pinged twice.
pub candidate_peers-Nodup :
    (bootstrap_peers ps : List Peer) → Identified ps → Nodup (candidate_peers bootstrap_peers ps)
unfolding candidate_peers
candidate_peers-Nodup bootstrap_peers ps one =
    let new = unvisited bootstrap_peers ps in
    let sorted = sort_by-perm by_id new in
    let source = λ (q : Peer) (m : Mem q (sort_by by_id new)).
      mem-unvisited bootstrap_peers ps q ((Perm.mem_iff sorted).0 m) in
    dedup-Nodup (sort_by by_id new)
      (Pairwise.imp (λ a b h. leb→le _ _ h)
        (sort_by-IsSorted by_id
          (λ a b c h k. le→leb _ _ (omega (arith, leb→le a.id b.id h, leb→le b.id c.id k)))
          (λ a b h. le→leb _ _ (ground arith)) new))
      (λ p q mp mq. one p q (source p mp) (source q mq))
