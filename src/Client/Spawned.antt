-- ===== src/Client/Spawned.antt =====
-- One round of the lookup: the nearest candidates are queried, as many as `alpha` allows.
use mathlib.Core.List.{
  mem-append_right, append-nil, append_assoc, not-mem-nil, Pairwise-append, perm_append_singleton,
  mem-cons_self, mem-cons,
}
use mathlib.Core.List.Perm
use mathlib.Core.List.Pairwise
use mathlib.Core.Logic.Or
use native.Mathlib.Bridge.{le_prop}
use dht_kad_rs.Base.{
  ℕ, zero, suc, ◌+◌, ◌≤◌, ◌<◌, ◌≡◌, refl, sym, ◌∙◌, subst, ap, List, [], ◌∷◌, ◌++◌, Mem, Perm,
  Pairwise, none, some, length, length-append, length-perm, arith, ltb, leb→le, le→leb, Bool-cases,
  inl, inr, ◌⊎◌,
}
use dht_kad_rs.Base.Sort.{sort_by, sort_by-perm, sort_by-IsSorted}
use dht_kad_rs.RoutingTable.Peers.{Peer}
use dht_kad_rs.RoutingTable.Nearest.{distance}
use dht_kad_rs.Client.{Lookup, farther, pop, query, spawn, sort_and_spawn}

pop-cases :
    {A : Type 0} (xs : List A)
    → ((xs ≡ []) × (pop xs ≡ none))
      ⊎ ((rest : List A) × (x : A) × (xs ≡ rest ++ x ∷ []) × (pop xs ≡ some (rest, x)))
unfolding pop
pop-cases [] = inl (refl, refl)
pop-cases (x ∷ xs) = elim (pop-cases xs) [
  | inl (z, e) ↦ inr ([], x, ap (λ l. x ∷ l) z, rw e)
  | inr (rest, y, z, e) ↦ inr (x ∷ rest, y, ap (λ l. x ∷ l) z, rw e)
]

abbrev Descends : ℕ → List Peer → Type 0
Descends key = Pairwise (λ a b. distance key b ≤ distance key a)

-- What a round does, from `s` to `s'`.
pub record Spawned (alpha key : ℕ) (s s' : Lookup) : Type 0 where
  pub issued : List Peer
  pub recorded : s'.queried ≡ s.queried ++ issued
  pub counted : s'.in_progress ≡ s.in_progress + length issued
  pub partition : Perm (issued ++ s'.candidates) s.candidates
  pub nearest : (p q : Peer) → Mem p issued → Mem q s'.candidates → distance key p ≤ distance key q
  pub greedy : (s'.candidates ≡ []) ⊎ (alpha ≤ s'.in_progress)
  pub bounded : s.in_progress ≤ alpha → s'.in_progress ≤ alpha

nothing_issued :
    (alpha key : ℕ) (s : Lookup)
    → (s.candidates ≡ []) ⊎ (alpha ≤ s.in_progress)
    → Spawned alpha key s s
nothing_issued alpha key s why = record {
  issued = [];
  recorded = sym (append-nil s.queried);
  counted = omega arith;
  partition = Perm.rfl;
  nearest = λ p q m _. absurd (not-mem-nil m);
  greedy = why;
  bounded = λ h. h;
}

module _ (alpha key n : ℕ) (s : Lookup) (rest : List Peer) (y : Peer)
    (z : s.candidates ≡ rest ++ y ∷ []) (sorted : Descends key s.candidates)
    (free : s.in_progress < alpha) where
  nearest_of : (q : Peer) → Mem q rest → distance key y ≤ distance key q
  nearest_of q m =
      ((Pairwise-append (λ a b. le_prop)).0 (subst (Descends key) z sorted)).2 q m y mem-cons_self

  query-Spawned : {s' : Lookup} → Spawned alpha key (query s rest y) s' → Spawned alpha key s s'
  query-Spawned {s'} sp =
      let kept = λ (q : Peer) (m : Mem q s'.candidates).
        (Perm.mem_iff sp.partition).0 (mem-append_right sp.issued m) in
      record {
        issued = y ∷ sp.issued;
        recorded = sp.recorded ∙ append_assoc s.queried (y ∷ []) sp.issued;
        counted = omega (arith, sp.counted);
        partition =
            subst (Perm _) (sym z)
              (Perm.trans (Perm.cons y sp.partition) (Perm.symm (perm_append_singleton y rest)));
        nearest = λ p q mp mq.
            Or.elim le_prop (mem-cons.0 mp)
              (λ e. subst (λ r. distance key r ≤ distance key q) (sym e) (nearest_of q (kept q mq)))
              (λ later. sp.nearest p q later mq);
        greedy = sp.greedy;
        bounded = λ _. sp.bounded (omega arith);
      }

spawn_lem :
    (alpha key n : ℕ) (s : Lookup)
    → length s.candidates ≤ n
    → Descends key s.candidates
    → Spawned alpha key s (spawn alpha n s)
unfolding spawn
spawn_lem alpha key zero s few sorted = elim (pop-cases s.candidates) [
  | inl (z, e) ↦ nothing_issued alpha key s (inl z)
  | inr (rest, y, z, e) ↦ absurd (omega (arith, ap length z, length-append rest (y ∷ [])))
]
spawn_lem alpha key (suc n) s few sorted = elim (Bool-cases (ltb s.in_progress alpha)) [
  | inr busy ↦ rw busy (nothing_issued alpha key s (inr (ground arith)))
  | inl free ↦ elim (pop-cases s.candidates) [
    | inl (z, e) ↦ rw (free, e) (nothing_issued alpha key s (inl z))
    | inr (rest, y, z, e) ↦
        let fewer : length rest ≤ n = omega (arith, ap length z, length-append rest (y ∷ [])) in
        let sorted' = ((Pairwise-append (λ a b. le_prop)).0 (subst (Descends key) z sorted)).0 in
        rw (free, e)
          (query-Spawned alpha key n s rest y z sorted (ground arith)
            (spawn_lem alpha key n (query s rest y) fewer sorted'))
  ]
]

farther-Descends : (key : ℕ) (ps : List Peer) → Descends key (sort_by (farther key) ps)
farther-Descends key ps =
    Pairwise.imp (λ a b h. leb→le _ _ h)
      (sort_by-IsSorted (farther key)
        (λ a b c h k. le→leb _ _ (
          omega (
            arith,
            leb→le (distance key b) (distance key a) h,
            leb→le (distance key c) (distance key b) k,
          )))
        (λ a b h. le→leb _ _ (ground arith)) ps)

-- A round takes peers off the candidates, each as near to the key as every candidate that is left,
-- appends them to the queried peers and adds their number to the queries in progress. It stops only if
-- no candidate is left or `alpha` queries are in progress, and does not go beyond `alpha`.
pub sort_and_spawn-Spawned :
    (alpha key : ℕ) (s : Lookup) → Spawned alpha key s (sort_and_spawn alpha key s)
unfolding sort_and_spawn
sort_and_spawn-Spawned alpha key s =
    let same = sort_by-perm (farther key) s.candidates in
    let sp =
      spawn_lem alpha key (length s.candidates)
        (record s { candidates = sort_by (farther key) s.candidates })
        (omega (arith, length-perm same)) (farther-Descends key s.candidates) in
    record {
      issued = sp.issued;
      recorded = sp.recorded;
      counted = sp.counted;
      partition = Perm.trans sp.partition same;
      nearest = sp.nearest;
      greedy = sp.greedy;
      bounded = sp.bounded;
    }
