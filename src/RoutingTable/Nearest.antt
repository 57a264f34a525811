-- ===== src/RoutingTable/Nearest.antt =====
-- What `nearest_peers` returns: distinct members in the order of their distance, and the nearest ones
-- where the bucket of the target has enough of them.
use mathlib.Core.List.Perm
use mathlib.Core.List.Pairwise
use native.Mathlib.Bridge.{le_prop}
use dht_kad_rs.Base.{
  ℕ, ◌≤◌, ◌≡◌, bit_xor, List, Mem, Nodup, Pairwise, length, length-take, take, arith, done, leb→le,
  le→leb,
}
use dht_kad_rs.Base.Front.{mem-take, Nodup-take, Pairwise-take}
use dht_kad_rs.Base.Sort.{sort_by, sort_by-perm, sort_by-IsSorted}
use dht_kad_rs.RoutingTable.{RoutingTable, nearer, nearest_peers}
use dht_kad_rs.RoutingTable.Peers.{Peer}
use dht_kad_rs.RoutingTable.Members.{members}
use dht_kad_rs.RoutingTable.Invariant.{IsWellFormed}
use dht_kad_rs.RoutingTable.Candidates.{target_index, candidates, nearest_peers_lem}
use dht_kad_rs.RoutingTable.Gathered.{mem-candidates, candidates-Nodup}

abbrev pub distance : ℕ → Peer → ℕ
distance target p = bit_xor p.id target

pub nearer-IsSorted :
    (target : ℕ) (ps : List Peer)
    → Pairwise (λ p q. distance target p ≤ distance target q) (sort_by (nearer target) ps)
unfolding nearer
nearer-IsSorted target ps =
    Pairwise.imp (λ a b h. leb→le _ _ h)
      (sort_by-IsSorted (nearer target)
        (λ a b c h k. le→leb _ _ (omega (arith, leb→le (distance target a) _ h, leb→le _ _ k)))
        (λ a b h. le→leb _ _ (ground arith)) ps)

-- Distinct members, nearest first, `n` at most.
pub record Answers (rt : RoutingTable) (target n : ℕ) (out : List Peer) : Type 0 where
  pub bounded : length out ≤ n
  pub from_table : (p : Peer) → Mem p out → Mem p (members rt)
  pub distinct : Nodup out
  pub sorted : Pairwise (λ p q. distance target p ≤ distance target q) out

-- The front of the sorted candidates.
abbrev pub front : RoutingTable → ℕ → ℕ → List Peer
front rt target n = take n (sort_by (nearer target) (candidates rt (target_index rt target) n))

module _ (rt : RoutingTable) (target n : ℕ) where
  pub mem-front :
      (p : Peer) → Mem p (front rt target n) → Mem p (candidates rt (target_index rt target) n)
  mem-front p m = (Perm.mem_iff (sort_by-perm (nearer target) _)).0 (mem-take n _ m)

  front-sorted : Pairwise (λ p q. distance target p ≤ distance target q) (front rt target n)
  front-sorted =
      Pairwise-take (λ p q. distance target p ≤ distance target q) (λ p q. le_prop) n _
        (nearer-IsSorted target _)

  front-Answers : IsWellFormed rt → Answers rt target n (front rt target n)
  front-Answers w = record {
    bounded =
        omega (
          arith,
          length-take n (sort_by (nearer target) (candidates rt (target_index rt target) n)),
        );
    from_table = λ p m. (mem-candidates rt w p _ n (mem-front p m)).2;
    distinct =
        Nodup-take n _
          (Perm.nodup (Perm.symm (sort_by-perm (nearer target) _)) (candidates-Nodup rt w _ n));
    sorted = front-sorted;
  }

-- On a well-formed table `nearest_peers` returns distinct members of the table, `n` at most, in the
-- order of their distance to the target.
pub nearest_peers-Answers :
    (rt : RoutingTable) (target n : ℕ)
    → IsWellFormed rt
    → (out : List Peer) × (nearest_peers rt target n ≡ done out) × Answers rt target n out
nearest_peers-Answers rt target n w =
    (front rt target n, nearest_peers_lem rt w target n, front-Answers rt target n w)
