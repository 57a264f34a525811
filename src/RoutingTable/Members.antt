-- ===== src/RoutingTable/Members.antt =====
-- The peers of a table as one list, and what a write to one bucket does to it.
use mathlib.Core.List.{
  mem-append, mem-append_left, mem-append_right, append_assoc, not-mem-nil, perm_append_comm,
}
use mathlib.Core.List.Perm
use mathlib.Core.Logic.{∥∥₁_map}
use mathlib.Core.Logic.Or
use dht_kad_rs.Base.{
  ℕ, zero, suc, ◌≡◌, refl, List, [], ◌∷◌, ◌++◌, Mem, Perm, some, set, get_elem?, arith,
}
use dht_kad_rs.RoutingTable.{RoutingTable}
use dht_kad_rs.RoutingTable.Peers.{Peer}
use dht_kad_rs.RoutingTable.Buckets.{Bucket}

abbrev pub all_peers : List Bucket → List Peer
all_peers [] = []
all_peers (b ∷ bs) = b.peers ++ all_peers bs

abbrev pub members : RoutingTable → List Peer
members rt = all_peers rt.buckets

-- `p` stands in the bucket at `i`.
abbrev pub StandsAt : Peer → List Bucket → ℕ → Type 0
StandsAt p bs i = (b : Bucket) × (get_elem? bs i ≡ some b) × Mem p b.peers

pub mem-all_peers : (p : Peer) (bs : List Bucket) (i : ℕ) → StandsAt p bs i → Mem p (all_peers bs)
mem-all_peers p [] i (b, at, m) = absurd (cc)
mem-all_peers p (c ∷ bs) zero (b, at, m) =
    let same : c ≡ b = ground arith in mem-append_left (all_peers bs) (rw same m)
mem-all_peers p (c ∷ bs) (suc i) s = mem-append_right c.peers (mem-all_peers p bs i s)

pub stands_somewhere :
    (p : Peer) (bs : List Bucket) → Mem p (all_peers bs) → ∥ ((i : ℕ) × StandsAt p bs i) ∥₁
stands_somewhere p [] m = absurd (not-mem-nil m)
stands_somewhere p (c ∷ bs) m =
    Or.elim squash₁ (mem-append.0 m) (λ here. ∣ (0, (c, refl, here)) ∣₁)
      (λ later. ∥∥₁_map (stands_somewhere p bs later) (λ (i, s). (suc i, s)))

perm_left_comm : (xs ys zs : List Peer) → Perm (xs ++ (ys ++ zs)) (ys ++ (xs ++ zs))
perm_left_comm xs ys zs =
    rw (← append_assoc xs ys zs, ← append_assoc ys xs zs)
      (Perm.append_right zs (perm_append_comm xs ys))

-- What is put in front of the bucket's peers is put in front of all peers.
pub all_peers-set :
    (bs : List Bucket) (i : ℕ) (b b' : Bucket) (before after : List Peer)
    → get_elem? bs i ≡ some b
    → Perm (before ++ b'.peers) (after ++ b.peers)
    → Perm (before ++ all_peers (set bs i b')) (after ++ all_peers bs)
all_peers-set [] i b b' before after at h = absurd (cc)
all_peers-set (c ∷ bs) zero b b' before after at h =
    let same : c ≡ b = ground arith in
    rw
      (
        same,
        ← append_assoc before b'.peers (all_peers bs),
        ← append_assoc after b.peers (all_peers bs),
      )
      (Perm.append_right (all_peers bs) h)
all_peers-set (c ∷ bs) (suc i) b b' before after at h =
    Perm.trans (perm_left_comm before c.peers _) (
      Perm.trans (Perm.append_left c.peers (all_peers-set bs i b b' before after at h))
        (perm_left_comm c.peers after _))

pub all_peers-push :
    (bs : List Bucket) (b : Bucket) → Perm (all_peers (bs ++ b ∷ [])) (b.peers ++ all_peers bs)
all_peers-push [] b = Perm.rfl
all_peers-push (c ∷ bs) b =
    Perm.trans (Perm.append_left c.peers (all_peers-push bs b)) (perm_left_comm c.peers b.peers _)
