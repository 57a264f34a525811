-- ===== src/RoutingTable/Inserted.antt =====
-- The abstract insertion that `update` carries out, and a push into a home bucket with room.
use mathlib.Core.List.{perm_append_singleton, mem-cons_self, mem-cons_of_mem}
use mathlib.Core.List.Perm
use dht_kad_rs.Base.{
  ℕ, zero, suc, ◌+◌, ◌-◌, ◌⊎◌, inl, inr, ap, arith, length-append, length-perm, ◌≤◌, ◌<◌, ◌≡◌, refl,
  List, [], ◌∷◌, ◌++◌, Mem, Perm, some, length, get_elem?, get_elem?-lt, get_elem?-set_self,
  length-set, Outcome, done, Result, ok, err,
}
use dht_kad_rs.Keyutil.{IsKey}
use dht_kad_rs.RoutingTable.{
  RoutingTable, NoCapacityError, no_capacity, bucket_at, with_bucket, add_peer_to_bucket,
}
use dht_kad_rs.RoutingTable.Peers.{Peer}
use dht_kad_rs.RoutingTable.Buckets.{Bucket}
use dht_kad_rs.RoutingTable.Members.{members, all_peers, all_peers-set, mem-all_peers}
use dht_kad_rs.RoutingTable.Invariant.{Fits, IsWellFormed, with_bucket-IsWellFormed}
use dht_kad_rs.RoutingTable.Home.{home, Fits-perm, Fits-add}

-- `b` is the home bucket of `p`.
abbrev pub IsHome : RoutingTable → Peer → Bucket → Type 0
IsHome rt p b = get_elem? rt.buckets (home rt p) ≡ some b

-- `p` stands at the end of its home bucket, the place of the peer that was seen last.
abbrev pub IsFreshest : Peer → RoutingTable → Type 0
IsFreshest p rt = (b : Bucket) × (rest : List Peer) × IsHome rt p b × (b.peers ≡ rest ++ p ∷ [])

abbrev pub Reply : Type 0
Reply = RoutingTable × Result (Unit {0}) NoCapacityError

-- The abstract insertion: a known peer is refreshed, a new one is added, or the home bucket is full
-- and the peers stay as they are.
pub data Inserted (rt : RoutingTable) (p : Peer) : Reply → Type 0 where
  refreshed :
      {rt' : RoutingTable}
      → Mem p (members rt)
      → Perm (members rt') (members rt)
      → IsFreshest p rt'
      → Inserted rt p (rt', ok tt)
  added :
      {rt' : RoutingTable}
      → ¬ Mem p (members rt)
      → Perm (members rt') (p ∷ members rt)
      → IsFreshest p rt'
      → Inserted rt p (rt', ok tt)
  refused :
      {rt' : RoutingTable} {b : Bucket}
      → ¬ Mem p (members rt)
      → Perm (members rt') (members rt)
      → IsHome rt' p b
      → rt.k ≤ length b.peers
      → Inserted rt p (rt', err no_capacity)

-- A peer of the new table is the inserted one or was there, and no peer is lost.
pub members-Inserted :
    {rt : RoutingTable} {p : Peer} {r : Reply}
    → Inserted rt p r
    → ((q : Peer) → Mem q (members rt) → Mem q (members r.0))
      × ((q : Peer) → Mem q (members r.0) → Mem q (p ∷ members rt))
members-Inserted {p = p} (refreshed _ perm _) =
    (λ q m. (Perm.mem_iff perm).1 m, λ q m. mem-cons_of_mem p ((Perm.mem_iff perm).0 m))
members-Inserted {p = p} (added _ perm _) =
    (λ q m. (Perm.mem_iff perm).1 (mem-cons_of_mem p m), λ q m. (Perm.mem_iff perm).0 m)
members-Inserted {p = p} (refused _ perm _ _) =
    (λ q m. (Perm.mem_iff perm).1 m, λ q m. mem-cons_of_mem p ((Perm.mem_iff perm).0 m))

length-home :
    (p : Peer) (bs : List Bucket) (i : ℕ) (b : Bucket)
    → get_elem? bs i ≡ some b
    → length b.peers ≤ length (all_peers bs)
length-home p [] i b at = absurd (cc)
length-home p (c ∷ bs) zero b at =
    let same : c ≡ b = ground arith in
    omega (arith, length-append c.peers (all_peers bs), ap (λ (x : Bucket). length x.peers) same)
length-home p (c ∷ bs) (suc i) b at =
    omega (arith, length-append c.peers (all_peers bs), length-home p bs i b at)

-- The inserted peer is there, unless there were `k` peers already.
pub Inserted-there :
    {rt : RoutingTable} {p : Peer} {r : Reply}
    → Inserted rt p r
    → (rt.k ≤ length (members rt)) ⊎ Mem p (members r.0)
Inserted-there (refreshed m perm _) = inr ((Perm.mem_iff perm).1 m)
Inserted-there (added _ perm _) = inr ((Perm.mem_iff perm).1 mem-cons_self)
Inserted-there {p = p} (refused {rt'} {b} _ perm at full) =
    inl (omega (arith, full, length-home p rt'.buckets (home rt' p) b at, length-perm perm))

pub length-Inserted :
    {rt : RoutingTable} {p : Peer} {r : Reply}
    → Inserted rt p r
    → length (members r.0) ≤ length (members rt) + 1
length-Inserted (refreshed _ perm _) = omega (arith, length-perm perm)
length-Inserted (added _ perm _) = omega (arith, length-perm perm)
length-Inserted (refused _ perm _ _) = omega (arith, length-perm perm)

-- What every reply keeps.
pub record Kept (rt : RoutingTable) (r : Reply) : Type 0 where
  pub same_k : r.0.k ≡ rt.k
  pub same_local : r.0.local ≡ rt.local
  pub well_formed : IsWellFormed r.0

abbrev pub Updates : RoutingTable → Peer → Outcome Reply → Type 0
Updates rt p o = (r : Reply) × (o ≡ done r) × Kept rt r × Inserted rt p r

with_bucket-k : (rt : RoutingTable) (i : ℕ) (b : Bucket) → (with_bucket rt i b).k ≡ rt.k
unfolding with_bucket
with_bucket-k rt i b = refl

with_bucket-local : (rt : RoutingTable) (i : ℕ) (b : Bucket) → (with_bucket rt i b).local ≡ rt.local
unfolding with_bucket
with_bucket-local rt i b = refl

-- The table with other peers in the home bucket of `p`.
abbrev pub rewritten : RoutingTable → Peer → Bucket → List Peer → RoutingTable
rewritten rt p b ps = with_bucket rt (home rt p) (record b { peers = ps })

module _ (rt : RoutingTable) (p : Peer) (b : Bucket) (w : IsWellFormed rt)
    (at : IsHome rt p b) where
  pub rewritten-Freshest : (rest : List Peer) → IsFreshest p (rewritten rt p b (rest ++ p ∷ []))
  unfolding with_bucket
  rewritten-Freshest rest =
      let i = home rt p in
      let b' : Bucket = record b { peers = rest ++ p ∷ [] } in
      let in_range = get_elem?-lt rt.buckets i at in
      (
        b',
        rest,
        rw (length-set rt.buckets i b') (get_elem?-set_self rt.buckets i b' in_range),
        refl,
      )

  pub rewritten-Kept :
      (ps : List Peer) (e : Result (Unit {0}) NoCapacityError)
      → Fits rt.k rt.local.id (home rt p) (length rt.buckets - 1) (record b { peers = ps })
      → Kept rt (rewritten rt p b ps, e)
  rewritten-Kept ps e f = record {
    same_k = with_bucket-k rt (home rt p) (record b { peers = ps });
    same_local = with_bucket-local rt (home rt p) (record b { peers = ps });
    well_formed = with_bucket-IsWellFormed rt (home rt p) (record b { peers = ps }) w f;
  }

  -- `extra` is what the bucket gains.
  pub rewritten-perm :
      (ps extra : List Peer)
      → Perm ps (extra ++ b.peers)
      → Perm (members (rewritten rt p b ps)) (extra ++ members rt)
  unfolding with_bucket
  rewritten-perm ps extra h =
      all_peers-set rt.buckets (home rt p) b (record b { peers = ps }) [] extra at h

  -- A push into a home bucket with room.
  pub add_lem :
      IsKey p.id
      → ¬ Mem p (members rt)
      → length b.peers < rt.k
      → (rt' : RoutingTable) × (add_peer_to_bucket rt (home rt p) p ≡ done rt')
        × Kept rt (rt', ok tt)
        × Perm (members rt') (p ∷ members rt)
        × IsFreshest p rt'
  unfolding add_peer_to_bucket bucket_at
  add_lem key new room =
      let ps = b.peers ++ p ∷ [] in
      let old = w.fits (home rt p) b at in
      let not_there =
        λ (m : Mem p b.peers). new (mem-all_peers p rt.buckets (home rt p) (b, at, m)) in
      let pushed = perm_append_singleton p b.peers in
      (
        rewritten rt p b ps,
        rw at,
        rewritten-Kept ps (ok tt) (Fits-perm ps pushed (Fits-add p old refl key not_there room)),
        rewritten-perm ps (p ∷ []) pushed,
        rewritten-Freshest b.peers,
      )
