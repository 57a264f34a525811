-- ===== src/RoutingTable/Overflow.antt =====
-- `update` at a full last bucket: the table is unfolded, and the peer is placed again.
use mathlib.Core.List.Perm
use dht_kad_rs.Base.{
  ℕ, ◌-◌, ◌≤◌, ◌<◌, ◌≡◌, sym, ap, ◌∙◌, Mem, some, length, get_elem?, get_elem?-in_range, arith,
  Outcome, done, Result, ok, err, Bool-cases, inl, inr, ltb, leb, true, leb→le, if◌then◌else◌,
  ◌>>=◌,
}
use dht_kad_rs.Keyutil.{IsKey, common_prefix_length}
use dht_kad_rs.RoutingTable.{
  RoutingTable, NoCapacityError, no_capacity, last_index, bucket_at, add_peer_to_bucket,
  unfold_buckets, unfold_fuel, insert_unfolded,
}
use dht_kad_rs.RoutingTable.Peers.{Peer}
use dht_kad_rs.RoutingTable.Buckets.{Bucket}
use dht_kad_rs.RoutingTable.Members.{members}
use dht_kad_rs.RoutingTable.Invariant.{IsWellFormed}
use dht_kad_rs.RoutingTable.Unfold.{Unfolded, unfold_buckets_lem, IsLast}
use dht_kad_rs.RoutingTable.Home.{home, ideal_index_bounds}
use dht_kad_rs.RoutingTable.Inserted.{IsHome, Reply, added, refused, Kept, Updates, add_lem}

-- `last_index` and the read of the home bucket, on a table with buckets.
pub last_index_lem :
    (rt : RoutingTable) → IsWellFormed rt → last_index rt ≡ done (length rt.buckets - 1)
unfolding last_index
last_index_lem rt w = ground (arith, w.populated)

pub IsHome-bucket : (rt : RoutingTable) (p : Peer) → IsWellFormed rt → (b : Bucket) × IsHome rt p b
IsHome-bucket rt p w = get_elem?-in_range rt.buckets (home rt p) (
    omega (
      arith,
      w.populated,
      ideal_index_bounds (common_prefix_length rt.local.id p.id) (length rt.buckets - 1),
    ))

pub bucket_at_lem :
    (rt : RoutingTable) (i : ℕ) (b : Bucket)
    → get_elem? rt.buckets i ≡ some b
    → bucket_at rt i ≡ done b
unfolding bucket_at
bucket_at_lem rt i b at = rw at

-- `insert_unfolded` from its second line on.
insert_into : RoutingTable → Peer → ℕ → Bucket → Outcome Reply
insert_into u p i b =
    if leb u.k (length b.peers)
    then done (u, err no_capacity)
    else (add_peer_to_bucket u i p >>= λ rt'. done (rt', ok tt))

insert_unfolded_step :
    (rt u : RoutingTable) (p : Peer) (b : Bucket) (cpl : ℕ)
    → unfold_buckets unfold_fuel rt ≡ done u
    → IsWellFormed u
    → cpl ≡ common_prefix_length u.local.id p.id
    → IsHome u p b
    → insert_unfolded rt cpl p ≡ insert_into u p (home u p) b
unfolding insert_unfolded insert_into
insert_unfolded_step rt u p b cpl e w same at =
    rw (same, e, ◌>>=◌, last_index_lem u w, ◌>>=◌, bucket_at_lem u (home u p) b at)

-- The reply of a push, if it returns the table `rt'`.
push_reply :
    (u rt' : RoutingTable) (p : Peer) (b : Bucket)
    → ltb (length b.peers) u.k ≡ true
    → add_peer_to_bucket u (home u p) p ≡ done rt'
    → insert_into u p (home u p) b ≡ done (rt', ok tt)
unfolding insert_into
push_reply u rt' p b room e = ground arith

full_reply :
    (u : RoutingTable) (p : Peer) (b : Bucket)
    → leb u.k (length b.peers) ≡ true
    → insert_into u p (home u p) b ≡ done (u, err no_capacity)
unfolding insert_into
full_reply u p b crowded = rw crowded

Unfolded-Kept :
    (rt u : RoutingTable) (e : Result (Unit {0}) NoCapacityError) → Unfolded rt u → Kept rt (u, e)
Unfolded-Kept rt u e f = record {
  same_k = f.same_k;
  same_local = f.same_local;
  well_formed = f.well_formed;
}

Kept-trans :
    (rt u rt' : RoutingTable) (e : Result (Unit {0}) NoCapacityError)
    → Unfolded rt u
    → Kept u (rt', e)
    → Kept rt (rt', e)
Kept-trans rt u rt' e f k = record {
  same_k = k.same_k ∙ f.same_k;
  same_local = k.same_local ∙ f.same_local;
  well_formed = k.well_formed;
}

pub insert_unfolded_lem :
    (rt : RoutingTable) (p : Peer) (b : Bucket)
    → IsWellFormed rt
    → IsLast rt b
    → 0 < rt.k
    → rt.k ≤ length b.peers
    → IsKey p.id
    → ¬ Mem p (members rt)
    → Updates rt p (insert_unfolded rt (common_prefix_length rt.local.id p.id) p)
insert_unfolded_lem rt p b w at pos full key new =
    let (u, e, f) =
      unfold_buckets_lem unfold_fuel rt b w at pos full (omega (arith, w.populated)) in
    let (c, found) = IsHome-bucket u p f.well_formed in
    let same = ap (λ (q : Peer). common_prefix_length q.id p.id) (sym f.same_local) in
    let step = insert_unfolded_step rt u p c _ e f.well_formed same found in
    let still_new = λ (m : Mem p (members u)). new ((Perm.mem_iff f.same_members).0 m) in
    elim (Bool-cases (leb u.k (length c.peers))) [
      | inl crowded ↦ (
        (u, err no_capacity),
        step ∙ full_reply u p c crowded,
        Unfolded-Kept rt u (err no_capacity) f,
        refused new f.same_members found (omega (arith, f.same_k, leb→le _ _ crowded)),
      )
      | inr room ↦
          let (rt', pushed, kept, perm, fresh) =
            add_lem u p c f.well_formed found key still_new (ground arith) in
          (
            (rt', ok tt),
            step ∙ push_reply u rt' p c (ground arith) pushed,
            Kept-trans rt u rt' (ok tt) f kept,
            added new (Perm.trans perm (Perm.cons p f.same_members)) fresh,
          )
    ]
