-- ===== src/RoutingTable/Update.antt =====
-- `update`: it returns, keeps the table well formed, and is an insertion into a set of peers that
-- refuses a new peer only if its home bucket is full.
use mathlib.Core.List.{mem-cons_self, perm_append_singleton}
use mathlib.Core.List.Perm
use dht_kad_rs.Base.{
  ℕ, ◌-◌, ◌≤◌, ◌<◌, ◌≡◌, refl, subst, Bool, ◌∙◌, [], ◌∷◌, ◌++◌, Mem, some, length, get_elem?,
  exhausted, length-perm, arith, Outcome, done, ok, err, Bool-cases, inl, inr, eqb, ltb,
  if◌then◌else◌, ◌>>=◌,
}
use dht_kad_rs.Keyutil.{IsKey, common_prefix_length}
use dht_kad_rs.RoutingTable.{
  RoutingTable, no_capacity, with_bucket, unfold_buckets, unfold_fuel, insert_unfolded, insert_new,
  update,
}
use dht_kad_rs.RoutingTable.Peers.{Peer}
use dht_kad_rs.RoutingTable.Buckets.{Bucket, move_to_front_if_exists}
use dht_kad_rs.RoutingTable.Buckets.Moved.{Moves, absent, present, move_to_front_if_exists_lem}
use dht_kad_rs.RoutingTable.Members.{members, mem-all_peers}
use dht_kad_rs.RoutingTable.Invariant.{IsWellFormed}
use dht_kad_rs.RoutingTable.Unfold.{unfold_buckets_diverges}
use dht_kad_rs.RoutingTable.Home.{home, member_home, Fits-perm}
use dht_kad_rs.RoutingTable.Inserted.{
  IsHome, Reply, refreshed, added, refused, Updates, rewritten, rewritten-Freshest, rewritten-Kept,
  rewritten-perm, add_lem,
}
use dht_kad_rs.RoutingTable.Overflow.{
  last_index_lem, IsHome-bucket, bucket_at_lem, insert_unfolded_lem,
}

insert_new_lem :
    (rt : RoutingTable) (p : Peer) (b : Bucket)
    → IsWellFormed rt
    → IsHome rt p b
    → 0 < rt.k
    → IsKey p.id
    → ¬ Mem p b.peers
    → Updates rt p (
        insert_new rt p
          (common_prefix_length rt.local.id p.id)
          (length rt.buckets - 1)
          (home rt p)
          b)
unfolding insert_new
insert_new_lem rt p b w at pos key new =
    let absent_from_all = λ (m : Mem p (members rt)). new (member_home rt p b w at m) in
    elim (Bool-cases (ltb (length b.peers) rt.k)) [
      | inl room ↦
          let (rt', pushed, kept, perm, fresh) =
            add_lem rt p b w at key absent_from_all (ground arith) in
          ((rt', ok tt), rw (room, pushed), kept, added absent_from_all perm fresh)
      | inr crowded ↦ elim (Bool-cases (eqb (home rt p) (length rt.buckets - 1))) [
        | inl last ↦
            rw (crowded, last)
              (insert_unfolded_lem rt p b w
                (subst (λ i. get_elem? rt.buckets i ≡ some b) (ground arith) at) pos (ground arith)
                key absent_from_all)
        | inr inner ↦ (
          (rt, err no_capacity),
          rw (crowded, inner),
          record { same_k = refl; same_local = refl; well_formed = w },
          refused absent_from_all Perm.rfl at (ground arith),
        )
      ]
    ]

-- `update` from the answer of `move_to_front_if_exists` on.
after_move : RoutingTable → Peer → Bucket → Bucket × Bool → Outcome Reply
after_move rt p b r =
    if r.1
    then done (with_bucket rt (home rt p) r.0, ok tt)
    else insert_new rt p (common_prefix_length rt.local.id p.id) (length rt.buckets - 1) (home rt p)
        b

update_step :
    (rt : RoutingTable) (p : Peer) (b : Bucket)
    → IsWellFormed rt
    → IsHome rt p b
    → update rt p ≡ after_move rt p b (move_to_front_if_exists b p)
unfolding update after_move
update_step rt p b w at = rw (last_index_lem rt w, ◌>>=◌, bucket_at_lem rt (home rt p) b at)

module _ (rt : RoutingTable) (p : Peer) (b : Bucket) (w : IsWellFormed rt) (at : IsHome rt p b)
    (pos : 0 < rt.k) (key : IsKey p.id) where
  after_move_lem : (r : Bucket × Bool) → Moves b p r → Updates rt p (after_move rt p b r)
  unfolding after_move
  after_move_lem r (absent new) = insert_new_lem rt p b w at pos key new
  after_move_lem r (present {rest} perm) =
      let ps = rest ++ p ∷ [] in
      let same = Perm.trans (perm_append_singleton p rest) perm in
      let here = (Perm.mem_iff perm).0 mem-cons_self in
      (
        (rewritten rt p b ps, ok tt),
        refl,
        rewritten-Kept rt p b w at ps (ok tt) (Fits-perm ps same (w.fits (home rt p) b at)),
        refreshed (mem-all_peers p rt.buckets (home rt p) (b, at, here))
            (rewritten-perm rt p b w at ps [] same) (rewritten-Freshest rt p b w at rest),
      )

-- On a well-formed table with `k` above zero, `update` returns for every peer with a `u128`. It keeps
-- the table well formed and its `k` and local peer, and it is an insertion into the set of members: a
-- member moves to the end of its bucket, another peer is added there, or its bucket holds `k` peers
-- already, the answer is the error, and the members stay as they are.
pub update_lem :
    (rt : RoutingTable) (p : Peer)
    → IsWellFormed rt
    → 0 < rt.k
    → IsKey p.id
    → Updates rt p (update rt p)
update_lem rt p w pos key =
    let (b, at) = IsHome-bucket rt p w in
    rw (update_step rt p b w at)
      (after_move_lem rt p b w at pos key _ (move_to_front_if_exists_lem b p))

after_move_empty :
    (rt : RoutingTable) (p : Peer) (b : Bucket) (r : Bucket × Bool)
    → length b.peers ≡ 0
    → Moves b p r
    → after_move rt p b r
      ≡ insert_new rt p
          (common_prefix_length rt.local.id p.id)
          (length rt.buckets - 1)
          (home rt p)
          b
unfolding after_move
after_move_empty rt p b r e (absent new) = refl
after_move_empty rt p b r e (present perm) = absurd (omega (arith, length-perm perm))

insert_unfolded_exhausted :
    (rt : RoutingTable) (cpl : ℕ) (p : Peer)
    → unfold_buckets unfold_fuel rt ≡ exhausted
    → insert_unfolded rt cpl p ≡ exhausted
unfolding insert_unfolded
insert_unfolded_exhausted rt cpl p e = rw e

insert_new_crowded :
    (rt : RoutingTable) (p : Peer) (b : Bucket) (cpl last i : ℕ)
    → rt.k ≤ length b.peers
    → i ≡ last
    → insert_new rt p cpl last i b ≡ insert_unfolded rt cpl p
unfolding insert_new
insert_new_crowded rt p b cpl last i full e = ground arith

-- On a well-formed table with `k = 0` no amount of fuel ends `unfold_buckets`, and `update` runs into
-- it for every peer whose bucket is the last one.
pub update_diverges :
    (rt : RoutingTable) (p : Peer)
    → IsWellFormed rt
    → rt.k ≡ 0
    → home rt p ≡ length rt.buckets - 1
    → ((fuel : ℕ) → unfold_buckets fuel rt ≡ exhausted) × (update rt p ≡ exhausted)
update_diverges rt p w zero_k last =
    let (b, at) = IsHome-bucket rt p w in
    let empty : length b.peers ≡ 0 = omega (arith, (w.fits (home rt p) b at).within) in
    let endless = λ (fuel : ℕ). unfold_buckets_diverges fuel rt zero_k w.populated in
    (
      endless,
      update_step rt p b w at
          ∙ after_move_empty rt p b _ empty (move_to_front_if_exists_lem b p)
          ∙ insert_new_crowded rt p b _ _ _ (omega arith) last
          ∙ insert_unfolded_exhausted rt _ p (endless unfold_fuel),
    )
