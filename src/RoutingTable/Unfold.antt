-- ===== src/RoutingTable/Unfold.antt =====
-- `unfold_buckets`: the recursion ends, and what it leaves.
use mathlib.Core.List.Perm
use mathlib.Core.List.{mem-cons_self}
use dht_kad_rs.Base.{
  ℕ, zero, suc, ◌+◌, ◌-◌, ◌≤◌, ◌<◌, ◌≡◌, refl, ap, ◌∙◌, List, [], ◌∷◌, Mem, Perm, some, inl, inr,
  length, get_elem?, set, length-append, get_elem?-in_range, get_elem?-last_push, arith, done,
  exhausted, leb, Bool-cases, leb→le, le→leb, true, false,
}
use dht_kad_rs.Keyutil.Prefix.{common_prefix_length-le}
use dht_kad_rs.RoutingTable.{
  RoutingTable, last_index, bucket_at, with_bucket, split_last, unfold_buckets,
}
use dht_kad_rs.RoutingTable.Peers.{Peer}
use dht_kad_rs.RoutingTable.Buckets.{Bucket}
use dht_kad_rs.RoutingTable.Buckets.Halves.{kept, moved}
use dht_kad_rs.RoutingTable.Members.{members}
use dht_kad_rs.RoutingTable.Invariant.{IsWellFormed}
use dht_kad_rs.RoutingTable.Halved.{
  halved, split_last_lem, length-halved, halved-IsWellFormed, halved-perm,
}

-- `b` is the last bucket of the table.
abbrev pub IsLast : RoutingTable → Bucket → Type 0
IsLast rt b = get_elem? rt.buckets (length rt.buckets - 1) ≡ some b

-- What the recursion leaves of a table: the same peers, and room in the last bucket.
pub record Unfolded (rt rt' : RoutingTable) : Type 0 where
  pub same_k : rt'.k ≡ rt.k
  pub same_local : rt'.local ≡ rt.local
  pub well_formed : IsWellFormed rt'
  pub same_members : Perm (members rt') (members rt)
  pub room : (b : Bucket) → IsLast rt' b → length b.peers < rt.k

-- A bucket with a peer in it stands at 128 at most.
nonempty_depth :
    (rt : RoutingTable) (b : Bucket) (ps : List Peer)
    → IsWellFormed rt
    → IsLast rt b
    → b.peers ≡ ps
    → 0 < length ps
    → length rt.buckets ≤ 129
nonempty_depth rt b [] w at e h = absurd (omega arith)
nonempty_depth rt b (p ∷ ps) w at e h =
    let here : Mem p b.peers = rw e mem-cons_self in
    let shared = (w.fits _ b at).shares p here in
    omega (arith, shared, common_prefix_length-le rt.local.id p.id)

halved-IsLast : (rt : RoutingTable) (b : Bucket) → IsLast (halved rt b) (moved b rt.local.id)
halved-IsLast rt b =
    get_elem?-last_push (set rt.buckets (length rt.buckets - 1) (kept b rt.local.id))
      (moved b rt.local.id)

halved-Unfolded :
    (rt : RoutingTable) (b : Bucket)
    → IsWellFormed rt
    → IsLast rt b
    → length rt.buckets ≤ 129
    → length (moved b rt.local.id).peers < rt.k
    → Unfolded rt (halved rt b)
halved-Unfolded rt b w at h short = record {
  same_k = refl;
  same_local = refl;
  well_formed = halved-IsWellFormed rt b w at h;
  same_members = halved-perm rt b w at;
  room = λ c last.
      let same : moved b rt.local.id ≡ c = cc (halved-IsLast rt b) in
      omega (arith, ap (λ (d : Bucket). length d.peers) same);
}

Unfolded-halved :
    (rt rt' : RoutingTable) (b : Bucket)
    → IsWellFormed rt
    → IsLast rt b
    → Unfolded (halved rt b) rt'
    → Unfolded rt rt'
Unfolded-halved rt rt' b w at u = record {
  same_k = u.same_k;
  same_local = u.same_local;
  well_formed = u.well_formed;
  same_members = Perm.trans u.same_members (halved-perm rt b w at);
  room = u.room;
}

unfold_more :
    (fuel n : ℕ) (rt r : RoutingTable)
    → split_last rt ≡ done (r, n)
    → leb r.k n ≡ true
    → unfold_buckets (suc fuel) rt ≡ unfold_buckets fuel r
unfolding unfold_buckets
unfold_more fuel n rt r halves more = ground arith

unfold_stop :
    (fuel n : ℕ) (rt r : RoutingTable)
    → split_last rt ≡ done (r, n)
    → leb r.k n ≡ false
    → unfold_buckets (suc fuel) rt ≡ done r
unfolding unfold_buckets
unfold_stop fuel n rt r halves stop = ground arith

-- On a well-formed table whose last bucket holds `k` peers, `k` above zero, fuel that makes 130 with
-- the number of buckets is enough for `unfold_buckets`: it returns a well-formed table with the same
-- `k`, local peer and members, whose last bucket has room.
pub unfold_buckets_lem :
    (fuel : ℕ) (rt : RoutingTable) (b : Bucket)
    → IsWellFormed rt
    → IsLast rt b
    → 0 < rt.k
    → rt.k ≤ length b.peers
    → 130 ≤ fuel + length rt.buckets
    → (rt' : RoutingTable) × (unfold_buckets fuel rt ≡ done rt') × Unfolded rt rt'
unfold_buckets_lem zero rt b w at pos full enough =
    absurd (omega (arith, nonempty_depth rt b b.peers w at refl))
unfold_buckets_lem (suc fuel) rt b w at pos full enough =
    let small = nonempty_depth rt b b.peers w at refl (omega arith) in
    let halves = split_last_lem rt b w at in
    elim (Bool-cases (leb rt.k (length (moved b rt.local.id).peers))) [
      | inl more ↦
          let (rt', e, u) =
            unfold_buckets_lem fuel (halved rt b) (moved b rt.local.id)
              (halved-IsWellFormed rt b w at small) (halved-IsLast rt b) pos (leb→le _ _ more)
              (omega (arith, length-halved rt b w at)) in
          (rt', unfold_more fuel _ rt _ halves more ∙ e, Unfolded-halved rt rt' b w at u)
      | inr room ↦ (
        halved rt b,
        unfold_stop fuel _ rt _ halves room,
        halved-Unfolded rt b w at small (ground arith),
      )
    ]

split_last_some :
    (rt : RoutingTable)
    → 0 < length rt.buckets
    → (r : RoutingTable × ℕ) × (split_last rt ≡ done r) × (r.0.k ≡ rt.k) × (0 < length r.0.buckets)
unfolding split_last last_index bucket_at with_bucket
split_last_some rt h =
    let (b, at) = get_elem?-in_range rt.buckets (length rt.buckets - 1) (omega arith) in
    (
      (halved rt b, length (moved b rt.local.id).peers),
      ground (arith, at),
      refl,
      omega (
        arith,
        length-append (set rt.buckets (length rt.buckets - 1) (kept b rt.local.id))
            (moved b rt.local.id ∷ []),
      ),
    )

unfold_out : (rt : RoutingTable) → unfold_buckets 0 rt ≡ exhausted
unfolding unfold_buckets
unfold_out rt = refl

-- With `k = 0` every new bucket counts as full, and no depth of recursion is enough.
pub unfold_buckets_diverges :
    (fuel : ℕ) (rt : RoutingTable)
    → rt.k ≡ 0
    → 0 < length rt.buckets
    → unfold_buckets fuel rt ≡ exhausted
unfold_buckets_diverges zero rt z h = unfold_out rt
unfold_buckets_diverges (suc fuel) rt z h =
    let (r, halves, same_k, more) = split_last_some rt h in
    unfold_more fuel r.1 rt r.0 halves (le→leb _ _ (omega arith))
    ∙ unfold_buckets_diverges fuel r.0 (same_k ∙ z) more
