-- ===== src/RoutingTable/Halved.antt =====
-- One level of `unfold_buckets`: the last bucket is split in two and the table stays well formed.
use mathlib.Core.List.Perm
use mathlib.Core.List.{perm_append_comm}
use dht_kad_rs.Base.{
  ℕ, ◌+◌, ◌-◌, ◌≤◌, ◌<◌, ◌≡◌, [], ◌∷◌, ◌++◌, Mem, Perm, some, inl, inr, length, get_elem?, set,
  length-set, length-append, get_elem?-set_cases, get_elem?-push_cases, get_elem?-lt, arith, done,
}
use dht_kad_rs.Keyutil.{common_prefix_length}
use dht_kad_rs.Keyutil.Prefix.{common_prefix_length_comm}
use dht_kad_rs.RoutingTable.{RoutingTable, last_index, bucket_at, with_bucket, split_last}
use dht_kad_rs.RoutingTable.Peers.{Peer}
use dht_kad_rs.RoutingTable.Buckets.{Bucket}
use dht_kad_rs.RoutingTable.Buckets.Halves.{
  kept, moved, split-index, mem-kept, mem-moved, split-length, split-Nodup, split-perm,
}
use dht_kad_rs.RoutingTable.Members.{members, all_peers-set, all_peers-push}
use dht_kad_rs.RoutingTable.Invariant.{Fits, Fits-inner, IsWellFormed}

-- The table after one split of its last bucket `b`.
abbrev pub halved : RoutingTable → Bucket → RoutingTable
halved rt b = record rt {
  buckets = set rt.buckets (length rt.buckets - 1) (kept b rt.local.id) ++ moved b rt.local.id ∷ [];
}

module _ (rt : RoutingTable) (b : Bucket) (w : IsWellFormed rt)
    (at : get_elem? rt.buckets (length rt.buckets - 1) ≡ some b) where
  pub split_last_lem : split_last rt ≡ done (halved rt b, length (moved b rt.local.id).peers)
  unfolding split_last last_index bucket_at with_bucket
  split_last_lem = ground (arith, w.populated, at)

  before : Fits rt.k rt.local.id (length rt.buckets - 1) (length rt.buckets - 1) b
  before = w.fits (length rt.buckets - 1) b at

  -- The peers of the two halves on either side of the old index.
  kept_index :
      (p : Peer)
      → Mem p (kept b rt.local.id).peers
      → common_prefix_length rt.local.id p.id ≡ length rt.buckets - 1
  kept_index p m =
      let (old, short) = mem-kept b rt.local.id m in
      omega (
        arith,
        before.shares p old,
        before.indexed,
        common_prefix_length_comm rt.local.id p.id,
        short,
      )

  pub moved_index :
      (p : Peer)
      → Mem p (moved b rt.local.id).peers
      → length rt.buckets ≤ common_prefix_length rt.local.id p.id
  moved_index p m =
      let (old, long) = mem-moved b rt.local.id m in
      omega (arith, before.indexed, common_prefix_length_comm rt.local.id p.id, w.populated, long)

  kept-Fits : (last : ℕ) → Fits rt.k rt.local.id (length rt.buckets - 1) last (kept b rt.local.id)
  kept-Fits last = record {
    indexed = omega (arith, (split-index b rt.local.id).0, before.indexed);
    shares = λ p m. before.shares p (mem-kept b rt.local.id m).0;
    leaves = λ _ p m. kept_index p m;
    within = omega (arith, (split-length b rt.local.id).0, before.within);
    distinct = (split-Nodup b rt.local.id before.distinct).0;
    keys = λ p m. before.keys p (mem-kept b rt.local.id m).0;
  }

  pub moved-Fits :
      Fits rt.k rt.local.id (length rt.buckets) (length rt.buckets) (moved b rt.local.id)
  moved-Fits = record {
    indexed = omega (arith, (split-index b rt.local.id).1, before.indexed, w.populated);
    shares = moved_index;
    leaves = λ h p m. absurd (omega arith);
    within = omega (arith, (split-length b rt.local.id).1, before.within);
    distinct = (split-Nodup b rt.local.id before.distinct).1;
    keys = λ p m. before.keys p (mem-moved b rt.local.id m).0;
  }

  pub length-halved : length (halved rt b).buckets ≡ length rt.buckets + 1
  length-halved = omega (
    arith,
    length-append (set rt.buckets (length rt.buckets - 1) (kept b rt.local.id))
        (moved b rt.local.id ∷ []),
    length-set rt.buckets (length rt.buckets - 1) (kept b rt.local.id),
  )

  halved-fits :
      (i : ℕ) (c : Bucket)
      → get_elem? (halved rt b).buckets i ≡ some c
      → Fits rt.k rt.local.id i (length rt.buckets) c
  halved-fits i c found =
      let n = length rt.buckets - 1 in
      let same_length = length-set rt.buckets n (kept b rt.local.id) in
      elim (get_elem?-push_cases (set rt.buckets n (kept b rt.local.id)) i _ found) [
        | inl (_, old) ↦ elim (get_elem?-set_cases rt.buckets n i (kept b rt.local.id) old) [
          | inl (here, value) ↦ rw (value, ← here) (kept-Fits (length rt.buckets))
          | inr (other, older) ↦
              let inner : i < n = omega (arith, get_elem?-lt rt.buckets i older) in
              Fits-inner (length rt.buckets) inner (w.fits i c older)
        ]
        | inr (last, value) ↦ rw (last, value, same_length) moved-Fits
      ]

  pub halved-IsWellFormed : length rt.buckets ≤ 129 → IsWellFormed (halved rt b)
  halved-IsWellFormed h = record {
    own_key = w.own_key;
    populated = omega (arith, length-halved);
    depth = omega (arith, length-halved);
    fits =
        let last : length (halved rt b).buckets - 1 ≡ length rt.buckets =
          omega (arith, length-halved) in
        λ i c found. rw last (halved-fits i c found);
  }

  pub halved-perm : Perm (members (halved rt b)) (members rt)
  halved-perm =
      let n = length rt.buckets - 1 in
      let halves =
        Perm.trans (perm_append_comm (moved b rt.local.id).peers (kept b rt.local.id).peers)
          (split-perm b rt.local.id) in
      Perm.trans (all_peers-push (set rt.buckets n (kept b rt.local.id)) (moved b rt.local.id))
        (all_peers-set rt.buckets n b (kept b rt.local.id) (moved b rt.local.id).peers [] at halves)
