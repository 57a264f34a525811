-- ===== src/RoutingTable/Invariant.antt =====
-- What a well-formed table is: each bucket holds the peers of its own prefix length, the last one
-- those of its own length and of all longer ones, none holds more than `k`, and none twice.
use mathlib.Core.List.{not-mem-nil, Nodup-nil}
use dht_kad_rs.Base.{
  ℕ, zero, suc, ◌-◌, ◌≤◌, ◌<◌, ◌≡◌, refl, subst, [], ◌∷◌, Mem, Nodup, some, inl, inr, length,
  get_elem?, length-set, get_elem?-set_cases, arith,
}
use dht_kad_rs.Keyutil.{IsKey, common_prefix_length}
use dht_kad_rs.RoutingTable.{RoutingTable, new, with_bucket}
use dht_kad_rs.RoutingTable.Peers.{Peer}
use dht_kad_rs.RoutingTable.Buckets.{Bucket}
use dht_kad_rs.RoutingTable.Buckets

-- The bucket `b` may stand at `i` in a table whose last bucket stands at `last`.
pub record Fits (k own i last : ℕ) (b : Bucket) : Type 0 where
  pub indexed : b.index ≡ i
  pub shares : (p : Peer) → Mem p b.peers → i ≤ common_prefix_length own p.id
  pub leaves : i < last → (p : Peer) → Mem p b.peers → common_prefix_length own p.id ≡ i
  pub within : length b.peers ≤ k
  pub distinct : Nodup b.peers
  pub keys : (p : Peer) → Mem p b.peers → IsKey p.id

-- A bucket in front of the last one does not depend on how many follow.
pub Fits-inner :
    {k own i last : ℕ} (last' : ℕ) {b : Bucket}
    → i < last
    → Fits k own i last b
    → Fits k own i last' b
Fits-inner last' h f = record {
  indexed = f.indexed;
  shares = f.shares;
  leaves = λ _ p m. f.leaves h p m;
  within = f.within;
  distinct = f.distinct;
  keys = f.keys;
}

pub record IsWellFormed (rt : RoutingTable) : Type 0 where
  pub own_key : IsKey rt.local.id
  pub populated : 0 < length rt.buckets
  pub depth : length rt.buckets ≤ 130
  pub fits :
      (i : ℕ) (b : Bucket)
      → get_elem? rt.buckets i ≡ some b
      → Fits rt.k rt.local.id i (length rt.buckets - 1) b

empty-Fits : (k own i : ℕ) → Fits k own i i (Buckets.new i)
unfolding Buckets.new
empty-Fits k own i = record {
  indexed = refl;
  shares = λ p m. absurd (not-mem-nil m);
  leaves = λ h p m. absurd (omega arith);
  within = omega arith;
  distinct = Nodup-nil;
  keys = λ p m. absurd (not-mem-nil m);
}

first-Fits :
    (k own i : ℕ) (b : Bucket) → get_elem? (Buckets.new 0 ∷ []) i ≡ some b → Fits k own i 0 b
first-Fits k own zero b at =
    let same : Buckets.new 0 ≡ b = ground arith in subst (Fits k own 0 0) same (empty-Fits k own 0)
first-Fits k own (suc i) b at = cc

pub new-IsWellFormed : (k : ℕ) (local : Peer) → IsKey local.id → IsWellFormed (new k local)
unfolding new
new-IsWellFormed k local h = record {
  own_key = h;
  populated = omega arith;
  depth = omega arith;
  fits = first-Fits k local.id;
}

-- A write that keeps its place keeps the table.
pub with_bucket-IsWellFormed :
    (rt : RoutingTable) (i : ℕ) (b : Bucket)
    → IsWellFormed rt
    → Fits rt.k rt.local.id i (length rt.buckets - 1) b
    → IsWellFormed (with_bucket rt i b)
unfolding with_bucket
with_bucket-IsWellFormed rt i b w f = record {
  own_key = w.own_key;
  populated = omega (arith, length-set rt.buckets i b);
  depth = omega (arith, length-set rt.buckets i b);
  fits = λ j c at. elim (get_elem?-set_cases rt.buckets i j b at) [
    | inl (same, value) ↦ rw (length-set rt.buckets i b, value, ← same) f
    | inr (other, old) ↦ rw (length-set rt.buckets i b) (w.fits j c old)
  ];
}
