-- ===== src/RoutingTable/UnitTests/Pass.antt =====
-- The unit tests pass, whatever they draw.
use mathlib.Core.List.{
  mem-cons, mem-append, mem-cons_self, mem-cons_of_mem, not-mem-nil, perm_append_singleton,
}
use mathlib.Core.List.Perm
use mathlib.Core.Logic.Or
use mathlib.Core.HLevel.{⊥_prop}
use dht_kad_rs.Base.{
  ℕ, zero, suc, ◌+◌, ◌<◌, ◌≡◌, refl, ap, subst, Bool, true, List, [], ◌∷◌, ◌++◌, Mem, All, All-Mem,
  length, length-append, length-perm, last, get_elem?, get_elem?-in_range, some, eqb, list_eq,
  nat_eq, same_of_eq, arith, ◌*◌, ◌^◌, dec_le, dec_lt, done, ◌>>=◌, assert,
}
use dht_kad_rs.Keyutil.{common_prefix_length, leading_zeros, key_from_bytes, from_be_bytes}
use dht_kad_rs.RoutingTable.{
  new, update, bucket_at, last_index, ideal_index, insert_new, add_peer_to_bucket, with_bucket,
  insert_unfolded, unfold_buckets, split_last,
}
use dht_kad_rs.RoutingTable.Buckets
use dht_kad_rs.RoutingTable.Peers.{Peer, peer_eq}
use dht_kad_rs.RoutingTable.Buckets.{Bucket, move_to_front_if_exists, position, split}
use dht_kad_rs.RoutingTable.Buckets.Moved.{Moves, absent, present, move_to_front_if_exists_lem}
use dht_kad_rs.RoutingTable.Buckets.Halves.{mem-kept, split-perm, split-index}
use dht_kad_rs.RoutingTable.UnitTests.{
  Draw, random_peer, random_peer_with_id, random_peers, bucket_with_peers, fresh_peer, test_absent,
  test_present, test_bucket_move_to_front, all_share, has, test_bucket_split,
  test_routing_table_update,
}

length-random_peers : (draws : ℕ → Draw) (n : ℕ) → length (random_peers draws n) ≡ n
unfolding random_peers
length-random_peers draws zero = refl
length-random_peers draws (suc n) = omega (
  arith,
  length-append (random_peers draws n) (random_peer (draws n) ∷ []),
  length-random_peers draws n,
)

last-append : {A : Type 0} (xs : List A) (x : A) → last (xs ++ x ∷ []) ≡ some x
last-append [] x = refl
last-append (y ∷ []) x = refl
last-append (y ∷ z ∷ xs) x = last-append (z ∷ xs) x

first_of : List ℕ → ℕ
first_of [] = 0
first_of (c ∷ cs) = c

not_random : (id : ℕ) (d : Draw) → ¬ (fresh_peer id ≡ random_peer d)
unfolding random_peer random_peer_with_id first_of
not_random id d e =
    let first : 49 ≡ 48 = ap (λ (p : Peer). first_of p.address) e in absurd (omega (arith, first))

-- No peer that is drawn has the address of the peer that is looked for.
fresh_peer_absent : (draws : ℕ → Draw) (id n : ℕ) → ¬ Mem (fresh_peer id) (random_peers draws n)
unfolding random_peers
fresh_peer_absent draws id zero m = not-mem-nil m
fresh_peer_absent draws id (suc n) m =
    Or.elim ⊥_prop (mem-append.0 m) (fresh_peer_absent draws id n)
      (λ m1. Or.elim ⊥_prop (mem-cons.0 m1) (not_random id (draws n)) not-mem-nil)

test_absent_passes :
    (b : Bucket) (p : Peer) (r : Bucket × Bool)
    → Moves b p r
    → ¬ Mem p b.peers
    → test_absent b r ≡ done tt
unfolding test_absent
test_absent_passes b p r (absent _) out = ground arith
test_absent_passes b p r (present perm) out = absurd (out ((Perm.mem_iff perm).0 mem-cons_self))

test_present_passes :
    (b : Bucket) (p : Peer) (id : ℕ) (r : Bucket × Bool)
    → Moves b p r
    → Mem p b.peers
    → ¬ Mem (fresh_peer id) b.peers
    → test_present p id r ≡ done tt
unfolding test_present
test_present_passes b p id r (absent out) here fresh = absurd (out here)
test_present_passes b p id r (present {rest} perm) here fresh =
    let b1 : Bucket = record b { peers = rest ++ p ∷ [] } in
    let end = last-append rest p in
    let hit = same_of_eq p p refl in
    let gone = λ (m : Mem (fresh_peer id) b1.peers).
      fresh ((Perm.mem_iff perm).0 ((Perm.mem_iff (perm_append_singleton p rest)).0 m)) in
    rw (end, hit)
      (test_absent_passes b1 (fresh_peer id) (move_to_front_if_exists b1 (fresh_peer id))
        (move_to_front_if_exists_lem b1 (fresh_peer id)) gone)

mem-get_elem? : {A : Type 0} (xs : List A) (i : ℕ) {x : A} → get_elem? xs i ≡ some x → Mem x xs
mem-get_elem? [] i e = cc
mem-get_elem? (y ∷ ys) zero {x} e =
    let same : y ≡ x = cc in subst (λ z. Mem z (y ∷ ys)) same mem-cons_self
mem-get_elem? (y ∷ ys) (suc i) e = mem-cons_of_mem y (mem-get_elem? ys i e)

-- Whatever peers, which of them and whichever identifier the test `test_bucket_move_to_front` draws, with
-- the index below 100 as `gen_range` promises, the test passes.
pub test_bucket_move_to_front_passes :
    (draws : ℕ → Draw) (random_index id : ℕ)
    → random_index < 100
    → test_bucket_move_to_front draws random_index id ≡ done tt
unfolding test_bucket_move_to_front bucket_with_peers
test_bucket_move_to_front_passes draws random_index id within =
    let peers = random_peers draws 100 in
    let b = bucket_with_peers 0 100 draws in
    let (p, at) =
      get_elem?-in_range peers random_index (omega (arith, length-random_peers draws 100)) in
    rw at (
      test_present_passes b p id (move_to_front_if_exists b p) (move_to_front_if_exists_lem b p)
        (mem-get_elem? peers random_index at) (fresh_peer_absent draws id 100))

all_share_passes :
    (my_id index : ℕ) (ps : List Peer)
    → All (λ (p : Peer). common_prefix_length p.id my_id ≡ index) ps
    → all_share my_id index ps ≡ done tt
unfolding all_share
all_share_passes my_id index [] h = refl
all_share_passes my_id index (p ∷ ps) (e, h) =
    let same : eqb (common_prefix_length p.id my_id) index ≡ true = ground (arith, e) in
    rw same (all_share_passes my_id index ps h)

-- Whatever peers and whichever identifier the test `test_bucket_split` draws, it passes.
pub test_bucket_split_passes :
    (draws : ℕ → Draw) (my_id : ℕ) → test_bucket_split draws my_id ≡ done tt
unfolding test_bucket_split bucket_with_peers
test_bucket_split_passes draws my_id =
    let b = bucket_with_peers 0 100 draws in
    let (b1, b2) = split b my_id in
    let (same, next) = split-index b my_id in
    let counts = length-perm (split-perm b my_id) in
    let both = length-append b1.peers b2.peers in
    let at_one : eqb b2.index 1 ≡ true = ground (arith, next) in
    let whole : eqb (length b1.peers + length b2.peers) 100 ≡ true =
      ground (arith, counts, both, length-random_peers draws 100) in
    rw (at_one, whole)
      (all_share_passes my_id b1.index b1.peers (
        All-Mem (λ (p : Peer). common_prefix_length p.id my_id ≡ b1.index) b1.peers
          (λ p m. omega (arith, (mem-kept b my_id m).1, same))))

-- The table unfolds twice for the second peer, so that each has a bucket of its own.
update_unfolds :
    (port1 port2 port3 : ℕ)
    → let p1 = random_peer_with_id (0x20 * 2 ^ 120) port2 in
      let p2 = random_peer_with_id (0x40 * 2 ^ 120) port3 in
      test_routing_table_update port1 port2 port3
      ≡ (assert (has (p1 ∷ []) p1) >>= λ _. assert (has (p2 ∷ []) p2))
unfolding test_routing_table_update new update key_from_bytes last_index bucket_at ideal_index
    common_prefix_length leading_zeros from_be_bytes move_to_front_if_exists position Buckets.new
    insert_new add_peer_to_bucket with_bucket insert_unfolded unfold_buckets split_last split
    random_peer_with_id dec_le dec_lt
update_unfolds port1 port2 port3 = refl

has_itself : (p : Peer) → has (p ∷ []) p ≡ true
has_itself p = let same = same_of_eq p p refl in rw same

-- Whatever ports the test `test_routing_table_update` draws, it passes.
pub test_routing_table_update_passes :
    (port1 port2 port3 : ℕ) → test_routing_table_update port1 port2 port3 ≡ done tt
test_routing_table_update_passes port1 port2 port3 = rw (
  update_unfolds port1 port2 port3,
  has_itself (random_peer_with_id (0x20 * 2 ^ 120) port2),
  has_itself (random_peer_with_id (0x40 * 2 ^ 120) port3),
)
