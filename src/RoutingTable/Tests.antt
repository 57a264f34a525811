-- ===== src/RoutingTable/Tests.antt =====
-- The table of a node with the identifier 0 and `k = 1`, in which `far` and `near` stand three buckets
-- apart, and the theorems on tables at it.
use mathlib.Core.List.{mem-cons_self}
use dht_kad_rs.Base.{
  ℕ, ◌+◌, ◌^◌, ◌≤◌, ◌<◌, dec_lt, ◌≡◌, refl, subst, List, [], ◌∷◌, Mem, length, arith, done,
  exhausted, ok,
}
use dht_kad_rs.Keyutil.{IsKey, common_prefix_length, leading_zeros}
use dht_kad_rs.RoutingTable.{
  RoutingTable, new, last_index, bucket_at, with_bucket, ideal_index, add_peer_to_bucket,
  split_last, unfold_buckets, insert_unfolded, insert_new, update, nearest_peers,
}
use dht_kad_rs.RoutingTable.Peers.{Peer}
use dht_kad_rs.RoutingTable.Buckets.{
  Bucket, move_to_front_if_exists, position, remove, move_to_end, split,
}
use dht_kad_rs.RoutingTable.Buckets
use dht_kad_rs.RoutingTable.Members.{members, mem-all_peers}
use dht_kad_rs.RoutingTable.Invariant.{IsWellFormed, new-IsWellFormed}
use dht_kad_rs.RoutingTable.Inserted.{Updates}
use dht_kad_rs.RoutingTable.Unfold.{Unfolded, unfold_buckets_lem}
use dht_kad_rs.RoutingTable.Update.{update_lem, update_diverges}
use dht_kad_rs.RoutingTable.Candidates.{candidates, neighbours}
use dht_kad_rs.RoutingTable.Nearest.{Answers, distance, nearest_peers-Answers}
use dht_kad_rs.RoutingTable.Exact.{nearest_peers_exact}
use dht_kad_rs.RoutingTable.Missed.{nearest_peers_misses}

abbrev pub local : Peer
local = record { id = 0; address = [] }

abbrev far : Peer
far = record { id = 2 ^ 127; address = 1 ∷ [] }

abbrev near : Peer
near = record { id = 2 ^ 124; address = 2 ∷ [] }

abbrev nearest : Peer
nearest = record { id = 2 ^ 122; address = 3 ∷ [] }

abbrev bucket : ℕ → List Peer → Bucket
bucket i ps = record { index = i; peers = ps }

abbrev empty : RoutingTable
empty = record { k = 1; local = local; buckets = bucket 0 [] ∷ [] }

abbrev one : RoutingTable
one = record empty { buckets = bucket 0 (far ∷ []) ∷ [] }

abbrev two : RoutingTable
two = record empty { buckets = bucket 0 (far ∷ []) ∷ bucket 1 (near ∷ []) ∷ [] }

abbrev pub three : RoutingTable
three = record empty {
  buckets =
      bucket 0 (far ∷ [])
      ∷ bucket 1 []
      ∷ bucket 2 []
      ∷ bucket 3 (near ∷ [])
      ∷ bucket 4 (nearest ∷ [])
      ∷ [];
}

empty-IsWellFormed : IsWellFormed empty
unfolding new Buckets.new
empty-IsWellFormed = new-IsWellFormed 1 local (omega arith)

-- A table that `update` leads to from a well-formed one.
updated-IsWellFormed :
    (rt rt' : RoutingTable) (p : Peer)
    → IsWellFormed rt
    → 0 < rt.k
    → IsKey p.id
    → update rt p ≡ done (rt', ok tt)
    → IsWellFormed rt'
updated-IsWellFormed rt rt' p w pos key e =
    let (r, f, kept, _) = update_lem rt p w pos key in
    let same : r ≡ (rt', ok tt) = cc in
    subst (λ (q : RoutingTable × _). IsWellFormed q.0) same kept.well_formed

one-IsWellFormed : IsWellFormed one
unfolding update last_index bucket_at ideal_index common_prefix_length leading_zeros
    move_to_front_if_exists position insert_new add_peer_to_bucket with_bucket
one-IsWellFormed =
    updated-IsWellFormed empty one far empty-IsWellFormed (omega arith) (omega arith) refl

two-IsWellFormed : IsWellFormed two
unfolding update last_index bucket_at ideal_index common_prefix_length leading_zeros
    move_to_front_if_exists position insert_new insert_unfolded unfold_buckets split_last split
    add_peer_to_bucket with_bucket dec_lt
two-IsWellFormed =
    updated-IsWellFormed one two near one-IsWellFormed (omega arith) (omega arith) refl

pub three-IsWellFormed : IsWellFormed three
unfolding update last_index bucket_at ideal_index common_prefix_length leading_zeros
    move_to_front_if_exists position insert_new insert_unfolded unfold_buckets split_last split
    add_peer_to_bucket with_bucket dec_lt
three-IsWellFormed =
    updated-IsWellFormed two three nearest two-IsWellFormed (omega arith) (omega arith) refl

-- A new peer with the prefix length 3: its bucket is full and not the last.
abbrev crowded : Peer
crowded = record { id = 2 ^ 124 + 1; address = 4 ∷ [] }

update_lem_example : Updates three crowded (update three crowded)
update_lem_example = update_lem three crowded three-IsWellFormed (omega arith) (omega arith)

abbrev no_room : RoutingTable
no_room = record empty { k = 0 }

no_room-IsWellFormed : IsWellFormed no_room
unfolding new Buckets.new
no_room-IsWellFormed = new-IsWellFormed 0 local (omega arith)

update_diverges_example :
    ((fuel : ℕ) → unfold_buckets fuel no_room ≡ exhausted) × (update no_room far ≡ exhausted)
unfolding ideal_index common_prefix_length leading_zeros
update_diverges_example = update_diverges no_room far no_room-IsWellFormed refl refl

-- A target with the prefix length 1, and one with the prefix length 3.
abbrev target : ℕ
target = 2 ^ 126

nearest_peers-Answers_example :
    (out : List Peer) × (nearest_peers three target 2 ≡ done out) × Answers three target 2 out
nearest_peers-Answers_example = nearest_peers-Answers three target 2 three-IsWellFormed

nearest_peers_exact_example :
    (out : List Peer) × (nearest_peers three (2 ^ 124) 1 ≡ done out)
    × (length out ≡ 1)
    × ((p q : Peer)
        → Mem p out
        → Mem q (members three)
        → ¬ Mem q out
        → distance (2 ^ 124) p ≤ distance (2 ^ 124) q)
unfolding ideal_index common_prefix_length leading_zeros
nearest_peers_exact_example =
    nearest_peers_exact three (2 ^ 124) 1 three-IsWellFormed (omega arith) (omega arith)

nearest_peers_misses_example :
    (out : List Peer) × (nearest_peers three target 2 ≡ done out)
    × Mem far out
    × ¬ Mem near out
    × (distance target near < distance target far)
unfolding ideal_index common_prefix_length leading_zeros candidates neighbours
nearest_peers_misses_example =
    nearest_peers_misses three target 2 far near three-IsWellFormed (omega arith)
      (mem-all_peers far three.buckets 0 (bucket 0 (far ∷ []), refl, mem-cons_self))
      (mem-all_peers near three.buckets 3 (bucket 3 (near ∷ []), refl, mem-cons_self)) refl refl
      (omega arith) (omega arith)

unfold_buckets_lem_example :
    (rt' : RoutingTable) × (unfold_buckets 129 one ≡ done rt') × Unfolded one rt'
unfold_buckets_lem_example =
    unfold_buckets_lem 129 one (bucket 0 (far ∷ [])) one-IsWellFormed refl (omega arith)
      (omega arith) (omega arith)
