-- ===== src/RoutingTable/First.antt =====
-- A new table, and the first peer that is offered to it.
use dht_kad_rs.Base.{ℕ, ◌<◌, ◌≡◌, refl, sym, ◌∙◌, subst, [], ◌∷◌, ltb, true, arith, done, ok}
use dht_kad_rs.Keyutil.{IsKey, common_prefix_length}
use dht_kad_rs.RoutingTable.{
  RoutingTable, new, update, insert_new, add_peer_to_bucket, with_bucket, last_index, bucket_at,
  ideal_index,
}
use dht_kad_rs.RoutingTable.Peers.{Peer}
use dht_kad_rs.RoutingTable.Buckets
use dht_kad_rs.RoutingTable.Buckets.{Bucket, move_to_front_if_exists, position}
use dht_kad_rs.RoutingTable.Invariant.{IsWellFormed, new-IsWellFormed}
use dht_kad_rs.RoutingTable.Inserted.{Reply}
use dht_kad_rs.RoutingTable.Update.{update_lem}
use dht_kad_rs.RoutingTable.Members.{members}
use dht_kad_rs.RoutingTable.Home.{ideal_index_bounds}

pub new_members : (k : ℕ) (local : Peer) → members (new k local) ≡ []
unfolding new Buckets.new
new_members k local = refl

-- The only bucket after that.
abbrev pub only : Peer → Bucket
only p = record { index = 0; peers = p ∷ [] }

abbrev pub entered_by : Peer → ℕ → Peer → RoutingTable
entered_by p k local = record { k = k; local = local; buckets = only p ∷ [] }

-- With room for one peer, it is added to the only bucket.
pub first_update :
    (k : ℕ) (local p : Peer) → 0 < k → update (new k local) p ≡ done (entered_by p k local, ok tt)
unfolding update new Buckets.new insert_new add_peer_to_bucket with_bucket last_index bucket_at
    move_to_front_if_exists position
first_update k local p pos =
    let first : ideal_index (common_prefix_length local.id p.id) 0 ≡ 0 =
      omega (arith, (ideal_index_bounds (common_prefix_length local.id p.id) 0).0) in
    let room : ltb 0 k ≡ true = ground arith in rw (first, room)

pub entered_by-IsWellFormed :
    (p : Peer) (k : ℕ) (local : Peer)
    → 0 < k
    → IsKey local.id
    → IsKey p.id
    → IsWellFormed (entered_by p k local)
unfolding new
entered_by-IsWellFormed p k local pos own key =
    let (r, e, kept, _) = update_lem (new k local) p (new-IsWellFormed k local own) pos key in
    let both : done (entered_by p k local, ok tt) ≡ done r = sym (first_update k local p pos) ∙ e in
    let same : (entered_by p k local, ok tt) ≡ r = cc in
    subst (λ (q : Reply). IsWellFormed q.0) (sym same) kept.well_formed
