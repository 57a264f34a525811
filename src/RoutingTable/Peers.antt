-- ===== src/RoutingTable/Peers.antt =====
-- `Peer` of src/routing_table.rs. A `String` is the list of its bytes in UTF-8.
use dht_kad_rs.Base.{
  ℕ, ◌≡◌, ◌↔◌, ◌&&◌, true, Bool, List, arith, PartialEq, ◌==◌, list_eq, nat_eq, eq_list_iff,
}

pub record Peer : Type 0 where
  pub id : ℕ
  pub address : List ℕ

abbrev pub same_peer : Peer → Peer → Bool
same_peer p q = (p.id == q.id) && (p.address == q.address)

pub same_peer_iff : (p q : Peer) → (same_peer p q ≡ true) ↔ (p ≡ q)
same_peer_iff p q = ground (arith, eq_list_iff p.address q.address)

instance abbrev pub peer_eq : PartialEq Peer
peer_eq = record { same = same_peer; same_iff = same_peer_iff }
