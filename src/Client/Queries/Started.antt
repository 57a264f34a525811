-- ===== src/Client/Queries/Started.antt =====
-- How `find_value` starts: its first peers, and their addresses.
use mathlib.Core.List.{mem-cons, mem-cons_self, mem-cons_of_mem, not-mem-nil, Nodup-nil}
use mathlib.Core.Logic.Or
use dht_kad_rs.Base.{
  ℕ, ◌≡◌, ◌≢◌, refl, sym, subst, ap, ◌∙◌, List, [], ◌∷◌, Mem, bind-returns, unwrap-returns, none,
  some, unwrap, done, ok,
}
use dht_kad_rs.Kvstore.{Bytes, KvStore}
use dht_kad_rs.Messages.{Protobuf}
use dht_kad_rs.Messages.Util.{create_find_value_response}
use dht_kad_rs.RoutingTable.{k_nearest_peers}
use dht_kad_rs.RoutingTable.Peers.{Peer}
use dht_kad_rs.Transport.{Network, addresses}
use dht_kad_rs.Client.{DhtClient, closer, find_value_local}
use dht_kad_rs.Client.Queries.{begin, started}
use dht_kad_rs.Client.Queries.Ending.{starting}
use dht_kad_rs.Client.Queries.Within.{Names}

-- The reply that brings a value names nobody.
pub found-Names :
    (P : Protobuf) (key value : Bytes) (all_peers : List Peer)
    → Names all_peers (λ v. v ≡ value) (ok (create_find_value_response P key value))
unfolding create_find_value_response closer
found-Names P key value all_peers =
    ([], refl, Nodup-nil, λ p m. absurd (not-mem-nil m), λ full. refl)

-- Without a value of its own, a client begins the lookup at its nearest peers.
pub started_begins :
    {K : KvStore} {P : Protobuf} (net : Network P) (c : DhtClient K) (key : ℕ) (ps : List Peer)
    (w : net.World)
    → find_value_local c key ≡ none
    → k_nearest_peers c.routing_table key ≡ done ps
    → started net c key w ≡ begin net c.alpha key c.myself (starting ps) w
unfolding started
started_begins net c key ps w nothing near = rw (started, nothing, near) refl

module _ {P : Protobuf} (net : Network P) where
  -- Where the addresses of some peers read, that of each of them does, as one of the addresses read.
  pub addresses-found :
      (ps : List Peer) (addrs : List net.SocketAddr) (p : Peer)
      → addresses net ps ≡ done addrs
      → Mem p ps
      → (net.parse p.address ≢ none)
        × ((a : net.SocketAddr) → net.parse p.address ≡ some a → Mem a addrs)
  unfolding addresses
  addresses-found [] addrs p e m = absurd (not-mem-nil m)
  addresses-found (q ∷ ps) addrs p e m =
      let (a, read, e') = bind-returns (unwrap (net.parse q.address)) e in
      let (rest, reads, e2) = bind-returns (addresses net ps) e' in
      let at : net.parse q.address ≡ some a = unwrap-returns (net.parse q.address) read in
      let all : addrs ≡ a ∷ rest = cc in
      Or.elim (hlevel) (mem-cons.0 m)
        (λ z.
          let same : net.parse p.address ≡ some a = ap (λ (x : Peer). net.parse x.address) z ∙ at in
          (
            λ unread. cc,
            λ b found.
                let here : b ≡ a = cc in
                subst (Mem b) (sym all) (subst (λ x. Mem b (x ∷ rest)) here mem-cons_self),
          ))
        (λ later.
          let (reads_too, among) = addresses-found ps rest p reads later in
          (reads_too, λ b found. subst (Mem b) (sym all) (mem-cons_of_mem a (among b found))))
