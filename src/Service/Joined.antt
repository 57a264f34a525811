-- ===== src/Service/Joined.antt =====
-- `bootstrap` in a network of servers that know each other alone.
use mathlib.Core.Logic.Or
use dht_kad_rs.Base.{ℕ, ◌≡◌, List, All, Mem, length, Option, some, ok}
use dht_kad_rs.Kvstore.{Bytes, KvStore}
use dht_kad_rs.Kvstore.Laws.{IsMap}
use dht_kad_rs.Messages.{Protobuf, Message}
use dht_kad_rs.RoutingTable.{RoutingTable}
use dht_kad_rs.RoutingTable.Peers.{Peer}
use dht_kad_rs.Rpc.State.{DhtServer}
use dht_kad_rs.Transport.{Network, Async}
use dht_kad_rs.Transport.Delivered.{Delivers}
use dht_kad_rs.Client.Queries.Within.{Names}
use dht_kad_rs.Client.Queries.Community.{IsCommunity}

abbrev Inside : List Peer → List Peer → Type 0
Inside all_peers ps = (q : Peer) → Mem q ps → Mem q all_peers

module _ {K : KvStore} {P : Protobuf} (net : Network P)
    (server : net.World → net.SocketAddr → Option (DhtServer K)) (d : Delivers net server)
    {view : K.Store → Bytes → Option Bytes} (map_law : IsMap K view)
    (dec : (a b : net.SocketAddr) → Dec (a ≡ b)) (all_peers : List Peer) (Held : Bytes → Type 0)
    (key : ℕ) where
  abbrev Community : net.World → Type 0
  Community = IsCommunity net server d map_law all_peers Held key

  -- The call is answered at every peer of the community.
  abbrev Answered : (net.SocketAddr → Async net (Message P)) → Type 0
  Answered call =
      (p : Peer) (a : net.SocketAddr) (w : net.World)
      → Mem p all_peers
      → net.parse p.address ≡ some a
      → Community w
      → (w' : net.World) × (r : Message P) × (call a w ≡ (w', ok r))
        × Community w'
        × Names all_peers Held (ok r)

  -- What the calls to all of `ps` come to.
  abbrev Replied : List Peer → net.World → List (Message P) → Type 0
  Replied ps w' rs =
      (length rs ≡ length ps) × Community w' × All (λ r. Names {P = P} all_peers Held (ok r)) rs
