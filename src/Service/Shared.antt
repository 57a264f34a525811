-- ===== src/Service/Shared.antt =====
-- A value that one service puts is what another one gets.
use dht_kad_rs.Base.{◌<◌, ◌≡◌, List, ◌∷◌, All, Nodup, Option, none, length, done, Result, ok}
use dht_kad_rs.Keyutil.{Hasher128, calculate_hash}
use dht_kad_rs.Kvstore.{Bytes, KvStore}
use dht_kad_rs.Kvstore.Laws.{IsMap}
use dht_kad_rs.Messages.{Protobuf, Message}
use dht_kad_rs.Messages.Validity.{CanSend}
use dht_kad_rs.Messages.Util.{IoError, create_find_value_request}
use dht_kad_rs.RoutingTable.{k_nearest_peers}
use dht_kad_rs.RoutingTable.Peers.{Peer}
use dht_kad_rs.Rpc.State.{DhtServer}
use dht_kad_rs.Transport.{Network, addresses, find_value}
use dht_kad_rs.Transport.Delivered.{Delivers}
use dht_kad_rs.Client.{answered, find_value_local}
use dht_kad_rs.Client.Replicated.{IsUp}
use dht_kad_rs.Client.PutGet.{find_value_after_store}
use dht_kad_rs.Service.Node.{DhtService, dht_client, get, put}

module _ {K : KvStore} {P : Protobuf} (net : Network P)
    (server : net.World → net.SocketAddr → Option (DhtServer K)) (d : Delivers net server)
    {view : K.Store → Bytes → Option Bytes} (map_law : IsMap K view) (h : Hasher128) where
  -- A service that can send puts a value that is not empty, under a key whose hash has a nearest peer;
  -- the addresses of these peers read, are distinct, and have servers in good order. Another service,
  -- which can send, has no value of its own for the key, knows a peer and has `alpha` above zero, then
  -- gets the key. `put` reports success, and `get` returns the value if its first reply comes from one
  -- of these servers, whichever it is and whatever replies follow.
  pub get-put :
      (s t : DhtService net K) (key value : Bytes) (w : net.World) (p q : Peer) (ps qs : List Peer)
      (addrs : List net.SocketAddr)
      → CanSend s.local
      → k_nearest_peers s.shared.routing_table (calculate_hash h key) ≡ done (p ∷ ps)
      → addresses net (p ∷ ps) ≡ done addrs
      → Nodup addrs
      → All (IsUp net server d map_law w) addrs
      → 0 < length value
      → CanSend t.local
      → find_value_local (dht_client net t) (calculate_hash h key) ≡ none
      → k_nearest_peers t.shared.routing_table (calculate_hash h key) ≡ done (q ∷ qs)
      → 0 < t.conf.alpha
      → (rs : List (Result (Message P) IoError))
      → (w' : net.World) × (put net h s key value w ≡ (w', done (ok tt)))
        × All
            (λ a.
              get net h t key (
                (find_value net a (create_find_value_request P (calculate_hash h key) t.local) w').1
                ∷ rs)
              ≡ done (answered (ok value)))
            addrs
  unfolding put get dht_client
  get-put s t key value w p q ps qs addrs can near read distinct up full can' nothing near' pos rs =
      find_value_after_store net server d map_law (dht_client net s) (dht_client net t)
        (calculate_hash h key) value w p q ps qs addrs can near read distinct up full can' nothing
        near' pos rs
