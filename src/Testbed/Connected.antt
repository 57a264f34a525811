-- ===== src/Testbed/Connected.antt =====
-- A service on a network of servers, as the test bed sees it: its start fills its own table. Nobody calls
-- the service itself, so that its table stays as it is after that, and its store is empty.
use dht_kad_rs.Base.{ℕ, ◌<◌, ◌≡◌, List, ◌∷◌, Nodup, none, done, Result}
use dht_kad_rs.Base.Effects.{Effect}
use dht_kad_rs.Keyutil.{IsKey, Hasher128, calculate_hash}
use dht_kad_rs.Kvstore.{Bytes, KvStore}
use dht_kad_rs.Messages.{Protobuf}
use dht_kad_rs.Messages.Validity.{CanSend}
use dht_kad_rs.Messages.Util.{RpcError}
use dht_kad_rs.RoutingTable.{k_nearest_peers}
use dht_kad_rs.RoutingTable.Peers.{Peer}
use dht_kad_rs.Transport.{Network, addresses}
use dht_kad_rs.Client.{find_value_local}
use dht_kad_rs.Client.Queries.{started}
use dht_kad_rs.Client.Queries.Settled.{result_of, settle}
use dht_kad_rs.RoutingTable.{RoutingTable}
use dht_kad_rs.Service.Node.{DhtService, dht_client, init, put}
use dht_kad_rs.Testbed.{Dht}

module _ {P : Protobuf} (net : Network P) (h : Hasher128) (K : KvStore) where
  -- What the test bed changes: the network, and the service.
  abbrev pub State : Type 0
  State = net.World × DhtService net K

  unfoldable pub put_over : Bytes → Bytes → Effect State (Result (Unit {0}) RpcError)
  put_over key value (w, s) = let (w', o) = put net h s key value w in ((w', s), o)

  -- `get`: `find_value` with its tasks, which run on `n` steps, the first task that was spawned first.
  unfoldable pub get_over : ℕ → Bytes → Effect State (Result Bytes RpcError)
  get_over n key (w, s) =
      let c = dht_client net s in
      let hashed = calculate_hash h key in
      let σ = settle net c.alpha hashed c.myself n (started net c hashed w) in
      ((σ.world, s), result_of σ.function)

  -- The service of `run_testbed`.
  abbrev pub on_network : List RoutingTable → ℕ → Dht
  on_network polled n = record {
    World = State;
    init = init net polled;
    put = put_over;
    get = get_over n;
  }

  -- The service can send, has no value of its own, and knows for every key nearest peers whose
  -- addresses read and are distinct.
  pub record IsConnected (s : DhtService net K) : Type 0 where
    pub can_send : CanSend s.local
    pub asks_some : 0 < s.conf.alpha
    pub hashes : (key : Bytes) → IsKey (calculate_hash h key)
    pub has_none : (key : Bytes) → find_value_local (dht_client net s) (calculate_hash h key) ≡ none
    pub nearest : Bytes → Peer
    pub others : Bytes → List Peer
    pub near :
        (key : Bytes)
        → k_nearest_peers s.shared.routing_table (calculate_hash h key)
          ≡ done (nearest key ∷ others key)
    pub places : Bytes → List net.SocketAddr
    pub reads : (key : Bytes) → addresses net (nearest key ∷ others key) ≡ done (places key)
    pub distinct : (key : Bytes) → Nodup (places key)
