-- ===== src/Service/Node.antt =====
-- `DHTConfig` and `DHTService` of src/lib.rs, with `get` and `put`.
use dht_kad_rs.Base.{ℕ, List, Outcome, done, panicked, exhausted, Result, ok}
use dht_kad_rs.Base.Effects.{Effect}
use dht_kad_rs.Keyutil.{Hasher128, calculate_hash}
use dht_kad_rs.Kvstore.{Bytes, KvStore}
use dht_kad_rs.Messages.{Protobuf, Message}
use dht_kad_rs.Messages.Util.{IoError, RpcError}
use dht_kad_rs.RoutingTable
use dht_kad_rs.RoutingTable.Peers.{Peer}
use dht_kad_rs.Rpc.State.{DhtServer}
use dht_kad_rs.Transport.{Network}
use dht_kad_rs.Client.{DhtClient, new_client, Lookup, Progress}
use dht_kad_rs.Client
use dht_kad_rs.Service.{bootstrap}
use dht_kad_rs.Client.Store

module _ {P : Protobuf} (net : Network P) where
  pub record DhtConfig : Type 0 where
    pub k : ℕ
    pub alpha : ℕ
    pub bootstrap_peers : List Peer
    pub id : ℕ
    pub address : net.SocketAddr

  -- The store and the table, which the service shares with its client and its server, are one field.
  pub record DhtService (K : KvStore) : Type 0 where
    pub conf : DhtConfig
    pub local : Peer
    pub shared : DhtServer K

  unfoldable pub new : (K : KvStore) → DhtConfig → DhtService K
  new K c =
      let local : Peer = record { id = c.id; address = net.to_string c.address } in
      record {
        conf = c;
        local = local;
        shared = record { kvstore = K.new; routing_table = RoutingTable.new c.k local };
      }

  -- `init`, less the start of the server: the table that `bootstrap` leaves is behind the mutex that the
  -- service shares. `polled` are the tables that its wait finds.
  unfoldable pub init :
      {K : KvStore}
      → List RoutingTable.RoutingTable
      → Effect (net.World × DhtService K) (Result (Unit {0}) IoError)
  init polled (w, s) =
      let (w', o) = bootstrap net s.local polled s.shared.routing_table s.conf.bootstrap_peers w in
      elim o [
        | done rt ↦
            ((w', record s { shared = record s.shared { routing_table = rt } }), done (ok tt))
        | panicked ↦ ((w', s), panicked)
        | exhausted ↦ ((w', s), exhausted)
      ]

  -- The client of the service, with the store and the table as they are.
  unfoldable pub dht_client : {K : KvStore} → DhtService K → DhtClient K
  dht_client s = new_client s.conf.alpha s.local s.shared.kvstore s.shared.routing_table

  module _ (h : Hasher128) {K : KvStore} (s : DhtService K) where
    -- `get`, from the replies in the order in which they arrive.
    unfoldable pub get : Bytes → List (Result (Message P) IoError) → Outcome Progress
    get key replies = Client.find_value (dht_client s) (calculate_hash h key) replies

    unfoldable pub put : Bytes → Bytes → Effect net.World (Result (Unit {0}) RpcError)
    put key value = Store.store net (dht_client s) (calculate_hash h key) value
