-- ===== src/Client/Store.antt =====
-- `DHTClient::store` of src/client.rs.
use dht_kad_rs.Base.{ℕ, ◌+◌, List, [], ◌∷◌, eqb, if◌then◌else◌, length, done, Result, ok, err}
use dht_kad_rs.Base.Effects.{Effect, ◌>>=◌, lift}
use dht_kad_rs.Base.Text.{codes}
use dht_kad_rs.Kvstore.{Bytes, KvStore}
use dht_kad_rs.Messages.{Protobuf, Message, ErrorCode}
use dht_kad_rs.Messages.Util.{IoError, RpcError, create_store_request, validate_store_result}
use dht_kad_rs.RoutingTable.{k_nearest_peers}
use dht_kad_rs.Transport.{Network, addresses, join_all, store_value}
use dht_kad_rs.Client.{DhtClient}

abbrev pub no_error : RpcError
no_error = record { error_code = ErrorCode.ok; message = codes "" }

-- The loop over the results of `store`, from a count of failures and a last error on.
unfoldable pub tally :
    {P : Protobuf} → List (Result (Message P) IoError) → ℕ → RpcError → ℕ × RpcError
tally [] failures last_error = (failures, last_error)
tally (r ∷ rs) failures last_error = elim (validate_store_result r) [
  | ok _ ↦ tally rs failures last_error
  | err e ↦ tally rs (failures + 1) e
]

-- `store` once its requests are ready: `num_reqs` peers, at the addresses `addrs`.
unfoldable pub store_at :
    {P : Protobuf} (net : Network P)
    → ℕ
    → Message P
    → List net.SocketAddr
    → Effect net.World (Result (Unit {0}) RpcError)
store_at net num_reqs request addrs w =
    let (w', rs) = join_all net (λ a. store_value net a request) addrs w in
    let (failures, last_error) = tally rs 0 no_error in
    (w', done (if eqb failures num_reqs then err last_error else ok tt))

unfoldable pub store :
    {K : KvStore} {P : Protobuf} (net : Network P)
    → DhtClient K
    → ℕ
    → Bytes
    → Effect net.World (Result (Unit {0}) RpcError)
store {K} {P} net c key value = do
  peers ← lift (k_nearest_peers c.routing_table key)
  addrs ← lift (addresses net peers)
  store_at net (length peers) (create_store_request P c.myself key value) addrs
