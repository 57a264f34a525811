-- ===== src/Transport.antt =====
-- The remote calls of src/client.rs: each connects to an address, starts a stub on the connection and
-- makes one call of the trait `Service`. tarpc, the sockets and the peers at their other end are a
-- parameter.
pub mod Delivered
pub mod Tests
use dht_kad_rs.Base.{ℕ, List, [], ◌∷◌, Option, Outcome, done, unwrap, ◌>>=◌, Result, ok, err}
use dht_kad_rs.Messages.{Protobuf, Message}
use dht_kad_rs.Messages.Util.{IoError, create_find_node_request, create_ping_request}
use dht_kad_rs.RoutingTable.Peers.{Peer}
use dht_kad_rs.Rpc.{Method}

-- How a text reads as a socket address, how an address is written, and what `tarpc_bincode_transport::connect`, `spawn` and a call
-- of a stub come to in a world that each of them may change.
pub record Network (P : Protobuf) : Type 1 where
  pub SocketAddr : Type 0
  pub Connection : Type 0
  pub Stub : Type 0
  pub World : Type 0
  pub parse : List ℕ → Option SocketAddr
  pub to_string : SocketAddr → List ℕ
  pub connect : SocketAddr → World → World × Result Connection IoError
  pub spawn : Connection → World → World × Result Stub IoError
  pub call : Stub → Method → Message P → World → World × Result (Message P) IoError

module _ {P : Protobuf} (net : Network P) where
  abbrev pub Async : Type 0 → Type 0
  Async A = net.World → net.World × Result A IoError

  -- The `?` of the source.
  abbrev pub and_then :
      {A B : Type 0} → net.World × Result A IoError → (A → Async B) → net.World × Result B IoError
  and_then (w, ok a) f = f a w
  and_then (w, err e) f = (w, err e)

  unfoldable pub remote : Method → net.SocketAddr → Message P → Async (Message P)
  remote method addr msg w =
      and_then (net.connect addr w)
        (λ conn w1. and_then (net.spawn conn w1) (λ client w2. net.call client method msg w2))

  -- `DHTClient::find_node` and `DHTClient::ping` of the client `myself`.
  unfoldable pub find_node : Peer → net.SocketAddr → ℕ → Async (Message P)
  find_node myself addr target =
      remote Method.find_node addr (create_find_node_request P target myself)

  unfoldable pub ping : Peer → net.SocketAddr → Async (Message P)
  ping myself addr = remote Method.ping addr (create_ping_request P myself)

  -- The functions `store_value` and `find_value`.
  unfoldable pub store_value : net.SocketAddr → Message P → Async (Message P)
  store_value addr msg = remote Method.store addr msg

  unfoldable pub find_value : net.SocketAddr → Message P → Async (Message P)
  find_value addr msg = remote Method.find_value addr msg

  -- `peer.address.parse().unwrap()` for each peer, before any call is made.
  unfoldable pub addresses : List Peer → Outcome (List net.SocketAddr)
  addresses [] = done []
  addresses (p ∷ ps) = do
    addr ← unwrap (net.parse p.address)
    rest ← addresses ps
    done (addr ∷ rest)

  -- `join_all`: the calls run at once, and their results come in the order of the list. The model runs
  -- them in that order.
  unfoldable pub join_all :
      (net.SocketAddr → Async (Message P))
      → List net.SocketAddr
      → net.World
      → net.World × List (Result (Message P) IoError)
  join_all call [] w = (w, [])
  join_all call (a ∷ addrs) w =
      let (w1, r) = call a w in let (w2, rs) = join_all call addrs w1 in (w2, r ∷ rs)
