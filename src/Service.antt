-- ===== src/Service.antt =====
-- src/lib.rs: how the service fills its routing table at the start. The table is the one behind the
-- mutex when `bootstrap` takes the lock.
pub mod Distinct
pub mod Offered
pub mod Waiting
pub mod Node
pub mod Started
pub mod Shared
pub mod Joined
mod Tests
use dht_kad_rs.Base
use dht_kad_rs.Base.{
  ℕ, Bool, true, false, List, [], ◌∷◌, ◌++◌, Option, leb, if◌then◌else◌, Outcome, done, exhausted,
  unwrap, eqb, length, Result, ok, err, ◌==◌,
}
use dht_kad_rs.Base.Effects.{Effect, ◌>>=◌, lift, pure}
use dht_kad_rs.Base.Sort.{sort_by}
use dht_kad_rs.Messages.{Protobuf, Message}
use dht_kad_rs.Messages.Util.{IoError}
use dht_kad_rs.RoutingTable.{RoutingTable, update, nearest_peers}
use dht_kad_rs.RoutingTable.Peers.{Peer, peer_eq}
use dht_kad_rs.Transport.{Network, Async, addresses, join_all, find_node, ping}
use dht_kad_rs.Client.{closer, contains}

-- The peers whose call returned: `results[i]` is the answer of `peers[i]`.
unfoldable pub alive : {P : Protobuf} → List Peer → List (Result (Message P) IoError) → List Peer
alive (p ∷ ps) (ok _ ∷ rs) = p ∷ alive ps rs
alive (p ∷ ps) (err _ ∷ rs) = alive ps rs
alive _ _ = []

-- The peers that the replies name.
unfoldable pub named : {P : Protobuf} → List (Result (Message P) IoError) → Outcome (List Peer)
named [] = done []
named (ok resp ∷ rs) =
    Base.◌>>=◌ (closer resp.closer_peers)
      (λ here. Base.◌>>=◌ (named rs) (λ rest. done (here ++ rest)))
named (err _ ∷ rs) = named rs

-- `!bootstrap_peers.contains(p)`.
unfoldable pub unvisited : List Peer → List Peer → List Peer
unvisited visited [] = []
unvisited visited (p ∷ ps) =
    if contains visited p then unvisited visited ps else p ∷ unvisited visited ps

abbrev pub by_id : Peer → Peer → Bool
by_id p q = leb p.id q.id

-- `Vec::dedup`: of equal neighbours the first is kept.
unfoldable pub dedup_after : Peer → List Peer → List Peer
dedup_after p [] = p ∷ []
dedup_after p (q ∷ qs) = if p == q then dedup_after p qs else p ∷ dedup_after q qs

unfoldable pub dedup : List Peer → List Peer
dedup [] = []
dedup (p ∷ ps) = dedup_after p ps

unfoldable pub candidate_peers : List Peer → List Peer → List Peer
candidate_peers bootstrap_peers ps = dedup (sort_by by_id (unvisited bootstrap_peers ps))

-- The last loop; a peer that the table refuses is logged.
unfoldable pub update_all : RoutingTable → List Peer → Outcome RoutingTable
update_all rt [] = done rt
update_all rt (p ∷ ps) = Base.◌>>=◌ (update rt p) (λ r. update_all r.0 ps)

-- The loop of `wait_for_connection`, over the tables that it finds behind the mutex, second by second.
-- After the last of them it would still wait.
unfoldable pub wait_for_connection : ℕ → List RoutingTable → Outcome (Unit {0})
wait_for_connection id [] = exhausted
wait_for_connection id (rt ∷ rts) =
    Base.◌>>=◌ (nearest_peers rt id 2)
      (λ near. if leb 1 (length near) then done tt else wait_for_connection id rts)

-- The wait of `bootstrap`.
unfoldable pub await_first : ℕ → List RoutingTable → List Peer → Outcome (Unit {0})
await_first id polled bootstrap_peers =
    if eqb (length bootstrap_peers) 0 then wait_for_connection id polled else done tt

module _ {P : Protobuf} (net : Network P) (local : Peer) where
  -- One call to every peer; an address that does not read panics before any call is made.
  unfoldable pub ask :
      (net.SocketAddr → Async net (Message P))
      → List Peer
      → Effect net.World (List (Result (Message P) IoError))
  ask call peers = do
    addrs ← lift (addresses net peers)
    λ w. let (w', rs) = join_all net call addrs w in (w', done rs)

  unfoldable pub alive_peers : List Peer → Effect net.World (List Peer)
  alive_peers bootstrap_peers = do
    introduced ← ask (λ a. find_node net local a local.id) bootstrap_peers
    names ← lift (named introduced)
    let candidates = candidate_peers bootstrap_peers names
    pinged ← ask (λ a. ping net local a) candidates
    pure (alive bootstrap_peers introduced ++ alive candidates pinged)

  -- The table that `bootstrap` leaves, from the tables that it waits on and the table that it locks.
  unfoldable pub bootstrap :
      List RoutingTable → RoutingTable → List Peer → Effect net.World RoutingTable
  bootstrap polled rt bootstrap_peers = do
    _ ← lift (await_first local.id polled bootstrap_peers)
    peers ← alive_peers bootstrap_peers
    lift (update_all rt peers)
