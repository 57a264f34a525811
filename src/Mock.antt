-- ===== src/Mock.antt =====
-- src/mock.rs: what the unit tests start from. The objects are those behind the mutexes.
use dht_kad_rs.Base.{ℕ, List}
use dht_kad_rs.Kvstore
use dht_kad_rs.Kvstore.{MemoryStore}
use dht_kad_rs.RoutingTable
use dht_kad_rs.RoutingTable.{RoutingTable}
use dht_kad_rs.RoutingTable.Peers.{Peer}

abbrev pub peer : List ℕ → ℕ → Peer
peer address id = record { address = address; id = id }

abbrev pub kv_store : MemoryStore
kv_store = Kvstore.new

abbrev pub routing_table : Peer → ℕ → RoutingTable
routing_table local k = RoutingTable.new k local
