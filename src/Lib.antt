-- ===== src/Lib.antt =====
-- Verification of dht_kad_rs, a Kademlia distributed hash table.
--
-- The program. A node has a routing table of other peers and a key-value store, both shared behind a
-- mutex. Its server answers four remote calls from them (ping, store, find node, find value) and puts
-- every caller into the table. Its client stores a value at the `k` nearest peers of the table and looks
-- a value up by asking nearer and nearer peers. At the start the service fills the table from a list of
-- peers that are known. Peers and keys have identifiers of 128 bits, whose distance is their `xor`.
--
-- The files.
--   Base and its children: the shared tests, lists, outcomes, effects on a state, the stable sort, the
--     hash map of the standard library, ASCII literals. Bits: laws of `xor`.
--   Keyutil (src/keyutil.rs): `common_prefix_length`, `key_from_bytes`, `key_to_bytes`, `calculate_hash`.
--     Keyutil/Prefix relates prefixes and distances, Keyutil/Bytes the two conversions, Keyutil/UnitTests
--     has the unit tests.
--   RoutingTable (src/routing_table.rs): the record of the same name, with `update`, `unfold_buckets` and
--     `nearest_peers`; RoutingTable/Peers and RoutingTable/Buckets are the structs `Peer` and `Bucket`.
--     `update` is split at its early returns into `update`, `insert_new` and `insert_unfolded`, and a
--     level of the recursion of `unfold_buckets` is `split_last`. RoutingTable/Invariant says what a
--     well-formed table is; Members, Home, Halved, Unfold, Inserted, Overflow and Update lead to
--     `update`; Candidates, Gathered, Nearest, Exact and Missed are about `nearest_peers`, and Filled
--     about a table with one bucket.
--   Mock (src/mock.rs): the objects that the unit tests start from. The unit tests of a file are in the
--     UnitTests of RoutingTable, Rpc and Client, each with a file Pass about what they come to. What a
--     test draws at random is its argument, and an assertion that fails is a panic.
--   Kvstore (src/kvstore.rs): the trait as the record `KvStore` of operations, and `MemoryStore`.
--     Kvstore/Laws: the abstract map.
--   Messages: the types of src/messages/routing.rs in Messages/Types, their numbers in Messages/Enums,
--     src/messages/util.rs in Messages/Util, UTF-8 as `str::from_utf8` checks it in Messages/Utf8;
--     Messages/Validity and Messages/Conversion are about both. Messages/Coded is what
--     src/messages/routing.rs takes from the protobuf crate for the wire, and Messages/Wire its writers
--     and readers; Messages/Wire/Pieces says what stands on a stream and what the crate does, Written
--     what the writers do, Turns and Merged what `merge_from` does, Fresh what `clear` does, and Sized
--     has `compute_size`.
--   Rpc (src/rpc/mod.rs): the handlers `store_async`, `find_node_async`, `find_value_async` and
--     `ping_async`, in the monad of Rpc/State over the table and the store, for any store that implements
--     the trait. Each is split into its check, `admit_sender` and `answer_...`. Rpc/Sender, Rpc/Rejected
--     and Rpc/Answered: what they do. Rpc/Interleaved has the handlers as tasks that give way to each
--     other where they take a lock, with `Step` and `Reach` over a server and its tasks; its children
--     Alone, Writes, Kept, Ready and Origin are about one section of a task and about all interleavings.
--   Transport (src/client.rs): the remote calls `find_node`, `ping`, `store_value` and `find_value`, the
--     reading of addresses, and `join_all`. Transport/Delivered says what a network with servers at its
--     other end does (`DeliversTo`), and one with servers of this library (`Delivers`).
--   Client (src/client.rs): the lookup `find_value`, a function of the replies in the order in which they
--     arrive, and `store` in Client/Store. Client/Replication is about the result of `store`,
--     Client/Replicated about the servers behind it, Client/Spared about what calls leave as it was,
--     Client/Spawned about one round of the lookup, Client/Handled about one reply, Client/Search about
--     the whole, Client/PutGet about a `store` and a lookup of another client, and Client/Understood
--     about the replies of servers to the requests of a client. Client/Queries has `spawn_query`, and a
--     lookup with its tasks and its channel as a step relation: Client/Queries/Read is about what the
--     function makes of the replies, Found about values, Counted about its counter, Stuck about whether
--     it can go on, Flow about its tasks where every peer can be asked, Within, Resumed and Ending about
--     lookups among peers of a fixed number, Member and Community about those in a network of servers
--     that know each other alone, Started about how `find_value` starts, Replicas and Stored about
--     lookups whose candidates all have the value, Bounded about the queries that are outstanding, and
--     Settled about a lookup that runs in one order. `started` is `find_value` from its call on, and
--     `begin` its lookup where the local store has no value.
--   Service (src/lib.rs): `bootstrap` and its wait for a first connection; `DHTConfig`, `DHTService`,
--     `new`, `get` and `put` in Service/Node. Service/Offered is about the table that `bootstrap` leaves,
--     Service/Distinct about its candidates, Service/Waiting about the wait, Service/Started about a new
--     service, Service/Joined about `bootstrap` in a network of servers, and Service/Shared about a value
--     that one service puts and another gets.
--   Testbed (testbed/src/main.rs): what `main` makes of the command line, and `run_testbed` over an
--     interface, `Dht`. Testbed/Arguments is about the arguments, Testbed/Passed about a run over a
--     service that keeps what is put, Testbed/Connected the service on a network as the test bed sees it,
--     and Testbed/Networked about a run on it.
--   Each Tests file runs the code on concrete inputs and applies the theorems there.
--
-- Conventions. An identifier is a native number below 2^128 (`IsKey`), a byte string and a `String` are
-- lists of numbers. `Outcome` says how a call ends: with a value, with a panic, or, where it runs on
-- fuel, with its fuel used up. The fuel of `unfold_buckets` is 129: identifiers have 128 bits, so that a
-- full bucket stands at 128 at most, and each level of the recursion adds a bucket. A handler holds its
-- locks one after the other: Rpc runs it as one step, Rpc/Interleaved section by section. A call changes
-- the world of the network, and `join_all` runs its calls in the order of the list. A query of a lookup
-- whose task panics, at an address that does not read, sends no reply.
--
-- The loops of `merge_from` run on fuel, one unit for a turn; more units than there are fields on the
-- input are enough. A wait for a first connection is given the tables that it finds, one for each second,
-- and is `exhausted` if it would still wait after the last. A `get` of the test bed runs its tasks in one
-- order, at most so many steps as it is given: two are enough where the first peer that it asks has the
-- value.
--
-- Parameters. Of the protobuf crate, `ProtobufEnumOrUnknown`, with the laws that a field made from a
-- value reads as that value and that an unset field reads as the default, and the streams of
-- Messages/Coded, with the behaviour that `IsFaithful` and `IsSize` state; Messages/Wire/Tests has a
-- crate with it. The network: how a text reads as a socket address, how an address is written, and what a
-- connection, a stub and a call do to a world. `DeliversTo` states what a network does where servers
-- stand at addresses, and `Delivers` the same for servers of this library; Transport/Tests has networks
-- that do it. The hash of the fasthash crate, clap's reading of the command line, and the parsers of the
-- standard library.
--
-- Not modelled: tarpc, serde, tokio, the start of the server in `init` (a service that bootstraps is not
-- called itself), logging, `create_id` (a random draw), the descriptors, unknown fields and cached sizes
-- of messages, the texts of errors, the delay at the end of the test bed, and the unit test
-- `test_retrieve`, whose assertion depends on the order in which the tasks of a lookup end. `republish`
-- and `refresh` are empty in the source.
pub mod Base
pub mod Bits
pub mod Keyutil
pub mod Mock
pub mod RoutingTable
pub mod Kvstore
pub mod Messages
pub mod Rpc
pub mod Transport
pub mod Client
pub mod Service
pub mod Testbed
