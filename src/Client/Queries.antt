-- ===== src/Client/Queries.antt =====
-- A lookup of src/client.rs with its query tasks: `spawn_query`, the channel, and the function that reads
-- from it, in any order that the tasks end in.
pub mod Read
pub mod Counted
pub mod Stuck
pub mod Found
pub mod Within
pub mod Resumed
pub mod Flow
pub mod Ending
pub mod Member
pub mod Community
pub mod Replicas
pub mod Started
pub mod Stored
pub mod Settled
pub mod Bounded
mod Tests
use dht_kad_rs.Base.{
  ℕ, ◌+◌, ◌-◌, ◌≡◌, drop, List, [], ◌∷◌, ◌++◌, Option, none, some, get_elem?, length, Outcome, done,
  panicked, exhausted, ◌>>=◌, Result, ok,
}
use dht_kad_rs.Messages.{Protobuf, Message}
use dht_kad_rs.Messages.Util.{IoError, create_find_value_request}
use dht_kad_rs.RoutingTable.Peers.{Peer}
use dht_kad_rs.RoutingTable.Buckets.{remove}
use dht_kad_rs.Transport.{Network, find_value}
use dht_kad_rs.Kvstore.{KvStore}
use dht_kad_rs.RoutingTable.{k_nearest_peers}
use dht_kad_rs.Client.{
  DhtClient, find_value_local, Lookup, Next, again, return, Progress, waiting, answered, handle,
  lookup,
}

-- The task of `spawn_query`: what it sends, nothing if the address does not read and the task panics.
unfoldable pub spawn_query :
    {P : Protobuf} (net : Network P)
    → Message P
    → Peer
    → net.World
    → net.World × List (Result (Message P) IoError)
spawn_query net request peer w = elim (net.parse peer.address) [
  | none ↦ (w, [])
  | some a ↦ let (w', result) = find_value net a request w in (w', result ∷ [])
]

-- The rest of the loop from `rx.next()` on, up to the next one or to the end.
unfoldable pub resume :
    {P : Protobuf} → ℕ → ℕ → Lookup → Result (Message P) IoError → Outcome Progress
resume {P} alpha key s r = handle s r >>= λ n. elim n [
  | again s' ↦ lookup {P = P} alpha key [] s'
  | return v ↦ done (answered v)
]

-- The peers whose tasks were spawned on the way, after those that `s` has queried.
unfoldable pub spawned : Lookup → Outcome Progress → List Peer
spawned s (done (waiting s')) = drop (length s.queried) s'.queried
spawned s (done (answered v)) = []
spawned s panicked = []
spawned s exhausted = []

module _ {P : Protobuf} (net : Network P) (alpha key : ℕ) (myself : Peer) where
  -- The function that waits, the tasks that have not ended, and the channel. `read` and `lost` record
  -- what the function has read and how many tasks ended without a send.
  pub record Search : Type 0 where
    pub world : net.World
    pub function : Outcome Progress
    pub in_flight : List Peer
    pub channel : List (Result (Message P) IoError)
    pub read : List (Result (Message P) IoError)
    pub lost : ℕ

  -- The lookup of `find_value`, which begins where the local store has no value.
  unfoldable pub begin : Lookup → net.World → Search
  begin s w = record {
    world = w;
    function = lookup {P = P} alpha key [] s;
    in_flight = spawned s (lookup {P = P} alpha key [] s);
    channel = [];
    read = [];
    lost = 0;
  }

  -- A function that has ended without a task.
  abbrev pub stopped : net.World → Outcome Progress → Search
  stopped w o = record {
    world = w;
    function = o;
    in_flight = [];
    channel = [];
    read = [];
    lost = 0;
  }

  -- The task at `i` ends.
  unfoldable pub ended : Search → ℕ → Peer → Search
  ended σ i p =
      let (w', sent) = spawn_query net (create_find_value_request P key myself) p σ.world in
      record σ {
        world = w';
        in_flight = remove σ.in_flight i;
        channel = σ.channel ++ sent;
        lost = σ.lost + (1 - length sent);
      }

  -- The function reads `r`.
  unfoldable pub reading :
      Search → Lookup → Result (Message P) IoError → List (Result (Message P) IoError) → Search
  reading σ s r rest = record σ {
    function = resume alpha key s r;
    in_flight = σ.in_flight ++ spawned s (resume alpha key s r);
    channel = rest;
    read = σ.read ++ r ∷ [];
  }

  -- Any task may end, and the function may read if there is something to read.
  pub data Step (σ : Search) : Search → Type 0 where
    ends : (i : ℕ) (p : Peer) → get_elem? σ.in_flight i ≡ some p → Step σ (ended σ i p)
    reads :
        (s : Lookup) (r : Result (Message P) IoError) (rest : List (Result (Message P) IoError))
        → σ.function ≡ done (waiting s)
        → σ.channel ≡ r ∷ rest
        → Step σ (reading σ s r rest)

  pub data Reach (σ : Search) : Search → Type 0 where
    here : Reach σ σ
    next : {τ υ : Search} → Reach σ τ → Step τ υ → Reach σ υ

-- `find_value` from its call on: the look into the local store, and the lookup if there is no value.
unfoldable pub started :
    {K : KvStore} {P : Protobuf} (net : Network P) (c : DhtClient K) (key : ℕ)
    → net.World
    → Search net c.alpha key c.myself
started net c key w = elim (find_value_local c key) [
  | some v ↦ stopped net c.alpha key c.myself w (done (answered (ok v)))
  | none ↦ elim (k_nearest_peers c.routing_table key) [
    | done peers ↦
        begin net c.alpha key c.myself
          (record { candidates = peers; queried = []; in_progress = 0 }) w
    | panicked ↦ stopped net c.alpha key c.myself w panicked
    | exhausted ↦ stopped net c.alpha key c.myself w exhausted
  ]
]
