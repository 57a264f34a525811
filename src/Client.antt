-- ===== src/Client.antt =====
-- src/client.rs: the client's `store`, and its iterative lookup `find_value` as a loop over the
-- replies in the order in which they arrive.
pub mod Store
pub mod Replication
pub mod Replicated
pub mod Spawned
pub mod Handled
pub mod Search
pub mod PutGet
pub mod Spared
pub mod Understood
pub mod Queries
pub mod UnitTests
pub mod Tests
use dht_kad_rs.Base.{
  ℕ, zero, suc, ◌+◌, ◌-◌, Bool, true, false, List, [], ◌∷◌, ◌++◌, map, Option, none, some, ltb, leb,
  eqb, if◌then◌else◌, length, Outcome, done, panicked, unwrap, ◌>>=◌, Result, ok, err, bit_xor,
  ◌==◌, ◌||◌,
}
use dht_kad_rs.Base.Sort.{sort_by}
use dht_kad_rs.Base.Text.{codes}
use dht_kad_rs.Keyutil.{key_to_bytes}
use dht_kad_rs.Kvstore.{Bytes, KvStore, DatastoreError}
use dht_kad_rs.Messages.{Protobuf, ProtoPeer, Message, ErrorCode}
use dht_kad_rs.Messages.Util.{
  IoError, RpcError, proto_peer_to_peer, create_store_request, validate_store_result,
}
use dht_kad_rs.RoutingTable.{RoutingTable, k_nearest_peers}
use dht_kad_rs.RoutingTable.Peers.{Peer, peer_eq}

-- The two objects behind the mutexes, as they are when the client reads them.
pub record DhtClient (K : KvStore) : Type 0 where
  pub alpha : ℕ
  pub myself : Peer
  pub kvstore : K.Store
  pub routing_table : RoutingTable

-- `DHTClient::new`.
abbrev pub new_client : {K : KvStore} → ℕ → Peer → K.Store → RoutingTable → DhtClient K
new_client alpha myself kvstore routing_table = record {
  alpha = alpha;
  myself = myself;
  kvstore = kvstore;
  routing_table = routing_table;
}

unfoldable pub find_value_local : {K : KvStore} → DhtClient K → ℕ → Option Bytes
find_value_local {K} c key = elim (K.get c.kvstore (key_to_bytes key)) [ ok v ↦ v | err _ ↦ none ]

-- The variables of `find_value`. `queried` grows at its end.
pub record Lookup : Type 0 where
  pub candidates : List Peer
  pub queried : List Peer
  pub in_progress : ℕ

-- `(a.id ^ key).cmp(&(b.id ^ key)).reverse()`: the nearest stands at the end.
abbrev pub farther : ℕ → Peer → Peer → Bool
farther key a b = leb (bit_xor b.id key) (bit_xor a.id key)

-- `Vec::pop`.
unfoldable pub pop {ℓ} : {A : Type ℓ} → List A → Option (List A × A)
pop [] = none
pop (x ∷ xs) = elim (pop xs) [ none ↦ some ([], x) | some (rest, y) ↦ some (x ∷ rest, y) ]

-- One iteration of the inner loop: the last candidate is queried.
abbrev pub query : Lookup → List Peer → Peer → Lookup
query s rest peer = record {
  candidates = rest;
  queried = s.queried ++ peer ∷ [];
  in_progress = s.in_progress + 1;
}

-- The inner loop; each iteration takes one candidate, so that their number is fuel enough.
unfoldable pub spawn : ℕ → ℕ → Lookup → Lookup
spawn alpha zero s = s
spawn alpha (suc n) s =
    if ltb s.in_progress alpha
    then elim (pop s.candidates) [
      | none ↦ s
      | some (rest, peer) ↦ spawn alpha n (query s rest peer)
    ]
    else s

-- The body of the outer loop up to `rx.next()`.
unfoldable pub sort_and_spawn : ℕ → ℕ → Lookup → Lookup
sort_and_spawn alpha key s =
    spawn alpha (length s.candidates) (record s { candidates = sort_by (farther key) s.candidates })

-- `closerPeers`, read; one that does not read panics.
unfoldable pub closer : List ProtoPeer → Outcome (List Peer)
closer [] = done []
closer (mp ∷ mps) = do p ← proto_peer_to_peer mp; ps ← closer mps; done (p ∷ ps)

unfoldable pub contains : List Peer → Peer → Bool
contains [] p = false
contains (q ∷ qs) p = (q == p) || contains qs p

-- The filter on the new candidates.
unfoldable pub unseen : Lookup → List Peer → List Peer
unseen s [] = []
unseen s (p ∷ ps) =
    if contains s.queried p || contains s.candidates p then unseen s ps else p ∷ unseen s ps

-- What a reply leads to: the next round of the loop, or the end of the lookup.
pub data Next : Type 0 where
  again : Lookup → Next
  return : Result Bytes RpcError → Next

unfoldable pub handle_reply : {P : Protobuf} → Lookup → Result (Message P) IoError → Outcome Next
handle_reply s (err _) = done (again s)
handle_reply s (ok response) =
    if ltb 0 (length response.value)
    then done (return (ok response.value))
    else (closer response.closer_peers >>= λ ps.
        done (again (record s { candidates = s.candidates ++ unseen s ps })))

-- A reply that is read while no query is in progress underflows the counter.
unfoldable pub handle : {P : Protobuf} → Lookup → Result (Message P) IoError → Outcome Next
handle s r =
    if eqb s.in_progress 0
    then panicked
    else handle_reply (record s { in_progress = s.in_progress - 1 }) r

abbrev pub not_found : RpcError
not_found = record { error_code = ErrorCode.not_found; message = codes "value not found" }

-- How far a lookup comes with the replies that have arrived: it waits for another, or it is over. The
-- function keeps a sender of its own channel, so that the wait ends by a reply alone.
pub data Progress : Type 0 where
  waiting : Lookup → Progress
  answered : Result Bytes RpcError → Progress

unfoldable pub lookup :
    {P : Protobuf} → ℕ → ℕ → List (Result (Message P) IoError) → Lookup → Outcome Progress
lookup alpha key [] s =
    if eqb (length s.candidates) 0
    then done (answered (err not_found))
    else done (waiting (sort_and_spawn alpha key s))
lookup alpha key (r ∷ rs) s =
    if eqb (length s.candidates) 0
    then done (answered (err not_found))
    else (handle (sort_and_spawn alpha key s) r >>= λ n. elim n [
      | again s' ↦ lookup alpha key rs s'
      | return v ↦ done (answered v)
    ])

unfoldable pub find_value :
    {K : KvStore} {P : Protobuf}
    → DhtClient K
    → ℕ
    → List (Result (Message P) IoError)
    → Outcome Progress
find_value c key rs = elim (find_value_local c key) [
  | some v ↦ done (answered (ok v))
  | none ↦
      (k_nearest_peers c.routing_table key >>= λ peers.
      lookup c.alpha key rs (record { candidates = peers; queried = []; in_progress = 0 }))
]
