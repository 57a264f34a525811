-- ===== src/Client/Queries/Settled.antt =====
-- A lookup run to its result, in one order: the function reads what there is to read, and otherwise the
-- task that was spawned first ends.
use dht_kad_rs.Base.{
  ℕ, zero, suc, ◌<◌, ◌≡◌, refl, List, [], ◌∷◌, length, Outcome, done, panicked, exhausted, Result,
  ok,
}
use dht_kad_rs.Kvstore.{Bytes}
use dht_kad_rs.Messages.{Protobuf, Message}
use dht_kad_rs.Messages.Util.{RpcError, create_find_value_request}
use dht_kad_rs.RoutingTable.Buckets.{remove}
use dht_kad_rs.RoutingTable.Peers.{Peer}
use dht_kad_rs.Transport.{Network}
use dht_kad_rs.Client.{Lookup, Progress, waiting, answered, lookup}
use dht_kad_rs.Client.Queries.{Search, begin, spawn_query, ended, reading, spawned}
use dht_kad_rs.Client.Queries.Ending.{starting}
use dht_kad_rs.Client.Queries.Found.{value_ends}

-- The result of a function, if it has one.
abbrev pub result_of : Outcome Progress → Outcome (Result Bytes RpcError)
result_of (done (answered r)) = done r
result_of (done (waiting s)) = exhausted
result_of panicked = panicked
result_of exhausted = exhausted

module _ {P : Protobuf} (net : Network P) (alpha key : ℕ) (myself : Peer) where
  -- One step, of a lookup whose function waits with `s`.
  unfoldable pub turn : Lookup → Search net alpha key myself → Search net alpha key myself
  turn s σ = elim σ.channel [
    | r ∷ rest ↦ reading net alpha key myself σ s r rest
    | [] ↦ elim σ.in_flight [ p ∷ more ↦ ended net alpha key myself σ 0 p | [] ↦ σ ]
  ]

  -- At most `n` steps, until the function has a result.
  unfoldable pub settle : ℕ → Search net alpha key myself → Search net alpha key myself
  settle zero σ = σ
  settle (suc n) σ = elim σ.function [
    | done (waiting s) ↦ settle n (turn s σ)
    | done (answered v) ↦ σ
    | panicked ↦ σ
    | exhausted ↦ σ
  ]

  settle_over :
      (n : ℕ) (σ : Search net alpha key myself) (v : Result Bytes RpcError)
      → σ.function ≡ done (answered v)
      → ((settle n σ).world ≡ σ.world) × ((settle n σ).function ≡ done (answered v))
  unfolding settle
  settle_over zero σ v e = (refl, e)
  settle_over (suc n) σ v e = rw (settle, e) (refl, e)

  -- A lookup after its first round, in which the first task is that for `p`.
  abbrev pub after_round : Lookup → Peer → List Peer → net.World → Search net alpha key myself
  after_round s p more w = record {
    world = w;
    function = done (waiting s);
    in_flight = p ∷ more;
    channel = [];
    read = [];
    lost = 0;
  }

  pub begin-round :
      (ps : List Peer) (s : Lookup) (p : Peer) (more : List Peer) (w : net.World)
      → lookup {P = P} alpha key [] (starting ps) ≡ done (waiting s)
      → s.queried ≡ p ∷ more
      → begin net alpha key myself (starting ps) w ≡ after_round s p more w
  unfolding begin spawned
  begin-round ps s p more w e same = rw (begin, e, same) refl

  -- Where the first task brings a value, that is the result.
  pub settle_first :
      (n : ℕ) (s : Lookup) (p : Peer) (more : List Peer) (m : Message P) (w w' : net.World)
      → spawn_query net (create_find_value_request P key myself) p w ≡ (w', ok m ∷ [])
      → 0 < s.in_progress
      → 0 < length m.value
      → let τ = settle (suc (suc n)) (after_round s p more w) in
        (τ.world ≡ w') × (τ.function ≡ done (answered (ok m.value)))
  unfolding settle turn ended reading spawned remove
  settle_first n s p more m w w' told busy full =
      let over = value_ends alpha key s m busy full in
      rw (settle, told) (settle_over n _ (ok m.value) over)
