-- ===== src/Client/Queries/Bounded.antt =====
-- `find_value` with its tasks: it does not panic, and at most `alpha` queries are outstanding.
use dht_kad_rs.Base.{
  ◌+◌, ◌≤◌, ◌<◌, ◌≡◌, ◌⊎◌, inl, inr, refl, subst, ◌∙◌, none, ℕ, List, length, arith, done, Result,
}
use dht_kad_rs.Kvstore.{Bytes, KvStore}
use dht_kad_rs.Messages.{Protobuf}
use dht_kad_rs.Messages.Util.{RpcError}
use dht_kad_rs.RoutingTable.{k_nearest_peers}
use dht_kad_rs.RoutingTable.Invariant.{IsWellFormed}
use dht_kad_rs.RoutingTable.Nearest.{nearest_peers-Answers}
use dht_kad_rs.RoutingTable.Peers.{Peer}
use dht_kad_rs.Transport.{Network}
use dht_kad_rs.Client.{DhtClient, Progress, waiting, answered, find_value_local}
use dht_kad_rs.Client.Handled.{AllReadable}
use dht_kad_rs.Client.Search.{Stands, waits, lookup_lem}
use dht_kad_rs.Client.Queries.{Search, started, begin, Reach}
use dht_kad_rs.Client.Queries.Counted.{Reach-in_progress}
use dht_kad_rs.Client.Queries.Ending.{starting}
use dht_kad_rs.Client.Queries.Read.{Reach-lookup}
use dht_kad_rs.Client.Queries.Started.{started_begins}

module _ {K : KvStore} {P : Protobuf} (net : Network P) (c : DhtClient K) (key : ℕ) where
  abbrev Searching : Type 0
  Searching = Search net c.alpha key c.myself

  -- The queries whose reply the function has not read: those whose task has not ended, those whose reply
  -- is in the channel, and those whose task panicked.
  abbrev pub outstanding : Searching → ℕ
  outstanding σ = length σ.in_flight + length σ.channel + σ.lost

  -- The function has a result, or it waits for one query at least and `alpha` at most.
  abbrev pub IsBounded : Searching → Type 0
  IsBounded σ =
      ((v : Result Bytes RpcError) × (σ.function ≡ done (answered v)))
      ⊎ ((0 < outstanding σ) × (outstanding σ ≤ c.alpha))

  -- A client with a well-formed table and `alpha` above zero calls `find_value` for a key without a local
  -- value. In every run, whatever the order in which the tasks end, as long as the replies that were read
  -- are failures or name distinct peers that read: the function has a result, or one query at least and
  -- `alpha` at most are outstanding.
  pub Reach-IsBounded :
      (w : net.World) {σ : Searching}
      → IsWellFormed c.routing_table
      → find_value_local c key ≡ none
      → 0 < c.alpha
      → Reach net c.alpha key c.myself (started net c key w) σ
      → AllReadable σ.read
      → IsBounded σ
  unfolding k_nearest_peers
  Reach-IsBounded w {σ} wf nothing pos r readable =
      let (peers, near, answers) = nearest_peers-Answers c.routing_table key c.routing_table.k wf in
      let r' =
        subst (λ x. Reach net c.alpha key c.myself x σ)
          (started_begins net c key peers w nothing near) r in
      let (o, e, stands) =
        lookup_lem c.alpha key σ.read (starting peers) pos (omega arith) answers.distinct
          readable in
      stands_at peers r' o (Reach-lookup net c.alpha key c.myself (starting peers) w r' ∙ e) stands
    where
      stands_at :
          (peers : List Peer)
          → Reach net c.alpha key c.myself (begin net c.alpha key c.myself (starting peers) w) σ
          → (o : Progress) → σ.function ≡ done o
          → Stands c.alpha σ.read o
          → IsBounded σ
      stands_at peers r (answered v) e st = inl (v, e)
      stands_at peers r (waiting s) e (waits busy few _) =
          let (counted, _) =
            Reach-in_progress net c.alpha key c.myself (starting peers) w s pos refl r e in
          inr (omega (arith, counted, busy), omega (arith, counted, few))
