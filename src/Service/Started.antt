-- ===== src/Service/Started.antt =====
-- What a new service is, and what the first connection does to its table.
use dht_kad_rs.Base.{
  ℕ, ◌<◌, ◌≡◌, refl, ap, sym, ◌∙◌, List, [], ◌∷◌, ◌++◌, All-repeat, repeat, Outcome, Option, none,
  length, arith, done, exhausted,
}
use dht_kad_rs.Keyutil.{IsKey}
use dht_kad_rs.Kvstore.{Bytes, KvStore}
use dht_kad_rs.Kvstore.Laws.{IsMap}
use dht_kad_rs.Messages.{Protobuf, Message}
use dht_kad_rs.Messages.Utf8.{IsText}
use dht_kad_rs.Messages.Validity.{CanSend}
use dht_kad_rs.Messages.Util.{create_ping_response}
use dht_kad_rs.RoutingTable.{RoutingTable, update}
use dht_kad_rs.RoutingTable
use dht_kad_rs.RoutingTable.Peers.{Peer}
use dht_kad_rs.RoutingTable.Buckets
use dht_kad_rs.RoutingTable.First.{first_update, new_members, only, entered_by}
use dht_kad_rs.RoutingTable.Members.{members}
use dht_kad_rs.RoutingTable.Invariant.{new-IsWellFormed}
use dht_kad_rs.Rpc.{Method, serve}
use dht_kad_rs.Rpc.State.{DhtServer}
use dht_kad_rs.Rpc.Sender.{IsReady, SentBy}
use dht_kad_rs.Rpc.Answered.{ping_async_lem}
use dht_kad_rs.Transport.{Network}
use dht_kad_rs.Service.{wait_for_connection}
use dht_kad_rs.Service.Waiting.{IsQuiet, wait_for_connection_lem}
use dht_kad_rs.Service.Node.{DhtConfig, new, dht_client}

done_fst :
    {A B : Type 0} {a a' : A} {b b' : B}
    → ◌≡◌ {A = Outcome (A × B)} (done (a, b)) (done (a', b'))
    → a ≡ a'
done_fst e = cc

module _ {P : Protobuf} (net : Network P) {K : KvStore} {view : K.Store → Bytes → Option Bytes}
    (map_law : IsMap K view) (c : DhtConfig net) where
  -- From a configuration with `k` above zero, a `u128` for the identifier and an address that is written
  -- as a text that is not empty, `new` makes a service in good order: nobody is in its table, its store
  -- has no value, and its client can send.
  pub new_lem :
      0 < c.k
      → IsKey c.id
      → 0 < length (net.to_string c.address)
      → IsText (net.to_string c.address)
      → IsReady (new net K c).shared
        × (members (new net K c).shared.routing_table ≡ [])
        × ((key : Bytes) → view (new net K c).shared.kvstore key ≡ none)
        × CanSend (dht_client net (new net K c)).myself
  unfolding new dht_client RoutingTable.new Buckets.new
  new_lem pos key reachable text = (
    record { well_formed = new-IsWellFormed c.k _ key; room = pos },
    refl,
    map_law.view-new,
    record { key = key; reachable = reachable; text = text },
  )

  -- A ping of a valid sender at a new service, whose configuration has `k` above zero and a `u128` for the
  -- identifier, is answered and ends the wait for a first connection: the wait goes on over the table
  -- as it was before the ping, however often it is looked at, and ends at the table after the ping.
  pub first_connection :
      (m : Message P) (p : Peer) (before : ℕ) (rest : List RoutingTable)
      → 0 < c.k
      → IsKey c.id
      → SentBy m p
      → (s' : DhtServer K) × (serve K P Method.ping m (new net K c).shared
          ≡ (s', done (create_ping_response P)))
        × (wait_for_connection c.id (repeat before (new net K c).shared.routing_table) ≡ exhausted)
        × (wait_for_connection c.id
              (repeat before (new net K c).shared.routing_table ++ s'.routing_table ∷ rest)
            ≡ done tt)
  unfolding new serve RoutingTable.new
  first_connection m p before rest pos key from =
      let local : Peer = record { id = c.id; address = net.to_string c.address } in
      let s = (new net K c).shared in
      let w = new-IsWellFormed c.k local key in
      let ready : IsReady s = record { well_formed = w; room = pos } in
      let (s', e, entered, _) = ping_async_lem m p s ready from in
      let added : s'.routing_table ≡ entered_by p c.k local =
        done_fst (sym entered.updated ∙ first_update c.k local p pos) in
      let (waits, ends) =
        wait_for_connection_lem c.id (repeat before s.routing_table) s'.routing_table rest
          (All-repeat IsQuiet before s.routing_table (w, new_members c.k local))
          (
            entered.ready.well_formed,
            only p,
            ap (λ (t : RoutingTable). t.buckets) added,
            omega arith,
          ) in
      (s', e, waits, ends)
