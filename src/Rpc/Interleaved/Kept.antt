-- ===== src/Rpc/Interleaved/Kept.antt =====
-- The handlers keep the routing table in good order, whatever they answer.
use dht_kad_rs.Base.{
  ◌≡◌, refl, ap, ◌∙◌, sym, subst, ℕ, ◌<◌, some, Outcome, done, panicked, exhausted, Result, ok, err,
  List, Bool-cases, inl, inr, Option-cases, bind-returns, unwrap, arith,
}
use dht_kad_rs.Keyutil.{key_from_bytes}
use dht_kad_rs.Keyutil.Bytes.{IsBytes}
use dht_kad_rs.Kvstore.{KvStore}
use dht_kad_rs.Messages.{Protobuf, ProtoPeer, Message}
use dht_kad_rs.Messages.Utf8.{from_utf8}
use dht_kad_rs.Messages.Conversion.{proto_peer_to_peer-IsKey}
use dht_kad_rs.Messages.Util.{proto_peer_to_peer, validate_request, create_find_node_response}
use dht_kad_rs.RoutingTable.{RoutingTable, update, k_nearest_peers}
use dht_kad_rs.RoutingTable.Peers.{Peer}
use dht_kad_rs.RoutingTable.Invariant.{IsWellFormed}
use dht_kad_rs.RoutingTable.Update.{update_lem}
use dht_kad_rs.Rpc.{
  table_after_reply, update_routing_table, admit, admit_sender, find_node_async, answer_find_node,
  ping_async, answer_ping,
}
use dht_kad_rs.Rpc.State.{DhtServer, written}
use dht_kad_rs.Base.Effects.{after}

-- A table in good order.
abbrev pub Fine : RoutingTable → Type 0
Fine rt = IsWellFormed rt × (0 < rt.k)

-- The identifier of the sender, if there is one, is made of bytes, as it is on the wire.
abbrev pub OfBytes : {P : Protobuf} → Message P → Type 0
OfBytes m = (mp : ProtoPeer) → m.myself ≡ some mp → IsBytes mp.id

table_after_reply_kept :
    (mp : ProtoPeer) (r : RoutingTable × Result (Unit {0}) _) {rt : RoutingTable} {u : Unit {0}}
    → table_after_reply mp r ≡ done (rt, u)
    → rt ≡ r.0
unfolding table_after_reply
table_after_reply_kept mp (rt, ok x) e = cc
table_after_reply_kept mp (rt, err x) e =
    let (_, _, e1) = bind-returns (unwrap (from_utf8 mp.addrs)) e in cc

update_routing_table-Fine :
    (rt : RoutingTable) (mp : ProtoPeer) {rt' : RoutingTable} {u : Unit {0}}
    → IsBytes mp.id
    → Fine rt
    → update_routing_table rt mp ≡ done (rt', u)
    → Fine rt'
unfolding update_routing_table
update_routing_table-Fine rt mp {rt'} bytes (w, pos) e =
    let (p, reads, e1) = bind-returns (proto_peer_to_peer mp) e in
    let (r, runs, e2) = bind-returns (update rt p) e1 in
    let (r', runs', kept, _) = update_lem rt p w pos (proto_peer_to_peer-IsKey mp bytes reads) in
    let same : r' ≡ r = cc in
    let there : r'.0 ≡ rt' =
      ap (λ (x : RoutingTable × _). x.0) same ∙ sym (table_after_reply_kept mp r e2) in
    subst Fine there (kept.well_formed, omega (arith, kept.same_k))

module _ {K : KvStore} where
  written-Fine :
      (s : DhtServer K) (o : Outcome (RoutingTable × Unit {0}))
      → Fine s.routing_table
      → ((rt : RoutingTable) (u : Unit {0}) → o ≡ done (rt, u) → Fine rt)
      → Fine (written s o).0.routing_table
  written-Fine s (done (rt, u)) f h = h rt u refl
  written-Fine s panicked f h = f
  written-Fine s exhausted f h = f

  -- A step that leaves the state, however the step before it ended.
  after_state :
      {A B : Type 0} (f : A → DhtServer K → DhtServer K × Outcome B) (s : DhtServer K)
      → ((a : A) → (f a s).0 ≡ s)
      → (o : Outcome A) → (after f (s, o)).0 ≡ s
  after_state f s h (done a) = h a
  after_state f s h panicked = refl
  after_state f s h exhausted = refl

  module _ {P : Protobuf} (m : Message P) (bytes : OfBytes m) (s : DhtServer K)
      (fine : Fine s.routing_table) where
    pub admit_sender-Fine : Fine (admit_sender K P m s).0.routing_table
    unfolding admit_sender admit
    admit_sender-Fine = elim (Option-cases m.myself) [
      | inl nobody ↦ rw nobody fine
      | inr (mp, sent) ↦ rw sent (
          written-Fine s (update_routing_table s.routing_table mp) fine
            (λ rt u e. update_routing_table-Fine s.routing_table mp (bytes mp sent) fine e))
    ]

  abbrev reply_to : {P : Protobuf} → List Peer → DhtServer K → DhtServer K × Outcome (Message P)
  reply_to {P} peers s = (s, done (create_find_node_response P peers))

  abbrev search_for : {P : Protobuf} → ℕ → DhtServer K → DhtServer K × Outcome (Message P)
  search_for {P} target s = after (reply_to {P = P}) (s, k_nearest_peers s.routing_table target)

  pub answer_find_node_state :
      {P : Protobuf} (m : Message P) (u : Unit {0}) (s : DhtServer K)
      → (answer_find_node K P m u s).0 ≡ s
  unfolding answer_find_node
  answer_find_node_state {P} m u s =
      after_state (search_for {P = P}) s
        (λ target.
          after_state (reply_to {P = P}) s (λ peers. refl) (k_nearest_peers s.routing_table target))
        (unwrap (key_from_bytes m.key))

  after-Fine :
      {A B : Type 0} (f : A → DhtServer K → DhtServer K × Outcome B) (r : DhtServer K × Outcome A)
      → ((a : A) (s : DhtServer K) → (f a s).0.routing_table ≡ s.routing_table)
      → Fine r.0.routing_table
      → Fine (after f r).0.routing_table
  after-Fine f (s, done a) h fine = subst Fine (sym (h a s)) fine
  after-Fine f (s, panicked) h fine = fine
  after-Fine f (s, exhausted) h fine = fine

  pub find_node_async-Fine :
      {P : Protobuf} (m : Message P) (s : DhtServer K)
      → OfBytes m
      → Fine s.routing_table
      → Fine (find_node_async K P m s).0.routing_table
  unfolding find_node_async
  find_node_async-Fine {P} m s bytes fine = elim (Bool-cases (validate_request m)) [
    | inr invalid ↦ rw invalid fine
    | inl valid ↦ rw valid (
        after-Fine (answer_find_node K P m) (admit_sender K P m s)
          (λ u t. ap (λ (x : DhtServer K). x.routing_table) (answer_find_node_state m u t))
          (admit_sender-Fine m bytes s fine))
  ]

  pub ping_async-Fine :
      {P : Protobuf} (m : Message P) (s : DhtServer K)
      → OfBytes m
      → Fine s.routing_table
      → Fine (ping_async K P m s).0.routing_table
  unfolding ping_async answer_ping
  ping_async-Fine {P} m s bytes fine = elim (Bool-cases (validate_request m)) [
    | inr invalid ↦ rw invalid fine
    | inl valid ↦ rw valid (
        after-Fine (answer_ping K P m) (admit_sender K P m s) (λ u t. refl)
          (admit_sender-Fine m bytes s fine))
  ]
