-- ===== src/Client/Queries/Member.antt =====
-- A server among peers of a fixed number: what it answers to a find value names peers among them.
use mathlib.Core.List.{mem-cons, not-mem-nil, Nodup-nil, Mem-prop}
use mathlib.Core.Logic.Or
use dht_kad_rs.Base.{
  ℕ, ◌≡◌, length, refl, sym, ◌∙◌, subst, List, [], All-Mem, Mem, Option, some, Option-cases, inl,
  inr, done, arith, ok,
}
use dht_kad_rs.Keyutil.{IsKey, key_from_bytes, key_to_bytes}
use dht_kad_rs.Keyutil.Bytes.{key_from_bytes-key_to_bytes}
use dht_kad_rs.Kvstore.{Bytes, KvStore}
use dht_kad_rs.Kvstore.Laws.{IsMap}
use dht_kad_rs.Messages.{Protobuf, new_message, Message}
use dht_kad_rs.Messages.Util.{
  create_find_value_request, create_find_value_response, create_ping_response,
  create_find_node_response,
}
use dht_kad_rs.Messages.Validity.{CanSend, requests-IsFrom}
use dht_kad_rs.RoutingTable.{RoutingTable}
use dht_kad_rs.RoutingTable.Members.{members}
use dht_kad_rs.RoutingTable.Inserted.{Inserted, Reply, members-Inserted}
use dht_kad_rs.RoutingTable.Peers.{Peer}
use dht_kad_rs.Client.{closer}
use dht_kad_rs.Client.Understood.{closer-map}
use dht_kad_rs.Client.Queries.Within.{Names}
use dht_kad_rs.Rpc.{Method, serve}
use dht_kad_rs.Rpc.State.{DhtServer}
use dht_kad_rs.Rpc.Sender.{IsReady, SentBy, request-SentBy}
use dht_kad_rs.Rpc.Answered.{
  Entered, find_value_async_hit, find_value_async_miss, find_node_async_lem, ping_async_lem,
}

Inserted-inside :
    (all_peers : List Peer) (rt : RoutingTable) (p : Peer) (r : Reply)
    → Inserted rt p r
    → Mem p all_peers
    → ((q : Peer) → Mem q (members rt) → Mem q all_peers)
    → (q : Peer) → Mem q (members r.0)
    → Mem q all_peers
Inserted-inside all_peers rt p r h here inside q m =
    Or.elim Mem-prop (mem-cons.0 ((members-Inserted h).1 q m))
      (λ z. subst (λ x. Mem x all_peers) (sym z) here) (inside q)

-- A server in good order that knows peers among `all_peers` alone, and whose value for the key, if it has
-- one, is `Held`.
pub record IsMember {K : KvStore} (view : K.Store → Bytes → Option Bytes) (all_peers : List Peer)
    (Held : Bytes → Type 0) (key : Bytes) (s : DhtServer K) : Type 0 where
  pub ready : IsReady s
  pub knows : (q : Peer) → Mem q (members s.routing_table) → Mem q all_peers
  pub holds : (v : Bytes) → view s.kvstore key ≡ some v → Held v

module _ {K : KvStore} (P : Protobuf) {view : K.Store → Bytes → Option Bytes}
    (map_law : IsMap K view) (all_peers : List Peer) (Held : Bytes → Type 0) (key : ℕ)
    (myself : Peer) where
  abbrev Member : DhtServer K → Type 0
  Member = IsMember view all_peers Held (key_to_bytes key)

  Entered-Member :
      (s s' : DhtServer K)
      → Mem myself all_peers
      → Member s
      → Entered s myself s'
      → s'.kvstore ≡ s.kvstore
      → Member s'
  Entered-Member s s' here h entered same = record {
    ready = entered.ready;
    knows = Inserted-inside all_peers s.routing_table myself _ entered.inserted here h.knows;
    holds = λ v has. h.holds v (rw (← same) has);
  }

  -- The call is answered so that its client can read the answer, by a server that is a member after it.
  abbrev pub Replies : Method → Message P → DhtServer K → Type 0
  Replies c m s =
      (s' : DhtServer K) × (r : Message P) × (serve K P c m s ≡ (s', done r))
      × Member s'
      × Names all_peers Held (ok r)

  module _ (here : Mem myself all_peers) (can : (p : Peer) → Mem p all_peers → CanSend p)
      (s : DhtServer K) (h : Member s) where
    Names-nobody :
        (r : Message P) → r.closer_peers ≡ [] → length r.value ≡ 0 → Names all_peers Held (ok r)
    unfolding closer
    Names-nobody r nobody empty = (
      [],
      rw nobody refl,
      Nodup-nil,
      λ p m. absurd (not-mem-nil m),
      λ full. absurd (omega (arith, full, empty)),
    )

    pub Member-find_node :
        (m : Message P) (target : ℕ)
        → SentBy m myself
        → key_from_bytes m.key ≡ some target
        → Replies Method.find_node m s
    unfolding serve create_find_node_response
    Member-find_node m target from reads =
        let (s', peers, e, entered, kv, _, near) =
          find_node_async_lem m myself s h.ready from target reads in
        let h' = Entered-Member s s' here h entered kv in
        let inside = λ (p : Peer) (mp : Mem p peers). h'.knows p (near.from_table p mp) in
        (
          s',
          create_find_node_response P peers,
          e,
          h',
          (
            peers,
            closer-map peers (All-Mem CanSend peers (λ p mp. can p (inside p mp))),
            near.distinct,
            inside,
            λ full. absurd (omega (arith, full)),
          ),
        )

    pub Member-ping : (m : Message P) → SentBy m myself → Replies Method.ping m s
    unfolding serve create_ping_response new_message
    Member-ping m from =
        let (s', e, entered, kv) = ping_async_lem m myself s h.ready from in
        (
          s',
          create_ping_response P,
          e,
          Entered-Member s s' here h entered kv,
          Names-nobody (create_ping_response P) refl refl,
        )

  -- A member answers a find value of another.
  pub Member-find_value :
      (s : DhtServer K)
      → IsKey key
      → Mem myself all_peers
      → ((p : Peer) → Mem p all_peers → CanSend p)
      → Member s
      → Replies Method.find_value (create_find_value_request P key myself) s
  unfolding serve create_find_value_request create_find_value_response closer
  Member-find_value s is_key here can h =
      let m = create_find_value_request P key myself in
      let from =
        request-SentBy m myself (can myself here)
          (requests-IsFrom P myself key [] (can myself here)).2 in
      elim (Option-cases (view s.kvstore (key_to_bytes key))) [
        | inr (v, has) ↦
            let (s', e, entered, kv) = find_value_async_hit m myself s h.ready from map_law v has in
            (
              s',
              create_find_value_response P (key_to_bytes key) v,
              e,
              Entered-Member s s' here h entered kv,
              ([], refl, Nodup-nil, λ p m. absurd (not-mem-nil m), λ _. h.holds v has),
            )
        | inl missing ↦
            let (s1, e, entered, kv) =
              find_value_async_miss m myself s h.ready from map_law missing in
            let h1 = Entered-Member s s1 here h entered kv in
            let (s2, r, e2, h2, names) =
              Member-find_node here can s1 h1 m key from (key_from_bytes-key_to_bytes key is_key) in
            (s2, r, e ∙ e2, h2, names)
      ]
