-- ===== src/Client/Understood.antt =====
-- What a server of this library answers, a client of it can read.
use mathlib.Core.List.{mem-cons, not-mem-nil, Nodup-nil}
use mathlib.Core.Logic.Or
use dht_kad_rs.Base.{
  ◌<◌, ◌≡◌, ◌⊎◌, refl, sym, subst, List, [], ◌∷◌, map, All, All-Mem, Mem, Nodup, Bool-cases,
  Option-cases, inl, inr, Option, some, true, length, Outcome, done, panicked,
}
use dht_kad_rs.Keyutil.{key_from_bytes}
use dht_kad_rs.Keyutil.Bytes.{key_from_bytes_panics, key_from_bytes-IsKey}
use dht_kad_rs.Kvstore.{Bytes, KvStore}
use dht_kad_rs.Kvstore.Laws.{IsMap}
use dht_kad_rs.Messages.{Protobuf, ProtoPeer, Message}
use dht_kad_rs.Messages.Conversion.{proto_peer_to_peer-proto_peer_from_peer}
use dht_kad_rs.Messages.Utf8.{from_utf8-text}
use dht_kad_rs.Messages.Util.{
  validate_request, proto_peer_from_peer, proto_peer_to_peer, create_invalid_response,
  create_store_response, create_find_node_response, create_find_value_response,
  create_ping_response,
}
use dht_kad_rs.Messages.Validity.{CanSend, CanSend-prop, validate_request_iff}
use dht_kad_rs.RoutingTable.Members.{members}
use dht_kad_rs.RoutingTable.Inserted.{members-Inserted}
use dht_kad_rs.RoutingTable.Peers.{Peer}
use dht_kad_rs.Rpc.{Method, serve, find_node_async}
use dht_kad_rs.Rpc.State.{DhtServer}
use dht_kad_rs.Rpc.Sender.{IsReady, SentBy}
use dht_kad_rs.Rpc.Rejected.{serve_invalid, serve_short_id}
use dht_kad_rs.Rpc.Answered.{
  Entered, store_async_lem, find_node_async_lem, find_node_async_panics, find_value_async_hit,
  find_value_async_miss, ping_async_lem,
}
use dht_kad_rs.Rpc.Interleaved.Kept.{OfBytes}
use dht_kad_rs.Client.{closer}

-- What the client reads where a server wrote `peers`.
pub closer-map :
    (peers : List Peer) → All CanSend peers → closer (map proto_peer_from_peer peers) ≡ done peers
unfolding closer
closer-map [] can = refl
closer-map (p ∷ ps) (c, can) =
    rw (proto_peer_to_peer-proto_peer_from_peer p c.key c.text, closer-map ps can)

-- Each of these peers has an identifier of 128 bits and a text for an address.
abbrev Named : List Peer → Type 0
Named ps = (q : Peer) → Mem q ps → CanSend q

-- A server in good order whose table holds such peers alone.
pub record IsOrderly {K : KvStore} (s : DhtServer K) : Type 0 where
  pub ready : IsReady s
  pub named : (q : Peer) → Mem q (members s.routing_table) → CanSend q

-- The identifier of the sender or the key has fewer than sixteen bytes.
abbrev pub IsShort : {P : Protobuf} → Message P → Type 0
IsShort m = ((mp : ProtoPeer) × (m.myself ≡ some mp) × (length mp.id < 16)) ⊎ (length m.key < 16)

-- How a request ends: with a message whose peers a client can read, distinct and such that it can ask
-- them in turn, or with a panic on a short identifier or key.
pub data Understood {P : Protobuf} (m : Message P) : Outcome (Message P) → Type 0 where
  reads :
      {r : Message P} (ps : List Peer)
      → closer r.closer_peers ≡ done ps
      → Nodup ps
      → ((q : Peer) → Mem q ps → CanSend q)
      → Understood m (done r)
  panics : IsShort m → Understood m panicked

reads_nobody : {P : Protobuf} (m r : Message P) → r.closer_peers ≡ [] → Understood m (done r)
unfolding closer
reads_nobody m r e = reads [] (rw e refl) Nodup-nil (λ q mq. absurd (not-mem-nil mq))

-- The sender of a request that passes the check, if its identifier is long enough.
sender_reads :
    {P : Protobuf} (m : Message P)
    → validate_request m ≡ true
    → OfBytes m
    → ((mp : ProtoPeer) × (m.myself ≡ some mp) × (length mp.id < 16))
      ⊎ ((p : Peer) × SentBy m p × CanSend p)
unfolding proto_peer_to_peer
sender_reads m valid bytes =
    let (mp, sent, sender) = (validate_request_iff m).0 valid in
    elim (Option-cases (key_from_bytes mp.id)) [
      | inl short ↦ inl (mp, sent, (key_from_bytes_panics mp.id).0 short)
      | inr (k, read) ↦
          let key = key_from_bytes-IsKey mp.id (bytes mp sent) read in
          inr (
            record { id = k; address = mp.addrs },
            record {
              valid = valid;
              proto = mp;
              sent = sent;
              text = sender.text;
              reads = rw (read, from_utf8-text mp.addrs sender.text);
              key = key;
            },
            record { key = key; reachable = sender.reachable; text = sender.text },
          )
    ]

Entered-IsOrderly :
    {K : KvStore} (s s' : DhtServer K) (p : Peer)
    → CanSend p
    → IsOrderly s
    → Entered s p s'
    → IsOrderly s'
Entered-IsOrderly s s' p can h entered = record {
  ready = entered.ready;
  named = λ q m.
      Or.elim (CanSend-prop q) (mem-cons.0 ((members-Inserted entered.inserted).1 q m))
        (λ z. subst CanSend (sym z) can) (h.named q);
}

module _ (K : KvStore) (P : Protobuf) {view : K.Store → Bytes → Option Bytes}
    (map_law : IsMap K view) where
  -- How a method ends on a server.
  abbrev Serves : Message P → DhtServer K × Outcome (Message P) → Type 0
  Serves m (s', o) = IsOrderly s' × Understood m o

  find_node-Serves :
      (m : Message P) (p : Peer) (s : DhtServer K)
      → SentBy m p
      → CanSend p
      → IsOrderly s
      → Serves m (find_node_async K P m s)
  unfolding create_find_node_response
  find_node-Serves m p s from can h = elim (Option-cases (key_from_bytes m.key)) [
    | inl short ↦
        let few = (key_from_bytes_panics m.key).0 short in
        let (s', e, entered) = find_node_async_panics m p s h.ready from few in
        rw e (Entered-IsOrderly s s' p can h entered, panics (inr few))
    | inr (target, read) ↦
        let (s', peers, e, entered, _, _, near) =
          find_node_async_lem m p s h.ready from target read in
        let h' = Entered-IsOrderly s s' p can h entered in
        let named = λ (q : Peer) (mq : Mem q peers). h'.named q (near.from_table q mq) in
        rw e (h', reads peers (closer-map peers (All-Mem CanSend peers named)) near.distinct named)
  ]

  find_value-Serves :
      (m : Message P) (p : Peer) (s : DhtServer K)
      → SentBy m p
      → CanSend p
      → IsOrderly s
      → Serves m (serve K P Method.find_value m s)
  unfolding serve create_find_value_response
  find_value-Serves m p s from can h = elim (Option-cases (view s.kvstore m.key)) [
    | inr (v, has) ↦
        let (s', e, entered, _) = find_value_async_hit m p s h.ready from map_law v has in
        rw e (Entered-IsOrderly s s' p can h entered, reads_nobody m _ refl)
    | inl missing ↦
        let (s', e, entered, _) = find_value_async_miss m p s h.ready from map_law missing in
        rw e (find_node-Serves m p s' from can (Entered-IsOrderly s s' p can h entered))
  ]

  valid-Serves :
      (c : Method) (m : Message P) (p : Peer) (s : DhtServer K)
      → SentBy m p
      → CanSend p
      → IsOrderly s
      → Serves m (serve K P c m s)
  unfolding serve create_store_response create_ping_response
  valid-Serves Method.store m p s from can h =
      let (s', e, entered, _) = store_async_lem m p s h.ready from map_law in
      rw e (Entered-IsOrderly s s' p can h entered, reads_nobody m _ refl)
  valid-Serves Method.find_node m p s from can h = find_node-Serves m p s from can h
  valid-Serves Method.find_value m p s from can h = find_value-Serves m p s from can h
  valid-Serves Method.ping m p s from can h =
      let (s', e, entered, _) = ping_async_lem m p s h.ready from in
      rw e (Entered-IsOrderly s s' p can h entered, reads_nobody m _ refl)

  -- A server in good order, whose table holds peers that can send alone, gets any request whose sender,
  -- if it has one, has an identifier of bytes. It is in good order after that, and its table holds peers
  -- that can send alone. The request ends with an answer whose peers a client can read, which are
  -- distinct and can send; or it panics, and then the identifier of its sender or its key has fewer than
  -- sixteen bytes.
  pub serve-Understood :
      (c : Method) (m : Message P) (s : DhtServer K)
      → OfBytes m
      → IsOrderly s
      → IsOrderly (serve K P c m s).0 × Understood m (serve K P c m s).1
  unfolding create_invalid_response
  serve-Understood c m s bytes h = elim (Bool-cases (validate_request m)) [
    | inr invalid ↦ rw (serve_invalid K P c m s invalid) (h, reads_nobody m _ refl)
    | inl valid ↦ elim (sender_reads m valid bytes) [
      | inl (mp, sent, short) ↦
          rw (serve_short_id K P c m mp s valid sent short) (h, panics (inl (mp, sent, short)))
      | inr (p, from, can) ↦ valid-Serves c m p s from can h
    ]
  ]
