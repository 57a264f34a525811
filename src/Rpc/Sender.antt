-- ===== src/Rpc/Sender.antt =====
-- What a request that is accepted does before it is answered: its sender enters the routing table.
use dht_kad_rs.Base
use dht_kad_rs.Base.{
  ap, ◌∙◌, ℕ, ◌≤◌, ◌<◌, ◌≡◌, refl, inl, inr, length, some, none, true, false, arith, Outcome, done,
  panicked, Result, ok, err, unwrap,
}
use dht_kad_rs.Keyutil.{IsKey}
use dht_kad_rs.Kvstore.{KvStore}
use dht_kad_rs.Messages.{Protobuf, ProtoPeer, Message}
use dht_kad_rs.Messages.Utf8.{IsText, from_utf8-text}
use dht_kad_rs.Messages.Util.{validate_request, proto_peer_to_peer, proto_peer_from_peer}
use dht_kad_rs.Messages.Validity.{CanSend, IsFrom}
use dht_kad_rs.RoutingTable.{RoutingTable, update}
use dht_kad_rs.RoutingTable.Peers.{Peer}
use dht_kad_rs.RoutingTable.Invariant.{IsWellFormed}
use dht_kad_rs.RoutingTable.Inserted.{Inserted, Kept, Reply}
use dht_kad_rs.RoutingTable.Update.{update_lem}
use dht_kad_rs.Rpc.{table_after_reply, update_routing_table, admit, admit_sender}
use dht_kad_rs.Rpc.State.{DhtServer, lift, written, bind_done}

-- A server in good order.
pub record IsReady {K : KvStore} (s : DhtServer K) : Type 0 where
  pub well_formed : IsWellFormed s.routing_table
  pub room : 0 < s.routing_table.k

-- The sender of `m` reads as `p`, a peer that the table can take.
pub record SentBy {P : Protobuf} (m : Message P) (p : Peer) : Type 0 where
  pub valid : validate_request m ≡ true
  pub proto : ProtoPeer
  pub sent : m.myself ≡ some proto
  pub text : IsText proto.addrs
  pub reads : proto_peer_to_peer proto ≡ done p
  pub key : IsKey p.id

-- The server with another table.
abbrev pub with_table : {K : KvStore} → DhtServer K → RoutingTable → DhtServer K
with_table s rt = record s { routing_table = rt }

table_after_reply_lem :
    (mp : ProtoPeer) (r : Reply) → IsText mp.addrs → table_after_reply mp r ≡ done (r.0, tt)
unfolding table_after_reply
table_after_reply_lem mp (rt, ok u) text = refl
table_after_reply_lem mp (rt, err e) text = rw (from_utf8-text mp.addrs text)

update_routing_table_lem :
    (rt : RoutingTable) (mp : ProtoPeer) (p : Peer) (r : Reply)
    → proto_peer_to_peer mp ≡ done p
    → IsText mp.addrs
    → update rt p ≡ done r
    → update_routing_table rt mp ≡ done (r.0, tt)
unfolding update_routing_table
update_routing_table_lem rt mp p r reads text e =
    rw (reads, Base.◌>>=◌, e, Base.◌>>=◌, table_after_reply_lem mp r text)

module _ {K : KvStore} {P : Protobuf} (m : Message P) (p : Peer) (s : DhtServer K)
    (ready : IsReady s) (from : SentBy m p) where
  pub admit_sender_lem :
      (r : Reply) × (admit_sender K P m s ≡ (with_table s r.0, done tt))
      × (update s.routing_table p ≡ done r)
      × Kept s.routing_table r
      × Inserted s.routing_table p r
  unfolding admit admit_sender
  admit_sender_lem =
      let (r, e, kept, inserted) =
        update_lem s.routing_table p ready.well_formed ready.room from.key in
      let entered =
        update_routing_table_lem s.routing_table from.proto p r from.reads from.text e in
      (
        r,
        bind_done (lift (unwrap m.myself)) (admit K P) (ap (λ o. (s, unwrap o)) from.sent)
            ∙ ap (written s) entered,
        e,
        kept,
        inserted,
      )

-- A request that this library makes for a peer that can send is sent by that peer.
pub request-SentBy : {P : Protobuf} (m : Message P) (p : Peer) → CanSend p → IsFrom m p → SentBy m p
unfolding proto_peer_from_peer
request-SentBy m p can from = record {
  valid = from.valid;
  proto = proto_peer_from_peer p;
  sent = from.sender;
  text = can.text;
  reads = from.reads;
  key = can.key;
}
