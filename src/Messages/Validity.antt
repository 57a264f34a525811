-- ===== src/Messages/Validity.antt =====
-- Which requests `validate_request` lets through, and that the requests of this library are among them.
use native.Mathlib.Bridge.{le_prop}
use dht_kad_rs.Base.{
  ℕ, ◌<◌, ◌≡◌, refl, sym, ◌∙◌, ◌↔◌, done, inl, inr, length, some, none, arith, Option-cases, true,
  false,
}
use dht_kad_rs.Kvstore.{Bytes}
use dht_kad_rs.Messages.Types.{Protobuf, Message, ProtoPeer}
use dht_kad_rs.Messages.Utf8.{IsText}
use dht_kad_rs.Messages.Util.{
  validate_sender, validate_request, proto_peer_from_peer, proto_peer_to_peer,
  create_find_node_request, create_find_value_request, create_ping_request, create_store_request,
}
use dht_kad_rs.RoutingTable.Peers.{Peer}
use dht_kad_rs.Keyutil.{IsKey}
use dht_kad_rs.Messages.Conversion.{proto_peer_to_peer-proto_peer_from_peer}
use dht_kad_rs.Keyutil.Bytes.{length-key_to_bytes}

-- What is asked of a sender.
pub record IsSender (p : ProtoPeer) : Type 0 where
  pub named : 0 < length p.id
  pub reachable : 0 < length p.addrs
  pub text : IsText p.addrs

validate_sender_iff : (p : ProtoPeer) → (validate_sender p ≡ true) ↔ IsSender p
validate_sender_iff p = ground arith

module _ {P : Protobuf} (m : Message P) where
  pub validate_nobody : m.myself ≡ none → validate_request m ≡ false
  unfolding validate_request
  validate_nobody nobody = rw nobody

  pub validate_somebody :
      (p : ProtoPeer) → m.myself ≡ some p → validate_request m ≡ validate_sender p
  unfolding validate_request
  validate_somebody p sent = rw sent

-- `validate_request` accepts a message exactly if it has a sender with a non-empty identifier and a
-- non-empty address that is UTF-8.
pub validate_request_iff :
    {P : Protobuf} (m : Message P)
    → (validate_request m ≡ true) ↔ ((p : ProtoPeer) × (m.myself ≡ some p) × IsSender p)
validate_request_iff m = elim (Option-cases m.myself) [
  | inl nobody ↦ (λ e. cc (validate_nobody m nobody), λ (p, sent, _). cc)
  | inr (p, sent) ↦ (
    λ e. (p, sent, (validate_sender_iff p).0 (sym (validate_somebody m p sent) ∙ e)),
    λ (q, sent', sender). validate_somebody m q sent' ∙ (validate_sender_iff q).1 sender,
  )
]

-- A peer that can send requests.
pub record CanSend (p : Peer) : Type 0 where
  pub key : IsKey p.id
  pub reachable : 0 < length p.address
  pub text : IsText p.address

pub CanSend-prop : (p : Peer) → IsProp (CanSend p)
CanSend-prop p = hlevel (le_prop)

CanSend-IsSender : (p : Peer) → CanSend p → IsSender (proto_peer_from_peer p)
unfolding proto_peer_from_peer
CanSend-IsSender p c = record {
  named = omega (arith, length-key_to_bytes p.id);
  reachable = c.reachable;
  text = c.text;
}

-- `m` passes the check, and its sender reads as `p`.
pub record IsFrom {P : Protobuf} (m : Message P) (p : Peer) : Type 0 where
  pub valid : validate_request m ≡ true
  pub sender : m.myself ≡ some (proto_peer_from_peer p)
  pub reads : proto_peer_to_peer (proto_peer_from_peer p) ≡ done p

sent_by :
    {P : Protobuf} (m : Message P) (p : Peer)
    → CanSend p
    → m.myself ≡ some (proto_peer_from_peer p)
    → IsFrom m p
sent_by m p c sent = record {
  valid = (validate_request_iff m).1 (proto_peer_from_peer p, sent, CanSend-IsSender p c);
  sender = sent;
  reads = proto_peer_to_peer-proto_peer_from_peer p c.key c.text;
}

-- All four requests that a peer with a `u128` and a non-empty text for an address makes are accepted
-- by the check of the receiver, who reads the same peer as their sender.
pub requests-IsFrom :
    (P : Protobuf) (p : Peer) (key : ℕ) (value : Bytes)
    → CanSend p
    → IsFrom (create_store_request P p key value) p
      × IsFrom (create_find_node_request P key p) p
      × IsFrom (create_find_value_request P key p) p
      × IsFrom (create_ping_request P p) p
unfolding create_store_request create_find_node_request create_find_value_request
    create_ping_request
requests-IsFrom P p key value c =
    (sent_by _ p c refl, sent_by _ p c refl, sent_by _ p c refl, sent_by _ p c refl)
