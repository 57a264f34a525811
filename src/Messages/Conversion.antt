-- ===== src/Messages/Conversion.antt =====
-- Peers on their way through a message.
use dht_kad_rs.Base.{
  bind-returns, unwrap, unwrap-returns, ap, subst, ◌≤◌, ◌<◌, ◌≡◌, refl, ◌↔◌, ◌⊎◌, inl, inr, length,
  done, panicked, arith, Option-cases, false,
}
use dht_kad_rs.Keyutil.{IsKey, key_from_bytes}
use dht_kad_rs.Keyutil.Bytes.{
  key_from_bytes-key_to_bytes, key_from_bytes_panics, key_from_bytes-IsKey, IsBytes,
}
use dht_kad_rs.Messages.Types.{ProtoPeer}
use dht_kad_rs.Messages.Utf8.{IsText, from_utf8, from_utf8-text, is_utf8}
use dht_kad_rs.Messages.Util.{proto_peer_to_peer, proto_peer_from_peer}
use dht_kad_rs.RoutingTable.Peers.{Peer}

-- A peer with an identifier of 128 bits and a text for an address comes back whole.
pub proto_peer_to_peer-proto_peer_from_peer :
    (p : Peer)
    → IsKey p.id
    → IsText p.address
    → proto_peer_to_peer (proto_peer_from_peer p) ≡ done p
unfolding proto_peer_to_peer proto_peer_from_peer
proto_peer_to_peer-proto_peer_from_peer p key text =
    rw (key_from_bytes-key_to_bytes p.id key, from_utf8-text p.address text)

-- `proto_peer_to_peer` panics exactly on an identifier of fewer than sixteen bytes or on an address
-- that is no text.
pub proto_peer_to_peer_panics :
    (mp : ProtoPeer)
    → (proto_peer_to_peer mp ≡ panicked) ↔ ((length mp.id < 16) ⊎ (is_utf8 mp.addrs ≡ false))
unfolding proto_peer_to_peer from_utf8
proto_peer_to_peer_panics mp = elim (Option-cases (key_from_bytes mp.id)) [
  | inl short ↦ let few = (key_from_bytes_panics mp.id).0 short in (λ _. inl few, λ _. rw short)
  | inr (k, read) ↦ (
    λ e. inr (ground arith),
    λ bad. elim bad [
      | inl few ↦ cc ((key_from_bytes_panics mp.id).1 few)
      | inr no_text ↦ rw (read, no_text)
    ],
  )
]

-- On sixteen bytes or more and a text, the conversion returns a peer with that text and a `u128`.
pub proto_peer_to_peer_returns :
    (mp : ProtoPeer)
    → IsBytes mp.id
    → 16 ≤ length mp.id
    → IsText mp.addrs
    → (p : Peer) × (proto_peer_to_peer mp ≡ done p) × IsKey p.id × (p.address ≡ mp.addrs)
unfolding proto_peer_to_peer
proto_peer_to_peer_returns mp bytes enough text = elim (Option-cases (key_from_bytes mp.id)) [
  | inl short ↦ absurd (omega (arith, (key_from_bytes_panics mp.id).0 short))
  | inr (k, read) ↦ (
    record { id = k; address = mp.addrs },
    rw (read, from_utf8-text mp.addrs text),
    key_from_bytes-IsKey mp.id bytes read,
    refl,
  )
]

-- What a conversion returns has a `u128`, since the message is made of bytes.
pub proto_peer_to_peer-IsKey :
    (mp : ProtoPeer) {p : Peer} → IsBytes mp.id → proto_peer_to_peer mp ≡ done p → IsKey p.id
unfolding proto_peer_to_peer
proto_peer_to_peer-IsKey mp {p} bytes e =
    let (id, e1, e2) = bind-returns (unwrap (key_from_bytes mp.id)) e in
    let key = key_from_bytes-IsKey mp.id bytes (unwrap-returns (key_from_bytes mp.id) e1) in
    let (addr, e3, e4) = bind-returns (unwrap (from_utf8 mp.addrs)) e2 in
    let same : record { id = id; address = addr } ≡ p = cc in
    subst IsKey (ap (λ (q : Peer). q.id) same) key
