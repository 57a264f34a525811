-- ===== src/Messages/Tests.antt =====
-- The theorems on messages at a peer, with a protobuf crate whose fields hold the values themselves.
use dht_kad_rs.Base.{refl, [], ◌∷◌, arith}
use dht_kad_rs.Base.Text.{codes}
use dht_kad_rs.Keyutil.{key_to_bytes}
use dht_kad_rs.Messages.Types.{
  EnumOrUnknown, Protobuf, ProtoPeer, MessageType, ErrorCode, default_type, default_code, Message,
}
use dht_kad_rs.Messages.Utf8.{is_utf8}
use dht_kad_rs.Messages.Util.{create_ping_request}
use dht_kad_rs.Messages.Validity.{CanSend}
use dht_kad_rs.RoutingTable.Peers.{Peer}

abbrev pub plain : (E : Type 0) (default : E) → EnumOrUnknown E default
plain E default = record {
  Field = E;
  new = λ e. e;
  unset = default;
  enum_value_or_default = λ e. e;
  value-new = λ e. refl;
  value-unset = refl;
}

abbrev pub plain_protobuf : Protobuf
plain_protobuf = record {
  types = plain MessageType default_type;
  codes = plain ErrorCode default_code;
}

abbrev pub sender : Peer
sender = record { id = 1234; address = codes "0.0.0.0:1234" }

pub sender-CanSend : CanSend sender
unfolding is_utf8
sender-CanSend = record { key = omega arith; reachable = omega arith; text = refl }

abbrev short_sender : ProtoPeer
short_sender = record { id = 7 ∷ []; addrs = codes "0.0.0.0:7" }

abbrev whole_sender : ProtoPeer
whole_sender = record { id = key_to_bytes 1234; addrs = codes "0.0.0.0:7" }

abbrev ping_message : Message plain_protobuf
ping_message = create_ping_request plain_protobuf sender
