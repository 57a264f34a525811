-- ===== src/Messages/Util.antt =====
-- src/messages/util.rs, and `RPCError` of src/lib.rs.
use dht_kad_rs.Base.{
  ℕ, Bool, true, false, List, map, none, some, eqb, if◌then◌else◌, length, Outcome, done, ◌>>=◌,
  unwrap, Result, ok, err,
}
use dht_kad_rs.Base.Text.{codes}
use dht_kad_rs.Keyutil.{key_from_bytes, key_to_bytes}
use dht_kad_rs.Kvstore.{Bytes}
use dht_kad_rs.Messages.Types.{
  MessageType, ErrorCode, Protobuf, ProtoPeer, Message, new_message, code_of,
}
use dht_kad_rs.Messages.Utf8.{from_utf8, is_utf8}
use dht_kad_rs.RoutingTable.Peers.{Peer}

-- `io::Error`, of which the source reads the text alone.
pub record IoError : Type 0 where
  pub text : List ℕ

pub record RpcError : Type 0 where
  pub error_code : ErrorCode
  pub message : List ℕ

-- Panics on an identifier of fewer than sixteen bytes and on an address that is no text.
unfoldable pub proto_peer_to_peer : ProtoPeer → Outcome Peer
proto_peer_to_peer mp = do
  id ← unwrap (key_from_bytes mp.id)
  address ← unwrap (from_utf8 mp.addrs)
  done (record { id = id; address = address })

unfoldable pub proto_peer_from_peer : Peer → ProtoPeer
proto_peer_from_peer p = record { id = key_to_bytes p.id; addrs = p.address }

module _ (P : Protobuf) where
  unfoldable pub create_find_node_request : ℕ → Peer → Message P
  unfolding new_message
  create_find_node_request target myself = record (new_message P) {
    field_type = P.types.new MessageType.find_node;
    key = key_to_bytes target;
    myself = some (proto_peer_from_peer myself);
  }

  unfoldable pub create_find_value_request : ℕ → Peer → Message P
  unfolding new_message
  create_find_value_request key myself = record (new_message P) {
    field_type = P.types.new MessageType.find_value;
    key = key_to_bytes key;
    myself = some (proto_peer_from_peer myself);
  }

  unfoldable pub create_ping_request : Peer → Message P
  unfolding new_message
  create_ping_request myself = record (new_message P) {
    field_type = P.types.new MessageType.ping;
    myself = some (proto_peer_from_peer myself);
  }

  unfoldable pub create_store_request : Peer → ℕ → Bytes → Message P
  unfolding new_message
  create_store_request myself key value = record (new_message P) {
    field_type = P.types.new MessageType.store;
    key = key_to_bytes key;
    value = value;
    myself = some (proto_peer_from_peer myself);
  }

  unfoldable pub create_invalid_response : Message P
  unfolding new_message
  create_invalid_response = record (new_message P) { code = P.codes.new ErrorCode.bad_request }

  unfoldable pub create_store_response : Bool → Message P
  unfolding new_message
  create_store_response success = record (new_message P) {
    field_type = P.types.new MessageType.store;
    code = P.codes.new (if success then ErrorCode.ok else ErrorCode.internal_error);
  }

  unfoldable pub create_find_value_response : Bytes → Bytes → Message P
  unfolding new_message
  create_find_value_response key value = record (new_message P) { key = key; value = value }

  unfoldable pub create_find_node_response : List Peer → Message P
  unfolding new_message
  create_find_node_response peers = record (new_message P) {
    closer_peers = map proto_peer_from_peer peers;
  }

  unfoldable pub create_ping_response : Message P
  create_ping_response = new_message P

-- `==` on error codes.
abbrev pub is_ok : ErrorCode → Bool
is_ok ErrorCode.ok = true
is_ok _ = false

unfoldable pub validate_store_result :
    {P : Protobuf} → Result (Message P) IoError → Result (Unit {0}) RpcError
validate_store_result (ok m) =
    if is_ok (code_of m)
    then ok tt
    else err (record { error_code = code_of m; message = codes "RPC failed" })
validate_store_result (err e) =
    err (record { error_code = ErrorCode.internal_error; message = e.text })

-- The sender of a request has an identifier and an address that is a text.
abbrev pub validate_sender : ProtoPeer → Bool
validate_sender p =
    if eqb (length p.id) 0 then false else if eqb (length p.addrs) 0 then false else is_utf8 p.addrs

unfoldable pub validate_request : {P : Protobuf} → Message P → Bool
validate_request m = elim m.myself [ none ↦ false | some p ↦ validate_sender p ]
