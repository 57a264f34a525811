-- ===== src/Messages/Types.antt =====
-- `Message`, `Peer`, `MessageType` and `ErrorCode` of src/messages/routing.rs.
use dht_kad_rs.Base.{◌≡◌, List, [], Option, none}
use dht_kad_rs.Kvstore.{Bytes}

pub data MessageType : Type 0 where
  store : MessageType
  find_value : MessageType
  find_node : MessageType
  ping : MessageType

pub data ErrorCode : Type 0 where
  ok : ErrorCode
  internal_error : ErrorCode
  not_found : ErrorCode
  bad_request : ErrorCode

-- The `Default` of each.
abbrev pub default_type : MessageType
default_type = store

abbrev pub default_code : ErrorCode
default_code = ErrorCode.ok

-- `ProtobufEnumOrUnknown<E>` holds a number off the wire, which may stand for no `E`. Documented: a
-- field made from a value reads as that value, and a field never set reads as the default.
pub record EnumOrUnknown (E : Type 0) (default : E) : Type 1 where
  pub Field : Type 0
  pub new : E → Field
  pub unset : Field
  pub enum_value_or_default : Field → E
  pub value-new : (e : E) → enum_value_or_default (new e) ≡ e
  pub value-unset : enum_value_or_default unset ≡ default

-- What the messages take from the protobuf crate.
pub record Protobuf : Type 1 where
  pub types : EnumOrUnknown MessageType default_type
  pub codes : EnumOrUnknown ErrorCode default_code

-- `message::Peer`.
pub record ProtoPeer : Type 0 where
  pub id : Bytes
  pub addrs : Bytes

pub record Message (P : Protobuf) : Type 0 where
  pub field_type : P.types.Field
  pub key : Bytes
  pub value : Bytes
  pub closer_peers : List ProtoPeer
  pub myself : Option ProtoPeer
  pub code : P.codes.Field

-- `Message::new`.
unfoldable pub new_message : (P : Protobuf) → Message P
new_message P = record {
  field_type = P.types.unset;
  key = [];
  value = [];
  closer_peers = [];
  myself = none;
  code = P.codes.unset;
}

-- The error code that a message reads as.
abbrev pub code_of : {P : Protobuf} → Message P → ErrorCode
code_of {P} m = P.codes.enum_value_or_default m.code
