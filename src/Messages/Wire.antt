-- ===== src/Messages/Wire.antt =====
-- The wire format of `Message` and `Peer` of src/messages/routing.rs: `write_to_with_cached_sizes`,
-- `merge_from`, `clear` and `is_initialized`. Messages come over serde, which leaves unknown fields out,
-- so that none is written; those that `merge_from` meets are read and dropped.
pub mod Pieces
pub mod Written
pub mod Turns
pub mod Merged
pub mod Fresh
pub mod Sized
mod Tests
use dht_kad_rs.Base.{
  ℕ, zero, suc, Bool, true, false, List, [], ◌∷◌, Option, none, some, eqb, length, if◌then◌else◌,
  done, exhausted, Result, ok,
}
use dht_kad_rs.Kvstore.{Bytes}
use dht_kad_rs.Messages.Types.{Protobuf, ProtoPeer, Message, MessageType, ErrorCode}
use dht_kad_rs.Messages.Coded.{Coding, Coded, ◌>>=◌, succeed, fail}

-- `Peer::is_initialized`, and `Message::is_initialized` with its two loops.
unfoldable pub peer_is_initialized : ProtoPeer → Bool
peer_is_initialized p = true

unfoldable pub all_initialized : List ProtoPeer → Bool
all_initialized [] = true
all_initialized (p ∷ ps) = if peer_is_initialized p then all_initialized ps else false

-- A `SingularPtrField` as a sequence of one element at most.
abbrev pub to_list {ℓ} : {A : Type ℓ} → Option A → List A
to_list none = []
to_list (some a) = a ∷ []

unfoldable pub is_initialized : {P : Protobuf} → Message P → Bool
is_initialized m =
    if all_initialized m.closer_peers then all_initialized (to_list m.myself) else false

-- `Peer::new` and `Clear`.
unfoldable pub new_peer : ProtoPeer
new_peer = record { id = []; addrs = [] }

unfoldable pub clear : {P : Protobuf} → Message P → Message P
clear {P} m = record {
  field_type = P.types.new MessageType.store;
  key = [];
  value = [];
  closer_peers = [];
  myself = none;
  code = P.codes.new ErrorCode.ok;
}

module _ {P : Protobuf} (C : Coded P) where
  abbrev pub Writer : Type 0
  Writer = Coding C.Error C.Out (Unit {0})

  abbrev pub Reader : Type 0 → Type 0
  Reader A = Coding C.Error C.In A

  -- A bytes field that is empty is not written.
  unfoldable pub write_bytes_field : ℕ → Bytes → Writer
  write_bytes_field n bytes = if eqb (length bytes) 0 then succeed tt else C.write_bytes n bytes

  -- `Peer::write_to_with_cached_sizes`.
  unfoldable pub write_peer : ProtoPeer → Writer
  write_peer p = do _ ← write_bytes_field 1 p.id; write_bytes_field 2 p.addrs

  -- The loop over `closerPeers`.
  unfoldable pub write_peers : List ProtoPeer → Writer
  write_peers [] = succeed tt
  write_peers (p ∷ ps) = do _ ← C.write_message_field 4 (write_peer p); write_peers ps

  unfoldable pub write_myself : Option ProtoPeer → Writer
  write_myself none = succeed tt
  write_myself (some p) = C.write_message_field 5 (write_peer p)

  -- An enum field that holds its default is not written.
  unfoldable pub write_enum_field : ℕ → Bool → ℕ → Writer
  write_enum_field n is_default raw = if is_default then succeed tt else C.write_enum n raw

  -- `Message::write_to_with_cached_sizes`.
  unfoldable pub write_message : Message P → Writer
  write_message m = do
    _ ←
        write_enum_field 1 (C.type_eq m.field_type (P.types.new MessageType.store))
          (C.type_raw m.field_type)
    _ ← write_bytes_field 2 m.key
    _ ← write_bytes_field 3 m.value
    _ ← write_peers m.closer_peers
    _ ← write_myself m.myself
    write_enum_field 6 (C.code_eq m.code (P.codes.new ErrorCode.ok)) (C.code_raw m.code)

  -- The match of `Peer::merge_from` on the number of a field.
  unfoldable pub merge_peer_field : ℕ → C.WireType → ProtoPeer → Reader ProtoPeer
  merge_peer_field n wire p =
      if eqb n 1
      then (C.read_bytes_into wire p.id >>= λ id. succeed (record p { id = id }))
      else if eqb n 2
      then (C.read_bytes_into wire p.addrs >>= λ addrs. succeed (record p { addrs = addrs }))
      else (C.read_unknown n wire >>= λ _. succeed p)

  -- The loop of a `merge_from`: one field after the other until the end of the input.
  unfoldable pub merge_fields : {A : Type 0} → (ℕ → C.WireType → A → Reader A) → ℕ → A → Reader A
  merge_fields field zero a i = (i, exhausted)
  merge_fields field (suc fuel) a i =
      (C.eof >>= λ at_end. elim at_end [
        | true ↦ succeed a
        | false ↦ C.read_tag_unpack >>= λ t. field t.0 t.1 a >>= λ a'. merge_fields field fuel a'
      ])
        i

  -- `Peer::merge_from`.
  unfoldable pub merge_peer : ℕ → ProtoPeer → Reader ProtoPeer
  merge_peer fuel p = merge_fields merge_peer_field fuel p

  -- The match of `Message::merge_from`.
  unfoldable pub merge_message_field : ℕ → ℕ → C.WireType → Message P → Reader (Message P)
  merge_message_field fuel n wire m =
      if eqb n 1
      then if C.is_varint wire
        then (C.read_type >>= λ t. succeed (record m { field_type = t }))
        else fail (C.unexpected_wire_type wire)
      else if eqb n 2
      then (C.read_bytes_into wire m.key >>= λ key. succeed (record m { key = key }))
      else if eqb n 3
      then (C.read_bytes_into wire m.value >>= λ value. succeed (record m { value = value }))
      else if eqb n 4
      then (C.read_repeated_into (merge_peer fuel) new_peer wire m.closer_peers >>= λ ps.
          succeed (record m { closer_peers = ps }))
      else if eqb n 5
      then (C.read_singular_into (merge_peer fuel) new_peer wire m.myself >>= λ p.
          succeed (record m { myself = p }))
      else if eqb n 6
      then if C.is_varint wire
        then (C.read_code >>= λ c. succeed (record m { code = c }))
        else fail (C.unexpected_wire_type wire)
      else (C.read_unknown n wire >>= λ _. succeed m)

  -- `Message::merge_from`.
  unfoldable pub merge_message : ℕ → Message P → Reader (Message P)
  merge_message fuel m = merge_fields (merge_message_field fuel) fuel m
