-- ===== src/Messages/Coded.antt =====
-- What the wire format of src/messages/routing.rs takes from the protobuf crate: enum fields as numbers,
-- `CodedOutputStream`, `CodedInputStream` and the functions of `protobuf::rt`.
use dht_kad_rs.Base.{ℕ, Bool, List, Option, Outcome, done, panicked, exhausted, Result, ok, err}
use dht_kad_rs.Base.Effects.{Effect}
use dht_kad_rs.Kvstore.{Bytes}
use dht_kad_rs.Messages.Types.{Protobuf}

-- A step on a stream, which may fail. `?` goes on after a success only.
abbrev pub Coding : Type 0 → Type 0 → Type 0 → Type 0
Coding E S A = Effect S (Result A E)

module _ {E S : Type 0} where
  abbrev pub try_after :
      {A B : Type 0} → (A → Coding E S B) → S × Outcome (Result A E) → S × Outcome (Result B E)
  try_after f (s, done (ok a)) = f a s
  try_after f (s, done (err e)) = (s, done (err e))
  try_after f (s, panicked) = (s, panicked)
  try_after f (s, exhausted) = (s, exhausted)

  infixl 5 ◌>>=◌
  abbrev pub ◌>>=◌ : {A B : Type 0} → Coding E S A → (A → Coding E S B) → Coding E S B
  ◌>>=◌ m f s = try_after f (m s)

  abbrev pub succeed : {A : Type 0} → A → Coding E S A
  succeed a s = (s, done (ok a))

  abbrev pub fail : {A : Type 0} → E → Coding E S A
  fail e s = (s, done (err e))

pub record Coded (P : Protobuf) : Type 1 where
  -- `ProtobufEnumOrUnknown::value` and its `==`.
  pub type_raw : P.types.Field → ℕ
  pub code_raw : P.codes.Field → ℕ
  pub type_eq : P.types.Field → P.types.Field → Bool
  pub code_eq : P.codes.Field → P.codes.Field → Bool
  pub WireType : Type 0
  pub is_varint : WireType → Bool
  pub Error : Type 0
  pub unexpected_wire_type : WireType → Error
  pub Out : Type 0
  pub write_enum : ℕ → ℕ → Coding Error Out (Unit {0})
  pub write_bytes : ℕ → Bytes → Coding Error Out (Unit {0})
  -- `write_message_field_with_cached_size`, from the writer of the message in the field.
  pub write_message_field : ℕ → Coding Error Out (Unit {0}) → Coding Error Out (Unit {0})
  pub In : Type 0
  pub eof : Coding Error In Bool
  pub read_tag_unpack : Coding Error In (ℕ × WireType)
  -- `read_enum_or_unknown` at each of the two enums.
  pub read_type : Coding Error In P.types.Field
  pub read_code : Coding Error In P.codes.Field
  -- `read_singular_proto3_bytes_into`, `read_repeated_message_into_repeated_field` and
  -- `read_singular_message_into`: from what the field holds to what it holds then. The last two call
  -- the `merge_from` of the message in the field.
  pub read_bytes_into : WireType → Bytes → Coding Error In Bytes
  pub read_repeated_into :
      {A : Type 0} → (A → Coding Error In A) → A → WireType → List A → Coding Error In (List A)
  pub read_singular_into :
      {A : Type 0} → (A → Coding Error In A) → A → WireType → Option A → Coding Error In (Option A)
  -- `read_unknown_or_skip_group`.
  pub read_unknown : ℕ → WireType → Coding Error In (Unit {0})
