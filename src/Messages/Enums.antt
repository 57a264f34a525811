-- ===== src/Messages/Enums.antt =====
-- The numbers of the two enums of src/messages/routing.rs on the wire. An `i32` is its pattern of 32
-- bits, a number below 2^32, so that no negative number is one of 0 to 3.
use dht_kad_rs.Base.{ℕ, ◌≡◌, ◌↔◌, Option, none, some, eqb, if◌then◌else◌, arith}
use dht_kad_rs.Messages.Types.{MessageType, ErrorCode}

-- `MessageType::value`.
unfoldable pub type_value : MessageType → ℕ
type_value MessageType.store = 0
type_value MessageType.find_value = 1
type_value MessageType.find_node = 2
type_value MessageType.ping = 3

-- `MessageType::from_i32`.
unfoldable pub type_from_i32 : ℕ → Option MessageType
type_from_i32 value =
    if eqb value 0
    then some MessageType.store
    else if eqb value 1
    then some MessageType.find_value
    else if eqb value 2
    then some MessageType.find_node
    else if eqb value 3
    then some MessageType.ping
    else none

-- `ErrorCode::value`.
unfoldable pub code_value : ErrorCode → ℕ
code_value ErrorCode.ok = 0
code_value ErrorCode.internal_error = 1
code_value ErrorCode.not_found = 2
code_value ErrorCode.bad_request = 3

-- `ErrorCode::from_i32`.
unfoldable pub code_from_i32 : ℕ → Option ErrorCode
code_from_i32 value =
    if eqb value 0
    then some ErrorCode.ok
    else if eqb value 1
    then some ErrorCode.internal_error
    else if eqb value 2
    then some ErrorCode.not_found
    else if eqb value 3
    then some ErrorCode.bad_request
    else none

-- A number reads as a message type exactly if it is the number of that type.
pub type_from_i32_iff : (n : ℕ) (t : MessageType) → (type_from_i32 n ≡ some t) ↔ (type_value t ≡ n)
unfolding type_from_i32 type_value
type_from_i32_iff n MessageType.store = ground arith
type_from_i32_iff n MessageType.find_value = ground arith
type_from_i32_iff n MessageType.find_node = ground arith
type_from_i32_iff n MessageType.ping = ground arith

-- A number reads as an error code exactly if it is the number of that code.
pub code_from_i32_iff : (n : ℕ) (c : ErrorCode) → (code_from_i32 n ≡ some c) ↔ (code_value c ≡ n)
unfolding code_from_i32 code_value
code_from_i32_iff n ErrorCode.ok = ground arith
code_from_i32_iff n ErrorCode.internal_error = ground arith
code_from_i32_iff n ErrorCode.not_found = ground arith
code_from_i32_iff n ErrorCode.bad_request = ground arith
