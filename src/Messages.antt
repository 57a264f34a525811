-- ===== src/Messages.antt =====
-- The message of src/messages/routing.proto as src/messages/routing.rs declares it, and the requests
-- and responses of src/messages/util.rs. The protobuf crate's `ProtobufEnumOrUnknown` is a parameter;
-- its `RepeatedField` is a list and its `SingularPtrField` an option. `unknown_fields` and
-- `cached_size`, which the wire format alone uses, are left out.
pub mod Utf8
pub mod Types
pub mod Enums
pub mod Util
pub mod Validity
pub mod Conversion
pub mod Coded
pub mod Wire
pub mod Tests
unfoldable pub use Types.*
