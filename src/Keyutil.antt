-- ===== src/Keyutil.antt =====
-- src/keyutil.rs: identifiers are `u128`, their distance is the exclusive or, and their wire form is
-- sixteen bytes, most significant first. The hasher of `calculate_hash`
-- is a parameter; `create_id` is a random number.
pub mod Prefix
pub mod Bytes
pub mod UnitTests
mod Tests
use dht_kad_rs.Base.{
  ℕ, zero, suc, ◌+◌, ◌*◌, ◌/◌, ◌%◌, ◌^◌, ◌<◌, bit_xor, List, [], ◌∷◌, Option, none, some, ltb,
  if◌then◌else◌, take, length,
}

-- The range of `u128`.
abbrev pub IsKey : ℕ → Type 0
IsKey a = a < 2 ^ 128

-- `leading_zeros` of a word of `w` bits: the bit of weight `2 ^ (w - 1)` is looked at first.
unfoldable pub leading_zeros : ℕ → ℕ → ℕ
leading_zeros zero x = 0
leading_zeros (suc w) x = if ltb x (2 ^ w) then suc (leading_zeros w x) else 0

unfoldable pub common_prefix_length : ℕ → ℕ → ℕ
common_prefix_length a b = leading_zeros 128 (bit_xor a b)

-- `u128::from_be_bytes`, by Horner's rule.
unfoldable pub from_be_bytes : ℕ → List ℕ → ℕ
from_be_bytes acc [] = acc
from_be_bytes acc (b ∷ bs) = from_be_bytes (acc * 256 + b) bs

-- `u128::to_be_bytes`, the low `n` bytes.
unfoldable pub to_be_bytes : ℕ → ℕ → List ℕ
to_be_bytes zero k = []
to_be_bytes (suc n) k = (k / 256 ^ n) % 256 ∷ to_be_bytes n k

-- `none` is the panic of the slice `k[0..16]` on fewer than sixteen bytes.
unfoldable pub key_from_bytes : List ℕ → Option ℕ
key_from_bytes k = if ltb (length k) 16 then none else some (from_be_bytes 0 (take 16 k))

unfoldable pub key_to_bytes : ℕ → List ℕ
key_to_bytes k = to_be_bytes 16 k

-- `fasthash::spooky::Hasher128`. `Hash::hash_slice` of bytes is one write of them.
pub record Hasher128 : Type 1 where
  pub State : Type 0
  pub new : State
  pub write : State → List ℕ → State
  pub finish_ext : State → ℕ

unfoldable pub calculate_hash : Hasher128 → List ℕ → ℕ
calculate_hash h key = h.finish_ext (h.write h.new key)
