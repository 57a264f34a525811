-- ===== src/Keyutil/Tests.antt =====
-- Identifiers of the source's own test, and the theorems of `Prefix` and `Bytes` at them.
use dht_kad_rs.Base.{ℕ, ◌*◌, ◌^◌, ◌<◌, ◌≡◌, refl, ◌↔◌, List, [], ◌∷◌, none}
use dht_kad_rs.Keyutil.{
  leading_zeros, common_prefix_length, key_from_bytes, key_to_bytes, to_be_bytes,
}
use dht_kad_rs.Keyutil.Bytes.{key_from_bytes_panics}

-- The identifiers that start with the bytes 0x10, 0x20 and 0x40.
abbrev id1 : ℕ
id1 = 0x10 * 2 ^ 120

abbrev id2 : ℕ
id2 = 0x20 * 2 ^ 120

abbrev id3 : ℕ
id3 = 0x40 * 2 ^ 120

abbrev sixteen : List ℕ
sixteen = 16 ∷ 1 ∷ 2 ∷ 3 ∷ 4 ∷ 5 ∷ 6 ∷ 7 ∷ 8 ∷ 9 ∷ 10 ∷ 11 ∷ 12 ∷ 13 ∷ 14 ∷ 15 ∷ []

prefix_of_id2 : common_prefix_length id1 id2 ≡ 2
unfolding common_prefix_length leading_zeros
prefix_of_id2 = refl

prefix_of_id3 : common_prefix_length id1 id3 ≡ 1
unfolding common_prefix_length leading_zeros
prefix_of_id3 = refl

bytes_of_id1 : key_to_bytes 258 ≡ 0 ∷ 0 ∷ 0 ∷ 0 ∷ 0 ∷ 0 ∷ 0 ∷ 0 ∷ 0 ∷ 0 ∷ 0 ∷ 0 ∷ 0 ∷ 0 ∷ 1 ∷ 2 ∷ []
unfolding key_to_bytes to_be_bytes
bytes_of_id1 = refl

key_from_bytes_panics_example : (key_from_bytes (1 ∷ 2 ∷ []) ≡ none) ↔ (2 < 16)
key_from_bytes_panics_example = key_from_bytes_panics (1 ∷ 2 ∷ [])
