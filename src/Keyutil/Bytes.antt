-- ===== src/Keyutil/Bytes.antt =====
-- The sixteen bytes of an identifier, in both directions.
use native.Mathlib.Nat.{div-one}
use dht_kad_rs.Base.{
  ℕ, zero, suc, ◌+◌, ◌*◌, ◌/◌, ◌%◌, ◌^◌, ◌≤◌, ◌<◌, ◌≡◌, refl, ◌∙◌, ap, ap₂, subst, ◌↔◌, arith, List,
  [], ◌∷◌, none, some, length, length-take, take, take_all, dec_le,
}
use dht_kad_rs.Bits.{div-pow-suc}
use dht_kad_rs.Keyutil.{IsKey, from_be_bytes, to_be_bytes, key_from_bytes, key_to_bytes}

-- A `Vec<u8>`.
abbrev pub IsBytes : List ℕ → Type 0
IsBytes [] = Unit {0}
IsBytes (b ∷ bs) = (b < 256) × IsBytes bs

to_be_bytes-IsBytes : (n k : ℕ) → IsBytes (to_be_bytes n k)
unfolding to_be_bytes
to_be_bytes-IsBytes zero k = tt
to_be_bytes-IsBytes (suc n) k = (omega arith, to_be_bytes-IsBytes n k)

length-to_be_bytes : (n k : ℕ) → length (to_be_bytes n k) ≡ n
unfolding to_be_bytes
length-to_be_bytes zero k = refl
length-to_be_bytes (suc n) k = ap suc (length-to_be_bytes n k)

-- The accumulator starts as what lies above the bytes.
from_be_bytes-to_be_bytes : (n k : ℕ) → from_be_bytes (k / 256 ^ n) (to_be_bytes n k) ≡ k
unfolding from_be_bytes to_be_bytes
from_be_bytes-to_be_bytes zero k = div-one k
from_be_bytes-to_be_bytes (suc n) k =
    let split : k / 256 ^ suc n * 256 + k / 256 ^ n % 256 ≡ k / 256 ^ n =
      omega (arith, div-pow-suc 256 n k) in
    rw (from_be_bytes, split) (from_be_bytes-to_be_bytes n k)

from_be_bytes-div :
    (acc : ℕ) (bs : List ℕ) → IsBytes bs → from_be_bytes acc bs / 256 ^ length bs ≡ acc
unfolding from_be_bytes
from_be_bytes-div acc [] h = div-one acc
from_be_bytes-div acc (b ∷ bs) h = omega (
  arith,
  div-pow-suc 256 (length bs) (from_be_bytes (acc * 256 + b) bs),
  from_be_bytes-div (acc * 256 + b) bs h.1,
  h.0,
)

to_be_bytes-from_be_bytes :
    (acc : ℕ) (bs : List ℕ) → IsBytes bs → to_be_bytes (length bs) (from_be_bytes acc bs) ≡ bs
unfolding from_be_bytes to_be_bytes
to_be_bytes-from_be_bytes acc [] h = refl
to_be_bytes-from_be_bytes acc (b ∷ bs) h =
    let digit : from_be_bytes (acc * 256 + b) bs / 256 ^ length bs % 256 ≡ b =
      omega (arith, from_be_bytes-div (acc * 256 + b) bs h.1, h.0) in
    ap₂ ◌∷◌ digit (to_be_bytes-from_be_bytes (acc * 256 + b) bs h.1)

pub length-key_to_bytes : (k : ℕ) → length (key_to_bytes k) ≡ 16
unfolding key_to_bytes
length-key_to_bytes k = length-to_be_bytes 16 k

pub key_to_bytes-IsBytes : (k : ℕ) → IsBytes (key_to_bytes k)
unfolding key_to_bytes
key_to_bytes-IsBytes k = to_be_bytes-IsBytes 16 k

take-IsBytes : (n : ℕ) (xs : List ℕ) → IsBytes xs → IsBytes (take n xs)
take-IsBytes zero xs h = tt
take-IsBytes (suc n) [] h = tt
take-IsBytes (suc n) (x ∷ xs) h = (h.0, take-IsBytes n xs h.1)

-- On sixteen bytes or more, the panic is out of reach.
key_from_bytes_reads :
    (bs : List ℕ) → 16 ≤ length bs → key_from_bytes bs ≡ some (from_be_bytes 0 (take 16 bs))
unfolding key_from_bytes
key_from_bytes_reads bs h = ground arith

from_be_bytes-IsKey : (bs : List ℕ) → IsBytes bs → length bs ≡ 16 → IsKey (from_be_bytes 0 bs)
from_be_bytes-IsKey bs h e =
    let top : from_be_bytes 0 bs / 256 ^ 16 ≡ 0 = rw e at (from_be_bytes-div 0 bs h) in omega arith

-- An identifier below 2^128 survives the way through its sixteen bytes.
pub key_from_bytes-key_to_bytes : (k : ℕ) → IsKey k → key_from_bytes (key_to_bytes k) ≡ some k
unfolding key_to_bytes
key_from_bytes-key_to_bytes k h =
    let n = length-to_be_bytes 16 k in
    let read = key_from_bytes_reads (to_be_bytes 16 k) (omega arith) in
    let whole = take_all 16 (to_be_bytes 16 k) (omega arith) in
    let top : k / 256 ^ 16 ≡ 0 = omega arith in
    let back = rw top at (from_be_bytes-to_be_bytes 16 k) in read ∙ ap some (rw whole back)

-- Sixteen bytes survive the way through the identifier.
pub key_to_bytes-key_from_bytes :
    (bs : List ℕ)
    → IsBytes bs
    → length bs ≡ 16
    → (k : ℕ) × (key_from_bytes bs ≡ some k) × IsKey k × (key_to_bytes k ≡ bs)
unfolding key_to_bytes
key_to_bytes-key_from_bytes bs h e = (
  from_be_bytes 0 bs,
  key_from_bytes_reads bs (omega arith)
      ∙ ap (λ l. some (from_be_bytes 0 l)) (take_all 16 bs (omega arith)),
  from_be_bytes-IsKey bs h e,
  rw e at (to_be_bytes-from_be_bytes 0 bs h),
)

-- `key_from_bytes` panics exactly on fewer than sixteen bytes.
pub key_from_bytes_panics : (bs : List ℕ) → (key_from_bytes bs ≡ none) ↔ (length bs < 16)
unfolding key_from_bytes
key_from_bytes_panics bs = ground arith

-- What it returns is a `u128`.
pub key_from_bytes-IsKey : (bs : List ℕ) {k : ℕ} → IsBytes bs → key_from_bytes bs ≡ some k → IsKey k
key_from_bytes-IsKey bs {k} h e = elim (dec_le 16 (length bs)) [
  | yes enough ↦
      let full : length (take 16 bs) ≡ 16 = omega (arith, length-take 16 bs) in
      let found : from_be_bytes 0 (take 16 bs) ≡ k = cc (key_from_bytes_reads bs enough) in
      subst IsKey found (from_be_bytes-IsKey (take 16 bs) (take-IsBytes 16 bs h) full)
  | no short ↦ cc ((key_from_bytes_panics bs).1 (omega arith))
]
