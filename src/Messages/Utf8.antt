-- ===== src/Messages/Utf8.antt =====
-- `str::from_utf8` of the standard library: the well-formed byte sequences of the Unicode standard.
-- A `String` is the list of its bytes.
use dht_kad_rs.Base.{
  ℕ, zero, suc, Bool, true, false, ◌&&◌, ◌≡◌, List, [], ◌∷◌, Option, none, some, ltb, leb, eqb,
  if◌then◌else◌,
}

abbrev within : ℕ → ℕ → ℕ → Bool
within lo hi b = leb lo b && leb b hi

-- The bytes that follow a first byte, and the range of the next one: a longer form of a shorter
-- sequence, a surrogate and a number beyond 0x10ffff are refused by that range.
following : ℕ → ℕ
following b = if ltb b 0x80 then 0 else if ltb b 0xe0 then 1 else if ltb b 0xf0 then 2 else 3

lowest : ℕ → ℕ
lowest b = if eqb b 0xe0 then 0xa0 else if eqb b 0xf0 then 0x90 else 0x80

highest : ℕ → ℕ
highest b = if eqb b 0xed then 0x9f else if eqb b 0xf4 then 0x8f else 0xbf

may_lead : ℕ → Bool
may_lead b = if ltb b 0x80 then true else within 0xc2 0xf4 b

-- `n` more bytes of the current character are due, the next of them between `lo` and `hi`.
scan : ℕ → ℕ → ℕ → List ℕ → Bool
unfolding following lowest highest may_lead
scan zero lo hi [] = true
scan (suc n) lo hi [] = false
scan zero lo hi (b ∷ bs) = may_lead b && scan (following b) (lowest b) (highest b) bs
scan (suc n) lo hi (b ∷ bs) = within lo hi b && scan n 0x80 0xbf bs

unfoldable pub is_utf8 : List ℕ → Bool
unfolding scan
is_utf8 bs = scan 0 0 0 bs

unfoldable pub from_utf8 : List ℕ → Option (List ℕ)
from_utf8 bs = if is_utf8 bs then some bs else none

-- A `String`.
abbrev pub IsText : List ℕ → Type 0
IsText bs = is_utf8 bs ≡ true

pub from_utf8-text : (bs : List ℕ) → IsText bs → from_utf8 bs ≡ some bs
unfolding from_utf8
from_utf8-text bs h = rw h
