-- ===== src/Bits.antt =====
-- Exclusive or on numbers of any width: what `^` on `u128` means, digit by digit.
use Prim.Native.Nat.{digits, differ, bit_xor-bitwise}
use native.Mathlib.Nat.{
  pow-suc, pow-succ', div-div-eq-div-mul, div-one, one-le-pow, div-eq_of_lt, lt-div-mul-add,
}
use dht_kad_rs.Base.{
  ℕ, zero, suc, ◌+◌, ◌-◌, ◌*◌, ◌/◌, ◌%◌, ◌^◌, ◌≤◌, ◌<◌, bit_xor, ◌≡◌, refl, ap, sym, ◌∙◌, ◌↔◌,
  arith, dec_lt,
}

-- The library defines `bit_xor` by its binary digits, with fuel: a unit of fuel that is not needed
-- changes nothing.
abbrev xor_digits : ℕ → ℕ → ℕ → ℕ
xor_digits fuel x y = digits (λ rest. rest) differ fuel x y

one_unit : (fuel x y : ℕ) → x ≤ fuel → xor_digits (suc fuel) x y ≡ xor_digits fuel x y
one_unit zero zero y enough = refl
one_unit zero (suc x) y enough = absurd (omega arith)
one_unit (suc fuel) zero y enough = refl
one_unit (suc fuel) (suc x) y enough = rw (one_unit fuel (suc x / 2) (y / 2) (omega arith))

spare_units : (spare fuel x y : ℕ) → x ≤ fuel → xor_digits (spare + fuel) x y ≡ xor_digits fuel x y
spare_units zero fuel x y enough = let same : 0 + fuel ≡ fuel = omega arith in rw same refl
spare_units (suc spare) fuel x y enough =
    let same : suc spare + fuel ≡ suc (spare + fuel) = omega arith in
    ap (λ n. xor_digits n x y) same
    ∙ one_unit (spare + fuel) x y (omega arith)
    ∙ spare_units spare fuel x y enough

halved_fuel : (x y : ℕ) → xor_digits x (suc x / 2) y ≡ xor_digits (suc x / 2) (suc x / 2) y
halved_fuel x y =
    let fuel = suc x / 2 in
    let total : (x - fuel) + fuel ≡ x = omega arith in
    rw total at (spare_units (x - fuel) fuel fuel y (omega arith))

pub bit_xor_step : (a b : ℕ) → bit_xor a b ≡ bit_xor (a / 2) (b / 2) * 2 + differ (a % 2) (b % 2)
bit_xor_step zero b = simp bit_xor-bitwise (omega arith)
bit_xor_step (suc a) b = simp bit_xor-bitwise (omega (arith, halved_fuel a (b / 2)))

differ_lem : (x y : ℕ) → x < 2 → y < 2 → differ x y ≡ (x + y) % 2
differ_lem zero y p q = omega arith
differ_lem (suc x) zero p q = omega arith
differ_lem (suc x) (suc y) p q =
    let x0 : x ≡ 0 = omega arith in let y0 : y ≡ 0 = omega arith in rw (x0, y0)

digit : (a b : ℕ) → bit_xor a b ≡ bit_xor (a / 2) (b / 2) * 2 + (a % 2 + b % 2) % 2
digit a b = omega (arith, bit_xor_step a b, differ_lem (a % 2) (b % 2))

bit_xor-half : (a b : ℕ) → bit_xor a b / 2 ≡ bit_xor (a / 2) (b / 2)
bit_xor-half a b = omega (arith, digit a b)

div-two-pow-suc : (k a : ℕ) → a / 2 ^ suc k ≡ a / 2 / 2 ^ k
div-two-pow-suc k a = rw (div-div-eq-div-mul a 2 (2 ^ k), ← pow-succ' 2 k)

pub div-pow-suc : (b k a : ℕ) → a / b ^ suc k ≡ a / b ^ k / b
div-pow-suc b k a = rw (div-div-eq-div-mul a (b ^ k) b, ← pow-suc b k)

-- `>>` goes through `^`.
pub bit_xor-div : (k a b : ℕ) → bit_xor a b / 2 ^ k ≡ bit_xor (a / 2 ^ k) (b / 2 ^ k)
bit_xor-div zero a b = rw (div-one (bit_xor a b), div-one a, div-one b)
bit_xor-div (suc k) a b =
    rw (div-two-pow-suc k (bit_xor a b), div-two-pow-suc k a, div-two-pow-suc k b, bit_xor-half a b)
      (bit_xor-div k (a / 2) (b / 2))

-- Each law below goes from the halves to the whole, under a bound on the sum.
cancel_below : (n a b t : ℕ) → a + b + t < n → bit_xor a t ≡ bit_xor b t → a ≡ b
cancel_below zero a b t h e = absurd (omega arith)
cancel_below (suc n) a b t h e = elim (dec_lt 0 (a + b + t)) [
  | yes more ↦ omega (
    arith,
    digit a t,
    digit b t,
    cancel_below n (a / 2) (b / 2) (t / 2) (omega arith) (omega (arith, digit a t, digit b t)),
  )
  | no none_left ↦ omega arith
]

-- `x ↦ x ^ t` is injective: no two identifiers are equally far from a target.
pub bit_xor_cancel : (a b t : ℕ) → bit_xor a t ≡ bit_xor b t → a ≡ b
bit_xor_cancel a b t = cancel_below (suc (a + b + t)) a b t (omega arith)

self_below : (n a : ℕ) → a < n → bit_xor a a ≡ 0
self_below zero a h = absurd (omega arith)
self_below (suc n) zero h = refl
self_below (suc n) (suc a) h =
    omega (arith, digit (suc a) (suc a), self_below n (suc a / 2) (omega arith))

pub bit_xor_self : (a : ℕ) → bit_xor a a ≡ 0
bit_xor_self a = self_below (suc a) a (omega arith)

comm_below : (n a b : ℕ) → a + b < n → bit_xor a b ≡ bit_xor b a
comm_below zero a b h = absurd (omega arith)
comm_below (suc n) a b h = elim (dec_lt 0 (a + b)) [
  | yes more ↦ omega (arith, digit a b, digit b a, comm_below n (a / 2) (b / 2) (omega arith))
  | no none_left ↦ let a0 : a ≡ 0 = omega arith in let b0 : b ≡ 0 = omega arith in rw (a0, b0)
]

pub bit_xor_comm : (a b : ℕ) → bit_xor a b ≡ bit_xor b a
bit_xor_comm a b = comm_below (suc (a + b)) a b (omega arith)

-- A difference of zero is equality.
pub bit_xor-eq-zero_iff : (a b : ℕ) → (bit_xor a b ≡ 0) ↔ (a ≡ b)
bit_xor-eq-zero_iff a b =
    (λ e. bit_xor_cancel a b b (e ∙ sym (bit_xor_self b)), λ e. rw e (bit_xor_self b))

pub div-eq-zero_iff : (k x : ℕ) → (x / 2 ^ k ≡ 0) ↔ (x < 2 ^ k)
div-eq-zero_iff k x = (
  λ e. omega (arith, rw e at (lt-div-mul-add {a = x} (one-le-pow k 2 (omega arith)))),
  λ h. div-eq_of_lt h,
)

pub bit_xor-lt : (k a b : ℕ) → a < 2 ^ k → b < 2 ^ k → bit_xor a b < 2 ^ k
bit_xor-lt k a b ha hb =
    (div-eq-zero_iff k (bit_xor a b)).0
      (rw (bit_xor-div k a b, div-eq_of_lt ha, div-eq_of_lt hb) refl)

-- The two sides differ below bit `k` only when their quotients are one.
pub bit_xor-lt_iff : (k a b : ℕ) → (bit_xor a b < 2 ^ k) ↔ (a / 2 ^ k ≡ b / 2 ^ k)
bit_xor-lt_iff k a b = (
  λ h. (bit_xor-eq-zero_iff _ _).0 (sym (bit_xor-div k a b) ∙ div-eq_of_lt h),
  λ e. (div-eq-zero_iff k _).0 (bit_xor-div k a b ∙ (bit_xor-eq-zero_iff _ _).1 e),
)
