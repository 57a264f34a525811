-- ===== src/Keyutil/Prefix.antt =====
-- `common_prefix_length` counts the leading bits that two identifiers share, and measures the
-- exclusive-or distance between them.
use native.Mathlib.Nat.{pow-le-pow_right, le_trans, le_refl, div-one}
use dht_kad_rs.Base.{
  ℕ, zero, suc, ◌+◌, ◌-◌, ◌/◌, ◌^◌, ◌≤◌, ◌<◌, min, bit_xor, ◌≡◌, refl, sym, ◌∙◌, ◌↔◌, arith, ltb,
  Bool-cases, inl, inr, lt→ltb, ltb→lt, dec_lt,
}
use dht_kad_rs.Bits.{bit_xor-lt, bit_xor-lt_iff, bit_xor_comm, div-pow-suc}
use dht_kad_rs.Keyutil.{IsKey, leading_zeros, common_prefix_length}

-- `n` leading zeros leave `d` bits.
pub le-leading_zeros_iff :
    (w n d x : ℕ) → n + d ≡ w → x < 2 ^ w → (n ≤ leading_zeros w x) ↔ (x < 2 ^ d)
unfolding leading_zeros
le-leading_zeros_iff w zero d x e h =
    let same : d ≡ w = omega arith in (λ _. rw same h, λ _. omega arith)
le-leading_zeros_iff zero (suc n) d x e h = absurd (omega arith)
le-leading_zeros_iff (suc w) (suc n) d x e h = elim (Bool-cases (ltb x (2 ^ w))) [
  | inl below ↦
      let rest = le-leading_zeros_iff w n d x (omega arith) (ltb→lt _ _ below) in
      rw below (λ k. rest.0 (omega arith), λ k. omega (arith, rest.1 k))
  | inr above ↦ rw above (
    λ k. absurd (omega arith),
    λ k. (cc (above, lt→ltb x (2 ^ w) (le_trans k (pow-le-pow_right (omega arith) (omega arith))))),
  )
]

leading_zeros-le : (w x : ℕ) → leading_zeros w x ≤ w
unfolding leading_zeros
leading_zeros-le zero x = omega arith
leading_zeros-le (suc w) x = ground (arith, leading_zeros-le w x)

pub common_prefix_length-le : (a b : ℕ) → common_prefix_length a b ≤ 128
unfolding common_prefix_length
common_prefix_length-le a b = leading_zeros-le 128 (bit_xor a b)

module _ (n d a b : ℕ) (e : n + d ≡ 128) (ka : IsKey a) (kb : IsKey b) where
  -- The shared prefix bounds the distance, and the other way round.
  pub le-prefix_iff_distance : (n ≤ common_prefix_length a b) ↔ (bit_xor a b < 2 ^ d)
  unfolding common_prefix_length
  le-prefix_iff_distance = le-leading_zeros_iff 128 n d (bit_xor a b) e (bit_xor-lt 128 a b ka kb)

  pub le-prefix_iff : (n ≤ common_prefix_length a b) ↔ (a / 2 ^ d ≡ b / 2 ^ d)
  le-prefix_iff =
      let near = le-prefix_iff_distance in
      let same = bit_xor-lt_iff d a b in (λ h. same.0 (near.0 h), λ h. near.1 (same.1 h))

-- For `n` up to 128 and two identifiers of 128 bits, `common_prefix_length` is at least `n` exactly when the first `n` bits of the two identifiers
-- are the same.
pub common_prefix_length-bits :
    (n a b : ℕ)
    → n ≤ 128
    → IsKey a
    → IsKey b
    → (n ≤ common_prefix_length a b) ↔ (a / 2 ^ (128 - n) ≡ b / 2 ^ (128 - n))
common_prefix_length-bits n a b h ka kb = le-prefix_iff n (128 - n) a b (omega arith) ka kb

pub common_prefix_length_comm : (a b : ℕ) → common_prefix_length a b ≡ common_prefix_length b a
unfolding common_prefix_length
common_prefix_length_comm a b = rw (bit_xor_comm a b)

-- All 128 bits of two identifiers agree exactly if they are equal.
pub common_prefix_length_full :
    (a b : ℕ) → IsKey a → IsKey b → (common_prefix_length a b ≡ 128) ↔ (a ≡ b)
common_prefix_length_full a b ka kb =
    let whole = le-prefix_iff 128 0 a b refl ka kb in
    (
      λ e. omega (arith, whole.0 (omega arith), div-one a, div-one b),
      λ e. omega (arith, whole.1 (rw e refl), common_prefix_length-le a b),
    )

-- Of two identifiers of 128 bits, the one that shares the longer prefix with a target of 128 bits has
-- the smaller distance to it.
pub distance_of_prefix :
    (a b t : ℕ)
    → IsKey a
    → IsKey b
    → IsKey t
    → common_prefix_length b t < common_prefix_length a t
    → bit_xor a t < bit_xor b t
distance_of_prefix a b t ka kb kt h =
    let n = common_prefix_length a t in
    let fits : n + (128 - n) ≡ 128 = omega (arith, common_prefix_length-le a t) in
    let near = (le-prefix_iff_distance n (128 - n) a t fits ka kt).0 (le_refl n) in
    elim (dec_lt (bit_xor b t) (2 ^ (128 - n))) [
      | yes nearer ↦
          absurd (omega (arith, (le-prefix_iff_distance n (128 - n) b t fits kb kt).1 nearer))
      | no far ↦ omega arith
    ]

-- The shared prefix is an ultrametric.
pub prefix_trans :
    (l p t : ℕ)
    → IsKey l
    → IsKey p
    → IsKey t
    → min (common_prefix_length l p) (common_prefix_length l t) ≤ common_prefix_length p t
prefix_trans l p t kl kp kt =
    let n = min (common_prefix_length l p) (common_prefix_length l t) in
    let fits : n + (128 - n) ≡ 128 = omega (arith, common_prefix_length-le l t) in
    let lp = (le-prefix_iff n (128 - n) l p fits kl kp).0 (omega arith) in
    let lt = (le-prefix_iff n (128 - n) l t fits kl kt).0 (omega arith) in
    (le-prefix_iff n (128 - n) p t fits kp kt).1 (sym lp ∙ lt)

module _ (l p t : ℕ) (kl : IsKey l) (kp : IsKey p) (kt : IsKey t) where
  -- Where `p` leaves `l` before `t` does, it leaves `t` at the same bit.
  pub prefix_of_lt :
      common_prefix_length l p < common_prefix_length l t
      → common_prefix_length p t ≡ common_prefix_length l p
  prefix_of_lt h = omega (
    arith,
    prefix_trans l p t kl kp kt,
    prefix_trans t l p kt kl kp,
    common_prefix_length_comm t l,
    common_prefix_length_comm t p,
  )

  -- Two identifiers that leave `l` at the same bit agree there.
  pub prefix_of_eq :
      common_prefix_length l p ≡ common_prefix_length l t
      → common_prefix_length l t < 128
      → common_prefix_length l t < common_prefix_length p t
  prefix_of_eq e h =
      let n = common_prefix_length l t in
      let d = 127 - n in
      let upto : n + suc d ≡ 128 = omega arith in
      let past : suc n + d ≡ 128 = omega arith in
      let lp = (le-prefix_iff n (suc d) l p upto kl kp).0 (omega arith) in
      let lt = (le-prefix_iff n (suc d) l t upto kl kt).0 (le_refl n) in
      let lp' = (le-prefix_iff (suc n) d l p past kl kp).1 in
      let lt' = (le-prefix_iff (suc n) d l t past kl kt).1 in
      (le-prefix_iff (suc n) d p t past kp kt).1
        (grind (arith, lp, lt, lp', lt', div-pow-suc 2 d l, div-pow-suc 2 d p, div-pow-suc 2 d t))
