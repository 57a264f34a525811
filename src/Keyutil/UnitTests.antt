-- ===== src/Keyutil/UnitTests.antt =====
-- The unit tests of src/keyutil.rs as functions of the identifiers that `create_id` draws. An assertion
-- that fails is a panic.
use mathlib.Core.Bool.{not}
use dht_kad_rs.Base.{ℕ, ◌≡◌, ◌≢◌, ◌↔◌, refl, eqb, arith, Outcome, done, ◌>>=◌, assert, true}
use dht_kad_rs.Keyutil.{IsKey, common_prefix_length}
use dht_kad_rs.Keyutil.Prefix.{common_prefix_length_full}

unfoldable pub test_create : ℕ → ℕ → ℕ → Outcome (Unit {0})
test_create id id1 id2 = do _ ← assert (not (eqb id 0)); assert (not (eqb id1 id2))

unfoldable pub test_common_prefix_length : ℕ → Outcome (Unit {0})
test_common_prefix_length id = assert (eqb (common_prefix_length id id) 128)

-- The first test passes unless a draw is zero or two draws are the same, which it leaves to chance.
pub test_create_passes :
    (id id1 id2 : ℕ) → (test_create id id1 id2 ≡ done tt) ↔ ((id ≢ 0) × (id1 ≢ id2))
unfolding test_create
test_create_passes id id1 id2 = ground arith

-- The second test passes for every identifier.
pub test_common_prefix_length_passes : (id : ℕ) → IsKey id → test_common_prefix_length id ≡ done tt
unfolding test_common_prefix_length
test_common_prefix_length_passes id key =
    let whole : eqb (common_prefix_length id id) 128 ≡ true =
      ground (arith, (common_prefix_length_full id id key key).1 refl) in
    rw whole refl
