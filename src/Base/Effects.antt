-- ===== src/Base/Effects.antt =====
-- Code that changes a state and ends as an `Outcome` does. What was written before a panic stays.
use mathlib.Core.Path.{◌≡◌, refl, ap}
use dht_kad_rs.Base.Outcomes.{Outcome, done, panicked, exhausted}

abbrev pub Effect : Type 0 → Type 0 → Type 0
Effect S A = S → S × Outcome A

module _ {S : Type 0} where
  abbrev pub after : {A B : Type 0} → (A → Effect S B) → S × Outcome A → S × Outcome B
  after f (s, done a) = f a s
  after f (s, panicked) = (s, panicked)
  after f (s, exhausted) = (s, exhausted)

  infixl 5 ◌>>=◌
  abbrev pub ◌>>=◌ : {A B : Type 0} → Effect S A → (A → Effect S B) → Effect S B
  ◌>>=◌ m f s = after f (m s)

  abbrev pub lift : {A : Type 0} → Outcome A → Effect S A
  lift o s = (s, o)

  abbrev pub pure : {A : Type 0} → A → Effect S A
  pure a s = (s, done a)

-- How a block goes on after its first step.
module _ {S A B : Type 0} (m : Effect S A) (f : A → Effect S B) {s s' : S} where
  pub bind_done : {a : A} → m s ≡ (s', done a) → (m >>= f) s ≡ f a s'
  bind_done e = ap (λ (r : S × Outcome A). after f r) e

  pub bind_panicked : m s ≡ (s', panicked) → (m >>= f) s ≡ (s', panicked)
  bind_panicked e = ap (λ (r : S × Outcome A). after f r) e

-- A block that returns got a value from its first step.
module _ {S A B : Type 0} where
  after-returns :
      (f : A → Effect S B) {s' : S} {b : B} (r : S × Outcome A)
      → after f r ≡ (s', done b)
      → (a : A) × (s : S) × (r ≡ (s, done a)) × (f a s ≡ (s', done b))
  after-returns f (s, done a) e = (a, s, refl, e)
  after-returns f (s, panicked) e = cc
  after-returns f (s, exhausted) e = cc

  pub effect-returns :
      (m : Effect S A) (f : A → Effect S B) {s s' : S} {b : B}
      → (m >>= f) s ≡ (s', done b)
      → (a : A) × (s1 : S) × (m s ≡ (s1, done a)) × (f a s1 ≡ (s', done b))
  effect-returns m f {s} e = after-returns f (m s) e

pub done_of :
    {S A : Type 0} {s s' : S} {o : Outcome A} {a : A}
    → ◌≡◌ {A = S × Outcome A} (s, o) (s', done a)
    → o ≡ done a
done_of {S} {A} e = ap (λ (r : S × Outcome A). r.1) e
