-- ===== src/Prelude/Results.antt =====
-- Rust's `Result`, and what the question mark does with it.
use mathlib.Core.Path.{◌≡◌, refl}

pub data Result {ℓ κ} (E : Type ℓ) (A : Type κ) : Type (ℓ ⊔ κ) where
  err : (failure : E) → Result E A
  ok : (answer : A) → Result E A

module _ {ℓ κ μ} {E : Type ℓ} {A : Type κ} {B : Type μ} where
  infixl 5 ◌>>=◌
  abbrev pub ◌>>=◌ : Result E A → (A → Result E B) → Result E B
  err failure >>= next = err failure
  ok answer >>= next = next answer

  -- Both parts of a chain that succeeds do.
  pub answers_of :
      (first : Result E A) (next : A → Result E B) {last : B} (h : (first >>= next) ≡ ok last)
      → (answer : A) × (first ≡ ok answer) × (next answer ≡ ok last)
  answers_of (err failure) next h = cc
  answers_of (ok answer) next h = (answer, refl, h)
