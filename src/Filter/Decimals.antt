-- ===== src/Filter/Decimals.antt =====
-- The decimal texts of numbers and the reader of numbers in src/domain/filter.rs.
use tale.Prelude.{
  decimal, decimal_within, ℕ, zero, suc, ◌+◌, ◌-◌, ◌*◌, ◌^◌, ◌/◌, ◌%◌, ◌<◌, ◌≤◌, ◌≡◌, refl, [], ◌∷◌,
  ◌++◌, false, some, Text, is_empty, is_empty-snoc, ltb, u64_max, arith, Bool-cases, inl, inr,
}
use native.Mathlib.Nat.{pow-suc}
use tale.Filter.Durations.{number_from, parse_u64}

number_from-append :
    (n : ℕ) (v : Text) (c : ℕ) → number_from n (v ++ c ∷ []) ≡ number_from n v * 10 + (c - b'0')
number_from-append n [] c = refl
number_from-append n (d ∷ v) c = number_from-append (n * 10 + (d - b'0')) v c

number_from-decimal_within :
    (fuel n : ℕ) → n < 10 ^ fuel → number_from 0 (decimal_within fuel n) ≡ n
number_from-decimal_within zero n h = omega arith
number_from-decimal_within (suc fuel) n h = elim (Bool-cases (ltb n 10)) [
  | inl e ↦ rw e (omega arith)
  | inr e ↦
      rw
        (
          e,
          number_from-append 0 (decimal_within fuel (n / 10)) (b'0' + n % 10),
          number_from-decimal_within fuel (n / 10) (omega (arith, h, pow-suc 10 fuel)),
        )
        (omega arith)
]

decimal_within-counted : (fuel n : ℕ) → is_empty (decimal_within (suc fuel) n) ≡ false
decimal_within-counted fuel n = elim (Bool-cases (ltb n 10)) [
  | inl e ↦ rw e refl
  | inr e ↦ rw (e, is_empty-snoc (decimal_within fuel (n / 10)) (b'0' + n % 10)) refl
]

read_number :
    (v : Text) (n : ℕ)
    → is_empty v ≡ false
    → number_from 0 v ≡ n
    → n ≤ u64_max
    → parse_u64 v ≡ some n
read_number v n counted value h = rw (counted, value) (ground arith)

-- A number that a u64 holds is read back from its digits.
pub parse_u64-decimal : (n : ℕ) → n ≤ u64_max → parse_u64 (decimal n) ≡ some n
unfolding decimal
parse_u64-decimal n h =
    read_number (decimal_within 20 n) n (decimal_within-counted 19 n)
      (number_from-decimal_within 20 n (omega arith)) h
