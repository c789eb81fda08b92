-- ===== src/Filter/Reads.antt =====
-- Which texts `parse_filter_duration` of src/domain/filter.rs accepts, and as what.
use tale.Prelude.{
  ℕ, ◌+◌, ◌-◌, ◌*◌, ◌^◌, length, ◌≢◌, ◌==◌, ◌≤◌, ◌≡◌, ◌↔◌, refl, sym, ap, ◌∙◌, [], ◌∷◌, ◌++◌, true,
  false, some, Text, is_empty, u64_max, arith, All, All-mono, Bool-cases, Option-cases, inl, inr,
}
use native.Mathlib.Nat.{le-mul_of_pos_right, add-mul, mul_assoc, pow-succ'}
use tale.Filter.Durations.{
  is_ascii_digit, digits, after_digits, number_from, seconds_of, multiplier, parse_filter_duration,
}

-- The units and their seconds.
pub data IsUnit : ℕ → ℕ → Type 0 where
  second : IsUnit b's' 1
  minute : IsUnit b'm' 60
  hour : IsUnit b'h' (60 * 60)
  day : IsUnit b'd' (24 * (60 * 60))
  week : IsUnit b'w' (7 * (24 * (60 * 60)))

abbrev pub IsDigit : ℕ → Type 0
IsDigit c = (b'0' ≤ c) × (c ≤ b'9')

-- The number with these decimal digits.
abbrev pub decimal_value : Text → ℕ
decimal_value [] = 0
decimal_value (c ∷ v) = (c - b'0') * 10 ^ length v + decimal_value v

-- A count in digits and the letter of a unit, no more seconds than a u64 holds.
pub record IsDuration (value : Text) (d : ℕ) : Type 0 where
  pub number : Text
  pub unit : ℕ
  pub seconds : ℕ
  pub written : value ≡ number ++ unit ∷ []
  pub counted : number ≢ []
  pub all_digits : All IsDigit number
  pub unit_seconds : IsUnit unit seconds
  pub product : d ≡ decimal_value number * seconds
  pub fits : d ≤ u64_max

IsUnit-seconds : {c seconds : ℕ} → IsUnit c seconds → seconds_of c ≡ some seconds
IsUnit-seconds second = refl
IsUnit-seconds minute = refl
IsUnit-seconds hour = refl
IsUnit-seconds day = refl
IsUnit-seconds week = refl

same-IsUnit :
    (c seconds c' seconds' : ℕ)
    → IsUnit c' seconds'
    → c ≡ c'
    → seconds ≡ seconds'
    → IsUnit c seconds
same-IsUnit c seconds c' seconds' u e e' = rw (e, e') u

seconds-IsUnit : (c seconds : ℕ) → seconds_of c ≡ some seconds → IsUnit c seconds
seconds-IsUnit c seconds h = elim (Bool-cases (c == b's')) [
  | inl e ↦ same-IsUnit c seconds b's' 1 second (ground arith) (ground arith)
  | inr not_s ↦ elim (Bool-cases (c == b'm')) [
    | inl e ↦ same-IsUnit c seconds b'm' 60 minute (ground arith) (ground arith)
    | inr not_m ↦ elim (Bool-cases (c == b'h')) [
      | inl e ↦ same-IsUnit c seconds b'h' 3600 hour (ground arith) (ground arith)
      | inr not_h ↦ elim (Bool-cases (c == b'd')) [
        | inl e ↦ same-IsUnit c seconds b'd' 86400 day (ground arith) (ground arith)
        | inr not_d ↦ same-IsUnit c seconds b'w' 604800 week (ground arith) (ground arith)
      ]
    ]
  ]
]

is_ascii_digit-IsDigit : (c : ℕ) → (is_ascii_digit c ≡ true) ↔ IsDigit c
is_ascii_digit-IsDigit c = ground arith

-- Digits that are read from the left have their value behind what was read before.
number_from-decimal_value :
    (n : ℕ) (v : Text) → number_from n v ≡ n * 10 ^ length v + decimal_value v
number_from-decimal_value n [] = omega arith
number_from-decimal_value n (c ∷ v) =
    number_from-decimal_value (n * 10 + (c - b'0')) v
    ∙ rw (pow-succ' 10 (length v))
        (omega (arith, add-mul (n * 10) (c - b'0') (10 ^ length v), mul_assoc n 10 (10 ^ length v)))

number_value : (v : Text) → number_from 0 v ≡ decimal_value v
number_value v = number_from-decimal_value 0 v ∙ omega arith

not_empty : (v : Text) → is_empty v ≡ false → v ≢ []
not_empty [] h e = absurd (ground arith)
not_empty (c ∷ v) h e = absurd (ground arith)

has_digits : (v : Text) → v ≢ [] → is_empty v ≡ false
has_digits [] h = absurd (h refl)
has_digits (c ∷ v) h = refl

split_digits : (value : Text) → value ≡ digits value ++ after_digits value
split_digits [] = refl
split_digits (c ∷ v) = ground (arith, split_digits v)

All-digits : (value : Text) → All (λ c. is_ascii_digit c ≡ true) (digits value)
All-digits [] = tt
All-digits (c ∷ v) = elim (Bool-cases (is_ascii_digit c)) [
  | inl e ↦ rw e (e, All-digits v)
  | inr e ↦ rw e tt
]

digits-append :
    (number : Text) (c : ℕ)
    → All (λ c. is_ascii_digit c ≡ true) number
    → is_ascii_digit c ≡ false
    → (digits (number ++ c ∷ []) ≡ number) × (after_digits (number ++ c ∷ []) ≡ c ∷ [])
digits-append [] c h e = rw e (refl, refl)
digits-append (d ∷ number) c h e =
    let (i1, i2) = digits-append number c h.1 e in rw (h.0) (ap (λ (w : Text). d ∷ w) i1, i2)

unit_no_digit :
    (c seconds : ℕ) → seconds_of c ≡ some seconds → (is_ascii_digit c ≡ false) × (1 ≤ seconds)
unit_no_digit c seconds h = ground arith

multiplier_unit :
    (w : Text) (seconds : ℕ)
    → multiplier w ≡ some seconds
    → (c : ℕ) × (w ≡ c ∷ []) × (seconds_of c ≡ some seconds)
multiplier_unit [] seconds h = absurd (ground arith)
multiplier_unit (c ∷ []) seconds h = (c, refl, h)
multiplier_unit (c ∷ d ∷ w) seconds h = absurd (ground arith)

-- What the parser read when it answers.
parsed :
    (value : Text) (d : ℕ)
    → parse_filter_duration value ≡ some d
    → (seconds : ℕ) × (is_empty (digits value) ≡ false)
      × (multiplier (after_digits value) ≡ some seconds)
      × (d ≡ number_from 0 (digits value) * seconds)
      × (d ≤ u64_max)
unfolding parse_filter_duration
parsed value d h = elim (Option-cases (multiplier (after_digits value))) [
  | inl e ↦ absurd (ground arith)
  | inr (seconds, e) ↦ (seconds, ground arith, e, ground arith, ground arith)
]

parsed-IsDuration :
    (value : Text) (d : ℕ) → parse_filter_duration value ≡ some d → IsDuration value d
parsed-IsDuration value d h =
    let (seconds, counted, unit_seconds, product, fits) = parsed value d h in
    let (unit, one, of_unit) = multiplier_unit (after_digits value) seconds unit_seconds in
    record {
      number = digits value;
      unit = unit;
      seconds = seconds;
      written = split_digits value ∙ ap (λ (w : Text). digits value ++ w) one;
      counted = not_empty (digits value) counted;
      all_digits =
          All-mono (λ c h. (is_ascii_digit-IsDigit c).0 h) (digits value) (All-digits value);
      unit_seconds = seconds-IsUnit unit seconds of_unit;
      product = product ∙ ap (λ n. n * seconds) (number_value (digits value));
      fits = fits;
    }

amount_fits : (amount seconds : ℕ) → 1 ≤ seconds → amount * seconds ≤ u64_max → amount ≤ u64_max
amount_fits amount seconds h le = omega (arith, le-mul_of_pos_right amount h)

IsDuration-parsed :
    (value : Text) (d : ℕ) → IsDuration value d → parse_filter_duration value ≡ some d
unfolding parse_filter_duration
IsDuration-parsed value d h =
    let of_unit : seconds_of h.unit ≡ some h.seconds = IsUnit-seconds h.unit_seconds in
    let (other, positive) = unit_no_digit h.unit h.seconds of_unit in
    let (front, back) =
      digits-append h.number h.unit
        (All-mono (λ c digit. (is_ascii_digit-IsDigit c).1 digit) h.number h.all_digits) other in
    let n : ℕ = number_from 0 h.number in
    let product : d ≡ n * h.seconds =
      h.product ∙ ap (λ k. k * h.seconds) (sym (number_value h.number)) in
    let product_fits : n * h.seconds ≤ u64_max = omega (arith, product, h.fits) in
    let same_digits : digits value ≡ h.number = ap digits h.written ∙ front in
    let same_rest : after_digits value ≡ h.unit ∷ [] = ap after_digits h.written ∙ back in
    let unit_seconds : multiplier (after_digits value) ≡ some h.seconds =
      ap multiplier same_rest ∙ of_unit in
    ground (
      arith,
      unit_seconds,
      same_rest,
      ap is_empty same_rest,
      ap is_empty same_digits,
      ap (number_from 0) same_digits,
      has_digits h.number h.counted,
      product,
      h.fits,
      product_fits,
      amount_fits n h.seconds positive product_fits,
      ap (λ k. k * h.seconds) (ap (number_from 0) same_digits),
    )

-- A text is read as a duration of d seconds exactly if it is a count in decimal digits followed by s, m,
-- h, d or w, the count times the seconds of a second, minute, hour, day or week is d, and a u64 holds
-- it; every other text is rejected.
pub parse_filter_duration_iff :
    (value : Text) (d : ℕ) → (parse_filter_duration value ≡ some d) ↔ IsDuration value d
parse_filter_duration_iff value d = (parsed-IsDuration value d, IsDuration-parsed value d)
