-- ===== src/Filter/Durations.antt =====
-- Durations and comparisons of src/domain/filter.rs. A duration is its number of seconds.
use tale.Prelude.{
  ℕ, ◌+◌, ◌-◌, ◌*◌, [], ◌∷◌, Bool, false, ◌&&◌, ◌||◌, Option, none, some, ltb, leb, ◌==◌,
  if◌then◌else◌, Text, is_empty, u64_max,
}
use tale.Filter.Schema.{FilterOperator, less_or_equal, greater_than, greater_or_equal}

-- `char::is_ascii_digit`.
abbrev pub is_ascii_digit : ℕ → Bool
is_ascii_digit c = leb b'0' c && leb c b'9'

-- The digits at the start and what follows them: `value.split_at(index)` at the first other
-- character.
abbrev pub digits : Text → Text
digits [] = []
digits (c ∷ v) = if is_ascii_digit c then c ∷ digits v else []

abbrev pub after_digits : Text → Text
after_digits [] = []
after_digits (c ∷ v) = if is_ascii_digit c then after_digits v else c ∷ v

-- The number that digits write down, and `parse::<u64>()` of digits.
abbrev pub number_from : ℕ → Text → ℕ
number_from n [] = n
number_from n (c ∷ v) = number_from (n * 10 + (c - b'0')) v

abbrev pub parse_u64 : Text → Option ℕ
parse_u64 number =
    if is_empty number
    then none
    else if leb (number_from 0 number) u64_max
    then some (number_from 0 number)
    else none

abbrev pub checked_mul : ℕ → ℕ → Option ℕ
checked_mul a b = if leb (a * b) u64_max then some (a * b) else none

abbrev pub seconds_of : ℕ → Option ℕ
seconds_of c =
    if c == b's'
    then some 1
    else if c == b'm'
    then some 60
    else if c == b'h'
    then some 3600
    else if c == b'd'
    then some 86400
    else if c == b'w'
    then some 604800
    else none

abbrev pub multiplier : Text → Option ℕ
multiplier (c ∷ []) = seconds_of c
multiplier _ = none

-- The value is all digits if nothing follows them.
unfoldable pub parse_filter_duration : Text → Option ℕ
parse_filter_duration value =
    if is_empty (after_digits value) || is_empty (digits value)
    then none
    else elim (parse_u64 (digits value)) [
      | none ↦ none
      | some amount ↦ elim (multiplier (after_digits value)) [
        | none ↦ none
        | some seconds ↦ checked_mul amount seconds
      ]
    ]

pub data Comparison : Type 0 where
  less less_or_eq greater greater_or_eq : ℕ → Comparison

abbrev pub from_operator : FilterOperator → ℕ → Comparison
from_operator less_or_equal duration = less_or_eq duration
from_operator greater_than duration = greater duration
from_operator greater_or_equal duration = greater_or_eq duration
from_operator _ duration = less duration

unfoldable pub comparison_matches : Comparison → Option ℕ → Bool
comparison_matches c none = false
comparison_matches (less value) (some seconds) = ltb seconds value
comparison_matches (less_or_eq value) (some seconds) = leb seconds value
comparison_matches (greater value) (some seconds) = ltb value seconds
comparison_matches (greater_or_eq value) (some seconds) = leb value seconds
