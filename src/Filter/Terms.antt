-- ===== src/Filter/Terms.antt =====
-- The parser of src/domain/filter.rs: a token becomes a term, or an error with its position. Unicode's
-- lower case of a text is the parameter `lowercase`.
use tale.Prelude.{
  join, ℕ, ◌-◌, List, [], ◌∷◌, ◌++◌, Bool, false, not, ◌&&◌, ◌||◌, Option, none, some, ltb, ◌==◌,
  if◌then◌else◌, Text, codes, len, length, is_empty, slice_from, slice_to, get_last?, foldl, map,
  Result, ok, err, ◌>>=◌,
}
use tale.Matching.{FieldMatchMode}
use tale.Filter.Schema.{
  FilterOperator, less_than, less_or_equal, greater_than, greater_or_equal, FilterField,
  FilterFieldSpec, expected_syntax, FilterSchema, fields,
}
use tale.Filter.Durations.{Comparison}
use tale.Filter.Tokens.{FilterError, is_whitespace, unclosed_quote}

pub data FilterTerm : Type 0 where
  text_term : Text → FilterTerm
  field_term :
      (field : FilterField) (negated : Bool) (values : List Text) (comparison : Option Comparison)
      → FilterTerm
  structured_term :
      (field : FilterField) (negated : Bool) (value : Text) (mode : FieldMatchMode) → FilterTerm

abbrev pub error : ℕ → Text → Text → FilterError
error position message expected = record {
  position = position;
  message = message;
  expected = expected;
}

-- `find` of a character of one byte, with the slices before and behind it; `split_once`.
unfoldable pub split_once : ℕ → Text → Option (Text × Text)
split_once separator [] = none
split_once separator (c ∷ v) =
    if c == separator then some ([], v) else elim (split_once separator v) [
      | none ↦ none
      | some (before, after) ↦ some (c ∷ before, after)
    ]

abbrev pub strip_prefix : Text → Text → Option Text
strip_prefix v [] = some v
strip_prefix [] (p ∷ prefix) = none
strip_prefix (c ∷ v) (p ∷ prefix) = if c == p then strip_prefix v prefix else none

-- `str::trim`.
abbrev pub trim_start : Text → Text
trim_start [] = []
trim_start (c ∷ v) = if is_whitespace c then trim_start v else c ∷ v

abbrev pub trim_end : Text → Text
trim_end [] = []
trim_end (c ∷ v) =
    let rest = trim_end v in if is_whitespace c && is_empty rest then [] else c ∷ rest

abbrev pub trim : Text → Text
trim v = trim_end (trim_start v)

abbrev pub starts_with_quote : Text → Bool
starts_with_quote [] = false
starts_with_quote (c ∷ v) = c == b'"'

abbrev pub ends_with_quote : Text → Bool
ends_with_quote v = elim (get_last? v) [ none ↦ false | some c ↦ c == b'"' ]

abbrev pub field_list_hint : FilterSchema → Text
field_list_hint schema =
    let names = join (map (λ (s : FilterFieldSpec). s.name) (fields schema)) (codes ", ") in
    if is_empty names then codes "this view filters on free text only" else codes "one of " ++ names

abbrev pub first_prefix : List (Text × FilterOperator) → Text → Option (FilterOperator × Text)
first_prefix [] value = none
first_prefix ((prefix, operator) ∷ prefixes) value = elim (strip_prefix value prefix) [
  | none ↦ first_prefix prefixes value
  | some rest ↦ some (operator, rest)
]

unfoldable pub comparison_parts : Text → Option (FilterOperator × Text)
comparison_parts value =
    first_prefix
      ((codes "<=", less_or_equal)
        ∷ (codes ">=", greater_or_equal)
        ∷ (codes "<", less_than)
        ∷ (codes ">", greater_than)
        ∷ [])
      value

-- The variables of the loop of `split_values`.
pub record Splitting : Type 0 where
  pub values : List Text
  pub current : Text
  pub quoted : Bool

abbrev pub splitting : Splitting
splitting = record { values = []; current = []; quoted = false }

module _ (lowercase : Text → Text) where
  -- `value.get(1..value.len() - 1)`, in lower case.
  abbrev pub inside_quotes : Text → Text
  inside_quotes value = elim (slice_to value (len value - 1)) [
    | none ↦ []
    | some w ↦ elim (slice_from w 1) [ none ↦ [] | some inside ↦ lowercase inside ]
  ]

  unfoldable pub normalize_value : Text → ℕ → Result FilterError Text
  normalize_value value position =
      if starts_with_quote value || ends_with_quote value
      then (if ltb (length value) 2 || not (starts_with_quote value) || not (ends_with_quote value)
          then err (unclosed_quote position)
          else ok (inside_quotes value))
      else ok (lowercase value)

  abbrev pub empty_value : ℕ → FilterFieldSpec → FilterError
  empty_value position spec =
      error position (codes "empty value between commas") (expected_syntax spec)

  -- One turn of the loop of `split_values`; an error that was returned stays.
  unfoldable pub split_step :
      ℕ → FilterFieldSpec → Result FilterError Splitting → ℕ → Result FilterError Splitting
  split_step position spec r character = r >>= λ s.
      if character == b'"'
      then ok (record s { quoted = not s.quoted })
      else if (character == b',') && not s.quoted
      then (if is_empty (trim s.current)
          then err (empty_value position spec)
          else normalize_value (trim s.current) position >>= λ value.
              ok (record s { values = s.values ++ value ∷ []; current = [] }))
      else ok (record s { current = s.current ++ character ∷ [] })

  unfoldable pub last_value : ℕ → FilterFieldSpec → Splitting → Result FilterError (List Text)
  last_value position spec s =
      if s.quoted
      then err (unclosed_quote position)
      else if is_empty (trim s.current)
      then err (empty_value position spec)
      else normalize_value (trim s.current) position >>= λ value. ok (s.values ++ value ∷ [])

  unfoldable pub split_values : Text → ℕ → FilterFieldSpec → Result FilterError (List Text)
  split_values value position spec =
      foldl (split_step position spec) (ok splitting) value >>= last_value position spec
