-- ===== src/Filter/Parser.antt =====
-- `parse_term` and `parse` of src/domain/filter.rs, in the steps of the source's early returns.
use tale.Prelude.{
  ℕ, List, [], ◌∷◌, ◌++◌, Bool, true, false, not, Option, none, some, if◌then◌else◌, Text, codes,
  len, is_empty, text_eq, find, any, saturating_add, Result, ok, err, ◌>>=◌,
}
use tale.Matching.{starts_with}
use tale.Filter.Schema.{
  FilterOperator, starts_with_op, allows, FilterValueKind, duration, FilterFieldSpec,
  allowed_values, expected_syntax, FilterSchema, field,
}
use tale.Filter.Durations.{from_operator, parse_filter_duration}
use tale.Filter.Tokens.{FilterError, tokenize}
use tale.Filter.Terms.{
  FilterTerm, text_term, field_term, structured_term, error, split_once, strip_prefix,
  field_list_hint, comparison_parts, normalize_value, split_values,
}

abbrev pub is_duration : FilterValueKind → Bool
is_duration duration = true
is_duration _ = false

abbrev pub first_not_allowed : List Text → List Text → Option Text
first_not_allowed allowed values =
    if is_empty allowed then none else find (λ value. not (any (text_eq value) allowed)) values

module _ (lowercase : Text → Text) where
  -- The value text of a field without a comparison.
  unfoldable pub parse_values : FilterFieldSpec → Bool → Text → ℕ → Result FilterError FilterTerm
  parse_values spec negated value_text position = do
    values ← split_values lowercase value_text position spec
    elim (first_not_allowed (allowed_values spec) values) [
      | none ↦ ok (field_term spec.field negated values none)
      | some value ↦ err (
          error position (value ++ (codes " is not a value of " ++ spec.name))
            (expected_syntax spec))
    ]

  unfoldable pub parse_structured :
      FilterFieldSpec → Bool → Text → Text → ℕ → Result FilterError FilterTerm
  parse_structured spec negated prefix structured_value position =
      if not (text_eq prefix (codes "starts_with"))
      then err (
          error position (codes "unknown operator " ++ (prefix ++ codes "="))
            (spec.name ++ (codes ":value or " ++ (spec.name ++ codes ":starts_with=value"))))
      else if not (allows spec.operators starts_with_op)
      then err (error position (spec.name ++ codes " has fixed values") (expected_syntax spec))
      else if is_empty structured_value
      then err (error position (spec.name ++ codes " needs a value") (expected_syntax spec))
      else normalize_value lowercase structured_value position >>= λ value.
          ok (structured_term spec.field negated value starts_with)

  unfoldable pub parse_comparison :
      FilterFieldSpec → Bool → FilterOperator → Text → ℕ → Result FilterError FilterTerm
  parse_comparison spec negated operator duration_text position =
      if not (allows spec.operators operator)
      then err (error position (spec.name ++ codes " does not compare") (expected_syntax spec))
      else elim (parse_filter_duration duration_text) [
        | none ↦ err (
            error position (duration_text ++ codes " is not a duration")
              (codes "a count and one of s, m, h, d, w, for example 7d"))
        | some seconds ↦
            ok (field_term spec.field negated [] (some (from_operator operator seconds)))
      ]

  unfoldable pub parse_field : FilterFieldSpec → Bool → Text → ℕ → Result FilterError FilterTerm
  parse_field spec negated value_text position =
      if is_empty value_text
      then err (error position (spec.name ++ codes " needs a value") (expected_syntax spec))
      else elim (comparison_parts value_text) [
        | some (operator, duration_text) ↦
            parse_comparison spec negated operator duration_text position
        | none ↦
            if is_duration spec.value_kind
            then err
                (error position (spec.name ++ codes " needs a comparison") (expected_syntax spec))
            else elim (split_once b'=' value_text) [
              | some (prefix, structured_value) ↦
                  parse_structured spec negated prefix structured_value position
              | none ↦ parse_values spec negated value_text position
            ]
      ]

  unfoldable pub parse_body : FilterSchema → Bool → Text → ℕ → Result FilterError FilterTerm
  parse_body schema negated body position =
      if is_empty body
      then err (error position (codes "empty term") (field_list_hint schema))
      else elim (split_once b':' body) [
        | none ↦
            if negated
            then err (
                error position (codes "negation needs a field")
                  (codes "!field:value, for example !tag:server"))
            else normalize_value lowercase body position >>= λ value. ok (text_term value)
        | some (field_text, value_text) ↦ elim (field schema field_text) [
          | none ↦
              err (error position (codes "unknown field " ++ field_text) (field_list_hint schema))
          | some spec ↦
              parse_field spec negated value_text
                (saturating_add (saturating_add position (len field_text)) 1)
        ]
      ]

  -- `strip_prefix('!')`, and the rest of `parse_term`.
  unfoldable pub parse_term : FilterSchema → Text × ℕ → Result FilterError FilterTerm
  parse_term schema (token, position) = elim (strip_prefix token (codes "!")) [
    | none ↦ parse_body schema false token position
    | some body ↦ parse_body schema true body position
  ]

  unfoldable pub parse_terms : FilterSchema → List (Text × ℕ) → Result FilterError (List FilterTerm)
  parse_terms schema [] = ok []
  parse_terms schema (token ∷ tokens) = do
    term ← parse_term schema token
    terms ← parse_terms schema tokens
    ok (term ∷ terms)

  -- A filter expression is the list of its terms.
  unfoldable pub parse : Text → FilterSchema → Result FilterError (List FilterTerm)
  parse input schema = tokenize input >>= parse_terms schema
