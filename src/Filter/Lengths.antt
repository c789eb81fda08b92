-- ===== src/Filter/Lengths.antt =====
-- That `parse` in src/domain/filter.rs reads a term at every span.
use tale.Prelude.{
  ℕ, suc, ◌≡◌, refl, ap, ◌∙◌, List, [], ◌∷◌, Text, length, map, ok, answers_of, arith,
}
use tale.Filter.Schema.{FilterSchema}
use tale.Filter.Tokens.{tokenize, token_spans}
use tale.Filter.Terms.{FilterTerm}
use tale.Filter.Parser.{parse_term, parse_terms, parse}
use tale.Filter.Reading.{token_of}
use tale.Filter.Agreement.{tokenize-token_spans}

length-map {ℓ κ} :
    {A : Type ℓ} {B : Type κ} (f : A → B) (xs : List A) → length (map f xs) ≡ length xs
length-map f [] = refl
length-map f (x ∷ xs) = ap suc (length-map f xs)

module _ (lowercase : Text → Text) where
  parse_terms-length :
      (schema : FilterSchema) (tokens : List (Text × ℕ)) (terms : List FilterTerm)
      → parse_terms lowercase schema tokens ≡ ok terms
      → length terms ≡ length tokens
  unfolding parse_terms
  parse_terms-length schema [] terms h = cc
  parse_terms-length schema (token ∷ tokens) terms h =
      let (term, _, h') = answers_of (parse_term lowercase schema token) _ h in
      let (rest, e, same) = answers_of (parse_terms lowercase schema tokens) _ h' in
      let i = parse_terms-length schema tokens rest e in ground (arith, i, same)

  -- A parsed filter has one term for every span of the input.
  pub parse-length :
      (input : Text) (schema : FilterSchema) (terms : List FilterTerm)
      → parse lowercase input schema ≡ ok terms
      → length terms ≡ length (token_spans input)
  unfolding parse
  parse-length input schema terms h =
      let (tokens, accepted, h') = answers_of (tokenize input) _ h in
      parse_terms-length schema tokens terms h'
      ∙ ap length (tokenize-token_spans input tokens accepted)
      ∙ length-map (token_of input) (token_spans input)
