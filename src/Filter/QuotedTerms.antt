-- ===== src/Filter/QuotedTerms.antt =====
-- What the parser of src/domain/filter.rs makes of texts in quotes.
use tale.Prelude.{
  ℕ, ◌+◌, ◌-◌, ◌≡◌, refl, ap, List, [], ◌∷◌, ◌++◌, false, none, some, Text, len, len_utf8, length,
  length-append, ltb, map, slice_from, slice_to, contains, get_last?, ok, arith, All,
  slice_to-append, len-append,
}
use tale.Filter.Schema.{FilterSchema}
use tale.Filter.Scans.{At-start}
use tale.Filter.Terms.{inside_quotes, ends_with_quote, text_term, split_once, normalize_value}
use tale.Filter.Parser.{parse_body, parse_term, parse_terms, parse}
use tale.Filter.Quoting.{quote, quoted, quoted_tokens, in_quotes, tokenize-in_quotes}

-- A token in quotes is read as free text if it has no colon.
split_once-none :
    (separator : ℕ) (v w : Text)
    → contains v separator ≡ false
    → split_once separator w ≡ none
    → split_once separator (v ++ w) ≡ none
unfolding split_once
split_once-none separator [] w h hw = hw
split_once-none separator (c ∷ v) w h hw = ground (arith, split_once-none separator v w)

get_last?-snoc : (v : Text) (c : ℕ) → get_last? (v ++ c ∷ []) ≡ some c
get_last?-snoc [] c = refl
get_last?-snoc (d ∷ []) c = refl
get_last?-snoc (d ∷ e ∷ v) c = get_last?-snoc (e ∷ v) c

-- The slices that take the quotes off.
slice_to-quoted : (v : Text) → slice_to (quoted v) (len (quoted v) - 1) ≡ some (b'"' ∷ v)
unfolding len len_utf8
slice_to-quoted v =
    let size : len (quoted v) - 1 ≡ len (b'"' ∷ v) = omega (arith, len-append v (b'"' ∷ [])) in
    rw size (slice_to-append (b'"' ∷ v) (b'"' ∷ []))

slice_from-quote : (v : Text) → slice_from (b'"' ∷ v) 1 ≡ some v
unfolding slice_from len_utf8
slice_from-quote v = At-start v

module _ (lowercase : Text → Text) where
  inside_quotes-quoted : (v : Text) → inside_quotes lowercase (quoted v) ≡ lowercase v
  inside_quotes-quoted v = rw (inside_quotes, slice_to-quoted v, slice_from-quote v) refl

  normalize_value-quoted :
      (v : Text) (position : ℕ) → normalize_value lowercase (quoted v) position ≡ ok (lowercase v)
  unfolding normalize_value
  normalize_value-quoted v position =
      let last : get_last? (quoted v) ≡ some b'"' = get_last?-snoc (b'"' ∷ v) b'"' in
      let long : ltb (length (quoted v)) 2 ≡ false = ground (arith, length-append v (b'"' ∷ [])) in
      rw (normalize_value, ends_with_quote, last, long)
        (ap (λ (w : Text). ok w) (inside_quotes-quoted v))

  parse_term-quoted :
      (schema : FilterSchema) (v : Text) (position : ℕ)
      → contains v b':' ≡ false
      → parse_term lowercase schema (quoted v, position) ≡ ok (text_term (lowercase v))
  unfolding parse_term parse_body split_once
  parse_term-quoted schema v position h =
      rw (split_once-none b':' v (b'"' ∷ []) h refl, normalize_value-quoted v position) refl

  parse_terms-quoted :
      (schema : FilterSchema) (vs : List Text) (o : ℕ)
      → All (λ v. contains v b':' ≡ false) vs
      → parse_terms lowercase schema (quoted_tokens o vs)
        ≡ ok (map (λ v. text_term (lowercase v)) vs)
  unfolding parse_terms
  parse_terms-quoted schema [] o h = refl
  parse_terms-quoted schema (v ∷ vs) o h =
      rw
        (parse_term-quoted schema v o h.0, parse_terms-quoted schema vs (o + len (quote v) + 1) h.1)
        refl

  -- Texts without a colon, each in quotes with its quotes and backslashes escaped, and written with
  -- spaces between them, parse in every schema as free text, one term for each, in lower case.
  pub parse-in_quotes :
      (schema : FilterSchema) (vs : List Text)
      → All (λ v. contains v b':' ≡ false) vs
      → parse lowercase (in_quotes vs) schema ≡ ok (map (λ v. text_term (lowercase v)) vs)
  unfolding parse
  parse-in_quotes schema vs h = rw (tokenize-in_quotes vs) (parse_terms-quoted schema vs 0 h)
