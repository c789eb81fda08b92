-- ===== src/Filter/Errors.antt =====
-- That the errors of `parse` in src/domain/filter.rs point into the input, and that it reads a term at
-- every span.
use tale.Prelude.{
  ℕ, ◌+◌, ◌-◌, ◌≤◌, ◌<◌, ◌≡◌, ap, List, [], ◌∷◌, ◌++◌, Bool, true, false, ◌||◌, some, Text, codes,
  len, len_utf8, len_utf8_pos, is_empty, map, saturating_add, foldl, slice_from, slice_to,
  char_indices_from, Result, ok, err, arith, Option-cases, inl, inr, All, len-append,
}
use tale.Filter.Schema.{FilterSchema, field}
use tale.Filter.Tokens.{FilterError, tokenize, token_spans, lex_step, Lexer, new_lexer}
use tale.Filter.Terms.{split_once, strip_prefix}
use tale.Filter.Parser.{parse_body, parse_term, parse_terms, parse}
use tale.Filter.Spans.{Chain, token_spans-Chain}
use tale.Filter.Reading.{Reading, unread, read, or_empty, between, token_of}
use tale.Filter.Agreement.{tokenize-token_spans}
use tale.Filter.Positions.{
  Errs, fine, fails_at, Errs-bind, Errs-bind_known, Errs-position, Errs-if, Errs-elim, At,
  normalize_value-At, parse_field-At,
}

Errs-mono :
    {A : Type 0} (position limit : ℕ) {r : Result FilterError A}
    → position ≤ limit
    → At position r
    → Errs (λ n. n ≤ limit) r
Errs-mono position limit le fine = fine
Errs-mono position limit le (fails_at e) = fails_at (omega (arith, e))

split_once-append :
    (separator : ℕ) (v before after : Text)
    → split_once separator v ≡ some (before, after)
    → v ≡ before ++ separator ∷ after
unfolding split_once
split_once-append separator [] before after h = absurd (ground arith)
split_once-append separator (c ∷ v) before after h = elim (Option-cases (split_once separator v)) [
  | inl e ↦ ground (arith, λ (e : c ≡ separator). ap (λ k. k ∷ v) e)
  | inr ((b, a), e) ↦
      let i = split_once-append separator v b a e in
      ground (arith, λ (e : c ≡ separator). ap (λ k. k ∷ v) e, ap (λ (w : Text). c ∷ w) i)
]

split_once-len :
    (separator : ℕ) (v before after : Text)
    → split_once separator v ≡ some (before, after)
    → len before + 1 ≤ len v
unfolding len
split_once-len separator v before after h = omega (
  arith,
  ap len (split_once-append separator v before after h),
  len-append before (separator ∷ after),
  len_utf8_pos separator,
)

-- What is left without the exclamation mark is no longer.
strip-len : (v body : Text) → strip_prefix v (codes "!") ≡ some body → len body ≤ len v
unfolding len
strip-len [] body h = absurd (ground arith)
strip-len (c ∷ v) body h = ground arith

read-len : (r : Reading) (c : ℕ) → len (read r c).text ≤ len r.text + len_utf8 c
unfolding read len
read-len r c = ground (arith, len-append r.text (c ∷ []))

foldl-read-len : (r : Reading) (v : Text) → len (foldl read r v).text ≤ len r.text + len v
unfolding len
foldl-read-len r [] = omega arith
foldl-read-len r (c ∷ v) = omega (arith, foldl-read-len (read r c) v, read-len r c)

slice_to-len : (v w : Text) (i : ℕ) → slice_to v i ≡ some w → len w ≤ i
unfolding slice_to len
slice_to-len [] w i h = ground arith
slice_to-len (c ∷ v) w i h = elim (Option-cases (slice_to v (i - len_utf8 c))) [
  | inl e ↦ ground arith
  | inr (u, e) ↦ ground (arith, slice_to-len v u (i - len_utf8 c) e)
]

between-len : (input : Text) (begin end : ℕ) → len (between input begin end) ≤ end - begin
unfolding len
between-len input begin end =
    elim (Option-cases (slice_to (or_empty (slice_from input begin)) (end - begin))) [
      | inl e ↦ rw e (omega arith)
      | inr (w, e) ↦ rw e (slice_to-len (or_empty (slice_from input begin)) w (end - begin) e)
    ]

token-len :
    (input : Text) (begin end : ℕ)
    → begin < end
    → begin + len (foldl read unread (between input begin end)).text ≤ end
unfolding len
token-len input begin end lt =
    omega (arith, between-len input begin end, foldl-read-len unread (between input begin end))

Chain-le : (lo : ℕ) (spans : List (ℕ × ℕ)) (hi : ℕ) → Chain lo spans hi → lo ≤ hi
Chain-le lo [] hi h = h
Chain-le lo ((b, e) ∷ spans) hi h = omega (arith, h.0, h.1, Chain-le e spans hi h.2)

abbrev Within : ℕ → Text × ℕ → Type 0
Within limit (token, position) = position + len token ≤ limit

tokens-Within :
    (input : Text) (lo : ℕ) (spans : List (ℕ × ℕ)) (hi : ℕ)
    → Chain lo spans hi
    → All (Within hi) (map (token_of input) spans)
tokens-Within input lo [] hi h = tt
tokens-Within input lo ((b, e) ∷ spans) hi h = (
  omega (arith, token-len input b e h.1, Chain-le e spans hi h.2),
  tokens-Within input e spans hi h.2,
)

tokenize-Within :
    (input : Text) (tokens : List (Text × ℕ))
    → tokenize input ≡ ok tokens
    → All (Within (len input)) tokens
tokenize-Within input tokens h =
    rw (tokenize-token_spans input tokens h)
      (tokens-Within input 0 (token_spans input) (len input) (token_spans-Chain input).0)

tokenize-Errs : (input : Text) → Errs (λ n. n ≤ len input) (tokenize input)
unfolding tokenize
tokenize-Errs input =
    let s : Lexer = foldl lex_step new_lexer (char_indices_from 0 input) in
    Errs-if (s.escaped || s.quoted) (fails_at (omega arith)) fine

module _ (lowercase : Text → Text) where
  parse_body-Errs :
      (schema : FilterSchema) (negated : Bool) (body : Text) (position limit : ℕ)
      → position + len body ≤ limit
      → Errs (λ n. n ≤ limit) (parse_body lowercase schema negated body position)
  unfolding parse_body
  parse_body-Errs schema negated body position limit le =
      Errs-if (is_empty body) (fails_at (omega arith)) (elim (Option-cases (split_once b':' body)) [
        | inl e ↦ rw e (
            Errs-if negated (fails_at (omega arith)) (
              Errs-bind
                (Errs-mono position limit (omega arith)
                  (normalize_value-At lowercase body position))
                (λ value. fine)))
        | inr ((field_text, value_text), e) ↦
            let l = split_once-len b':' body field_text value_text e in
            rw e (
              Errs-elim (field schema field_text) (fails_at (omega arith)) (λ spec.
                Errs-mono (saturating_add (saturating_add position (len field_text)) 1) limit
                  (omega (arith, l)) (parse_field-At lowercase spec negated value_text _)))
      ])

  parse_term-Errs :
      (schema : FilterSchema) (token : Text × ℕ) (limit : ℕ)
      → Within limit token
      → Errs (λ n. n ≤ limit) (parse_term lowercase schema token)
  unfolding parse_term
  parse_term-Errs schema (token, position) limit le =
      elim (Option-cases (strip_prefix token (codes "!"))) [
        | inl e ↦ rw e (parse_body-Errs schema false token position limit le)
        | inr (body, e) ↦ rw e (
            parse_body-Errs schema true body position limit (omega (arith, strip-len token body e)))
      ]

  parse_terms-Errs :
      (schema : FilterSchema) (tokens : List (Text × ℕ)) (limit : ℕ)
      → All (Within limit) tokens
      → Errs (λ n. n ≤ limit) (parse_terms lowercase schema tokens)
  unfolding parse_terms
  parse_terms-Errs schema [] limit h = fine
  parse_terms-Errs schema (token ∷ tokens) limit h =
      Errs-bind (parse_term-Errs schema token limit h.0)
        (λ term. Errs-bind (parse_terms-Errs schema tokens limit h.1) (λ terms. fine))

  -- The position of an error is within the input.
  pub parse-position-le :
      (input : Text) (schema : FilterSchema) (e : FilterError)
      → parse lowercase input schema ≡ err e
      → e.position ≤ len input
  unfolding parse
  parse-position-le input schema e h =
      Errs-position {P = λ n. n ≤ len input}
        (Errs-bind_known (tokenize input) (tokenize-Errs input) (λ tokens accepted.
          parse_terms-Errs schema tokens (len input) (tokenize-Within input tokens accepted)))
        h
