-- ===== src/Filter/Quoting.antt =====
-- Texts written in quotes, as the tokenizer of src/domain/filter.rs read them.
use tale.Prelude.{
  join, ℕ, ◌+◌, ◌-◌, ◌≡◌, refl, ap, sym, ◌∙◌, List, [], ◌∷◌, ◌++◌, true, false, ◌||◌, none, some,
  ◌==◌, if◌then◌else◌, Text, codes, len, len_utf8, is_empty, map, foldl, char_indices_from, Result,
  ok, err, arith, Bool-cases, inl, inr, len-append, append_assoc, append-nil,
}
use native.Mathlib.Nat.{add-zero}
use tale.Filter.Schema.{}
use tale.Filter.Tokens.{
  unclosed_quote, unwrap_or, FilterError, tokenize, is_whitespace, lex_step, Lexer,
}

-- A text in quotes, as a user has to write it, and as a token that holds it.
abbrev pub escape : Text → Text
escape [] = []
escape (c ∷ v) = if c == b'"' || c == b'\\' then b'\\' ∷ c ∷ escape v else c ∷ escape v

abbrev pub quote : Text → Text
quote v = b'"' ∷ (escape v ++ b'"' ∷ [])

abbrev pub quoted : Text → Text
quoted v = b'"' ∷ (v ++ b'"' ∷ [])

-- The tokenizer inside quotes, and behind a token.
abbrev inside : List (Text × ℕ) → Text → ℕ → Lexer
inside tokens current start = record {
  tokens = tokens;
  current = current;
  start = some start;
  quoted = true;
  escaped = false;
}

abbrev behind : List (Text × ℕ) → Text → ℕ → Lexer
behind tokens current start = record {
  tokens = tokens;
  current = current;
  start = some start;
  quoted = false;
  escaped = false;
}

abbrev idle : List (Text × ℕ) → Lexer
idle tokens = record {
  tokens = tokens;
  current = [];
  start = none;
  quoted = false;
  escaped = false;
}

-- One more character inside quotes.
lex_step-plain :
    (tokens : List (Text × ℕ)) (current : Text) (start o c : ℕ)
    → (c == b'"' || c == b'\\') ≡ false
    → lex_step (inside tokens current start) (o, c) ≡ inside tokens (current ++ c ∷ []) start
unfolding lex_step
lex_step-plain tokens current start o c h =
    let quote : (c == b'"') ≡ false = ground arith in
    let backslash : (c == b'\\') ≡ false = ground arith in
    elim (Bool-cases (is_whitespace c)) [
      | inl e ↦ rw (quote, backslash, e) refl
      | inr e ↦ rw (quote, backslash, e) refl
    ]

-- The same state at the same place, however they are counted.
inside-same :
    (tokens : List (Text × ℕ)) (current v w : Text) (c start o o' : ℕ)
    → o ≡ o'
    → foldl lex_step (inside tokens (current ++ c ∷ [] ++ v) start) (char_indices_from o w)
      ≡ foldl lex_step (inside tokens (current ++ c ∷ v) start) (char_indices_from o' w)
inside-same tokens current v w c start o o' e = rw (append_assoc current (c ∷ []) v, e) refl

lex-escape :
    (v w : Text) (o start : ℕ) (tokens : List (Text × ℕ)) (current : Text)
    → foldl lex_step (inside tokens current start) (char_indices_from o (escape v ++ w))
      ≡ foldl lex_step
          (inside tokens (current ++ v) start)
          (char_indices_from (o + len (escape v)) w)
unfolding lex_step char_indices_from len
lex-escape [] w o start tokens current = rw (append-nil current, add-zero o) refl
lex-escape (c ∷ v) w o start tokens current = elim (Bool-cases (c == b'"' || c == b'\\')) [
  | inl e ↦ rw e (
      lex-escape v w (o + len_utf8 b'\\' + len_utf8 c) start tokens (current ++ c ∷ [])
      ∙ inside-same tokens current v w c start _ _ (omega arith))
  | inr e ↦ rw e (
      ap (λ s. foldl lex_step s (char_indices_from (o + len_utf8 c) (escape v ++ w)))
        (lex_step-plain tokens current start o c e)
      ∙ lex-escape v w (o + len_utf8 c) start tokens (current ++ c ∷ [])
      ∙ inside-same tokens current v w c start _ _ (omega arith))
]

lex-quote :
    (v w : Text) (o : ℕ) (tokens : List (Text × ℕ))
    → foldl lex_step (idle tokens) (char_indices_from o (quote v ++ w))
      ≡ foldl lex_step (behind tokens (quoted v) o) (char_indices_from (o + len (quote v)) w)
unfolding lex_step char_indices_from len
lex-quote v w o tokens =
    let rest : Text = b'"' ∷ w in
    let same : escape v ++ b'"' ∷ [] ++ w ≡ escape v ++ rest =
      append_assoc (escape v) (b'"' ∷ []) w in
    let bytes : o + len_utf8 b'"' + len (escape v) + len_utf8 b'"' ≡ o + len (quote v) =
      omega (arith, len-append (escape v) (b'"' ∷ [])) in
    ap (λ u. foldl lex_step (inside tokens (b'"' ∷ []) o) (char_indices_from (o + len_utf8 b'"') u))
      same
    ∙ lex-escape v rest (o + len_utf8 b'"') o tokens (b'"' ∷ [])
    ∙ ap (λ n. foldl lex_step (behind tokens (quoted v) o) (char_indices_from n w)) bytes

-- The end of `tokenize`.
abbrev finish : FilterError → Lexer → Result FilterError (List (Text × ℕ))
finish e s =
    if s.escaped || s.quoted
    then err e
    else ok
        (if is_empty s.current then s.tokens else s.tokens ++ (s.current, unwrap_or s.start 0) ∷ [])

abbrev pub quoted_tokens : ℕ → List Text → List (Text × ℕ)
quoted_tokens o [] = []
quoted_tokens o (v ∷ vs) = (quoted v, o) ∷ quoted_tokens (o + len (quote v) + 1) vs

abbrev pub in_quotes : List Text → Text
in_quotes vs = join (map quote vs) (codes " ")

finish-quotes :
    (e : FilterError) (vs : List Text) (o : ℕ) (tokens : List (Text × ℕ))
    → finish e (foldl lex_step (idle tokens) (char_indices_from o (in_quotes vs)))
      ≡ ok (tokens ++ quoted_tokens o vs)
unfolding lex_step char_indices_from len len_utf8
finish-quotes e [] o tokens = ap (λ (ts : List (Text × ℕ)). ok ts) (sym (append-nil tokens))
finish-quotes e (v ∷ []) o tokens = ap (finish e) (
    ap (λ u. foldl lex_step (idle tokens) (char_indices_from o u)) (sym (append-nil (quote v)))
    ∙ lex-quote v [] o tokens)
finish-quotes e (v ∷ w ∷ vs) o tokens =
    ap (finish e) (lex-quote v (b' ' ∷ in_quotes (w ∷ vs)) o tokens)
    ∙ finish-quotes e (w ∷ vs) (o + len (quote v) + 1) (tokens ++ (quoted v, o) ∷ [])
    ∙ ap (λ (ts : List (Text × ℕ)). ok ts)
        (append_assoc tokens ((quoted v, o) ∷ []) (quoted_tokens (o + len (quote v) + 1) (w ∷ vs)))

pub tokenize-in_quotes : (vs : List Text) → tokenize (in_quotes vs) ≡ ok (quoted_tokens 0 vs)
unfolding tokenize
tokenize-in_quotes vs = finish-quotes (unclosed_quote (len (in_quotes vs) - 1)) vs 0 []
