-- ===== src/Filter/Tokens.antt =====
-- `token_spans` and `tokenize` of src/domain/filter.rs: the loops over the characters of an input,
-- each with the variables that it keeps as a record.
use tale.Prelude.{
  ℕ, ◌-◌, List, [], ◌∷◌, ◌++◌, Bool, true, false, not, ◌&&◌, ◌||◌, Option, none, some, leb, ◌==◌,
  if◌then◌else◌, Text, codes, len, is_empty, char_indices_from, foldl, Result, ok, err,
}

-- `char::is_whitespace`: the characters with Unicode's White_Space property.
abbrev pub is_whitespace : ℕ → Bool
is_whitespace c =
    leb 0x9 c && leb c 0xD
    || c == 0x20
    || c == 0x85
    || c == 0xA0
    || c == 0x1680
    || leb 0x2000 c && leb c 0x200A
    || c == 0x2028
    || c == 0x2029
    || c == 0x202F
    || c == 0x205F
    || c == 0x3000

pub record FilterError : Type 0 where
  pub position : ℕ
  pub message : Text
  pub expected : Text

-- `start` unless it is set, as in `if start.is_none() { start = Some(position) }`.
abbrev pub or_at : Option ℕ → ℕ → Option ℕ
or_at none position = some position
or_at (some begin) position = some begin

abbrev pub unwrap_or : Option ℕ → ℕ → ℕ
unwrap_or none position = position
unwrap_or (some begin) position = begin

pub record Spanner : Type 0 where
  pub spans : List (ℕ × ℕ)
  pub start : Option ℕ
  pub quoted : Bool
  pub escaped : Bool

abbrev pub new_spanner : Spanner
new_spanner = record { spans = []; start = none; quoted = false; escaped = false }

abbrev pub closed : List (ℕ × ℕ) → Option ℕ → ℕ → List (ℕ × ℕ)
closed spans none position = spans
closed spans (some begin) position = spans ++ (begin, position) ∷ []

unfoldable pub span_step : Spanner → ℕ × ℕ → Spanner
span_step s (position, character) =
    if s.escaped
    then record s { escaped = false }
    else if (character == b'\\') && s.quoted
    then record s { escaped = true }
    else if character == b'"'
    then record s { quoted = not s.quoted; start = or_at s.start position }
    else if is_whitespace character && not s.quoted
    then record s { spans = closed s.spans s.start position; start = none }
    else record s { start = or_at s.start position }

unfoldable pub token_spans : Text → List (ℕ × ℕ)
token_spans input =
    let s = foldl span_step new_spanner (char_indices_from 0 input) in
    closed s.spans s.start (len input)

pub record Lexer : Type 0 where
  pub tokens : List (Text × ℕ)
  pub current : Text
  pub start : Option ℕ
  pub quoted : Bool
  pub escaped : Bool

abbrev pub new_lexer : Lexer
new_lexer = record { tokens = []; current = []; start = none; quoted = false; escaped = false }

unfoldable pub lex_step : Lexer → ℕ × ℕ → Lexer
lex_step s (position, character) =
    if s.escaped
    then record s { current = s.current ++ character ∷ []; escaped = false }
    else if (character == b'\\') && s.quoted
    then record s { escaped = true; start = or_at s.start position }
    else if character == b'"'
    then record s {
      quoted = not s.quoted;
      current = s.current ++ character ∷ [];
      start = or_at s.start position;
    }
    else if is_whitespace character && not s.quoted
    then (if is_empty s.current then s else record s {
      tokens = s.tokens ++ (s.current, unwrap_or s.start position) ∷ [];
      current = [];
      start = none;
    })
    else record s { current = s.current ++ character ∷ []; start = or_at s.start position }

abbrev pub unclosed_quote : ℕ → FilterError
unclosed_quote position = record {
  position = position;
  message = codes "unclosed quote";
  expected = codes "close the value with a matching \"";
}

unfoldable pub tokenize : Text → Result FilterError (List (Text × ℕ))
tokenize input =
    let s = foldl lex_step new_lexer (char_indices_from 0 input) in
    if s.escaped || s.quoted
    then err (unclosed_quote (len input - 1))
    else ok
        (if is_empty s.current then s.tokens else s.tokens ++ (s.current, unwrap_or s.start 0) ∷ [])
