-- ===== src/Matching.antt =====
-- The case-insensitive searches of src/domain/filter.rs. Unicode's lower-case mapping, which the
-- standard library keeps as tables, is the parameter `lower`: the characters it maps a character to.
pub mod Substrings
pub mod Fuzzy
use tale.Prelude.{
  ℕ, ◌+◌, [], ◌∷◌, Bool, true, false, not, ◌&&◌, ◌||◌, Option, none, some, ltb, leb, ◌==◌,
  if◌then◌else◌, Text, text_eq, any, is_empty, is_some_and, slice_from, char_indices_from, length,
}

-- `char::is_ascii`, `char::to_ascii_lowercase` and `char::eq_ignore_ascii_case`.
abbrev pub is_ascii : ℕ → Bool
is_ascii c = ltb c 0x80

unfoldable pub to_ascii_lowercase : ℕ → ℕ
to_ascii_lowercase c = if leb b'A' c && leb c b'Z' then c + 32 else c

unfoldable pub eq_ignore_ascii_case : ℕ → ℕ → Bool
eq_ignore_ascii_case c d = to_ascii_lowercase c == to_ascii_lowercase d

pub data FieldMatchMode : Type 0 where
  exact contains starts_with : FieldMatchMode

module _ (lower : ℕ → Text) where
  unfoldable pub characters_match : ℕ → ℕ → Bool
  characters_match character wanted =
      eq_ignore_ascii_case character wanted
      || (not (is_ascii character) && text_eq (lower character) (lower wanted))

  unfoldable pub starts_with_matches : Text → Text → Bool
  starts_with_matches candidate [] = true
  starts_with_matches [] (wanted ∷ value) = false
  starts_with_matches (character ∷ candidate) (wanted ∷ value) =
      characters_match character wanted && starts_with_matches candidate value

  -- A character's index is a boundary, so `get(index..)` is never `None`.
  unfoldable pub contains_matches : Text → Text → Bool
  contains_matches candidate value =
      is_empty value
      || any (λ p. is_some_and (slice_from candidate p.0) (λ tail. starts_with_matches tail value))
          (char_indices_from 0 candidate)

  -- `characters.any(…)`: what the iterator still holds behind the first match.
  unfoldable pub skip_to : ℕ → Text → Option Text
  skip_to wanted [] = none
  skip_to wanted (character ∷ candidate) =
      if characters_match character wanted then some candidate else skip_to wanted candidate

  unfoldable pub fuzzy_matches : Text → Text → Bool
  fuzzy_matches candidate [] = true
  fuzzy_matches candidate (wanted ∷ value) = elim (skip_to wanted candidate) [
    | none ↦ false
    | some rest ↦ fuzzy_matches rest value
  ]

  unfoldable pub text_matches : Text → Text → FieldMatchMode → Bool
  text_matches candidate value exact =
      (length candidate == length value) && starts_with_matches candidate value
  text_matches candidate value contains = contains_matches candidate value
  text_matches candidate value starts_with = starts_with_matches candidate value
