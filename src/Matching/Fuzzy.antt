-- ===== src/Matching/Fuzzy.antt =====
-- What the fuzzy search of src/domain/filter.rs finds.
use tale.Prelude.{
  ℕ, ◌≡◌, ◌↔◌, refl, [], ◌∷◌, true, some, inl, inr, arith, Text, Bool-cases, Option-cases,
  Subsequence, ended, both, skipped, Subsequence-tail,
}
use tale.Matching.{characters_match, skip_to, fuzzy_matches}
use tale.Matching.Substrings.{Alike, match-SameButCase, SameButCase-match}

module _ (lower : ℕ → Text) where
  -- A character that matches, and what follows it.
  record Skipped (wanted : ℕ) (candidate rest : Text) : Type 0 where
    pub character : ℕ
    pub matches : characters_match lower character wanted ≡ true
    pub follows :
        (found : Text) → Subsequence found rest → Subsequence (character ∷ found) candidate

  skip_found :
      (wanted : ℕ) (candidate rest : Text)
      → skip_to lower wanted candidate ≡ some rest
      → Skipped wanted candidate rest
  unfolding skip_to
  skip_found wanted [] rest h = absurd (ground arith)
  skip_found wanted (c ∷ candidate) rest h = elim (Bool-cases (characters_match lower c wanted)) [
    | inl e ↦
        let same : candidate ≡ rest = ground arith in
        record { character = c; matches = e; follows = λ found s. both (rw same s) }
    | inr e ↦
        let later = skip_found wanted candidate rest (ground arith) in
        record {
          character = later.character;
          matches = later.matches;
          follows = λ found s. skipped (later.follows found s);
        }
  ]

  skip_first :
      (wanted c : ℕ) (found candidate : Text)
      → Subsequence (c ∷ found) candidate
      → characters_match lower c wanted ≡ true
      → (rest : Text) × (skip_to lower wanted candidate ≡ some rest) × Subsequence found rest
  unfolding skip_to
  skip_first wanted c found [] s h = elim s [ ]
  skip_first wanted c found (d ∷ candidate) (both s) h = (candidate, rw h refl, s)
  skip_first wanted c found (d ∷ candidate) (skipped s) h =
      elim (Bool-cases (characters_match lower d wanted)) [
        | inl e ↦ (candidate, rw e refl, Subsequence-tail s)
        | inr e ↦
            let (rest, at, s') = skip_first wanted c found candidate s h in (rest, rw e at, s')
      ]

  fuzzy_found :
      (candidate value : Text)
      → fuzzy_matches lower candidate value ≡ true
      → (found : Text) × Subsequence found candidate × Alike lower found value
  unfolding fuzzy_matches
  fuzzy_found candidate [] h = ([], ended, tt)
  fuzzy_found candidate (wanted ∷ value) h = elim (Option-cases (skip_to lower wanted candidate)) [
    | inl e ↦ absurd (ground arith)
    | inr (rest, e) ↦
        let (found, s, alike) = fuzzy_found rest value (rw (fuzzy_matches, e) at h) in
        let first = skip_found wanted candidate rest e in
        (
          first.character ∷ found,
          first.follows found s,
          (match-SameButCase lower first.character wanted first.matches, alike),
        )
  ]

  fuzzy_at :
      (found candidate value : Text)
      → Subsequence found candidate
      → Alike lower found value
      → fuzzy_matches lower candidate value ≡ true
  unfolding fuzzy_matches
  fuzzy_at [] candidate [] s h = refl
  fuzzy_at [] candidate (d ∷ value) s h = absurd h
  fuzzy_at (c ∷ found) candidate [] s h = absurd h
  fuzzy_at (c ∷ found) candidate (d ∷ value) s h =
      let (rest, at, s') = skip_first d c found candidate s (SameButCase-match lower c d h.0) in
      rw (fuzzy_matches, at) (fuzzy_at found rest value s' h.1)

  -- The fuzzy search finds a value exactly if the text has characters, in their order but with others
  -- between, that are the value's up to case, whatever the lower-case mapping is: each is the same, or
  -- a capital ASCII letter and its small one, or the text's is no ASCII character and both have one
  -- lower case.
  pub fuzzy_matches_lem :
      (candidate value : Text)
      → (fuzzy_matches lower candidate value ≡ true)
        ↔ ((found : Text) × Subsequence found candidate × Alike lower found value)
  fuzzy_matches_lem candidate value = (
    λ h. fuzzy_found candidate value h,
    λ (found, s, alike). fuzzy_at found candidate value s alike,
  )
