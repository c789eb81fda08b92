-- ===== src/Matching/Substrings.antt =====
-- What the searches of src/domain/filter.rs find.
use tale.Prelude.{
  ℕ, ◌+◌, ◌≤◌, ◌⊎◌, text_eq_iff, ◌≡◌, ◌↔◌, refl, sym, ap, subst, ◌∙◌, [], ◌∷◌, ◌++◌, Bool, true,
  false, ◌||◌, some, inl, inr, arith, Text, any, is_empty, is_some_and, slice_from,
  char_indices_from, len, len_utf8, len_utf8_pos, Bool-cases,
}
use tale.Matching.{
  eq_ignore_ascii_case, to_ascii_lowercase, characters_match, starts_with_matches, contains_matches,
}

slice_behind : (v w : Text) → slice_from (v ++ w) (len v) ≡ some w
unfolding slice_from len
slice_behind [] [] = refl
slice_behind [] (c ∷ w) = refl
slice_behind (c ∷ v) w = ground (arith, len_utf8_pos c, slice_behind v w)

len-snoc : (v : Text) (c : ℕ) → len (v ++ c ∷ []) ≡ len v + len_utf8 c
unfolding len
len-snoc [] c = omega arith
len-snoc (d ∷ v) c = omega (arith, len-snoc v c)

append-snoc : (v : Text) (c : ℕ) (w : Text) → (v ++ c ∷ []) ++ w ≡ v ++ c ∷ w
append-snoc [] c w = refl
append-snoc (d ∷ v) c w = ap (λ (u : Text). d ∷ u) (append-snoc v c w)

-- One is the capital ASCII letter whose small letter is the other.
abbrev pub CapitalOf : ℕ → ℕ → Type 0
CapitalOf c d = (b'A' ≤ c) × (c ≤ b'Z') × (d ≡ c + 32)

module _ (lower : ℕ → Text) where
  -- The characters differ at most in case: they are the same, or a capital ASCII letter and its small
  -- one, or the first is no ASCII character and both have one lower case.
  abbrev pub SameButCase : ℕ → ℕ → Type 0
  SameButCase c d = (c ≡ d) ⊎ CapitalOf c d ⊎ CapitalOf d c ⊎ (128 ≤ c) × (lower c ≡ lower d)

  pub match-SameButCase : (c d : ℕ) → characters_match lower c d ≡ true → SameButCase c d
  unfolding characters_match eq_ignore_ascii_case to_ascii_lowercase
  match-SameButCase c d h = ground (arith, text_eq_iff (lower c) (lower d))

  pub SameButCase-match : (c d : ℕ) → SameButCase c d → characters_match lower c d ≡ true
  unfolding characters_match eq_ignore_ascii_case to_ascii_lowercase
  SameButCase-match c d s = ground (arith, text_eq_iff (lower c) (lower d))

  -- Two texts of one length whose characters, each against its own, differ at most in case.
  abbrev pub Alike : Text → Text → Type 0
  Alike [] [] = Unit
  Alike [] (d ∷ w) = ⊥
  Alike (c ∷ v) [] = ⊥
  Alike (c ∷ v) (d ∷ w) = SameButCase c d × Alike v w

  -- The value occurs in the text.
  pub record Occurs (candidate value : Text) : Type 0 where
    pub before : Text
    pub found : Text
    pub behind : Text
    pub split : candidate ≡ before ++ (found ++ behind)
    pub alike : Alike found value

  starts_found :
      (candidate value : Text)
      → starts_with_matches lower candidate value ≡ true
      → (found behind : Text) × (candidate ≡ found ++ behind) × Alike found value
  unfolding starts_with_matches
  starts_found candidate [] h = ([], candidate, refl, tt)
  starts_found [] (d ∷ value) h = absurd (ground arith)
  starts_found (c ∷ candidate) (d ∷ value) h =
      let (found, behind, split, alike) = starts_found candidate value (ground arith) in
      (
        c ∷ found,
        behind,
        ap (λ (u : Text). c ∷ u) split,
        (match-SameButCase c d (ground arith), alike),
      )

  starts_at :
      (found behind value : Text)
      → Alike found value
      → starts_with_matches lower (found ++ behind) value ≡ true
  unfolding starts_with_matches
  starts_at [] behind [] h = refl
  starts_at [] behind (d ∷ value) h = absurd h
  starts_at (c ∷ found) behind [] h = refl
  starts_at (c ∷ found) behind (d ∷ value) h =
      ground (arith, SameButCase-match c d h.0, starts_at found behind value h.1)

  -- From the place behind `v`, the searched texts are the ends of `w`.
  abbrev behind_match : Text → Text → Text → Bool
  behind_match v w value =
      any
        (λ p. is_some_and (slice_from (v ++ w) p.0) (λ tail. starts_with_matches lower tail value))
        (char_indices_from (len v) w)

  behind-cons :
      (v : Text) (c : ℕ) (w value : Text)
      → behind_match v (c ∷ w) value
        ≡ (starts_with_matches lower (c ∷ w) value || behind_match (v ++ c ∷ []) w value)
  unfolding char_indices_from
  behind-cons v c w value = rw (slice_behind v (c ∷ w), append-snoc v c w, len-snoc v c) refl

  behind_found : (v w value : Text) → behind_match v w value ≡ true → Occurs w value
  unfolding char_indices_from
  behind_found v [] value h = absurd (ground arith)
  behind_found v (c ∷ w) value h = elim (Bool-cases (starts_with_matches lower (c ∷ w) value)) [
    | inl e ↦
        let (found, behind, split, alike) = starts_found (c ∷ w) value e in
        record { before = []; found = found; behind = behind; split = split; alike = alike }
    | inr e ↦
        let later = behind_found (v ++ c ∷ []) w value (ground (arith, behind-cons v c w value)) in
        record {
          before = c ∷ later.before;
          found = later.found;
          behind = later.behind;
          split = ap (λ (u : Text). c ∷ u) later.split;
          alike = later.alike;
        }
  ]

  occurs_behind :
      (v before found behind value : Text)
      → Alike found value
      → (is_empty value ≡ false)
      → behind_match v (before ++ (found ++ behind)) value ≡ true
  occurs_behind v [] [] behind [] h e = absurd (ground arith)
  occurs_behind v [] [] behind (d ∷ value) h e = absurd h
  occurs_behind v [] (c ∷ found) behind value h e =
      behind-cons v c (found ++ behind) value ∙ ground (arith, starts_at (c ∷ found) behind value h)
  occurs_behind v (c ∷ before) found behind value h e =
      behind-cons v c (before ++ (found ++ behind)) value
      ∙ ground (arith, occurs_behind (v ++ c ∷ []) before found behind value h e)

  -- A search finds a value exactly if it occurs in the text up to case, whatever the lower-case
  -- mapping is: character by character they are the same, or a capital ASCII letter and its small one,
  -- or the text's is no ASCII character and both have one lower case.
  pub contains_matches_lem :
      (candidate value : Text)
      → (contains_matches lower candidate value ≡ true) ↔ Occurs candidate value
  unfolding contains_matches len
  contains_matches_lem candidate [] = (
    λ _. record { before = []; found = []; behind = candidate; split = refl; alike = tt },
    λ _. refl,
  )
  contains_matches_lem candidate (d ∷ value) = (
    λ h. behind_found [] candidate (d ∷ value) h,
    λ o.
        subst (λ u. contains_matches lower u (d ∷ value) ≡ true) (sym o.split)
          (occurs_behind [] o.before o.found o.behind (d ∷ value) o.alike refl),
  )
