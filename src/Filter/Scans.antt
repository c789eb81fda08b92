-- ===== src/Filter/Scans.antt =====
-- Invariants of a loop over the characters of a text with their byte offsets.
use tale.Prelude.{
  ℕ, ◌+◌, ◌-◌, ◌≤◌, ◌≡◌, refl, [], ◌∷◌, true, some, ap, ◌⊎◌, sym, Text, len, len_utf8, len_utf8_pos,
  is_char_boundary, slice_from, char_indices_from, foldl, arith, subst, inl, inr,
}

-- `At input v o`: the text from byte `o` of the input on is `v`.
abbrev pub At : Text → Text → ℕ → Type 0
At input v o = slice_from input o ≡ some v

pub At-start : (v : Text) → At v v 0
unfolding slice_from
At-start [] = refl
At-start (c ∷ v) = refl

At-cons :
    (d : ℕ) (input w : Text) (o : ℕ)
    → At (d ∷ input) w o
    → ((o ≡ 0) × (d ∷ input ≡ w)) ⊎ ((len_utf8 d ≤ o) × At input w (o - len_utf8 d))
unfolding slice_from
At-cons d input w o h = ground arith

-- A place in a text is a boundary, no further than its end.
pub At-boundary : (input v : Text) (o : ℕ) → At input v o → is_char_boundary input o ≡ true
unfolding slice_from is_char_boundary
At-boundary [] v o h = ground arith
At-boundary (d ∷ input) v o h = ground (arith, At-boundary input v (o - len_utf8 d))

pub At-len : (input v : Text) (o : ℕ) → At input v o → o + len v ≡ len input
unfolding slice_from len
At-len [] v o h = ground arith
At-len (d ∷ input) v o h = elim (At-cons d input v o h) [
  | inl (z, here) ↦ rw (sym here, z) (omega arith)
  | inr (le, later) ↦ omega (arith, At-len input v (o - len_utf8 d) later)
]

pub At-step :
    (input : Text) (c : ℕ) (v : Text) (o : ℕ) → At input (c ∷ v) o → At input v (o + len_utf8 c)
unfolding slice_from
At-step [] c v o h = ground arith
At-step (d ∷ input) c v o h = elim (At-cons d input (c ∷ v) o h) [
  | inl (z, here) ↦
      let same : d ≡ c = cc in
      let rest : input ≡ v = cc in
      rw (z, same, rest)
        (ground (
          arith,
          At-start v,
          len_utf8_pos c,
          ap (slice_from v) {x = 0 + len_utf8 c - len_utf8 c} {y = 0} (omega arith),
        ))
  | inr (le, later) ↦
      let next : At input v (o - len_utf8 d + len_utf8 c) =
        At-step input c v (o - len_utf8 d) later in
      ground (
        arith,
        len_utf8_pos c,
        next,
        ap (slice_from input) {x = o + len_utf8 c - len_utf8 d} {y = o - len_utf8 d + len_utf8 c}
            (omega arith),
      )
]

-- What a step keeps, with the rest of the text and its offset, holds at the end of the loop.
pub scan-Inv {ℓ κ} :
    {S : Type ℓ} (f : S → ℕ × ℕ → S) (I : Text → ℕ → S → Type κ)
    → ((c : ℕ) (v : Text) (o : ℕ) (s : S) → I (c ∷ v) o s → I v (o + len_utf8 c) (f s (o, c)))
    → (v : Text) (o : ℕ) (s : S) → I v o s
    → I [] (o + len v) (foldl f s (char_indices_from o v))
unfolding len char_indices_from
scan-Inv f I step [] o s h = subst (λ n. I [] n s) (omega arith) h
scan-Inv f I step (c ∷ v) o s h =
    subst (λ n. I [] n (foldl f (f s (o, c)) (char_indices_from (o + len_utf8 c) v))) (omega arith)
      (scan-Inv f I step v (o + len_utf8 c) (f s (o, c)) (step c v o s h))
