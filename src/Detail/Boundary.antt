-- ===== src/Detail/Boundary.antt =====
-- The searches of src/detail.rs for a boundary of characters.
use tale.Prelude.{
  ℕ, ◌≤◌, ◌≡◌, inl, inr, true, arith, Text, len, ltb, is_char_boundary, char_indices_from,
  get_last?, find, Bool-cases, Option-cases, starts_below, last_before_boundary,
  first_past_boundary, len-boundary, start_boundary,
}
use tale.Detail.{boundary_at_or_before, boundary_at_or_after}

-- The cut found at or before a byte is a boundary, and not past that byte.
pub boundary_at_or_before_lem :
    (v : Text) (limit : ℕ)
    → (boundary_at_or_before v limit ≤ limit)
      × (is_char_boundary v (boundary_at_or_before v limit) ≡ true)
unfolding boundary_at_or_before
boundary_at_or_before_lem v limit = elim (Bool-cases (is_char_boundary v limit)) [
  | inl here ↦ rw here (omega arith, here)
  | inr inside ↦ rw inside (elim (Option-cases (get_last? (starts_below 0 limit v))) [
    | inl missing ↦ rw missing (omega arith, start_boundary v)
    | inr (k, found) ↦ rw found (ground (arith, last_before_boundary v 0 limit k found))
  ])
]

-- The cut found at or after a byte of the text is a boundary, and not before that byte.
pub boundary_at_or_after_lem :
    (v : Text) (limit : ℕ)
    → limit ≤ len v
    → (limit ≤ boundary_at_or_after v limit)
      × (is_char_boundary v (boundary_at_or_after v limit) ≡ true)
unfolding boundary_at_or_after
boundary_at_or_after_lem v limit h = elim (Bool-cases (is_char_boundary v limit)) [
  | inl here ↦ rw here (omega arith, here)
  | inr inside ↦
      rw inside (elim (Option-cases (find (λ p. ltb limit p.0) (char_indices_from 0 v))) [
        | inl missing ↦ rw missing (h, len-boundary v)
        | inr ((k, d), found) ↦ rw found (ground (arith, first_past_boundary v 0 limit k d found))
      ])
]
