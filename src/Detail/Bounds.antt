-- ===== src/Detail/Bounds.antt =====
-- What src/detail.rs promises of the texts that it cuts.
use tale.Prelude.{
  ℕ, ◌+◌, ◌-◌, ◌*◌, ◌/◌, ◌≤◌, ◌<◌, ◌≡◌, refl, sym, ap, ◌∙◌, ◌⊎◌, inl, inr, some, [], ◌++◌, arith,
  Text, len, len_utf8, leb, Bool-cases, Cut, boundary-Cut, ascii_boundary, head_extends, len-append,
  saturating_mul, ltb, slice_to, slice_from, leb→le, lt→leb_false, leb_false→lt, tests,
}
use mathlib.Core.List.{append-nil, append_assoc}
use tale.Detail.{
  output_truncation_marker, detail_truncation_marker, boundary_at_or_before, boundary_at_or_after,
  both_ends, bounded_ends, push_bounded_ends, with_line, bounded_prefix_bytes, joined,
}
use tale.Detail.Boundary.{boundary_at_or_before_lem, boundary_at_or_after_lem}

pub marker_len : len output_truncation_marker ≡ 26
unfolding len len_utf8
marker_len = refl

marker-Cut : (cap : ℕ) → cap ≤ len output_truncation_marker → Cut output_truncation_marker cap
marker-Cut cap h = boundary-Cut _ cap (ascii_boundary output_truncation_marker cap (omega arith) h)

head-Cut : (v : Text) (limit : ℕ) → Cut v (boundary_at_or_before v limit)
head-Cut v limit = boundary-Cut v _ (boundary_at_or_before_lem v limit).1

tail-Cut : (v : Text) (limit : ℕ) → limit ≤ len v → Cut v (boundary_at_or_after v limit)
tail-Cut v limit h = boundary-Cut v _ (boundary_at_or_after_lem v limit h).1

Cut-len_tail : (v : Text) (i : ℕ) (c : Cut v i) → len c.tail + i ≡ len v
Cut-len_tail v i c = omega (arith, ap len c.whole, len-append c.head c.tail, c.at)

-- The head and the tail that a cut text keeps, with what was dropped between them.
pub record Kept (value marker : Text) (available : ℕ) (result : Text) : Type 0 where
  pub head : Text
  pub middle : Text
  pub tail : Text
  pub split : value ≡ head ++ (middle ++ tail)
  pub shown : result ≡ head ++ (marker ++ tail)
  pub fits : len head + len tail ≤ available

-- Two cuts, the first no later than the second, leave the middle out.
cuts_Kept :
    (v marker : Text) (i j available : ℕ) (first : Cut v i) (last : Cut v j)
    → i ≤ j
    → i + len v ≤ available + j
    → (r : Text) × (joined (slice_to v i) marker (slice_from v j) ≡ some r)
      × Kept v marker available r
cuts_Kept v marker i j available first last ordered fits =
    let (m, extends) =
      head_extends first.head first.tail last.head last.tail (sym first.whole ∙ last.whole)
        (omega (arith, first.at, last.at)) in
    (
      first.head ++ (marker ++ last.tail),
      rw (first.to_head, last.from_tail),
      record {
        head = first.head;
        middle = m;
        tail = last.tail;
        split =
            last.whole
            ∙ ap (λ (h : Text). h ++ last.tail) extends
            ∙ append_assoc first.head m last.tail;
        shown = refl;
        fits = omega (arith, first.at, Cut-len_tail v j last);
      },
    )

both_ends-Kept :
    (v marker : Text) (available : ℕ)
    → available ≤ len v
    → (r : Text) × (both_ends v marker available ≡ some r) × Kept v marker available r
unfolding both_ends
both_ends-Kept v marker available long =
    let limit = available / 2 in
    let from = len v - (available - limit) in
    let before = boundary_at_or_before_lem v limit in
    let after = boundary_at_or_after_lem v from (omega arith) in
    cuts_Kept v marker _ _ available (head-Cut v limit) (tail-Cut v from (omega arith))
      (omega (arith, before.0, after.0)) (omega (arith, before.0, after.0))

Kept-len :
    (v marker : Text) (available : ℕ) (r : Text)
    → Kept v marker available r
    → len r ≤ len marker + available
Kept-len v marker available r k =
    omega (
      arith,
      ap len k.shown,
      len-append k.head (marker ++ k.tail),
      len-append marker k.tail,
      k.fits,
    )

-- Text over the cap, with room for the marker: the result is a prefix of the text, the marker and a
-- suffix of the text, where the two parts do not overlap and hold what the marker leaves of the cap.
pub bounded_ends-Kept :
    (v : Text) (cap : ℕ)
    → len output_truncation_marker < cap
    → cap < len v
    → (r : Text) × (bounded_ends v cap ≡ some r)
      × Kept v output_truncation_marker (cap - len output_truncation_marker) r
unfolding bounded_ends
bounded_ends-Kept v cap above long =
    rw (lt→leb_false (len v) cap long, lt→leb_false cap (len output_truncation_marker) above)
      (both_ends-Kept v output_truncation_marker (cap - len output_truncation_marker) (omega arith))

-- Whatever the text and the cap, no slice panics and the result has at most `cap` bytes.
pub bounded_ends-len-le :
    (v : Text) (cap : ℕ) → (r : Text) × (bounded_ends v cap ≡ some r) × (len r ≤ cap)
unfolding bounded_ends
bounded_ends-len-le v cap = elim (Bool-cases (leb (len v) cap)) [
  | inl fits ↦ (v, rw fits refl, leb→le _ _ fits)
  | inr long ↦ rw long (elim (Bool-cases (leb cap (len output_truncation_marker))) [
    | inl small ↦
        let cut = marker-Cut cap (leb→le _ _ small) in
        (cut.head, rw (small, cut.to_head) refl, omega (arith, cut.at))
    | inr room ↦
        let (r, shown, kept) =
          both_ends-Kept v output_truncation_marker (cap - len output_truncation_marker)
            (omega (tests, long)) in
        (r, rw (room, shown) refl, omega (tests, room, Kept-len v _ _ r kept))
  ])
]

-- A running detail never holds more than twice its cap, whatever it held before and however long the
-- line is, and appending to it does not panic.
pub push_bounded_ends-len-le :
    (detail value : Text) (cap : ℕ)
    → (r : Text) × (push_bounded_ends detail value cap ≡ some r) × (len r ≤ cap * 2)
unfolding push_bounded_ends
push_bounded_ends-len-le detail value cap =
    let combined = with_line detail value in
    elim (Bool-cases (ltb (saturating_mul cap 2) (len combined))) [
      | inl over ↦
          let (r, shown, fits) = bounded_ends-len-le combined cap in
          (r, rw (over, shown) refl, omega arith)
      | inr within ↦ (combined, rw within refl, ground (arith, within))
    ]

-- A prefix cut at `limit` bytes starts with the text, has at most `limit` bytes of it and ends with
-- the marker; a text that fits is returned whole. No slice panics.
pub bounded_prefix_bytes_lem :
    (v : Text) (limit : ℕ)
    → (head tail : Text) × (v ≡ head ++ tail)
      × (len head ≤ limit)
      × ((bounded_prefix_bytes v limit ≡ some v) × (len v ≤ limit)
          ⊎ (bounded_prefix_bytes v limit ≡ some (head ++ detail_truncation_marker))
            × (limit < len v))
unfolding bounded_prefix_bytes
bounded_prefix_bytes_lem v limit = elim (Bool-cases (leb (len v) limit)) [
  | inl fits ↦ (v, [], sym (append-nil v), leb→le _ _ fits, inl (rw fits refl, leb→le _ _ fits))
  | inr long ↦
      let cut = head-Cut v limit in
      (
        cut.head,
        cut.tail,
        cut.whole,
        omega (arith, cut.at, (boundary_at_or_before_lem v limit).0),
        inr (rw (long, cut.to_head) refl, leb_false→lt _ _ long),
      )
]
