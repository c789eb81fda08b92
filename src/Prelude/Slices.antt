-- ===== src/Prelude/Slices.antt =====
-- Slices of texts at boundaries of characters.
use tale.Prelude.Tests.{ltb}
use tale.Prelude.Lists.{get_last?, take_while, find, All}
use tale.Prelude.Strings.{
  Text, len_utf8, len_utf8_pos, len, is_char_boundary, slice_to, slice_from, char_indices_from,
}
use Prim.Native.Nat.{ℕ, ◌+◌, ◌-◌, ◌≤◌, ◌<◌}
use mathlib.Core.Path.{◌≡◌, refl, ap}
use mathlib.Core.Logic.{◌⊎◌, inl, inr}
use mathlib.Core.Bool.{true}
use mathlib.Core.Option.{some}
use mathlib.Core.List.{List, [], ◌∷◌, ◌++◌, map}
use native.Mathlib.Omega.{arith}

-- A cut of a text at a byte: the two slices, neither of which panics.
pub record Cut (v : Text) (i : ℕ) : Type 0 where
  pub head : Text
  pub tail : Text
  pub to_head : slice_to v i ≡ some head
  pub from_tail : slice_from v i ≡ some tail
  pub whole : v ≡ head ++ tail
  pub at : len head ≡ i

Cut-start : (v : Text) → Cut v 0
unfolding slice_to slice_from len
Cut-start [] = record {
  head = [];
  tail = [];
  to_head = refl;
  from_tail = refl;
  whole = refl;
  at = refl;
}
Cut-start (c ∷ v) = record {
  head = [];
  tail = c ∷ v;
  to_head = refl;
  from_tail = refl;
  whole = refl;
  at = refl;
}

boundary_inside :
    (c : ℕ) (v : Text) (i : ℕ)
    → is_char_boundary (c ∷ v) i ≡ true
    → (i ≡ 0) ⊎ ((len_utf8 c ≤ i) × (is_char_boundary v (i - len_utf8 c) ≡ true))
unfolding is_char_boundary
boundary_inside c v i h = ground (arith, len_utf8_pos c)

nil_boundary : (i : ℕ) → is_char_boundary [] i ≡ true → i ≡ 0
unfolding is_char_boundary
nil_boundary i h = ground arith

Cut-cons : (c : ℕ) (v : Text) (i : ℕ) → len_utf8 c ≤ i → Cut v (i - len_utf8 c) → Cut (c ∷ v) i
unfolding slice_to slice_from len
Cut-cons c v i h cut = record {
  head = c ∷ cut.head;
  tail = cut.tail;
  to_head = ground (arith, cut.to_head, len_utf8_pos c);
  from_tail = ground (arith, cut.from_tail, len_utf8_pos c);
  whole = ap (λ (w : Text). c ∷ w) cut.whole;
  at = omega (arith, cut.at);
}

-- A slice at a boundary does not panic, and the two slices make up the text.
pub boundary-Cut : (v : Text) (i : ℕ) → is_char_boundary v i ≡ true → Cut v i
boundary-Cut [] i h = rw (nil_boundary i h) (Cut-start [])
boundary-Cut (c ∷ v) i h = elim (boundary_inside c v i h) [
  | inl start ↦ rw start (Cut-start (c ∷ v))
  | inr (le, inside) ↦ Cut-cons c v i le (boundary-Cut v (i - len_utf8 c) inside)
]

get_last?_cases :
    (x : ℕ) (xs : List ℕ) (k : ℕ) → get_last? (x ∷ xs) ≡ some k → (x ≡ k) ⊎ (get_last? xs ≡ some k)
get_last?_cases x [] k h = ground arith
get_last?_cases x (y ∷ xs) k h = inr h

abbrev pub starts_below : ℕ → ℕ → Text → List ℕ
starts_below o limit v = map (λ p. p.0) (take_while (λ p. ltb p.0 limit) (char_indices_from o v))

-- The last character before a byte starts at a boundary.
pub last_before_boundary :
    (v : Text) (o limit k : ℕ)
    → get_last? (map (λ p. p.0) (take_while (λ p. ltb p.0 limit) (char_indices_from o v))) ≡ some k
    → (o ≤ k) × (k < limit) × (is_char_boundary v (k - o) ≡ true)
unfolding char_indices_from is_char_boundary
last_before_boundary [] o limit k h = cc
last_before_boundary (c ∷ v) o limit k h = ground (
  arith,
  len_utf8_pos c,
  get_last?_cases o (starts_below (o + len_utf8 c) limit v) k,
  last_before_boundary v (o + len_utf8 c) limit k,
)

-- The first character past a byte starts at a boundary.
pub first_past_boundary :
    (v : Text) (o limit k d : ℕ)
    → find (λ p. ltb limit p.0) (char_indices_from o v) ≡ some (k, d)
    → (o ≤ k) × (limit < k) × (is_char_boundary v (k - o) ≡ true)
unfolding char_indices_from is_char_boundary
first_past_boundary [] o limit k d h = cc
first_past_boundary (c ∷ v) o limit k d h =
    ground (arith, len_utf8_pos c, first_past_boundary v (o + len_utf8 c) limit k d)

-- The end of a text is a boundary.
pub len-boundary : (v : Text) → is_char_boundary v (len v) ≡ true
unfolding is_char_boundary len
len-boundary [] = refl
len-boundary (c ∷ v) = ground (arith, len-boundary v)

pub start_boundary : (v : Text) → is_char_boundary v 0 ≡ true
unfolding is_char_boundary
start_boundary [] = refl
start_boundary (c ∷ v) = refl

-- A text of ASCII characters may be cut anywhere.
pub ascii_boundary :
    (v : Text) (i : ℕ) → All (λ c. c < 0x80) v → i ≤ len v → is_char_boundary v i ≡ true
unfolding is_char_boundary len len_utf8
ascii_boundary [] i h le = ground arith
ascii_boundary (c ∷ v) i h le = ground (arith, ascii_boundary v (i - 1))

-- Two ways to cut one text: the longer head starts with the shorter one.
pub head_extends :
    (h t h' t' : Text) → h ++ t ≡ h' ++ t' → len h ≤ len h' → (m : Text) × (h' ≡ h ++ m)
unfolding len
head_extends [] t h' t' e le = (h', refl)
head_extends (c ∷ h) t [] t' e le = absurd (omega (arith, len_utf8_pos c))
head_extends (c ∷ h) t (d ∷ h') t' e le =
    let same : c ≡ d = cc in
    let (m, e') = head_extends h t h' t' (cc) (omega (arith, ap len_utf8 same)) in (m, cc)

-- The head of a text is the slice up to its length.
pub slice_to-append : (v w : Text) → slice_to (v ++ w) (len v) ≡ some v
unfolding slice_to len
slice_to-append [] [] = refl
slice_to-append [] (d ∷ w) = refl
slice_to-append (c ∷ v) w = ground (
  arith,
  slice_to-append v w,
  len_utf8_pos c,
  ap (slice_to (v ++ w)) {x = len_utf8 c + len v - len_utf8 c} {y = len v} (omega arith),
)
