-- ===== src/Filter/Reading.antt =====
-- What stands at a span of an input of src/domain/filter.rs, read as a token.
use tale.Prelude.{
  ℕ, ◌+◌, ◌-◌, ◌≡◌, refl, ap, sym, subst, ◌∙◌, List, [], ◌∷◌, ◌++◌, Bool, true, false, not, ◌&&◌,
  Option, none, some, ◌==◌, if◌then◌else◌, Text, len, len_utf8, is_empty, slice_from, slice_to,
  foldl, foldl-snoc, map-append, is_empty-snoc, append_assoc, map, arith, slice_to-append,
  len-append,
}
use tale.Filter.Scans.{At}
use tale.Filter.Tokens.{or_at}

-- What a token says: its text, where a backslash inside quotes stands for the character behind it.
pub record Reading : Type 0 where
  pub text : Text
  pub quoted : Bool
  pub escaped : Bool

abbrev pub unread : Reading
unread = record { text = []; quoted = false; escaped = false }

unfoldable pub read : Reading → ℕ → Reading
read r character =
    if r.escaped
    then record r { text = r.text ++ character ∷ []; escaped = false }
    else if (character == b'\\') && r.quoted
    then record r { escaped = true }
    else if character == b'"'
    then record r { text = r.text ++ character ∷ []; quoted = not r.quoted }
    else record r { text = r.text ++ character ∷ [] }

-- `input.get(begin..end)`, with the empty text for `None`.
abbrev pub or_empty : Option Text → Text
or_empty none = []
or_empty (some v) = v

abbrev pub between : Text → ℕ → ℕ → Text
between input begin end = or_empty (slice_to (or_empty (slice_from input begin)) (end - begin))

abbrev pub token_of : Text → ℕ × ℕ → Text × ℕ
token_of input (begin, end) = ((foldl read unread (between input begin end)).text, begin)

-- What has been read of the token that has begun.
abbrev pub Current : Text → Text → ℕ → Option ℕ → Reading → Type 0
Current input v o none r = r ≡ unread
Current input v o (some begin) r =
    (u : Text) × At input (u ++ v) begin
    × (begin + len u ≡ o)
    × (is_empty r.text ≡ false)
    × (foldl read unread u ≡ r)

read-text : (r : Reading) (c : ℕ) → is_empty r.text ≡ false → is_empty (read r c).text ≡ false
unfolding read
read-text r c h = ground (arith, is_empty-snoc r.text c)

Current-extends :
    (input : Text) (c : ℕ) (v : Text) (o begin : ℕ) (r : Reading)
    → Current input (c ∷ v) o (some begin) r
    → Current input v (o + len_utf8 c) (some begin) (read r c)
unfolding len
Current-extends input c v o begin r (u, at, bytes, full, same) = (
  u ++ c ∷ [],
  subst (λ w. At input w begin) (sym (append_assoc u (c ∷ []) v)) at,
  omega (arith, len-append u (c ∷ []), bytes),
  read-text r c full,
  foldl-snoc read unread u c ∙ ap (λ s. read s c) same,
)

pub Current-begins :
    (input : Text) (c : ℕ) (v : Text) (o : ℕ) (start : Option ℕ) (r : Reading)
    → At input (c ∷ v) o
    → Current input (c ∷ v) o start r
    → Current input v (o + len_utf8 c) (or_at start o) (read r c)
unfolding len read
Current-begins input c v o none r at h = rw h (c ∷ [], at, omega arith, ground arith, refl)
Current-begins input c v o (some begin) r at h = Current-extends input c v o begin r h

between-Current :
    (input u v : Text) (begin o : ℕ)
    → At input (u ++ v) begin
    → begin + len u ≡ o
    → between input begin o ≡ u
between-Current input u v begin o at bytes =
    let cut : or_empty (slice_from input begin) ≡ u ++ v = ap or_empty at in
    let size : o - begin ≡ len u = omega (arith, bytes) in rw (cut, size, slice_to-append u v) refl

pub token_snoc :
    (input u v : Text) (begin o : ℕ) (tokens : List (Text × ℕ)) (spans : List (ℕ × ℕ)) (r : Reading)
    → tokens ≡ map (token_of input) spans
    → At input (u ++ v) begin
    → begin + len u ≡ o
    → foldl read unread u ≡ r
    → tokens ++ (r.text, begin) ∷ [] ≡ map (token_of input) (spans ++ (begin, o) ∷ [])
token_snoc input u v begin o tokens spans r h at bytes same =
    rw
      (
        map-append (token_of input) spans ((begin, o) ∷ []),
        between-Current input u v begin o at bytes,
        same,
        h,
      )
      refl
