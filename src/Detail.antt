-- ===== src/Detail.antt =====
-- src/detail.rs: text kept within a number of bytes, cut at boundaries of characters. The text that
-- `redacted_bounded_ends` cuts comes from `Redactor::text` of domain/redaction.rs, a parameter here.
pub mod Boundary
pub mod Bounds
use tale.Prelude.{
  ℕ, ◌+◌, ◌-◌, ◌*◌, ◌/◌, ◌++◌, List, [], ◌∷◌, Option, none, some, Text, codes, len, ltb, leb,
  if◌then◌else◌, is_empty, slice_to, slice_from, is_char_boundary, char_indices_from, get_last?,
  map, saturating_mul, find, take_while, take,
}

abbrev pub output_truncation_marker : Text
output_truncation_marker = codes "\n...[output truncated]...\n"

abbrev pub detail_truncation_marker : Text
detail_truncation_marker = codes "\n...[detail truncated]"

abbrev or_zero : Option ℕ → ℕ
or_zero none = 0
or_zero (some i) = i

unfoldable pub boundary_at_or_before : Text → ℕ → ℕ
boundary_at_or_before value limit =
    if is_char_boundary value limit
    then limit
    else or_zero
        (get_last? (map (λ p. p.0) (take_while (λ p. ltb p.0 limit) (char_indices_from 0 value))))

abbrev map_or_index : ℕ → Option (ℕ × ℕ) → ℕ
map_or_index d none = d
map_or_index d (some (i, c)) = i

unfoldable pub boundary_at_or_after : Text → ℕ → ℕ
boundary_at_or_after value limit =
    if is_char_boundary value limit
    then limit
    else map_or_index (len value) (find (λ p. ltb limit p.0) (char_indices_from 0 value))

-- `format!("{}{}{}", &value[..head_end], MARKER, &value[tail_start..])`
abbrev pub joined : Option Text → Text → Option Text → Option Text
joined none marker tail = none
joined (some head) marker none = none
joined (some head) marker (some tail) = some (head ++ (marker ++ tail))

-- The two ends of `value` that `available` bytes hold, round the marker. `none` is a panic at a slice.
unfoldable pub both_ends : Text → Text → ℕ → Option Text
both_ends value marker available =
    let head_limit = available / 2 in
    let tail_limit = available - head_limit in
    joined (slice_to value (boundary_at_or_before value head_limit)) marker
      (slice_from value (boundary_at_or_after value (len value - tail_limit)))

unfoldable pub bounded_ends : Text → ℕ → Option Text
bounded_ends value cap =
    if leb (len value) cap
    then some value
    else if leb cap (len output_truncation_marker)
    then slice_to output_truncation_marker cap
    else both_ends value output_truncation_marker (cap - len output_truncation_marker)

abbrev pub with_line : Text → Text → Text
with_line detail value = (if is_empty detail then [] else detail ++ codes "\n") ++ value

unfoldable pub push_bounded_ends : Text → Text → ℕ → Option Text
push_bounded_ends detail value cap =
    let combined = with_line detail value in
    if ltb (saturating_mul cap 2) (len combined) then bounded_ends combined cap else some combined

abbrev with_marker : Option Text → Option Text
with_marker none = none
with_marker (some head) = some (head ++ detail_truncation_marker)

unfoldable pub bounded_prefix_bytes : Text → ℕ → Option Text
bounded_prefix_bytes value limit =
    if leb (len value) limit
    then some value
    else with_marker (slice_to value (boundary_at_or_before value limit))

unfoldable pub bounded_prefix_chars : Text → ℕ → Text
bounded_prefix_chars value limit = take limit value

unfoldable pub redacted_bounded_ends : (Text → Text) → Text → ℕ → Option Text
redacted_bounded_ends redact value cap = bounded_ends (redact value) cap
