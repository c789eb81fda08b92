-- ===== src/Prelude/Strings.antt =====
-- Rust's `str` as its list of code points, measured in UTF-8 bytes. A slice at a byte that is no
-- boundary of characters panics, which is `none` here.
use Prim.Native.Nat.{ℕ, zero, suc, ◌+◌, ◌-◌, ◌/◌, ◌%◌, ◌≤◌}
use Prim.Native.Char.{code}
use Prim.Native.String.{String}
use mathlib.Core.Path.{◌≡◌}
use mathlib.Core.Logic.{◌↔◌}
use mathlib.Core.Bool.{Bool, true, false, ◌&&◌, ◌||◌}
use mathlib.Core.Option.{Option, none, some}
use mathlib.Core.List.{List, [], ◌∷◌, ◌++◌}
use native.Mathlib.Omega.{arith}
use tale.Prelude.Tests.{ltb, leb, ◌==◌, if◌then◌else◌}

abbrev pub Text : Type 0
Text = List ℕ

abbrev pub codes : String → Text
codes String.[] = []
codes (String.◌∷◌ c s) = code c ∷ codes s

-- `char::len_utf8`.
unfoldable pub len_utf8 : ℕ → ℕ
len_utf8 c = if ltb c 0x80 then 1 else if ltb c 0x800 then 2 else if ltb c 0x10000 then 3 else 4

-- `str::len`.
unfoldable pub len : Text → ℕ
len [] = 0
len (c ∷ v) = len_utf8 c + len v

pub len-append : (v w : Text) → len (v ++ w) ≡ len v + len w
unfolding len
len-append [] w = omega arith
len-append (c ∷ v) w = omega (arith, len-append v w)

pub len_utf8_pos : (c : ℕ) → 1 ≤ len_utf8 c
unfolding len_utf8
len_utf8_pos c = ground arith

-- `str::is_char_boundary`.
unfoldable pub is_char_boundary : Text → ℕ → Bool
is_char_boundary [] i = i == 0
is_char_boundary (c ∷ v) i = i == 0 || leb (len_utf8 c) i && is_char_boundary v (i - len_utf8 c)

-- `&v[..i]` and `&v[i..]`.
abbrev cons_some : ℕ → Option Text → Option Text
cons_some c none = none
cons_some c (some v) = some (c ∷ v)

unfoldable pub slice_to : Text → ℕ → Option Text
slice_to [] i = if i == 0 then some [] else none
slice_to (c ∷ v) i =
    if i == 0
    then some []
    else if leb (len_utf8 c) i
    then cons_some c (slice_to v (i - len_utf8 c))
    else none

unfoldable pub slice_from : Text → ℕ → Option Text
slice_from [] i = if i == 0 then some [] else none
slice_from (c ∷ v) i =
    if i == 0
    then some (c ∷ v)
    else if leb (len_utf8 c) i
    then slice_from v (i - len_utf8 c)
    else none

-- `char_indices`, from a byte offset.
unfoldable pub char_indices_from : ℕ → Text → List (ℕ × ℕ)
char_indices_from o [] = []
char_indices_from o (c ∷ v) = (o, c) ∷ char_indices_from (o + len_utf8 c) v

-- `==` on texts.
unfoldable pub text_eq : Text → Text → Bool
text_eq [] [] = true
text_eq [] (d ∷ w) = false
text_eq (c ∷ v) [] = false
text_eq (c ∷ v) (d ∷ w) = c == d && text_eq v w

pub text_eq_iff : (v w : Text) → (text_eq v w ≡ true) ↔ (v ≡ w)
unfolding text_eq
text_eq_iff [] [] = ground arith
text_eq_iff [] (d ∷ w) = ground arith
text_eq_iff (c ∷ v) [] = ground arith
text_eq_iff (c ∷ v) (d ∷ w) = ground (arith, text_eq_iff v w)

-- `to_string` of a u64, which has at most twenty digits.
abbrev pub decimal_within : ℕ → ℕ → Text
decimal_within zero n = []
decimal_within (suc fuel) n =
    if ltb n 10 then (b'0' + n) ∷ [] else decimal_within fuel (n / 10) ++ (b'0' + n % 10) ∷ []

unfoldable pub decimal : ℕ → Text
decimal n = decimal_within 20 n

-- `join`.
abbrev pub join : List Text → Text → Text
join [] separator = []
join (v ∷ []) separator = v
join (v ∷ w ∷ vs) separator = v ++ (separator ++ join (w ∷ vs) separator)
