-- ===== src/Route/Masks.antt =====
-- The masks of src/domain/route.rs: masking with the first bits of a word drops the other bits.
use Prim.Native.Nat.{bit_and, digits, bit_and-bitwise}
use tale.Route.{mask_of}
use native.Mathlib.Nat.{
  one-le-pow, two-pow-succ, mul-add-mod_self_left, mod-eq_of_lt, mul-suc, suc-mul,
}
use tale.Prelude.{
  ℕ, zero, suc, ◌+◌, ◌-◌, ◌*◌, ◌/◌, ◌%◌, ◌^◌, ◌≤◌, ◌<◌, min, ◌≡◌, refl, sym, ap, ◌∙◌, arith,
  if◌then◌else◌, ◌==◌, false,
}

-- A word without its last k bits, and k zeros behind a word.
abbrev pub without : ℕ → ℕ → ℕ
without zero x = x
without (suc k) x = without k (x / 2)

abbrev pub zeros : ℕ → ℕ → ℕ
zeros zero x = x
zeros (suc k) x = zeros k x * 2

abbrev pub ones : ℕ → ℕ
ones zero = 0
ones (suc p) = ones p * 2 + 1

-- The digits are steady once the count covers the first number.
digits_steady :
    (n a b : ℕ) → a ≤ n → digits (λ b. zero) min n a b ≡ digits (λ b. zero) min (suc n) a b
digits_steady zero zero b h = refl
digits_steady (suc n) zero b h = refl
digits_steady zero (suc a) b h = absurd (omega arith)
digits_steady (suc n) (suc a) b h =
    ap (λ d. d * 2 + min (suc a % 2) (b % 2)) (digits_steady n (suc a / 2) (b / 2) (omega arith))

digits_covered : (m a b n : ℕ) → n ≡ m + a → digits (λ b. zero) min n a b ≡ bit_and a b
digits_covered zero a b n e =
    ap (λ n. digits (λ b. zero) min n a b) (omega (arith, e)) ∙ sym (bit_and-bitwise a b)
digits_covered (suc m) a b zero e = absurd (omega arith)
digits_covered (suc m) a b (suc n) e =
    sym (digits_steady n a b (omega arith)) ∙ digits_covered m a b n (omega arith)

-- The last digits apart.
last_digit : (a b : ℕ) → bit_and a b ≡ bit_and (a / 2) (b / 2) * 2 + min (a % 2) (b % 2)
last_digit zero b = omega (arith, bit_and-bitwise 0 b, bit_and-bitwise 0 (b / 2))
last_digit (suc a) b =
    bit_and-bitwise (suc a) b
    ∙ ap (λ d. d * 2 + min (suc a % 2) (b % 2))
        (digits_covered (a - suc a / 2) (suc a / 2) (b / 2) a (omega arith))

-- The last digit where the rest of the mask is known.
last_digit_at :
    (x m rest r : ℕ)
    → m / 2 ≡ rest
    → bit_and (x / 2) rest ≡ r
    → bit_and x m ≡ r * 2 + min (x % 2) (m % 2)
last_digit_at x m rest r e h =
    last_digit x m ∙ ap (λ d. d * 2 + min (x % 2) (m % 2)) (ap (bit_and (x / 2)) e ∙ h)

-- With ones in all its places a word stays.
bit_and-ones : (p x : ℕ) → x < 2 ^ p → bit_and x (ones p) ≡ x
bit_and-ones zero x h = rw (small) refl
  where
    small : x ≡ 0
    small = omega arith
bit_and-ones (suc p) x h = omega (
  arith,
  last_digit_at x (ones p * 2 + 1) (ones p) (x / 2) (omega arith)
      (bit_and-ones p (x / 2) (omega (arith, two-pow-succ p))),
)

-- Ones with zeros behind them as a mask.
pub bit_and-zeros :
    (k p x : ℕ) → without k x < 2 ^ p → bit_and x (zeros k (ones p)) ≡ zeros k (without k x)
bit_and-zeros zero p x h = bit_and-ones p x h
bit_and-zeros (suc k) p x h = omega (
  arith,
  last_digit_at x (zeros k (ones p) * 2) (zeros k (ones p)) (zeros k (without k (x / 2)))
      (omega arith) (bit_and-zeros k p (x / 2) h),
)

ones-pow : (p : ℕ) → ones p + 1 ≡ 2 ^ p
ones-pow zero = refl
ones-pow (suc p) = omega (arith, ones-pow p, two-pow-succ p)

zeros-pow : (k p w : ℕ) → w ≡ k + p → zeros k (ones p) + 2 ^ k ≡ 2 ^ w
zeros-pow zero p w e = ones-pow p ∙ ap (λ n. 2 ^ n) (omega (arith, e))
zeros-pow (suc k) p zero e = absurd (omega arith)
zeros-pow (suc k) p (suc w) e =
    omega (arith, zeros-pow k p w (omega arith), two-pow-succ k, two-pow-succ w)

pub without-lt : (k p w x : ℕ) → w ≡ k + p → x < 2 ^ w → without k x < 2 ^ p
without-lt zero p w x e h = omega (arith, h, ap (λ n. 2 ^ n) (w_is_p))
  where
    w_is_p : w ≡ p
    w_is_p = omega (arith, e)
without-lt (suc k) p zero x e h = absurd (omega arith)
without-lt (suc k) p (suc w) x e h =
    without-lt k p w (x / 2) (omega arith) (omega (arith, two-pow-succ w))

-- Shifting all ones within a word.
wrapped : (n k : ℕ) → k ≤ n → n * suc k % suc n ≡ n - k
wrapped n k h =
    ap (λ m. m % suc n) (split)
    ∙ mul-add-mod_self_left (suc n) k (n - k)
    ∙ mod-eq_of_lt (omega arith)
  where
    split : n * suc k ≡ suc n * k + (n - k)
    split = omega (arith, mul-suc n k, suc-mul n k)

all_ones : (k p w : ℕ) → w ≡ k + p → (2 ^ w - 1) * 2 ^ k % 2 ^ w ≡ zeros k (ones p)
all_ones k p w e =
    let full = zeros-pow k p w e in
    let some_k : 1 ≤ 2 ^ k = one-le-pow k 2 (omega arith) in
    let n : suc (2 ^ w - 1) ≡ 2 ^ w = omega arith in
    let m : suc (2 ^ k - 1) ≡ 2 ^ k = omega arith in
    sym (ap (λ d. (2 ^ w - 1) * d % 2 ^ w) m)
    ∙ sym (ap (λ d. (2 ^ w - 1) * suc (2 ^ k - 1) % d) n)
    ∙ wrapped (2 ^ w - 1) (2 ^ k - 1) (omega arith)
    ∙ omega arith

zeros-zero : (k : ℕ) → zeros k 0 ≡ 0
zeros-zero zero = refl
zeros-zero (suc k) = omega (arith, zeros-zero k)

pub mask_of-zeros : (k p w : ℕ) → w ≡ k + p → mask_of w p ≡ zeros k (ones p)
mask_of-zeros k zero w e = sym (zeros-zero k)
mask_of-zeros k (suc p) w e =
    ap (λ b. if b then 0 else (2 ^ w - 1) * 2 ^ (w - suc p) % 2 ^ w) nonzero
    ∙ ap (λ d. (2 ^ w - 1) * 2 ^ d % 2 ^ w) behind
    ∙ all_ones k (suc p) w e
  where
    nonzero : (suc p == 0) ≡ false
    nonzero = ground arith

    behind : w - suc p ≡ k
    behind = omega (arith, e)

-- Masking a word of `w` bits with its first `p` drops the others.
pub bit_and-mask_of :
    (k p w x : ℕ) → w ≡ k + p → x < 2 ^ w → bit_and x (mask_of w p) ≡ zeros k (without k x)
bit_and-mask_of k p w x e h =
    ap (bit_and x) (mask_of-zeros k p w e) ∙ bit_and-zeros k p x (without-lt k p w x e h)

pub zeros_injective : (k x y : ℕ) → zeros k x ≡ zeros k y → x ≡ y
zeros_injective zero x y h = h
zeros_injective (suc k) x y h = zeros_injective k x y (omega arith)

pub without-zeros : (k x : ℕ) → without k (zeros k x) ≡ x
without-zeros zero x = refl
without-zeros (suc k) x = ap (without k) (halved) ∙ without-zeros k x
  where
    halved : zeros k x * 2 / 2 ≡ zeros k x
    halved = omega arith

pub zeros-without-le : (k x : ℕ) → zeros k (without k x) ≤ x
zeros-without-le zero x = omega arith
zeros-without-le (suc k) x = omega (arith, zeros-without-le k (x / 2))

pub without-add : (j k x : ℕ) → without (j + k) x ≡ without k (without j x)
without-add zero k x = ap (λ n. without n x) {x = 0 + k} {y = k} (omega arith)
without-add (suc j) k x = ap (λ n. without n x) (next) ∙ without-add j k (x / 2)
  where
    next : suc j + k ≡ suc (j + k)
    next = omega arith
