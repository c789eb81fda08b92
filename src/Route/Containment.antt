-- ===== src/Route/Containment.antt =====
-- What the networks of src/domain/route.rs contain.
use Prim.Native.Nat.{bit_and}
use tale.Prelude.{
  ℕ, ◌+◌, ◌-◌, ◌^◌, ◌≤◌, ◌<◌, ◌≡◌, ◌↔◌, sym, ap, subst, ◌∙◌, true, arith, ◌==◌, ==_iff, ltb,
  Bool-cases, inl, inr,
}
use tale.Route.{IpAddr, v4, v6, IpNet, mask_of, mask_address, max_prefix, ok, new, contains}
use tale.Route.Masks.{
  without, zeros, bit_and-mask_of, zeros_injective, without-zeros, zeros-without-le, without-add,
}

-- The number of an address has its width.
abbrev pub IsAddr : IpAddr → Type 0
IsAddr (v4 x) = x < 2 ^ 32
IsAddr (v6 x) = x < 2 ^ 128

-- Addresses of one family whose first bits are the same.
abbrev pub SamePrefix : ℕ → IpAddr → IpAddr → Type 0
SamePrefix prefix (v4 x) (v4 y) = without (32 - prefix) x ≡ without (32 - prefix) y
SamePrefix prefix (v6 x) (v6 y) = without (128 - prefix) x ≡ without (128 - prefix) y
SamePrefix prefix _ _ = ⊥

masks_same :
    (w prefix x y : ℕ)
    → prefix ≤ w
    → x < 2 ^ w
    → y < 2 ^ w
    → ((bit_and x (mask_of w prefix) == bit_and y (mask_of w prefix)) ≡ true)
      ↔ (without (w - prefix) y ≡ without (w - prefix) x)
masks_same w prefix x y le hx hy =
    let mx = bit_and-mask_of (w - prefix) prefix w x (omega arith) hx in
    let my = bit_and-mask_of (w - prefix) prefix w y (omega arith) hy in
    let same = ==_iff (bit_and x (mask_of w prefix)) (bit_and y (mask_of w prefix)) in
    (
      λ h. zeros_injective (w - prefix) _ _ (sym my ∙ sym (same.0 h) ∙ mx),
      λ h. same.1 (mx ∙ ap (zeros (w - prefix)) (sym h) ∙ sym my),
    )

pub contains_masked :
    (address other : IpAddr) (prefix : ℕ)
    → prefix ≤ max_prefix address
    → IsAddr address
    → IsAddr other
    → (contains (record { address = mask_address address prefix; prefix = prefix }) other ≡ true)
      ↔ SamePrefix prefix address other
unfolding contains mask_address
contains_masked (v4 x) (v4 y) prefix le hx hy = masks_same 32 prefix y x le hy hx
contains_masked (v6 x) (v6 y) prefix le hx hy = masks_same 128 prefix y x le hy hx
contains_masked (v4 x) (v6 y) prefix le hx hy = ((λ h. absurd (ground arith)), (λ h. absurd h))
contains_masked (v6 x) (v4 y) prefix le hx hy = ((λ h. absurd (ground arith)), (λ h. absurd h))

-- For addresses within their family's width: a network made of an address and a prefix that fits
-- contains exactly the addresses of the same family whose first bits, as many as the prefix says, are those of the address.
pub contains-new :
    (address other : IpAddr) (prefix : ℕ) (net : IpNet)
    → new address prefix ≡ ok net
    → IsAddr address
    → IsAddr other
    → (contains net other ≡ true) ↔ SamePrefix prefix address other
unfolding new
contains-new address other prefix net made ha ho =
    elim (Bool-cases (ltb (max_prefix address) prefix)) [
      | inl e ↦ absurd (ground arith)
      | inr e ↦
          let same : record { address = mask_address address prefix; prefix = prefix } ≡ net =
            ground arith in
          subst (λ (n : IpNet). (contains n other ≡ true) ↔ SamePrefix prefix address other) same
            (contains_masked address other prefix (ground arith) ha ho)
    ]

pub mask-IsAddr :
    (address : IpAddr) (prefix : ℕ)
    → prefix ≤ max_prefix address
    → IsAddr address
    → IsAddr (mask_address address prefix)
unfolding mask_address
mask-IsAddr (v4 x) prefix le h = omega (
  arith,
  h,
  bit_and-mask_of (32 - prefix) prefix 32 x (omega arith) h,
  zeros-without-le (32 - prefix) x,
)
mask-IsAddr (v6 x) prefix le h = omega (
  arith,
  h,
  bit_and-mask_of (128 - prefix) prefix 128 x (omega arith) h,
  zeros-without-le (128 - prefix) x,
)

-- Masking with as many bits or more leaves the first bits.
without-mask :
    (w p q x : ℕ)
    → p ≤ q
    → q ≤ w
    → x < 2 ^ w
    → without (w - p) (bit_and x (mask_of w q)) ≡ without (w - p) x
without-mask w p q x pq qw h =
    let split : w - p ≡ (w - q) + (q - p) = omega arith in
    ap (λ n. without n (bit_and x (mask_of w q))) split
    ∙ without-add (w - q) (q - p) (bit_and x (mask_of w q))
    ∙ ap (λ y. without (q - p) (without (w - q) y)) (bit_and-mask_of (w - q) q w x (omega arith) h)
    ∙ ap (without (q - p)) (without-zeros (w - q) (without (w - q) x))
    ∙ sym (without-add (w - q) (q - p) x)
    ∙ sym (ap (λ n. without n x) split)

fewer_bits :
    (w p q x y : ℕ)
    → p ≤ q
    → q ≤ w
    → without (w - q) x ≡ without (w - q) y
    → without (w - p) x ≡ without (w - p) y
fewer_bits w p q x y pq qw h =
    let split : w - p ≡ (w - q) + (q - p) = omega arith in
    ap (λ n. without n x) split
    ∙ without-add (w - q) (q - p) x
    ∙ ap (without (q - p)) h
    ∙ sym (without-add (w - q) (q - p) y)
    ∙ sym (ap (λ n. without n y) split)

pub SamePrefix-sym : (p : ℕ) (a b : IpAddr) → SamePrefix p a b → SamePrefix p b a
SamePrefix-sym p (v4 x) (v4 y) h = sym h
SamePrefix-sym p (v6 x) (v6 y) h = sym h
SamePrefix-sym p (v4 x) (v6 y) h = absurd h
SamePrefix-sym p (v6 x) (v4 y) h = absurd h

-- The masked address of a longer prefix stands for its address.
pub SamePrefix-mask :
    (p q : ℕ) (a b : IpAddr)
    → p ≤ q
    → q ≤ max_prefix b
    → IsAddr b
    → SamePrefix p a (mask_address b q) ↔ SamePrefix p a b
unfolding mask_address
SamePrefix-mask p q (v4 x) (v4 y) pq qw h =
    (λ s. s ∙ without-mask 32 p q y pq qw h, λ s. s ∙ sym (without-mask 32 p q y pq qw h))
SamePrefix-mask p q (v6 x) (v6 y) pq qw h =
    (λ s. s ∙ without-mask 128 p q y pq qw h, λ s. s ∙ sym (without-mask 128 p q y pq qw h))
SamePrefix-mask p q (v4 x) (v6 y) pq qw h = ((λ s. s), (λ s. s))
SamePrefix-mask p q (v6 x) (v4 y) pq qw h = ((λ s. s), (λ s. s))

pub SamePrefix-fewer :
    (p q : ℕ) (a b : IpAddr) → p ≤ q → q ≤ max_prefix a → SamePrefix q a b → SamePrefix p a b
SamePrefix-fewer p q (v4 x) (v4 y) pq qw s = fewer_bits 32 p q x y pq qw s
SamePrefix-fewer p q (v6 x) (v6 y) pq qw s = fewer_bits 128 p q x y pq qw s
SamePrefix-fewer p q (v4 x) (v6 y) pq qw s = absurd s
SamePrefix-fewer p q (v6 x) (v4 y) pq qw s = absurd s
