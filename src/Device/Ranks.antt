-- ===== src/Device/Ranks.antt =====
-- The comparisons of src/domain/device.rs as orders: what two comparisons with one value in common say
-- of the third.
use mathlib.Core.Path.{ap₂}
use Prim.Native.Nat.{Ordering, lt, eq, gt, compare}
use tale.Prelude.{[], ◌∷◌, Option, none, some, Text, ◌≡◌, refl, sym, ap, ◌∙◌, arith}
use tale.Device.Order.{
  reverse, then_by, compare_text, compare_option, compare_optional, directed, ascending, descending,
  SortDirection,
}

-- Of three values in a row: the first against the second, the second against the third, and the
-- first against the third.
unfoldable pub Chained : Ordering → Ordering → Ordering → Type 0
Chained lt lt z = z ≡ lt
Chained lt eq z = z ≡ lt
Chained lt gt z = Unit
Chained eq y z = z ≡ y
Chained gt lt z = Unit
Chained gt eq z = z ≡ gt
Chained gt gt z = z ≡ gt

pub record IsOrder {ℓ} {A : Type ℓ} (cmp : A → A → Ordering) : Type ℓ where
  pub swapped : (a b : A) → cmp b a ≡ reverse (cmp a b)
  pub chained : (a b c : A) → Chained (cmp a b) (cmp b c) (cmp a c)

reverse-then_by : (x y : Ordering) → reverse (then_by x y) ≡ then_by (reverse x) (reverse y)
unfolding reverse then_by
reverse-then_by lt y = refl
reverse-then_by eq y = refl
reverse-then_by gt y = refl

Chained-reverse : (x y z : Ordering) → Chained x y z → Chained (reverse x) (reverse y) (reverse z)
unfolding reverse Chained
Chained-reverse lt lt z h = ap reverse h
Chained-reverse lt eq z h = ap reverse h
Chained-reverse lt gt z h = tt
Chained-reverse eq lt z h = ap reverse h
Chained-reverse eq eq z h = ap reverse h
Chained-reverse eq gt z h = ap reverse h
Chained-reverse gt lt z h = tt
Chained-reverse gt eq z h = ap reverse h
Chained-reverse gt gt z h = ap reverse h

Chained-then_by :
    (x y z x' y' z' : Ordering)
    → Chained x y z
    → Chained x' y' z'
    → Chained (then_by x x') (then_by y y') (then_by z z')
unfolding then_by Chained
Chained-then_by lt lt z x' y' z' h h' = rw h refl
Chained-then_by lt eq z x' lt z' h h' = rw h refl
Chained-then_by lt eq z x' eq z' h h' = rw h refl
Chained-then_by lt eq z x' gt z' h h' = tt
Chained-then_by lt gt z x' y' z' h h' = tt
Chained-then_by eq lt z lt y' z' h h' = rw h refl
Chained-then_by eq lt z eq y' z' h h' = rw h refl
Chained-then_by eq lt z gt y' z' h h' = tt
Chained-then_by eq eq z x' y' z' h h' = rw h h'
Chained-then_by eq gt z lt y' z' h h' = tt
Chained-then_by eq gt z eq y' z' h h' = rw h refl
Chained-then_by eq gt z gt y' z' h h' = rw h refl
Chained-then_by gt lt z x' y' z' h h' = tt
Chained-then_by gt eq z x' lt z' h h' = tt
Chained-then_by gt eq z x' eq z' h h' = rw h refl
Chained-then_by gt eq z x' gt z' h h' = rw h refl
Chained-then_by gt gt z x' y' z' h h' = rw h refl

swapped-then_by :
    (x x' y y' : Ordering) → x' ≡ reverse x → y' ≡ reverse y → then_by x' y' ≡ reverse (then_by x y)
swapped-then_by x x' y y' h h' = ap₂ then_by h h' ∙ sym (reverse-then_by x y)

pub compare-IsOrder : IsOrder compare
unfolding Chained reverse
compare-IsOrder = record { swapped = λ a b. ground arith; chained = λ a b c. ground arith }

pub IsOrder-along {ℓ ℓ'} :
    {A : Type ℓ} {B : Type ℓ'} (cmp : B → B → Ordering) (f : A → B)
    → IsOrder cmp
    → IsOrder {A = A} (λ a b. cmp (f a) (f b))
IsOrder-along cmp f h = record {
  swapped = λ a b. h.swapped (f a) (f b);
  chained = λ a b c. h.chained (f a) (f b) (f c);
}

pub IsOrder-then_by {ℓ} :
    {A : Type ℓ} (f g : A → A → Ordering)
    → IsOrder f
    → IsOrder g
    → IsOrder {A = A} (λ a b. then_by (f a b) (g a b))
IsOrder-then_by f g hf hg = record {
  swapped =
      λ a b. swapped-then_by (f a b) (f b a) (g a b) (g b a) (hf.swapped a b) (hg.swapped a b);
  chained = λ a b c.
      Chained-then_by (f a b) (f b c) (f a c) (g a b) (g b c) (g a c) (hf.chained a b c)
        (hg.chained a b c);
}

pub IsOrder-directed {ℓ} :
    {A : Type ℓ} (d : SortDirection) (cmp : A → A → Ordering)
    → IsOrder cmp
    → IsOrder {A = A} (λ a b. directed d (cmp a b))
IsOrder-directed ascending cmp h = h
IsOrder-directed descending cmp h = record {
  swapped = λ a b. ap reverse (h.swapped a b);
  chained = λ a b c. Chained-reverse (cmp a b) (cmp b c) (cmp a c) (h.chained a b c);
}

pub IsOrder-flipped {ℓ} :
    {A : Type ℓ} (cmp : A → A → Ordering) → IsOrder cmp → IsOrder {A = A} (λ a b. cmp b a)
IsOrder-flipped cmp h = record {
  swapped = λ a b. h.swapped b a;
  chained = λ a b c.
      rw (h.swapped a b, h.swapped b c, h.swapped a c)
        (Chained-reverse (cmp a b) (cmp b c) (cmp a c) (h.chained a b c));
}

lt_first : (y : Ordering) → Chained lt y lt
unfolding Chained
lt_first lt = refl
lt_first eq = refl
lt_first gt = tt

gt_last : (x : Ordering) → Chained x gt gt
unfolding Chained
gt_last lt = tt
gt_last eq = refl
gt_last gt = refl

compare_text-Chained :
    (u v w : Text) → Chained (compare_text u v) (compare_text v w) (compare_text u w)
unfolding compare_text Chained
compare_text-Chained [] [] w = refl
compare_text-Chained [] (d ∷ v) [] = tt
compare_text-Chained [] (d ∷ v) (e ∷ w) = lt_first (then_by (compare d e) (compare_text v w))
compare_text-Chained (c ∷ u) [] [] = refl
compare_text-Chained (c ∷ u) [] (e ∷ w) = tt
compare_text-Chained (c ∷ u) (d ∷ v) [] = gt_last (then_by (compare c d) (compare_text u v))
compare_text-Chained (c ∷ u) (d ∷ v) (e ∷ w) =
    Chained-then_by (compare c d) (compare d e) (compare c e) (compare_text u v) (compare_text v w)
      (compare_text u w) (compare-IsOrder.chained c d e) (compare_text-Chained u v w)

compare_text-swapped : (v w : Text) → compare_text w v ≡ reverse (compare_text v w)
unfolding compare_text reverse
compare_text-swapped [] [] = refl
compare_text-swapped [] (d ∷ w) = refl
compare_text-swapped (c ∷ v) [] = refl
compare_text-swapped (c ∷ v) (d ∷ w) =
    swapped-then_by (compare c d) (compare d c) (compare_text v w) (compare_text w v)
      (compare-IsOrder.swapped c d) (compare_text-swapped v w)

pub compare_text-IsOrder : IsOrder compare_text
compare_text-IsOrder = record { swapped = compare_text-swapped; chained = compare_text-Chained }

compare_option-Chained {ℓ} :
    {A : Type ℓ} (cmp : A → A → Ordering)
    → IsOrder cmp
    → (x y z : Option A)
    → Chained (compare_option cmp x y) (compare_option cmp y z) (compare_option cmp x z)
unfolding compare_option Chained
compare_option-Chained cmp h none none z = refl
compare_option-Chained cmp h none (some b) none = tt
compare_option-Chained cmp h none (some b) (some c) = lt_first (cmp b c)
compare_option-Chained cmp h (some a) none none = refl
compare_option-Chained cmp h (some a) none (some c) = tt
compare_option-Chained cmp h (some a) (some b) none = gt_last (cmp a b)
compare_option-Chained cmp h (some a) (some b) (some c) = h.chained a b c

compare_option-swapped {ℓ} :
    {A : Type ℓ} (cmp : A → A → Ordering)
    → IsOrder cmp
    → (x y : Option A) → compare_option cmp y x ≡ reverse (compare_option cmp x y)
unfolding compare_option reverse
compare_option-swapped cmp h none none = refl
compare_option-swapped cmp h none (some b) = refl
compare_option-swapped cmp h (some a) none = refl
compare_option-swapped cmp h (some a) (some b) = h.swapped a b

pub compare_option-IsOrder {ℓ} :
    {A : Type ℓ} (cmp : A → A → Ordering)
    → IsOrder cmp
    → IsOrder {A = Option A} (compare_option cmp)
compare_option-IsOrder cmp h = record {
  swapped = compare_option-swapped cmp h;
  chained = compare_option-Chained cmp h;
}

-- With the missing values last it is the order with them first, seen from the other end.
compare_optional-flipped {ℓ} :
    {A : Type ℓ} (cmp : A → A → Ordering) (x y : Option A)
    → compare_optional cmp x y ≡ compare_option (λ a b. cmp b a) y x
unfolding compare_option compare_optional
compare_optional-flipped cmp none none = refl
compare_optional-flipped cmp none (some b) = refl
compare_optional-flipped cmp (some a) none = refl
compare_optional-flipped cmp (some a) (some b) = refl

pub IsOrder-by {ℓ} :
    {A : Type ℓ} (f g : A → A → Ordering) → ((a b : A) → f a b ≡ g a b) → IsOrder g → IsOrder f
IsOrder-by f g h o = record {
  swapped = λ a b. rw (h a b, h b a) (o.swapped a b);
  chained = λ a b c. rw (h a b, h b c, h a c) (o.chained a b c);
}

pub compare_optional-IsOrder {ℓ} :
    {A : Type ℓ} (cmp : A → A → Ordering)
    → IsOrder cmp
    → IsOrder {A = Option A} (compare_optional cmp)
compare_optional-IsOrder cmp h =
    IsOrder-by (compare_optional cmp) (λ x y. compare_option (λ a b. cmp b a) y x)
      (compare_optional-flipped cmp)
      (IsOrder-flipped (compare_option (λ a b. cmp b a))
        (compare_option-IsOrder (λ a b. cmp b a) (IsOrder-flipped cmp h)))
