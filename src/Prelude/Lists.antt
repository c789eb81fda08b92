-- ===== src/Prelude/Lists.antt =====
-- Lists with native lengths and Boolean predicates, under the library's names, and finite sets of
-- numbers kept as lists (BTreeSet, whose order the program does not read where these serve).
use Prim.Native.Nat.{ℕ, zero, suc, ◌+◌, ◌≤◌, ◌<◌}
use mathlib.Core.Path.{◌≡◌, refl, ap, subst}
use mathlib.Core.Logic.{◌⊎◌, inl, inr}
use mathlib.Core.Bool.{Bool, true, false, ◌&&◌, ◌||◌}
use mathlib.Core.Option.{Option, none, some}
use mathlib.Core.List.{List, [], ◌∷◌, ◌++◌, map}
use native.Mathlib.Omega.{arith}
use tale.Prelude.Tests.{◌==◌, if◌then◌else◌}

module _ {ℓ} {A : Type ℓ} where
  abbrev pub length : List A → ℕ
  length [] = 0
  length (x ∷ xs) = suc (length xs)

  abbrev pub is_empty : List A → Bool
  is_empty [] = true
  is_empty (x ∷ xs) = false

  abbrev pub get_elem? : List A → ℕ → Option A
  get_elem? [] i = none
  get_elem? (x ∷ xs) zero = some x
  get_elem? (x ∷ xs) (suc i) = get_elem? xs i

  abbrev pub get_last? : List A → Option A
  get_last? [] = none
  get_last? (x ∷ []) = some x
  get_last? (x ∷ y ∷ xs) = get_last? (y ∷ xs)

  abbrev pub drop : ℕ → List A → List A
  drop zero xs = xs
  drop (suc n) [] = []
  drop (suc n) (x ∷ xs) = drop n xs

  abbrev pub take : ℕ → List A → List A
  take zero xs = []
  take (suc n) [] = []
  take (suc n) (x ∷ xs) = x ∷ take n xs

  abbrev pub take_while : (A → Bool) → List A → List A
  take_while p [] = []
  take_while p (x ∷ xs) = if p x then x ∷ take_while p xs else []

  abbrev pub filter : (A → Bool) → List A → List A
  filter p [] = []
  filter p (x ∷ xs) = if p x then x ∷ filter p xs else filter p xs

  abbrev pub find : (A → Bool) → List A → Option A
  find p [] = none
  find p (x ∷ xs) = if p x then some x else find p xs

  abbrev pub any : (A → Bool) → List A → Bool
  any p [] = false
  any p (x ∷ xs) = p x || any p xs

  abbrev pub all : (A → Bool) → List A → Bool
  all p [] = true
  all p (x ∷ xs) = p x && all p xs

  -- The index of the first element that passes.
  abbrev pub position : (A → Bool) → List A → Option ℕ
  position p [] = none
  position p (x ∷ xs) =
      if p x then some 0 else elim (position p xs) [ none ↦ none | some i ↦ some (suc i) ]

  -- A `for` loop that changes a state.
  abbrev pub foldl {κ} : {S : Type κ} → (S → A → S) → S → List A → S
  foldl f s [] = s
  foldl f s (x ∷ xs) = foldl f (f s x) xs

  abbrev pub All {κ} : (A → Type κ) → List A → Type κ
  All P [] = Unit
  All P (x ∷ xs) = P x × All P xs

module _ {ℓ} {A : Type ℓ} where
  pub length-append : (xs ys : List A) → length (xs ++ ys) ≡ length xs + length ys
  length-append [] ys = omega arith
  length-append (x ∷ xs) ys = omega (arith, length-append xs ys)

  pub All-append {κ} : (P : A → Type κ) (xs ys : List A) → All P xs → All P ys → All P (xs ++ ys)
  All-append P [] ys hx hy = hy
  All-append P (x ∷ xs) ys hx hy = (hx.0, All-append P xs ys hx.1 hy)

  pub All-mono {κ μ} :
      {P : A → Type κ} {Q : A → Type μ} (f : (x : A) → P x → Q x) (xs : List A)
      → All P xs
      → All Q xs
  All-mono f [] h = tt
  All-mono f (x ∷ xs) h = (f x h.0, All-mono f xs h.1)

  pub All-filter {κ} :
      (P : A → Type κ) (p : A → Bool) (xs : List A) → All P xs → All P (filter p xs)
  All-filter P p [] h = tt
  All-filter P p (x ∷ xs) h =
      elim (p x) as (λ b. All P (if b then x ∷ filter p xs else filter p xs)) [
        | true ↦ (h.0, All-filter P p xs h.1)
        | false ↦ All-filter P p xs h.1
      ]

module _ {ℓ} {A : Type ℓ} where
  pub find-cons :
      (p : A → Bool) (x : A) (xs : List A) (a : A)
      → find p (x ∷ xs) ≡ some a
      → (p x ≡ true) × (x ≡ a) ⊎ (p x ≡ false) × (find p xs ≡ some a)
  find-cons p x xs a h = ground arith

  pub find_passes : (p : A → Bool) (xs : List A) (a : A) → find p xs ≡ some a → p a ≡ true
  find_passes p [] a h = ground arith
  find_passes p (x ∷ xs) a h = ground (arith, find_passes p xs a)

  pub All-find {κ} :
      (P : A → Type κ) (p : A → Bool) (xs : List A) (a : A) → find p xs ≡ some a → All P xs → P a
  All-find P p [] a h all = cc
  All-find P p (x ∷ xs) a h all = elim (find-cons p x xs a h) [
    | inl (_, same) ↦ subst P same all.0
    | inr (_, later) ↦ All-find P p xs a later all.1
  ]

-- Sets of numbers.
abbrev pub contains : List ℕ → ℕ → Bool
contains [] k = false
contains (x ∷ xs) k = x == k || contains xs k

abbrev pub insert : List ℕ → ℕ → List ℕ
insert xs k = if contains xs k then xs else k ∷ xs

pub contains-insert : (xs : List ℕ) (k j : ℕ) → contains (insert xs k) j ≡ (k == j || contains xs j)
contains-insert xs k j = ground (arith, λ (e : k ≡ j). ap (contains xs) e)

pub contains-append :
    (xs ys : List ℕ) (k : ℕ) → contains (xs ++ ys) k ≡ (contains xs k || contains ys k)
contains-append [] ys k = refl
contains-append (x ∷ xs) ys k = ground (arith, contains-append xs ys k)

-- No number twice.
abbrev pub Distinct : List ℕ → Type 0
Distinct [] = Unit
Distinct (x ∷ xs) = (contains xs x ≡ false) × Distinct xs

-- No number in both lists.
abbrev pub Apart : List ℕ → List ℕ → Type 0
Apart xs ys = All (λ x. contains ys x ≡ false) xs

pub Distinct-append :
    (xs ys : List ℕ) → Distinct xs → Distinct ys → Apart xs ys → Distinct (xs ++ ys)
Distinct-append [] ys dx dy apart = dy
Distinct-append (x ∷ xs) ys dx dy apart =
    (ground (arith, contains-append xs ys x, dx.0, apart.0), Distinct-append xs ys dx.1 dy apart.1)

-- A number beyond all of a list is not in it.
pub contains_above : (xs : List ℕ) (k : ℕ) → All (λ x. x < k) xs → contains xs k ≡ false
contains_above [] k h = refl
contains_above (x ∷ xs) k h = ground (arith, contains_above xs k h.1, h.0)

pub contains_below : (xs : List ℕ) (j k : ℕ) → All (λ x. k ≤ x) xs → j < k → contains xs j ≡ false
contains_below [] j k h lt = refl
contains_below (x ∷ xs) j k h lt = ground (arith, contains_below xs j k h.1 lt, h.0)

pub length-filter-le {ℓ} :
    {A : Type ℓ} (p : A → Bool) (xs : List A) → length (filter p xs) ≤ length xs
length-filter-le p [] = omega arith
length-filter-le p (x ∷ xs) = ground (arith, length-filter-le p xs)

-- The first list's elements occur in the second, in their order.
pub data Subsequence {ℓ} {A : Type ℓ} : List A → List A → Type ℓ where
  ended : {ys : List A} → Subsequence [] ys
  both : {x : A} {xs ys : List A} → Subsequence xs ys → Subsequence (x ∷ xs) (x ∷ ys)
  skipped : {y : A} {xs ys : List A} → Subsequence xs ys → Subsequence xs (y ∷ ys)

pub Subsequence-tail {ℓ} :
    {A : Type ℓ} {x : A} {xs ys : List A} → Subsequence (x ∷ xs) ys → Subsequence xs ys
Subsequence-tail (both h) = skipped h
Subsequence-tail (skipped h) = skipped (Subsequence-tail h)

pub foldl-snoc {ℓ κ} :
    {A : Type ℓ} {S : Type κ} (f : S → A → S) (s : S) (xs : List A) (x : A)
    → foldl f s (xs ++ x ∷ []) ≡ f (foldl f s xs) x
foldl-snoc f s [] x = refl
foldl-snoc f s (y ∷ xs) x = foldl-snoc f (f s y) xs x

pub map-append {ℓ κ} :
    {A : Type ℓ} {B : Type κ} (f : A → B) (xs ys : List A) → map f (xs ++ ys) ≡ map f xs ++ map f ys
map-append f [] ys = refl
map-append f (x ∷ xs) ys = ap (λ zs. f x ∷ zs) (map-append f xs ys)

pub is_empty-snoc {ℓ} : {A : Type ℓ} (xs : List A) (x : A) → is_empty (xs ++ x ∷ []) ≡ false
is_empty-snoc [] x = refl
is_empty-snoc (y ∷ xs) x = refl
