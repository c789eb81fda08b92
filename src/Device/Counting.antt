-- ===== src/Device/Counting.antt =====
-- That `compose_exact_id` of src/domain/device.rs keeps every record, and every local device in its place.
use tale.Prelude.{
  ℕ, suc, ◌+◌, ◌<◌, ◌≤◌, ◌≡◌, refl, ap, sym, ◌∙◌, List, [], ◌∷◌, ◌++◌, Bool, true, false, not, ◌&&◌,
  Option, none, some, Text, is_some_and, find, find-cons, find_passes, contains, insert, arith,
  Option-cases, inl, inr,
}
use tale.Device.{AdminDevice}
use tale.Device.Composition.{
  enumerate_from, ComposedDevice, matches_local, compose_local, compose_rest, compose_exact_id,
}

abbrev bit : Bool → ℕ
bit true = 1
bit false = 0

-- How many elements pass.
abbrev pub count_by {ℓ} : {A : Type ℓ} → (A → Bool) → List A → ℕ
count_by p [] = 0
count_by p (x ∷ xs) = bit (p x) + count_by p xs

pub count_by-append {ℓ} :
    {A : Type ℓ} (p : A → Bool) (xs ys : List A)
    → count_by p (xs ++ ys) ≡ count_by p xs + count_by p ys
count_by-append p [] ys = omega arith
count_by-append p (x ∷ xs) ys = omega (arith, count_by-append p xs ys)

module _ (p : AdminDevice → Bool) where
  -- Of the records with an index in `used`, and of those without, how many pass.
  used_count : List (ℕ × AdminDevice) → List ℕ → ℕ
  used_count [] used = 0
  used_count ((index, device) ∷ admin) used =
      bit (contains used index && p device) + used_count admin used

  rest_count : List (ℕ × AdminDevice) → List ℕ → ℕ
  rest_count [] used = 0
  rest_count ((index, device) ∷ admin) used =
      bit (not (contains used index) && p device) + rest_count admin used

  counts_add :
      (n : ℕ) (admin : List AdminDevice) (used : List ℕ)
      → used_count (enumerate_from n admin) used + rest_count (enumerate_from n admin) used
        ≡ count_by p admin
  unfolding used_count rest_count
  counts_add n [] used = omega arith
  counts_add n (d ∷ admin) used = ground (arith, counts_add (suc n) admin used)

  used_count-below :
      (n k : ℕ) (admin : List AdminDevice) (used : List ℕ)
      → k < n
      → used_count (enumerate_from n admin) (k ∷ used) ≡ used_count (enumerate_from n admin) used
  unfolding used_count
  used_count-below n k [] used lt = refl
  used_count-below n k (d ∷ admin) used lt =
      ground (arith, used_count-below (suc n) k admin used (omega arith))

  used_count-nil : (n : ℕ) (admin : List AdminDevice) → used_count (enumerate_from n admin) [] ≡ 0
  unfolding used_count
  used_count-nil n [] = refl
  used_count-nil n (d ∷ admin) = omega (arith, used_count-nil (suc n) admin)

  -- A record that was found is one more that is used.
  used_count-found :
      (q : ℕ × AdminDevice → Bool) (n k : ℕ) (d : AdminDevice) (admin : List AdminDevice)
      (used : List ℕ)
      → find q (enumerate_from n admin) ≡ some (k, d)
      → contains used k ≡ false
      → (n ≤ k)
        × (used_count (enumerate_from n admin) (k ∷ used)
            ≡ bit (p d) + used_count (enumerate_from n admin) used)
  unfolding used_count
  used_count-found q n k d [] used h new = absurd (ground arith)
  used_count-found q n k d (e ∷ admin) used h new =
      elim (find-cons q (n, e) (enumerate_from (suc n) admin) (k, d) h) [
        | inl (_, same) ↦
            let at : n ≡ k = ap (λ (x : ℕ × AdminDevice). x.0) same in
            let passes : p e ≡ p d = ap (λ (x : ℕ × AdminDevice). p x.1) same in
            let fresh : contains used n ≡ false = ap (contains used) at ∙ new in
            rw (sym at, fresh, passes)
              (ground (arith, used_count-below (suc n) n admin used (omega arith)))
        | inr (_, later) ↦
            let (above, counts) = used_count-found q (suc n) k d admin used later new in
            ground (arith, above, counts)
      ]

module _ {L : Type 0} (identifier : L → Text) where
  abbrev pub admin_passes : (AdminDevice → Bool) → ComposedDevice identifier → Bool
  admin_passes p composed = is_some_and composed.admin p

  matched_new :
      (used : List ℕ) (local_device : L) (k : ℕ) (d : AdminDevice) (admin : List (ℕ × AdminDevice))
      → find (matches_local identifier used local_device) admin ≡ some (k, d)
      → contains used k ≡ false
  matched_new used local_device k d admin h =
      let passes = find_passes (matches_local identifier used local_device) admin (k, d) h in
      ground arith

  -- One turn of the first loop.
  abbrev pub turn :
      L
      → Option AdminDevice
      → List (ComposedDevice identifier) × List ℕ
      → List (ComposedDevice identifier) × List ℕ
  turn l admin (composed, used) =
      (record { id = identifier l; local = some l; admin = admin } ∷ composed, used)

  pub compose_local-unmatched :
      (admin : List (ℕ × AdminDevice)) (used : List ℕ) (l : L) (locals : List L)
      → find (matches_local identifier used l) admin ≡ none
      → compose_local identifier admin used (l ∷ locals)
        ≡ turn l none (compose_local identifier admin used locals)
  unfolding compose_local
  compose_local-unmatched admin used l locals e = rw (compose_local, e) refl

  pub compose_local-matched :
      (admin : List (ℕ × AdminDevice)) (used : List ℕ) (l : L) (locals : List L) (k : ℕ)
      (d : AdminDevice)
      → find (matches_local identifier used l) admin ≡ some (k, d)
      → compose_local identifier admin used (l ∷ locals)
        ≡ turn l (some d) (compose_local identifier admin (insert used k) locals)
  unfolding compose_local
  compose_local-matched admin used l locals k d e = rw (compose_local, e) refl

  compose_local-count :
      (p : AdminDevice → Bool) (admin : List AdminDevice) (used : List ℕ) (locals : List L)
      → count_by (admin_passes p) (compose_local identifier (enumerate_from 0 admin) used locals).0
          + used_count p (enumerate_from 0 admin) used
        ≡ used_count p
            (enumerate_from 0 admin)
            (compose_local identifier (enumerate_from 0 admin) used locals).1
  unfolding compose_local
  compose_local-count p admin used [] = omega arith
  compose_local-count p admin used (l ∷ locals) =
      let adm = enumerate_from 0 admin in
      elim (Option-cases (find (matches_local identifier used l) adm)) [
        | inl e ↦
            rw (compose_local-unmatched adm used l locals e)
              (omega (arith, compose_local-count p admin used locals))
        | inr ((k, d), e) ↦
            let new = matched_new used l k d adm e in
            let (_, counts) =
              used_count-found p (matches_local identifier used l) 0 k d admin used e new in
            rw (compose_local-matched adm used l locals k d e, new)
              (omega (arith, counts, compose_local-count p admin (k ∷ used) locals))
      ]

  compose_rest-count :
      (p : AdminDevice → Bool) (admin : List (ℕ × AdminDevice)) (used : List ℕ)
      → count_by (admin_passes p) (compose_rest identifier admin used) ≡ rest_count p admin used
  unfolding compose_rest rest_count
  compose_rest-count p [] used = refl
  compose_rest-count p ((k, d) ∷ admin) used = ground (arith, compose_rest-count p admin used)

  -- Whatever is asked of an administrative record, as many of the composed devices have a record for
  -- which it is true as there are such records: every record is kept, and none twice.
  pub compose_exact_id-count :
      (p : AdminDevice → Bool) (locals : List L) (admin : List AdminDevice)
      → count_by (admin_passes p) (compose_exact_id identifier locals admin) ≡ count_by p admin
  unfolding compose_exact_id
  compose_exact_id-count p locals admin =
      let (composed, used) = compose_local identifier (enumerate_from 0 admin) [] locals in
      omega (
        arith,
        count_by-append (admin_passes p) composed
            (compose_rest identifier (enumerate_from 0 admin) used),
        compose_rest-count p (enumerate_from 0 admin) used,
        compose_local-count p admin [] locals,
        used_count-nil p 0 admin,
        counts_add p 0 admin used,
      )
