-- ===== src/Device/Correspondence.antt =====
-- Which records `compose_exact_id` of src/domain/device.rs puts with which local devices.
use tale.Prelude.{
  ℕ, ◌≡◌, refl, ap, ◌∙◌, List, [], ◌∷◌, ◌++◌, Bool, true, not, ◌&&◌, Option, none, some, Text,
  text_eq, text_eq_iff, is_some_and, find, find_passes, contains, insert, arith, Bool-cases,
  Option-cases, inl, inr, All, All-append, append-nil,
}
use tale.Device.{AdminDevice, exact_node_id}
use tale.Device.Composition.{
  enumerate_from, ComposedDevice, matches_local, compose_local, compose_rest, compose_exact_id,
}
use tale.Device.Counting.{compose_local-unmatched, compose_local-matched}

is_some_and-same :
    (o : Option Text) (b : Bool) (v : Text)
    → (b && is_some_and o (λ w. text_eq w v)) ≡ true
    → o ≡ some v
is_some_and-same none b v h = absurd (ground arith)
is_some_and-same (some w) b v h = ap (λ (u : Text). some u) ((text_eq_iff w v).0 (ground arith))

module _ {L : Type 0} (identifier : L → Text) where
  -- The local devices among the composed ones.
  abbrev pub locals_of : List (ComposedDevice identifier) → List L
  locals_of [] = []
  locals_of (c ∷ composed) = elim c.local [
    | none ↦ locals_of composed
    | some l ↦ l ∷ locals_of composed
  ]

  locals_of-append :
      (xs ys : List (ComposedDevice identifier))
      → locals_of (xs ++ ys) ≡ locals_of xs ++ locals_of ys
  locals_of-append [] ys = refl
  locals_of-append (c ∷ xs) ys =
      elim c.local
        as (λ o.
          (elim o [ none ↦ locals_of (xs ++ ys) | some l ↦ l ∷ locals_of (xs ++ ys) ])
          ≡ (elim o [ none ↦ locals_of xs | some l ↦ l ∷ locals_of xs ]) ++ locals_of ys) [
            | none ↦ locals_of-append xs ys
            | some l ↦ ap (λ (ls : List L). l ∷ ls) (locals_of-append xs ys)
          ]

  -- A composed device goes by the identifier of its local device, or of its record if it has none,
  -- and a record that stands with a local device has its identifier.
  abbrev pub Corresponds : ComposedDevice identifier → Type 0
  Corresponds c = elim c.local [
    | none ↦ elim c.admin [ none ↦ ⊥ | some d ↦ c.id ≡ d.stable_id ]
    | some l ↦
        (c.id ≡ identifier l)
        × (elim c.admin [ none ↦ Unit | some d ↦ exact_node_id d ≡ some (identifier l) ])
  ]

  matched_same :
      (used : List ℕ) (l : L) (k : ℕ) (d : AdminDevice) (admin : List (ℕ × AdminDevice))
      → find (matches_local identifier used l) admin ≡ some (k, d)
      → exact_node_id d ≡ some (identifier l)
  matched_same used l k d admin h =
      let passes = find_passes (matches_local identifier used l) admin (k, d) h in
      is_some_and-same (exact_node_id d) (not (contains used k)) (identifier l) passes

  compose_local-Corresponds :
      (admin : List (ℕ × AdminDevice)) (used : List ℕ) (locals : List L)
      → (locals_of (compose_local identifier admin used locals).0 ≡ locals)
        × All Corresponds (compose_local identifier admin used locals).0
  unfolding compose_local
  compose_local-Corresponds admin used [] = (refl, tt)
  compose_local-Corresponds admin used (l ∷ locals) =
      elim (Option-cases (find (matches_local identifier used l) admin)) [
        | inl e ↦
            let (same, all) = compose_local-Corresponds admin used locals in
            rw (compose_local-unmatched identifier admin used l locals e)
              (ap (λ (ls : List L). l ∷ ls) same, ((refl, tt), all))
        | inr ((k, d), e) ↦
            let (same, all) = compose_local-Corresponds admin (insert used k) locals in
            rw (compose_local-matched identifier admin used l locals k d e)
              (ap (λ (ls : List L). l ∷ ls) same, ((refl, matched_same used l k d admin e), all))
      ]

  compose_rest-Corresponds :
      (admin : List (ℕ × AdminDevice)) (used : List ℕ)
      → (locals_of (compose_rest identifier admin used) ≡ [])
        × All Corresponds (compose_rest identifier admin used)
  unfolding compose_rest
  compose_rest-Corresponds [] used = (refl, tt)
  compose_rest-Corresponds ((k, d) ∷ admin) used =
      let (none_local, all) = compose_rest-Corresponds admin used in
      elim (Bool-cases (contains used k)) [
        | inl e ↦ rw e (none_local, all)
        | inr e ↦ rw e (none_local, (refl, all))
      ]

  -- The composed devices have the local devices in their order, each once, and all of them correspond.
  pub compose_exact_id-Corresponds :
      (locals : List L) (admin : List AdminDevice)
      → (locals_of (compose_exact_id identifier locals admin) ≡ locals)
        × All Corresponds (compose_exact_id identifier locals admin)
  unfolding compose_exact_id
  compose_exact_id-Corresponds locals admin =
      let adm = enumerate_from 0 admin in
      let (composed, used) = compose_local identifier adm [] locals in
      let (same, all) = compose_local-Corresponds adm [] locals in
      let (none_local, all_rest) = compose_rest-Corresponds adm used in
      (
        locals_of-append composed (compose_rest identifier adm used)
            ∙ ap (λ ls. locals_of composed ++ ls) none_local
            ∙ append-nil (locals_of composed)
            ∙ same,
        All-append Corresponds composed (compose_rest identifier adm used) all all_rest,
      )
