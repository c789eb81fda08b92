-- ===== src/Device/Composition.antt =====
-- `compose_exact_id` of src/domain/device.rs: the devices that the local daemon knows, each with the
-- administrative record that has its identifier, and then the records that are left over. A local
-- device is its type `L` with its identifier.
use tale.Prelude.{
  ℕ, suc, List, [], ◌∷◌, ◌++◌, Bool, not, ◌&&◌, Option, none, some, Text, text_eq, is_some_and,
  if◌then◌else◌, find, contains, insert,
}
use tale.Device.{AdminDevice, exact_node_id}

-- `enumerate`.
abbrev pub enumerate_from {ℓ} : {A : Type ℓ} → ℕ → List A → List (ℕ × A)
enumerate_from n [] = []
enumerate_from n (x ∷ xs) = (n, x) ∷ enumerate_from (suc n) xs

module _ {L : Type 0} (identifier : L → Text) where
  pub record ComposedDevice : Type 0 where
    pub id : Text
    pub local : Option L
    pub admin : Option AdminDevice

  abbrev pub matches_local : List ℕ → L → ℕ × AdminDevice → Bool
  matches_local used local_device (index, device) =
      not (contains used index)
      && is_some_and (exact_node_id device) (λ node_id. text_eq node_id (identifier local_device))

  -- The first loop: what it pushes, and the indices of the records it used.
  unfoldable pub compose_local :
      List (ℕ × AdminDevice) → List ℕ → List L → List ComposedDevice × List ℕ
  compose_local admin used [] = ([], used)
  compose_local admin used (local_device ∷ locals) =
      elim (find (matches_local used local_device) admin) [
        | some (index, device) ↦
            let (composed, used') = compose_local admin (insert used index) locals in
            (
              record {
                id = identifier local_device;
                local = some local_device;
                admin = some device;
              }
                  ∷ composed,
              used',
            )
        | none ↦
            let (composed, used') = compose_local admin used locals in
            (
              record { id = identifier local_device; local = some local_device; admin = none }
                  ∷ composed,
              used',
            )
      ]

  -- The second loop.
  unfoldable pub compose_rest : List (ℕ × AdminDevice) → List ℕ → List ComposedDevice
  compose_rest [] used = []
  compose_rest ((index, device) ∷ admin) used =
      let rest = compose_rest admin used in
      if not (contains used index)
      then record { id = device.stable_id; local = none; admin = some device } ∷ rest
      else rest

  unfoldable pub compose_exact_id : List L → List AdminDevice → List ComposedDevice
  compose_exact_id locals admin =
      let (composed, used) = compose_local (enumerate_from 0 admin) [] locals in
      composed ++ compose_rest (enumerate_from 0 admin) used
