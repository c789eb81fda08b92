-- ===== src/Device/Order.antt =====
-- The orders of device lists in src/domain/device.rs. The texts of a program in UTF-8 are compared by
-- their bytes, which is the order of their characters; `lower` is the lower case of a character.
use Prim.Native.Nat.{Ordering, lt, eq, gt, compare}
use tale.Prelude.{ℕ, List, [], ◌∷◌, ◌++◌, Option, none, some, Text}
use tale.Device.{Device, Liveness, online, offline, unknown, os_label, path_label}

pub data SortField : Type 0 where
  name liveness owner os path last_seen rx tx device_id version : SortField

pub data SortDirection : Type 0 where
  ascending descending : SortDirection

pub record SortSpec : Type 0 where
  pub field : SortField
  pub direction : SortDirection

unfoldable pub reverse : Ordering → Ordering
reverse lt = gt
reverse eq = eq
reverse gt = lt

-- The first that is not `Equal`.
unfoldable pub then_by : Ordering → Ordering → Ordering
then_by lt other = lt
then_by eq other = other
then_by gt other = gt

-- `Ord` of a sequence of characters, and of an optional value, where `None` comes first.
unfoldable pub compare_text : Text → Text → Ordering
compare_text [] [] = eq
compare_text [] (d ∷ w) = lt
compare_text (c ∷ v) [] = gt
compare_text (c ∷ v) (d ∷ w) = then_by (compare c d) (compare_text v w)

unfoldable pub compare_option {ℓ} :
    {A : Type ℓ} → (A → A → Ordering) → Option A → Option A → Ordering
compare_option cmp none none = eq
compare_option cmp none (some b) = lt
compare_option cmp (some a) none = gt
compare_option cmp (some a) (some b) = cmp a b

-- A missing value comes last.
unfoldable pub compare_optional {ℓ} :
    {A : Type ℓ} → (A → A → Ordering) → Option A → Option A → Ordering
compare_optional cmp none none = eq
compare_optional cmp none (some b) = gt
compare_optional cmp (some a) none = lt
compare_optional cmp (some a) (some b) = cmp a b

abbrev pub liveness_rank : Liveness → ℕ
liveness_rank online = 0
liveness_rank offline = 1
liveness_rank unknown = 2

abbrev pub or_option {ℓ} : {A : Type ℓ} → Option A → Option A → Option A
or_option none other = other
or_option (some a) other = some a

abbrev pub directed : SortDirection → Ordering → Ordering
directed ascending primary = primary
directed descending primary = reverse primary

abbrev pub only_one_seen : Option ℕ → Option ℕ → Ordering → Ordering
only_one_seen (some a) none other = lt
only_one_seen none (some b) other = gt
only_one_seen (some a) (some b) other = other
only_one_seen none none other = other

-- A device that was never seen comes last in both directions.
abbrev pub compare_seen : SortSpec → Option ℕ → Option ℕ → Ordering → Ordering
compare_seen sort left right primary = elim sort.field [
  | last_seen ↦ only_one_seen left right (directed sort.direction primary)
  | _ ↦ directed sort.direction primary
]

module _ (lower : ℕ → Text) where
  unfoldable pub lowered : Text → Text
  lowered [] = []
  lowered (c ∷ v) = lower c ++ lowered v

  unfoldable pub compare_case_insensitive : Text → Text → Ordering
  compare_case_insensitive left right = compare_text (lowered left) (lowered right)

  unfoldable pub compare_device_field : Device → Device → SortField → Ordering
  compare_device_field left right name =
      compare_case_insensitive left.display_name right.display_name
  compare_device_field left right liveness =
      compare (liveness_rank left.liveness) (liveness_rank right.liveness)
  compare_device_field left right owner =
      compare_optional compare_case_insensitive (or_option left.owner left.owner_label)
        (or_option right.owner right.owner_label)
  compare_device_field left right os = compare_text (os_label left.os) (os_label right.os)
  compare_device_field left right path = compare_text (path_label left.path) (path_label right.path)
  compare_device_field left right last_seen =
      compare_optional (λ a b. compare b a) left.last_seen right.last_seen
  compare_device_field left right rx = compare_optional compare left.rx_bytes right.rx_bytes
  compare_device_field left right tx = compare_optional compare left.tx_bytes right.tx_bytes
  compare_device_field left right device_id = compare_text left.id right.id
  compare_device_field left right version = compare_option compare_text left.version right.version

  unfoldable pub compare_directed_device_field : Device → Device → SortSpec → Ordering
  compare_directed_device_field left right sort =
      compare_seen sort left.last_seen right.last_seen (compare_device_field left right sort.field)

  unfoldable pub compare_devices_by_specs : Device → Device → List SortSpec → Ordering
  compare_devices_by_specs left right [] = compare_text left.id right.id
  compare_devices_by_specs left right (sort ∷ sorts) =
      then_by (compare_directed_device_field left right sort)
        (compare_devices_by_specs left right sorts)

  unfoldable pub compare_devices : Device → Device → SortSpec → Ordering
  compare_devices left right sort = compare_devices_by_specs left right (sort ∷ [])
