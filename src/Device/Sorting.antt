-- ===== src/Device/Sorting.antt =====
-- The order of devices by a list of fields, `compare_devices_by_specs` of src/domain/device.rs.
use mathlib.Core.Path.{ap₂}
use Prim.Native.Nat.{Ordering, lt, eq, gt, compare}
use tale.Prelude.{ℕ, List, [], ◌∷◌, Option, none, some, Text, ◌≡◌, refl, arith}
use tale.Device.{Device, os_label, path_label}
use tale.Device.Order
use tale.Device.Order.{
  reverse, then_by, compare_text, compare_option, compare_optional, directed, ascending, descending,
  SortDirection, SortField, SortSpec, only_one_seen, compare_seen, liveness_rank, or_option,
  compare_case_insensitive, compare_device_field, compare_directed_device_field,
  compare_devices_by_specs, lowered,
}
use tale.Device.Ranks.{
  Chained, IsOrder, compare-IsOrder, compare_text-IsOrder, compare_option-IsOrder,
  compare_optional-IsOrder, IsOrder-along, IsOrder-by, IsOrder-then_by, IsOrder-directed,
  IsOrder-flipped,
}

-- What holds if a comparison says `Equal`.
abbrev pub IfEqual : Ordering → Type 0 → Type 0
IfEqual eq A = A
IfEqual _ A = Unit

seen_directed :
    (d : SortDirection) (x y : Option ℕ)
    → only_one_seen x y (directed d (compare_optional (λ a b. compare b a) x y))
      ≡ compare_optional (λ a b. directed d (compare b a)) x y
unfolding compare_optional reverse
seen_directed ascending none none = refl
seen_directed descending none none = refl
seen_directed d none (some b) = refl
seen_directed d (some a) none = refl
seen_directed d (some a) (some b) = refl

if_equal : (x : Ordering) (A : Type 0) → (x ≡ eq → A) → IfEqual x A
if_equal lt A h = tt
if_equal eq A h = h refl
if_equal gt A h = tt

then_by-eq : (x y : Ordering) → then_by x y ≡ eq → (x ≡ eq) × (y ≡ eq)
unfolding then_by
then_by-eq lt y h = absurd (ground arith)
then_by-eq eq y h = (refl, h)
then_by-eq gt y h = absurd (ground arith)

compare-eq : (c d : ℕ) → compare c d ≡ eq → c ≡ d
compare-eq c d h = ground arith

compare_text-eq : (v w : Text) → compare_text v w ≡ eq → v ≡ w
unfolding compare_text then_by
compare_text-eq [] [] h = refl
compare_text-eq [] (d ∷ w) h = ground arith
compare_text-eq (c ∷ v) [] h = ground arith
compare_text-eq (c ∷ v) (d ∷ w) h =
    let (e, rest) = then_by-eq (compare c d) (compare_text v w) h in
    ap₂ (λ (k : ℕ) (u : Text). k ∷ u) (compare-eq c d e) (compare_text-eq v w rest)

module _ (lower : ℕ → Text) where
  compare_case_insensitive-IsOrder : IsOrder (compare_case_insensitive lower)
  unfolding compare_case_insensitive
  compare_case_insensitive-IsOrder = IsOrder-along compare_text (lowered lower) compare_text-IsOrder

  compare_device_field-IsOrder :
      (field : SortField) → IsOrder {A = Device} (λ a b. compare_device_field lower a b field)
  unfolding compare_device_field
  compare_device_field-IsOrder Order.name =
      IsOrder-along (compare_case_insensitive lower) (λ (d : Device). d.display_name)
        compare_case_insensitive-IsOrder
  compare_device_field-IsOrder Order.liveness =
      IsOrder-along compare (λ (d : Device). liveness_rank d.liveness) compare-IsOrder
  compare_device_field-IsOrder Order.owner =
      IsOrder-along (compare_optional (compare_case_insensitive lower))
        (λ (d : Device). or_option d.owner d.owner_label)
        (compare_optional-IsOrder (compare_case_insensitive lower) compare_case_insensitive-IsOrder)
  compare_device_field-IsOrder Order.os =
      IsOrder-along compare_text (λ (d : Device). os_label d.os) compare_text-IsOrder
  compare_device_field-IsOrder Order.path =
      IsOrder-along compare_text (λ (d : Device). path_label d.path) compare_text-IsOrder
  compare_device_field-IsOrder Order.last_seen =
      IsOrder-along (compare_optional (λ a b. compare b a)) (λ (d : Device). d.last_seen)
        (compare_optional-IsOrder (λ a b. compare b a) (IsOrder-flipped compare compare-IsOrder))
  compare_device_field-IsOrder Order.rx =
      IsOrder-along (compare_optional compare) (λ (d : Device). d.rx_bytes)
        (compare_optional-IsOrder compare compare-IsOrder)
  compare_device_field-IsOrder Order.tx =
      IsOrder-along (compare_optional compare) (λ (d : Device). d.tx_bytes)
        (compare_optional-IsOrder compare compare-IsOrder)
  compare_device_field-IsOrder Order.device_id =
      IsOrder-along compare_text (λ (d : Device). d.id) compare_text-IsOrder
  compare_device_field-IsOrder Order.version =
      IsOrder-along (compare_option compare_text) (λ (d : Device). d.version)
        (compare_option-IsOrder compare_text compare_text-IsOrder)

  last_seen-IsOrder :
      (d : SortDirection)
      → IsOrder {A = Device}
          (λ a b. compare_optional (λ (x y : ℕ). directed d (compare y x)) a.last_seen b.last_seen)
  last_seen-IsOrder d =
      IsOrder-along (compare_optional (λ (x y : ℕ). directed d (compare y x)))
        (λ (v : Device). v.last_seen)
        (compare_optional-IsOrder (λ (x y : ℕ). directed d (compare y x))
          (IsOrder-directed d (λ (x y : ℕ). compare y x) (IsOrder-flipped compare compare-IsOrder)))

  compare_directed_device_field-IsOrder :
      (field : SortField) (d : SortDirection)
      → IsOrder {A = Device}
          (λ a b. compare_directed_device_field lower a b (record { field = field; direction = d }))
  unfolding compare_directed_device_field compare_device_field
  compare_directed_device_field-IsOrder Order.last_seen d =
      IsOrder-by
        (λ (a b : Device).
          only_one_seen a.last_seen b.last_seen
            (directed d (compare_optional (λ x y. compare y x) a.last_seen b.last_seen)))
        (λ (a b : Device).
          compare_optional (λ (x y : ℕ). directed d (compare y x)) a.last_seen b.last_seen)
        (λ a b. seen_directed d a.last_seen b.last_seen) (last_seen-IsOrder d)
  compare_directed_device_field-IsOrder Order.name d =
      IsOrder-directed d (λ a b. compare_device_field lower a b Order.name)
        (compare_device_field-IsOrder Order.name)
  compare_directed_device_field-IsOrder Order.liveness d =
      IsOrder-directed d (λ a b. compare_device_field lower a b Order.liveness)
        (compare_device_field-IsOrder Order.liveness)
  compare_directed_device_field-IsOrder Order.owner d =
      IsOrder-directed d (λ a b. compare_device_field lower a b Order.owner)
        (compare_device_field-IsOrder Order.owner)
  compare_directed_device_field-IsOrder Order.os d =
      IsOrder-directed d (λ a b. compare_device_field lower a b Order.os)
        (compare_device_field-IsOrder Order.os)
  compare_directed_device_field-IsOrder Order.path d =
      IsOrder-directed d (λ a b. compare_device_field lower a b Order.path)
        (compare_device_field-IsOrder Order.path)
  compare_directed_device_field-IsOrder Order.rx d =
      IsOrder-directed d (λ a b. compare_device_field lower a b Order.rx)
        (compare_device_field-IsOrder Order.rx)
  compare_directed_device_field-IsOrder Order.tx d =
      IsOrder-directed d (λ a b. compare_device_field lower a b Order.tx)
        (compare_device_field-IsOrder Order.tx)
  compare_directed_device_field-IsOrder Order.device_id d =
      IsOrder-directed d (λ a b. compare_device_field lower a b Order.device_id)
        (compare_device_field-IsOrder Order.device_id)
  compare_directed_device_field-IsOrder Order.version d =
      IsOrder-directed d (λ a b. compare_device_field lower a b Order.version)
        (compare_device_field-IsOrder Order.version)

  compare_devices_by_specs-IsOrder :
      (sorts : List SortSpec)
      → IsOrder {A = Device} (λ a b. compare_devices_by_specs lower a b sorts)
  unfolding compare_devices_by_specs
  compare_devices_by_specs-IsOrder [] =
      IsOrder-along compare_text (λ (d : Device). d.id) compare_text-IsOrder
  compare_devices_by_specs-IsOrder (sort ∷ sorts) =
      IsOrder-then_by (λ a b. compare_directed_device_field lower a b sort)
        (λ a b. compare_devices_by_specs lower a b sorts)
        (compare_directed_device_field-IsOrder sort.field sort.direction)
        (compare_devices_by_specs-IsOrder sorts)

  compare_devices_by_specs-eq :
      (sorts : List SortSpec) (a b : Device)
      → compare_devices_by_specs lower a b sorts ≡ eq
      → a.id ≡ b.id
  unfolding compare_devices_by_specs
  compare_devices_by_specs-eq [] a b h = compare_text-eq a.id b.id h
  compare_devices_by_specs-eq (sort ∷ sorts) a b h =
      compare_devices_by_specs-eq sorts a b
        (then_by-eq (compare_directed_device_field lower a b sort)
          (compare_devices_by_specs lower a b sorts) h).1

  -- By whatever list of fields devices are compared, each in either direction, the comparison is a total
  -- order: the swapped devices have the reversed answer, two answers chain to a third, where a device
  -- that is equal to another compares as it does with every third, and only devices with the same
  -- identifier are equal.
  pub compare_devices_by_specs_lem :
      (sorts : List SortSpec) (a b c : Device)
      → (compare_devices_by_specs lower b a sorts
          ≡ reverse (compare_devices_by_specs lower a b sorts))
        × Chained
            (compare_devices_by_specs lower a b sorts)
            (compare_devices_by_specs lower b c sorts)
            (compare_devices_by_specs lower a c sorts)
        × IfEqual (compare_devices_by_specs lower a b sorts) (a.id ≡ b.id)
  compare_devices_by_specs_lem sorts a b c =
      let order = compare_devices_by_specs-IsOrder sorts in
      (
        order.swapped a b,
        order.chained a b c,
        if_equal (compare_devices_by_specs lower a b sorts) (a.id ≡ b.id)
            (compare_devices_by_specs-eq sorts a b),
      )
