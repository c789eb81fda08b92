-- ===== src/Examples/Devices.antt =====
-- Runs of the orders of src/domain/device.rs.
use Prim.Native.Nat.{gt}
use tale.Prelude.{ℕ, List, [], ◌∷◌, none, some, Text, codes, ◌≡◌, refl}
use tale.Device.{Device, to_display_device}
use tale.Device.Order.{
  SortSpec, ascending, descending, reverse, last_seen, name, compare_devices_by_specs,
  compare_directed_device_field, compare_device_field, compare_optional, then_by,
}
use tale.Device.Ranks.{Chained}
use tale.Device.Sorting.{IfEqual, compare_devices_by_specs_lem}
use tale.Examples.Filters.{record_of}

abbrev lower : ℕ → Text
lower c = c ∷ []

abbrev late : Device
late = to_display_device (record_of (codes "n1") (codes "web.example.ts.net"))

abbrev early : Device
early = record late { id = codes "n2"; last_seen = some 40 }

abbrev never : Device
never = record late { id = codes "n3"; last_seen = none }

abbrev sorts : List SortSpec
sorts =
    record { field = last_seen; direction = descending }
    ∷ record { field = name; direction = ascending }
    ∷ []

late_after : compare_devices_by_specs lower late early sorts ≡ gt
unfolding compare_devices_by_specs compare_directed_device_field compare_device_field
    compare_optional reverse then_by to_display_device
late_after = refl

never_last : compare_devices_by_specs lower never late sorts ≡ gt
unfolding compare_devices_by_specs compare_directed_device_field then_by to_display_device
never_last = refl

compare_devices_by_specs_lem_example :
    (compare_devices_by_specs lower late early sorts
      ≡ reverse (compare_devices_by_specs lower early late sorts))
    × Chained
        (compare_devices_by_specs lower early late sorts)
        (compare_devices_by_specs lower late never sorts)
        (compare_devices_by_specs lower early never sorts)
    × IfEqual (compare_devices_by_specs lower early late sorts) (codes "n2" ≡ late.id)
compare_devices_by_specs_lem_example = compare_devices_by_specs_lem lower sorts early late never
