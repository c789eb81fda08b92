-- ===== src/Filter/Records.antt =====
-- That a term of src/domain/filter.rs finds an administrative record and the device shown for it alike.
use tale.Prelude.{
  ℕ, ◌≡◌, refl, ap, sym, List, [], ◌∷◌, Bool, true, false, not, ◌&&◌, ◌||◌, Option, none, some,
  is_some, is_some_and, if◌then◌else◌, Text, any, arith, codes, map, All,
}
use tale.Matching.{contains_matches, to_ascii_lowercase}
use tale.Device.{
  AdminDevice, to_display_device, property_matches, is_exit_route, admin_display_name,
  reported_liveness, or_false, OperatingSystem, unknown_os, os_label,
}
use tale.Filter.Schema.{
  FilterField, on_id, on_name, on_online, on_owner, on_os, on_path, on_tag, on_last_seen,
  on_property, on_approval, on_key_expiry, on_client_version, on_sharing, on_posture, on_route_role,
  on_exposure, on_listener, on_port, on_mount, on_backend,
}
use tale.Filter.Terms.{field_term}
use tale.Filter.Evaluation.{
  is_admin_filter_field, matches, device_field_matches, one_of, is_true, is_false, is_online,
  is_offline, is_unknown, has_exit_advertisement, has_exit_approval,
}
use tale.Filter.Administration.{admin_field_matches, matches_admin_term}

-- The fields on which a record and the device shown for it agree: all but the connection path and the
-- time last seen, and the fields that only records have; the operating system only if it was returned.
abbrev pub compared : FilterField → AdminDevice → Bool
compared on_os d = is_some d.os
compared on_path d = false
compared on_last_seen d = false
compared on_approval d = false
compared on_key_expiry d = false
compared on_client_version d = false
compared on_sharing d = false
compared on_posture d = false
compared on_route_role d = false
compared _ d = true

-- Routes that were not returned are empty, as the client of the control plane leaves them.
pub record RoutesReturned (d : AdminDevice) : Type 0 where
  pub advertised : d.advertised_routes_returned ≡ false → d.advertised_routes ≡ []
  pub enabled : d.enabled_routes_returned ≡ false → d.enabled_routes ≡ []

liveness_reported :
    (o : Option Bool) (value : Text)
    → one_of
        ((codes "true", is_online (reported_liveness o))
          ∷ (codes "false", is_offline (reported_liveness o))
          ∷ (codes "unknown", is_unknown (reported_liveness o))
          ∷ [])
        value
      ≡ one_of
          ((codes "true", is_true o)
            ∷ (codes "false", is_false o)
            ∷ (codes "unknown", not (is_some o))
            ∷ [])
          value
liveness_reported none value = refl
liveness_reported (some true) value = refl
liveness_reported (some false) value = refl

or_self : (b : Bool) → (b || b) ≡ b
or_self true = refl
or_self false = refl

or_false-is_true : (o : Option Bool) → or_false o ≡ is_true o
or_false-is_true none = refl
or_false-is_true (some true) = refl
or_false-is_true (some false) = refl

compared_not_admin :
    (field : FilterField) (d : AdminDevice)
    → compared field d ≡ true
    → is_admin_filter_field field ≡ false
compared_not_admin on_id d h = refl
compared_not_admin on_name d h = refl
compared_not_admin on_online d h = refl
compared_not_admin on_owner d h = refl
compared_not_admin on_os d h = refl
compared_not_admin on_tag d h = refl
compared_not_admin on_property d h = refl
compared_not_admin on_exposure d h = refl
compared_not_admin on_listener d h = refl
compared_not_admin on_port d h = refl
compared_not_admin on_mount d h = refl
compared_not_admin on_backend d h = refl
compared_not_admin _ d h = absurd (ground arith)

module _ (lower : ℕ → Text) where
  hostname_shown :
      (o : Option Text) (name value : Text)
      → (contains_matches lower name value
          || contains_matches lower (elim o [ some hostname ↦ hostname | none ↦ name ]) value)
        ≡ (contains_matches lower name value
            || is_some_and o (λ hostname. contains_matches lower hostname value))
  hostname_shown none name value = ground (arith, or_self (contains_matches lower name value))
  hostname_shown (some hostname) name value = refl

  os_shown :
      (o : Option OperatingSystem) (value : Text)
      → is_some o ≡ true
      → contains_matches lower
          (os_label (elim o [ some os ↦ os | none ↦ unknown_os (codes "not returned") ]))
          value
        ≡ is_some_and o (λ os. contains_matches lower (os_label os) value)
  os_shown (some os) value h = refl
  os_shown none value h = absurd (ground arith)

  exit_shown :
      (returned : Bool) (routes : List Text)
      → (returned ≡ false → routes ≡ [])
      → any is_exit_route routes ≡ (returned && any is_exit_route routes)
  exit_shown true routes h = refl
  exit_shown false routes h = rw (h refl) refl

  property_shown :
      (d : AdminDevice) (value : Text)
      → RoutesReturned d
      → map to_ascii_lowercase value ≡ value
      → property_matches (to_display_device d) value
        ≡ admin_field_matches lower on_property value d 0
  unfolding property_matches admin_field_matches to_display_device has_exit_advertisement
      has_exit_approval
  property_shown d value returned lower_case =
      rw
        (
          property_matches,
          has_exit_advertisement,
          has_exit_approval,
          lower_case,
          sym (exit_shown d.advertised_routes_returned d.advertised_routes returned.advertised),
          sym (exit_shown d.enabled_routes_returned d.enabled_routes returned.enabled),
          or_false-is_true d.ssh_enabled,
          or_false-is_true d.is_external,
        )
        refl

  field_shown :
      (field : FilterField) (value : Text) (d : AdminDevice) (now : ℕ)
      → compared field d ≡ true
      → RoutesReturned d
      → map to_ascii_lowercase value ≡ value
      → device_field_matches lower field value (to_display_device d)
        ≡ admin_field_matches lower field value d now
  unfolding device_field_matches admin_field_matches to_display_device
  field_shown on_id value d now h returned lower_case = refl
  field_shown on_name value d now h returned lower_case =
      hostname_shown d.hostname (admin_display_name d) value
  field_shown on_online value d now h returned lower_case =
      liveness_reported d.connected_to_control value
  field_shown on_owner value d now h returned lower_case =
      or_self (is_some_and d.user_id (λ owner. contains_matches lower owner value))
  field_shown on_os value d now h returned lower_case = os_shown d.os value h
  field_shown on_exposure value d now h returned lower_case = refl
  field_shown on_listener value d now h returned lower_case = refl
  field_shown on_port value d now h returned lower_case = refl
  field_shown on_mount value d now h returned lower_case = refl
  field_shown on_backend value d now h returned lower_case = refl
  field_shown on_tag value d now h returned lower_case = refl
  field_shown on_property value d now h returned lower_case =
      property_shown d value returned lower_case
  field_shown _ value d now h returned lower_case = absurd (ground arith)

  values_shown :
      (field : FilterField) (values : List Text) (d : AdminDevice) (now : ℕ)
      → compared field d ≡ true
      → RoutesReturned d
      → All (λ value. map to_ascii_lowercase value ≡ value) values
      → any (λ value. device_field_matches lower field value (to_display_device d)) values
        ≡ any (λ value. admin_field_matches lower field value d now) values
  values_shown field [] d now h returned lower_case = refl
  values_shown field (v ∷ values) d now h returned lower_case =
      rw
        (
          field_shown field v d now h returned lower_case.0,
          values_shown field values d now h returned lower_case.1,
        )
        refl

  -- A term on any field but the connection path, the time last seen and the fields that only records
  -- have (approval, key expiry, client version, sharing, posture, route role), and on the operating
  -- system only if the record has one, with values in lower case and no comparison, matches an
  -- administrative record exactly if it matches the device shown for it, negated or not, if the record
  -- has no routes that were not returned.
  pub matches-to_display_device :
      (field : FilterField) (negated : Bool) (values : List Text) (d : AdminDevice)
      (dns_name : Option Text) (now : ℕ)
      → compared field d ≡ true
      → RoutesReturned d
      → All (λ value. map to_ascii_lowercase value ≡ value) values
      → matches lower (field_term field negated values none) (to_display_device d) dns_name now
        ≡ matches_admin_term lower (field_term field negated values none) d now
  unfolding matches matches_admin_term
  matches-to_display_device field negated values d dns_name now h returned lower_case =
      rw (compared_not_admin field d h) (
        ap (λ b. if negated then not b else b)
          (values_shown field values d now h returned lower_case))
