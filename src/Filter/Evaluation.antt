-- ===== src/Filter/Evaluation.antt =====
-- What the terms of a filter match, src/domain/filter.rs. Unicode's lower-case mapping of a character is
-- the parameter `lower` of the searches.
use tale.Prelude.{
  decimal, ℕ, List, [], ◌∷◌, ◌++◌, Bool, true, false, not, ◌&&◌, ◌||◌, Option, none, some,
  if◌then◌else◌, Text, codes, text_eq, is_some, is_some_and, any, all,
}
use tale.Matching.{FieldMatchMode, contains_matches, text_matches}
use tale.Device.{
  Device, AdminDevice, Liveness, online, offline, unknown, liveness_label, path_label, os_label,
  listed, search_fields, property_matches, age_at, is_exit_route,
}
use tale.Filter.Schema.{
  FilterField, on_id, on_name, on_online, on_owner, on_os, on_path, on_tag, on_last_seen,
  on_property, on_approval, on_key_expiry, on_client_version, on_sharing, on_posture, on_route_role,
  on_exposure, on_listener, on_port, on_mount, on_backend, text_eq_ignore_ascii_case,
}
use tale.Filter.Durations.{comparison_matches}
use tale.Filter.Terms.{FilterTerm, text_term, field_term, structured_term}

abbrev pub is_admin_filter_field : FilterField → Bool
is_admin_filter_field on_approval = true
is_admin_filter_field on_key_expiry = true
is_admin_filter_field on_client_version = true
is_admin_filter_field on_sharing = true
is_admin_filter_field on_posture = true
is_admin_filter_field on_route_role = true
is_admin_filter_field _ = false

abbrev pub is_key_expiry : FilterField → Bool
is_key_expiry on_key_expiry = true
is_key_expiry _ = false

abbrev pub term_requires_now : FilterTerm → Bool
term_requires_now (text_term value) = false
term_requires_now (field_term field negated values comparison) =
    is_some comparison || is_key_expiry field
term_requires_now (structured_term field negated value mode) = is_key_expiry field

unfoldable pub requires_now : List FilterTerm → Bool
requires_now terms = any term_requires_now terms

abbrev pub term_requires_admin_data : FilterTerm → Bool
term_requires_admin_data (text_term value) = false
term_requires_admin_data (field_term field negated values comparison) = is_admin_filter_field field
term_requires_admin_data (structured_term field negated value mode) = is_admin_filter_field field

unfoldable pub requires_admin_data : List FilterTerm → Bool
requires_admin_data terms = any term_requires_admin_data terms

unfoldable pub has_exit_advertisement : AdminDevice → Bool
has_exit_advertisement d = d.advertised_routes_returned && any is_exit_route d.advertised_routes

unfoldable pub has_exit_approval : AdminDevice → Bool
has_exit_approval d = d.enabled_routes_returned && any is_exit_route d.enabled_routes

-- `== Some(true)`, `== Some(false)` and `is_none()`.
abbrev pub is_true : Option Bool → Bool
is_true (some true) = true
is_true _ = false

abbrev pub is_false : Option Bool → Bool
is_false (some false) = true
is_false _ = false

abbrev pub is_online : Liveness → Bool
is_online online = true
is_online _ = false

abbrev pub is_offline : Liveness → Bool
is_offline offline = true
is_offline _ = false

abbrev pub is_unknown : Liveness → Bool
is_unknown unknown = true
is_unknown _ = false

-- `match value { name => answer, … , _ => false }` with strings.
abbrev pub one_of : List (Text × Bool) → Text → Bool
one_of [] value = false
one_of ((name, answer) ∷ arms) value = if text_eq value name then answer else one_of arms value

abbrev pub negate : Bool → Bool → Bool
negate negated matched = if negated then not matched else matched

module _ (lower : ℕ → Text) where
  unfoldable pub device_field_matches : FilterField → Text → Device → Bool
  device_field_matches on_id value d = contains_matches lower d.id value
  device_field_matches on_name value d =
      contains_matches lower d.display_name value || contains_matches lower d.hostname value
  device_field_matches on_online value d =
      one_of
        ((codes "true", is_online d.liveness)
          ∷ (codes "false", is_offline d.liveness)
          ∷ (codes "unknown", is_unknown d.liveness)
          ∷ [])
        value
  device_field_matches on_owner value d =
      is_some_and d.owner (λ owner. contains_matches lower owner value)
      || is_some_and d.owner_label (λ owner. contains_matches lower owner value)
  device_field_matches on_os value d = contains_matches lower (os_label d.os) value
  device_field_matches on_path value d = text_eq_ignore_ascii_case (path_label d.path) value
  device_field_matches on_tag value d = any (λ tag. contains_matches lower tag value) d.tags
  device_field_matches on_property value d = property_matches d value
  device_field_matches on_exposure value d = false
  device_field_matches on_listener value d = false
  device_field_matches on_port value d = false
  device_field_matches on_mount value d = false
  device_field_matches on_backend value d = false
  device_field_matches _ value d = true

  unfoldable pub structured_device_field_matches :
      FilterField → Text → FieldMatchMode → Device → Bool
  structured_device_field_matches on_id value mode d = text_matches lower d.id value mode
  structured_device_field_matches on_name value mode d =
      text_matches lower d.display_name value mode || text_matches lower d.hostname value mode
  structured_device_field_matches on_owner value mode d =
      is_some_and d.owner (λ candidate. text_matches lower candidate value mode)
      || is_some_and d.owner_label (λ candidate. text_matches lower candidate value mode)
  structured_device_field_matches on_os value mode d = text_matches lower (os_label d.os) value mode
  structured_device_field_matches on_path value mode d =
      text_matches lower (path_label d.path) value mode
  structured_device_field_matches on_tag value mode d =
      any (λ candidate. text_matches lower candidate value mode) d.tags
  structured_device_field_matches on_online value mode d =
      text_matches lower (liveness_label d.liveness) value mode
  structured_device_field_matches on_last_seen value mode d =
      is_some_and d.last_seen (λ candidate. text_matches lower (decimal candidate) value mode)
  structured_device_field_matches on_client_version value mode d =
      is_some_and d.version (λ candidate. text_matches lower candidate value mode)
  structured_device_field_matches on_exposure value mode d = false
  structured_device_field_matches on_listener value mode d = false
  structured_device_field_matches on_port value mode d = false
  structured_device_field_matches on_mount value mode d = false
  structured_device_field_matches on_backend value mode d = false
  structured_device_field_matches _ value mode d = true

  unfoldable pub matches : FilterTerm → Device → Option Text → ℕ → Bool
  matches (text_term value) d dns_name now =
      any (λ field. contains_matches lower field value) (search_fields d ++ listed dns_name)
  matches (field_term field negated values comparison) d dns_name now =
      if is_admin_filter_field field
      then true
      else negate negated (elim comparison [
        | some comparison ↦ comparison_matches comparison (age_at d now)
        | none ↦ any (λ value. device_field_matches field value d) values
      ])
  matches (structured_term field negated value mode) d dns_name now =
      if is_admin_filter_field field
      then true
      else negate negated (structured_device_field_matches field value mode d)

  unfoldable pub matches_with_dns : List FilterTerm → Device → Option Text → ℕ → Bool
  matches_with_dns terms d dns_name now = all (λ term. matches term d dns_name now) terms
