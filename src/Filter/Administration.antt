-- ===== src/Filter/Administration.antt =====
-- What the terms of a filter match of administrative records, src/domain/filter.rs.
use tale.Prelude.{
  decimal, ℕ, ◌-◌, ◌*◌, List, [], ◌∷◌, ◌++◌, Bool, true, false, not, ◌&&◌, ◌||◌, none, some, ltb,
  leb, if◌then◌else◌, Text, codes, text_eq, is_empty, is_some, is_some_and, any, all,
  saturating_add,
}
use tale.Matching.{FieldMatchMode, exact, contains_matches, text_matches}
use tale.Device.{
  AdminDevice, os_label, admin_display_name, listed, liveness_label, reported_liveness,
}
use tale.Filter.Schema.{
  FilterField, on_id, on_name, on_online, on_owner, on_os, on_path, on_tag, on_last_seen,
  on_property, on_approval, on_key_expiry, on_client_version, on_sharing, on_posture, on_route_role,
  text_eq_ignore_ascii_case,
}
use tale.Filter.Views.{
  property_values, approval_values, key_expiry_values, sharing_values, posture_values,
  route_role_values,
}
use tale.Filter.Durations.{comparison_matches}
use tale.Filter.Terms.{FilterTerm, text_term, field_term, structured_term}
use tale.Filter.Evaluation.{
  is_true, is_false, one_of, negate, has_exit_advertisement, has_exit_approval,
}

-- A week, in seconds.
abbrev soon : ℕ
soon = 7 * 24 * 60 * 60

abbrev is_exact : FieldMatchMode → Bool
is_exact exact = true
is_exact _ = false

module _ (lower : ℕ → Text) where
  unfoldable pub admin_field_matches : FilterField → Text → AdminDevice → ℕ → Bool
  admin_field_matches on_id value d now = contains_matches lower d.stable_id value
  admin_field_matches on_name value d now =
      contains_matches lower (admin_display_name d) value
      || is_some_and d.hostname (λ hostname. contains_matches lower hostname value)
  admin_field_matches on_online value d now =
      one_of
        ((codes "true", is_true d.connected_to_control)
          ∷ (codes "false", is_false d.connected_to_control)
          ∷ (codes "unknown", not (is_some d.connected_to_control))
          ∷ [])
        value
  admin_field_matches on_owner value d now =
      is_some_and d.user_id (λ owner. contains_matches lower owner value)
  admin_field_matches on_os value d now =
      is_some_and d.os (λ os. contains_matches lower (os_label os) value)
  admin_field_matches on_path value d now =
      text_eq_ignore_ascii_case (codes "admin observation") value
  admin_field_matches on_tag value d now = any (λ tag. contains_matches lower tag value) d.tags
  admin_field_matches on_last_seen value d now =
      is_some_and d.last_seen (λ last_seen. text_eq (decimal last_seen) value)
  admin_field_matches on_property value d now =
      one_of
        ((codes "exit-node", has_exit_advertisement d)
          ∷ (codes "exit-node-option", has_exit_approval d)
          ∷ (
            codes "subnet-router",
            d.advertised_routes_returned && not (is_empty d.advertised_routes),
          )
          ∷ (codes "ssh", is_true d.ssh_enabled)
          ∷ (codes "shared", is_true d.is_external)
          ∷ [])
        value
  admin_field_matches on_approval value d now =
      one_of
        ((codes "approved", is_true d.authorized)
          ∷ (codes "pending", is_false d.authorized)
          ∷ (codes "unknown", not (is_some d.authorized))
          ∷ [])
        value
  admin_field_matches on_key_expiry value d now =
      one_of
        ((codes "disabled", is_true d.key_expiry_disabled)
          ∷ (codes "expired", is_some_and d.expires_at (λ expires_at. leb expires_at now))
          ∷ (
            codes "soon",
            is_some_and d.expires_at
                (λ expires_at. ltb now expires_at && leb expires_at (saturating_add now soon)),
          )
          ∷ (codes "unknown", not (is_some d.expires_at) && not (is_true d.key_expiry_disabled))
          ∷ [])
        value
  admin_field_matches on_client_version value d now =
      is_some_and d.client_version (λ version. contains_matches lower version value)
  admin_field_matches on_sharing value d now =
      one_of
        ((codes "external", is_true d.is_external)
          ∷ (codes "internal", is_false d.is_external)
          ∷ (codes "unknown", not (is_some d.is_external))
          ∷ [])
        value
  admin_field_matches on_posture value d now =
      one_of
        ((codes "present", is_true d.posture_present)
          ∷ (codes "empty", is_false d.posture_present)
          ∷ (codes "unknown", not (is_some d.posture_present))
          ∷ [])
        value
  admin_field_matches on_route_role value d now =
      one_of
        ((codes "subnet-router", d.advertised_routes_returned && not (is_empty d.advertised_routes))
          ∷ (codes "exit-node", has_exit_advertisement d)
          ∷ (codes "exit-node-option", has_exit_approval d)
          ∷ (codes "none", d.advertised_routes_returned && is_empty d.advertised_routes)
          ∷ (codes "unknown", not d.advertised_routes_returned && not d.enabled_routes_returned)
          ∷ [])
        value
  admin_field_matches _ value d now = false

  -- A structured term on a closed vocabulary matches any of its words that the text is part of.
  abbrev some_word_matches :
      List Text → FilterField → Text → FieldMatchMode → AdminDevice → ℕ → Bool
  some_word_matches words field value mode d now =
      any
        (λ candidate.
          admin_field_matches field candidate d now && text_matches lower candidate value mode)
        words

  unfoldable pub structured_in_mode : FilterField → Text → FieldMatchMode → AdminDevice → ℕ → Bool
  structured_in_mode on_id value mode d now = text_matches lower d.stable_id value mode
  structured_in_mode on_name value mode d now = text_matches lower (admin_display_name d) value mode
  structured_in_mode on_owner value mode d now =
      is_some_and d.user_id (λ candidate. text_matches lower candidate value mode)
  structured_in_mode on_os value mode d now =
      is_some_and d.os (λ candidate. text_matches lower (os_label candidate) value mode)
  structured_in_mode on_path value mode d now =
      text_matches lower (codes "admin observation") value mode
  structured_in_mode on_tag value mode d now =
      any (λ candidate. text_matches lower candidate value mode) d.tags
  structured_in_mode on_online value mode d now =
      text_matches lower (liveness_label (reported_liveness d.connected_to_control)) value mode
  structured_in_mode on_last_seen value mode d now =
      is_some_and d.last_seen (λ candidate. text_matches lower (decimal candidate) value mode)
  structured_in_mode on_client_version value mode d now =
      is_some_and d.client_version (λ candidate. text_matches lower candidate value mode)
  structured_in_mode on_property value mode d now =
      some_word_matches property_values on_property value mode d now
  structured_in_mode on_approval value mode d now =
      some_word_matches approval_values on_approval value mode d now
  structured_in_mode on_key_expiry value mode d now =
      some_word_matches key_expiry_values on_key_expiry value mode d now
  structured_in_mode on_sharing value mode d now =
      some_word_matches sharing_values on_sharing value mode d now
  structured_in_mode on_posture value mode d now =
      some_word_matches posture_values on_posture value mode d now
  structured_in_mode on_route_role value mode d now =
      some_word_matches route_role_values on_route_role value mode d now
  structured_in_mode _ value mode d now = false

  unfoldable pub structured_admin_field_matches :
      FilterField → Text → FieldMatchMode → AdminDevice → ℕ → Bool
  structured_admin_field_matches field value mode d now =
      if is_exact mode
      then admin_field_matches field value d now
      else structured_in_mode field value mode d now

  unfoldable pub matches_admin_term : FilterTerm → AdminDevice → ℕ → Bool
  matches_admin_term (text_term value) d now =
      any (λ field. contains_matches lower field value)
        (d.stable_id
          ∷ admin_display_name d
          ∷ (listed d.hostname ++ (listed d.user_id ++ (d.tags ++ d.addresses))))
  matches_admin_term (field_term field negated values comparison) d now =
      negate negated (elim comparison [
        | some comparison ↦
            comparison_matches comparison
              (elim d.last_seen [ none ↦ none | some last_seen ↦ some (now - last_seen) ])
        | none ↦ any (λ value. admin_field_matches field value d now) values
      ])
  matches_admin_term (structured_term field negated value mode) d now =
      negate negated (structured_admin_field_matches field value mode d now)

  unfoldable pub matches_admin : List FilterTerm → AdminDevice → ℕ → Bool
  matches_admin terms d now = all (λ term. matches_admin_term term d now) terms
