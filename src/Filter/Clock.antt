-- ===== src/Filter/Clock.antt =====
-- Which filters of src/domain/filter.rs depend on the time, and what negation does to a term.
use tale.Prelude.{
  ℕ, ◌≡◌, refl, ap, List, [], ◌∷◌, Bool, false, not, Option, none, some, if◌then◌else◌, Text, any,
  arith,
}
use tale.Matching.{FieldMatchMode, exact, contains, starts_with}
use tale.Device.{Device, AdminDevice}
use tale.Filter.Schema.{
  FilterField, on_id, on_name, on_online, on_owner, on_os, on_path, on_tag, on_last_seen,
  on_property, on_approval, on_key_expiry, on_client_version, on_sharing, on_posture, on_route_role,
  on_exposure, on_listener, on_port, on_mount, on_backend,
}
use tale.Filter.Terms.{FilterTerm, text_term, field_term, structured_term}
use tale.Filter.Evaluation.{
  is_key_expiry, term_requires_now, requires_now, matches, matches_with_dns,
}
use tale.Filter.Administration.{
  admin_field_matches, structured_in_mode, structured_admin_field_matches, matches_admin_term,
  matches_admin,
}

any-same {ℓ} :
    {A : Type ℓ} (p q : A → Bool) (xs : List A) → ((x : A) → p x ≡ q x) → any p xs ≡ any q xs
any-same p q [] h = refl
any-same p q (x ∷ xs) h = rw (h x, any-same p q xs h) refl

module _ (lower : ℕ → Text) where
  field_stable :
      (field : FilterField) (value : Text) (d : AdminDevice) (now later : ℕ)
      → is_key_expiry field ≡ false
      → admin_field_matches lower field value d now ≡ admin_field_matches lower field value d later
  unfolding admin_field_matches
  field_stable on_id value d now later h = refl
  field_stable on_name value d now later h = refl
  field_stable on_online value d now later h = refl
  field_stable on_owner value d now later h = refl
  field_stable on_os value d now later h = refl
  field_stable on_path value d now later h = refl
  field_stable on_tag value d now later h = refl
  field_stable on_last_seen value d now later h = refl
  field_stable on_property value d now later h = refl
  field_stable on_approval value d now later h = refl
  field_stable on_key_expiry value d now later h = absurd (ground arith)
  field_stable on_client_version value d now later h = refl
  field_stable on_sharing value d now later h = refl
  field_stable on_posture value d now later h = refl
  field_stable on_route_role value d now later h = refl
  field_stable on_exposure value d now later h = refl
  field_stable on_listener value d now later h = refl
  field_stable on_port value d now later h = refl
  field_stable on_mount value d now later h = refl
  field_stable on_backend value d now later h = refl

  mode_stable :
      (field : FilterField) (value : Text) (mode : FieldMatchMode) (d : AdminDevice) (now later : ℕ)
      → is_key_expiry field ≡ false
      → structured_in_mode lower field value mode d now
        ≡ structured_in_mode lower field value mode d later
  unfolding structured_in_mode admin_field_matches
  mode_stable on_id value mode d now later h = refl
  mode_stable on_name value mode d now later h = refl
  mode_stable on_online value mode d now later h = refl
  mode_stable on_owner value mode d now later h = refl
  mode_stable on_os value mode d now later h = refl
  mode_stable on_path value mode d now later h = refl
  mode_stable on_tag value mode d now later h = refl
  mode_stable on_last_seen value mode d now later h = refl
  mode_stable on_property value mode d now later h = refl
  mode_stable on_approval value mode d now later h = refl
  mode_stable on_key_expiry value mode d now later h = absurd (ground arith)
  mode_stable on_client_version value mode d now later h = refl
  mode_stable on_sharing value mode d now later h = refl
  mode_stable on_posture value mode d now later h = refl
  mode_stable on_route_role value mode d now later h = refl
  mode_stable on_exposure value mode d now later h = refl
  mode_stable on_listener value mode d now later h = refl
  mode_stable on_port value mode d now later h = refl
  mode_stable on_mount value mode d now later h = refl
  mode_stable on_backend value mode d now later h = refl

  structured_stable :
      (field : FilterField) (value : Text) (mode : FieldMatchMode) (d : AdminDevice) (now later : ℕ)
      → is_key_expiry field ≡ false
      → structured_admin_field_matches lower field value mode d now
        ≡ structured_admin_field_matches lower field value mode d later
  unfolding structured_admin_field_matches
  structured_stable field value exact d now later h = field_stable field value d now later h
  structured_stable field value contains d now later h =
      mode_stable field value contains d now later h
  structured_stable field value starts_with d now later h =
      mode_stable field value starts_with d now later h

  term_stable :
      (term : FilterTerm) (d : Device) (a : AdminDevice) (dns_name : Option Text) (now later : ℕ)
      → term_requires_now term ≡ false
      → (matches lower term d dns_name now ≡ matches lower term d dns_name later)
        × (matches_admin_term lower term a now ≡ matches_admin_term lower term a later)
  unfolding matches matches_admin_term
  term_stable (text_term value) d a dns_name now later h = (refl, refl)
  term_stable (field_term field negated values (some comparison)) d a dns_name now later h =
      absurd (ground arith)
  term_stable (field_term field negated values none) d a dns_name now later h = (
    refl,
    ap (λ b. if negated then not b else b)
        (any-same (λ value. admin_field_matches lower field value a now)
          (λ value. admin_field_matches lower field value a later) values
          (λ value. field_stable field value a now later h)),
  )
  term_stable (structured_term field negated value mode) d a dns_name now later h = (
    refl,
    ap (λ b. if negated then not b else b) (structured_stable field value mode a now later h),
  )

  -- A filter that does not require the time matches the same devices and the same administrative
  -- records at all times.
  pub requires_now_sound :
      (terms : List FilterTerm) (d : Device) (a : AdminDevice) (dns_name : Option Text)
      (now later : ℕ)
      → requires_now terms ≡ false
      → (matches_with_dns lower terms d dns_name now
          ≡ matches_with_dns lower terms d dns_name later)
        × (matches_admin lower terms a now ≡ matches_admin lower terms a later)
  unfolding requires_now matches_with_dns matches_admin
  requires_now_sound [] d a dns_name now later h = (refl, refl)
  requires_now_sound (term ∷ terms) d a dns_name now later h =
      let (of_term, of_admin) = term_stable term d a dns_name now later (ground arith) in
      let (of_terms, of_admins) = requires_now_sound terms d a dns_name now later (ground arith) in
      (rw (of_term, of_terms) refl, rw (of_admin, of_admins) refl)
