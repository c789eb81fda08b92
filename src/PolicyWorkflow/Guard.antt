-- ===== src/PolicyWorkflow/Guard.antt =====
-- The guard before a policy is applied, and the summary, src/domain/policy_workflow.rs.
use tale.Prelude.{
  ℕ, ◌≤◌, ◌+◌, ◌-◌, ◌≡◌, Bool, true, false, not, ◌||◌, Option, none, some, String, Text, text_eq,
  if◌then◌else◌, ltb, is_some_and, length,
}
use tale.PolicyWorkflow.Documents.{
  PolicyState, ready_to_apply, PolicyDocument, PolicyValidation, PolicyPreview,
  validation_is_success, max_apply_age,
}
use tale.PolicyWorkflow.Steps.{PolicyWorkflow, preview_bound}

pub data PolicyApplyGuardError : Type 0 where
  not_ready missing_base missing_candidate stale_candidate stale_validation remote_changed
        validation_not_bound preview_not_bound :
      PolicyApplyGuardError

unfoldable pub message : PolicyApplyGuardError → String
message not_ready = "policy is not ready to apply"
message missing_base = "policy base is unavailable"
message missing_candidate = "policy candidate is unavailable"
message stale_candidate = "policy candidate is older than five minutes"
message stale_validation = "server validation is older than five minutes"
message remote_changed = "remote policy changed since the base was fetched"
message validation_not_bound = "server validation is not bound to the candidate"
message preview_not_bound = "server permission preview is not bound to the candidate"

abbrev pub is_ready : PolicyState → Bool
is_ready ready_to_apply = true
is_ready _ = false

-- `now < at || now.saturating_sub(at) > MAX_APPLY_AGE`
abbrev pub is_stale : ℕ → ℕ → Bool
is_stale now at = ltb now at || ltb max_apply_age (now - at)

abbrev pub preview_guard : PolicyDocument → Option PolicyPreview → Option PolicyApplyGuardError
preview_guard candidate none = some preview_not_bound
preview_guard candidate (some preview) =
    if not (text_eq preview.candidate_hash candidate.hash) then some preview_not_bound else none

abbrev pub validation_guard :
    PolicyDocument
    → Option PolicyValidation
    → Option PolicyPreview
    → ℕ
    → Option PolicyApplyGuardError
validation_guard candidate none preview now = some validation_not_bound
validation_guard candidate (some validation) preview now =
    if not (text_eq validation.candidate_hash candidate.hash)
      || not (validation_is_success validation)
    then some validation_not_bound
    else if is_stale now validation.validated_at
    then some stale_validation
    else preview_guard candidate preview

abbrev pub documents_guard :
    ℕ
    → (latest_remote : Option PolicyDocument) → Option PolicyValidation
    → Option PolicyPreview
    → (base candidate : Option PolicyDocument) → Option PolicyApplyGuardError
documents_guard now latest_remote validation preview none candidate = some missing_base
documents_guard now latest_remote validation preview (some base) none = some missing_candidate
documents_guard now latest_remote validation preview (some base) (some candidate) =
    if is_stale now candidate.observed_at
    then some stale_candidate
    else if is_some_and latest_remote
        (λ (remote : PolicyDocument). not (text_eq remote.hash base.hash))
    then some remote_changed
    else validation_guard candidate validation preview now

-- `None` is Ok.
unfoldable pub apply_guard : PolicyWorkflow → ℕ → Option PolicyApplyGuardError
apply_guard w now =
    if not (is_ready w.state)
    then some not_ready
    else documents_guard now w.latest_remote w.validation w.preview w.base w.candidate

pub record PolicyWorkflowSummary : Type 0 where
  pub workflow_id : ℕ
  pub profile : Text
  pub tailnet : Text
  pub state : PolicyState
  pub base_hash : Option Text
  pub candidate_hash : Option Text
  pub latest_remote_hash : Option Text
  pub candidate_bytes : ℕ
  pub candidate_path : Option Text
  pub latest_remote_path : Option Text
  pub validation_bound_to_candidate : Bool
  pub preview_bound_to_candidate : Bool

abbrev pub hash_of : Option PolicyDocument → Option Text
hash_of none = none
hash_of (some document) = some document.hash

abbrev pub validation_bound : Option PolicyDocument → Option PolicyValidation → Bool
validation_bound candidate validation = is_some_and validation (λ (v : PolicyValidation).
    is_some_and candidate (λ (c : PolicyDocument). text_eq v.candidate_hash c.hash))

unfoldable pub summary : PolicyWorkflow → PolicyWorkflowSummary
summary w = record {
  workflow_id = w.workflow_id;
  profile = w.profile;
  tailnet = w.tailnet;
  state = w.state;
  base_hash = hash_of w.base;
  candidate_hash = hash_of w.candidate;
  latest_remote_hash = hash_of w.latest_remote;
  candidate_bytes = elim w.candidate [ none ↦ 0 | some document ↦ length document.bytes ];
  candidate_path = w.candidate_path;
  latest_remote_path = w.latest_remote_path;
  validation_bound_to_candidate = validation_bound w.candidate w.validation;
  preview_bound_to_candidate = preview_bound w.candidate w.preview;
}

-- What must hold of the documents for the guard to let them through.
abbrev pub Passes :
    ℕ
    → (latest_remote : Option PolicyDocument) → Option PolicyValidation
    → Option PolicyPreview
    → (base candidate : Option PolicyDocument) → PolicyDocument
    → PolicyDocument
    → PolicyValidation
    → Type 0
Passes now latest_remote validation preview base candidate b c v =
    (base ≡ some b)
    × (candidate ≡ some c)
    × (validation ≡ some v)
    × (c.observed_at ≤ now)
    × (now ≤ c.observed_at + 300)
    × (is_some_and latest_remote (λ (remote : PolicyDocument). not (text_eq remote.hash b.hash))
        ≡ false)
    × (v.candidate_hash ≡ c.hash)
    × (validation_is_success v ≡ true)
    × (v.validated_at ≤ now)
    × (now ≤ v.validated_at + 300)
    × (preview_bound candidate preview ≡ true)

abbrev pub MayApply :
    PolicyWorkflow → ℕ → PolicyDocument → PolicyDocument → PolicyValidation → Type 0
MayApply w now b c v = Passes now w.latest_remote w.validation w.preview w.base w.candidate b c v
