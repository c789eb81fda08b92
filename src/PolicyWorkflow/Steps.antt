-- ===== src/PolicyWorkflow/Steps.antt =====
-- The workflow of src/domain/policy_workflow.rs and the operations that change it. A path is a text.
use tale.Prelude.{
  ℕ, Bool, true, false, not, ◌&&◌, Option, none, some, Text, text_eq, if◌then◌else◌, is_some,
  is_some_and,
}
use tale.PolicyWorkflow.Documents.{
  PolicyState, at_opening, editing_externally, candidate_ready, remote_conflict, validating,
  invalid, previewing, ready_to_apply, applying, verifying, succeeded, succeeded_unverified,
  failed_retained, outcome_unknown, closed, PolicyDocument, PolicyValidation, PolicyPreview,
  PolicyDiff, validation_is_success,
}

pub record PolicyWorkflow : Type 0 where
  pub workflow_id : ℕ
  pub profile : Text
  pub tailnet : Text
  pub state : PolicyState
  pub base : Option PolicyDocument
  pub candidate : Option PolicyDocument
  pub latest_remote : Option PolicyDocument
  pub candidate_path : Option Text
  pub latest_remote_path : Option Text
  pub validation : Option PolicyValidation
  pub preview : Option PolicyPreview
  pub diff : Option PolicyDiff
  pub opened_at : ℕ

unfoldable pub opening : ℕ → Text → Text → ℕ → PolicyWorkflow
opening workflow_id profile tailnet opened_at = record {
  workflow_id = workflow_id;
  profile = profile;
  tailnet = tailnet;
  state = at_opening;
  base = none;
  candidate = none;
  latest_remote = none;
  candidate_path = none;
  latest_remote_path = none;
  validation = none;
  preview = none;
  diff = none;
  opened_at = opened_at;
}

-- `a.zip(b).is_some_and(|(a, b)| a.hash() != b.hash())`
abbrev pub differ : Option PolicyDocument → Option PolicyDocument → Bool
differ (some a) (some b) = not (text_eq a.hash b.hash)
differ _ _ = false

unfoldable pub has_candidate_changes : PolicyWorkflow → Bool
has_candidate_changes w = differ w.base w.candidate

unfoldable pub has_remote_conflict : PolicyWorkflow → Bool
has_remote_conflict w = differ w.latest_remote w.base

unfoldable pub set_base : PolicyWorkflow → PolicyDocument → PolicyWorkflow
set_base w document = record w {
  base = some document;
  latest_remote = none;
  latest_remote_path = none;
  candidate = none;
  candidate_path = none;
  validation = none;
  preview = none;
  diff = none;
  state = editing_externally;
}

unfoldable pub set_candidate : PolicyWorkflow → PolicyDocument → Text → PolicyWorkflow
set_candidate w document path = record w {
  candidate = some document;
  candidate_path = some path;
  validation = none;
  preview = none;
  diff = none;
  state = if differ w.latest_remote w.base then remote_conflict else candidate_ready;
}

unfoldable pub mark_editing_externally : PolicyWorkflow → PolicyWorkflow
mark_editing_externally w =
    if is_some w.candidate then record w { state = editing_externally } else w

-- The hash is the candidate's.
abbrev pub is_bound : Option PolicyDocument → Text → Bool
is_bound candidate hash = is_some_and candidate (λ (c : PolicyDocument). text_eq c.hash hash)

abbrev pub preview_bound : Option PolicyDocument → Option PolicyPreview → Bool
preview_bound candidate preview = is_some_and preview (λ (p : PolicyPreview).
    is_some_and candidate (λ (c : PolicyDocument). text_eq p.candidate_hash c.hash))

abbrev pub validated : Option PolicyValidation → Bool
validated validation = is_some_and validation (λ v. validation_is_success v)

abbrev pub is_conflict : PolicyState → Bool
is_conflict remote_conflict = true
is_conflict _ = false

-- The state when a conflict is over.
abbrev pub settled : PolicyWorkflow → PolicyState
settled w =
    if validated w.validation && preview_bound w.candidate w.preview
    then ready_to_apply
    else if is_some_and w.validation (λ (v : PolicyValidation). not v.valid)
    then invalid
    else candidate_ready

-- The documents' `zip` is there only for the base when there is a candidate.
abbrev pub conflicts_with : PolicyWorkflow → PolicyDocument → Bool
conflicts_with w document = is_some w.candidate && differ (some document) w.base

unfoldable pub set_latest_remote_with_path :
    PolicyWorkflow → PolicyDocument → Option Text → PolicyWorkflow
set_latest_remote_with_path w document path = record w {
  latest_remote = some document;
  latest_remote_path = path;
  state =
      if conflicts_with w document
      then remote_conflict
      else if is_conflict w.state
      then settled w
      else w.state;
}

unfoldable pub set_latest_remote : PolicyWorkflow → PolicyDocument → PolicyWorkflow
unfolding set_latest_remote_with_path
set_latest_remote w document = set_latest_remote_with_path w document none

-- The workflow after the call, and whether the validation was bound to the candidate.
unfoldable pub set_validation : PolicyWorkflow → PolicyValidation → PolicyWorkflow × Bool
unfolding has_remote_conflict
set_validation w validation =
    if is_bound w.candidate validation.candidate_hash
    then (
      record w {
        validation = some validation;
        state =
            if has_remote_conflict w
            then remote_conflict
            else if not (validation_is_success validation)
            then invalid
            else if preview_bound w.candidate w.preview
            then ready_to_apply
            else candidate_ready;
      },
      true,
    )
    else (w, false)

unfoldable pub set_preview : PolicyWorkflow → PolicyPreview → PolicyWorkflow × Bool
unfolding has_remote_conflict
set_preview w preview =
    if is_bound w.candidate preview.candidate_hash
    then (
      record w {
        preview = some preview;
        state =
            if validated w.validation
            then (if has_remote_conflict w then remote_conflict else ready_to_apply)
            else invalid;
      },
      true,
    )
    else (w, false)

unfoldable pub set_diff : PolicyWorkflow → PolicyDiff → PolicyWorkflow × Bool
set_diff w diff =
    if is_bound w.candidate diff.candidate_hash
    then (record w { diff = some diff }, true)
    else (w, false)

-- `mark_validating`, .., `retain_failure`: each sets one state.
pub data Mark : Type 0 where
  mark_validating mark_previewing mark_applying mark_verifying mark_succeeded
        mark_succeeded_unverified mark_unknown retain_failure :
      Mark

abbrev pub marked : Mark → PolicyState
marked mark_validating = validating
marked mark_previewing = previewing
marked mark_applying = applying
marked mark_verifying = verifying
marked mark_succeeded = succeeded
marked mark_succeeded_unverified = succeeded_unverified
marked mark_unknown = outcome_unknown
marked retain_failure = failed_retained

unfoldable pub mark : PolicyWorkflow → Mark → PolicyWorkflow
mark w m = record w { state = marked m }

unfoldable pub discard_candidate : PolicyWorkflow → PolicyWorkflow
discard_candidate w = record w {
  candidate = none;
  validation = none;
  preview = none;
  diff = none;
  candidate_path = none;
  latest_remote_path = none;
  state = if is_some w.base then editing_externally else at_opening;
}

unfoldable pub close : PolicyWorkflow → PolicyWorkflow
close w = record w {
  state = closed;
  candidate = none;
  latest_remote = none;
  latest_remote_path = none;
  validation = none;
  preview = none;
  diff = none;
  candidate_path = none;
}
