-- ===== src/PolicyWorkflow/Invariant.antt =====
-- What every workflow that the operations of src/domain/policy_workflow.rs lead to satisfies.
use tale.Prelude.{
  ℕ, ◌≡◌, refl, Bool, true, false, Option, none, some, Text, if◌then◌else◌, is_some, arith,
  Bool-cases, inl, inr,
}
use tale.PolicyWorkflow.Documents.{PolicyDocument, PolicyValidation, PolicyPreview, PolicyDiff}
use tale.PolicyWorkflow.Steps.{
  PolicyWorkflow, opening, differ, has_remote_conflict, set_base, set_candidate,
  mark_editing_externally, is_bound, validated, set_latest_remote_with_path, set_validation,
  set_preview, set_diff, Mark, mark, discard_candidate, close,
}
use tale.PolicyWorkflow.Guard.{is_ready}

pub data Call : Type 0 where
  sets_base : PolicyDocument → Call
  sets_candidate : PolicyDocument → Text → Call
  marks_editing_externally : Call
  sets_latest_remote : PolicyDocument → Option Text → Call
  sets_validation : PolicyValidation → Call
  sets_preview : PolicyPreview → Call
  sets_diff : PolicyDiff → Call
  marks : Mark → Call
  discards_candidate closes : Call

unfoldable pub step : PolicyWorkflow → Call → PolicyWorkflow
step w (sets_base document) = set_base w document
step w (sets_candidate document path) = set_candidate w document path
step w marks_editing_externally = mark_editing_externally w
step w (sets_latest_remote document path) = set_latest_remote_with_path w document path
step w (sets_validation validation) = (set_validation w validation).0
step w (sets_preview preview) = (set_preview w preview).0
step w (sets_diff diff) = (set_diff w diff).0
step w (marks m) = mark w m
step w discards_candidate = discard_candidate w
step w closes = close w

-- The workflows that calls lead to, in any order.
pub data Reach : PolicyWorkflow → Type 0 where
  opened :
      (workflow_id : ℕ) (profile tailnet : Text) (opened_at : ℕ)
      → Reach (opening workflow_id profile tailnet opened_at)
  stepped : {w : PolicyWorkflow} (c : Call) → Reach w → Reach (step w c)

-- What is kept of a candidate has the candidate's hash.
abbrev pub bound_or_none : Option PolicyDocument → Option Text → Bool
bound_or_none candidate none = true
bound_or_none candidate (some hash) = is_bound candidate hash

abbrev pub validation_hash : Option PolicyValidation → Option Text
validation_hash none = none
validation_hash (some v) = some v.candidate_hash

abbrev pub preview_hash : Option PolicyPreview → Option Text
preview_hash none = none
preview_hash (some p) = some p.candidate_hash

abbrev pub diff_hash : Option PolicyDiff → Option Text
diff_hash none = none
diff_hash (some d) = some d.candidate_hash

pub record Inv (w : PolicyWorkflow) : Type 0 where
  pub validation_bound : bound_or_none w.candidate (validation_hash w.validation) ≡ true
  pub preview_bound : bound_or_none w.candidate (preview_hash w.preview) ≡ true
  pub diff_bound : bound_or_none w.candidate (diff_hash w.diff) ≡ true
  pub ready :
      is_ready w.state ≡ true
      → (validated w.validation ≡ true)
        × (is_some w.preview ≡ true)
        × (differ w.latest_remote w.base ≡ false)

either :
    (b : Bool) (x y : PolicyWorkflow × Bool)
    → (b ≡ true → Inv x.0)
    → (b ≡ false → Inv y.0)
    → Inv (if b then x else y).0
either true x y f g = f refl
either false x y f g = g refl

step-Inv : (w : PolicyWorkflow) (c : Call) → Inv w → Inv (step w c)
unfolding step set_base set_candidate mark_editing_externally set_latest_remote_with_path
    set_validation set_preview set_diff mark discard_candidate close has_remote_conflict
step-Inv w (sets_base document) h = record {
  validation_bound = refl;
  preview_bound = refl;
  diff_bound = refl;
  ready = λ e. absurd (ground arith);
}
step-Inv w (sets_candidate document path) h = record {
  validation_bound = refl;
  preview_bound = refl;
  diff_bound = refl;
  ready = λ e. absurd (ground arith);
}
step-Inv w marks_editing_externally h = elim (Bool-cases (is_some w.candidate)) [
  | inl e ↦ rw e (record {
    validation_bound = h.validation_bound;
    preview_bound = h.preview_bound;
    diff_bound = h.diff_bound;
    ready = λ r. absurd (ground arith);
  })
  | inr e ↦ rw e h
]
step-Inv w (sets_latest_remote document path) h = record {
  validation_bound = h.validation_bound;
  preview_bound = h.preview_bound;
  diff_bound = h.diff_bound;
  ready = λ e. ground (arith, h.ready, h.preview_bound);
}
step-Inv w (sets_validation validation) h =
    either (is_bound w.candidate validation.candidate_hash) _ _
      (λ e. record {
        validation_bound = e;
        preview_bound = h.preview_bound;
        diff_bound = h.diff_bound;
        ready = λ r. ground arith;
      })
      (λ e. h)
step-Inv w (sets_preview preview) h =
    either (is_bound w.candidate preview.candidate_hash) _ _
      (λ e. record {
        validation_bound = h.validation_bound;
        preview_bound = e;
        diff_bound = h.diff_bound;
        ready = λ r. ground arith;
      })
      (λ e. h)
step-Inv w (sets_diff diff) h =
    either (is_bound w.candidate diff.candidate_hash) _ _
      (λ e. record {
        validation_bound = h.validation_bound;
        preview_bound = h.preview_bound;
        diff_bound = e;
        ready = h.ready;
      })
      (λ e. h)
step-Inv w (marks m) h = record {
  validation_bound = h.validation_bound;
  preview_bound = h.preview_bound;
  diff_bound = h.diff_bound;
  ready = λ e. absurd (ground arith);
}
step-Inv w discards_candidate h = record {
  validation_bound = refl;
  preview_bound = refl;
  diff_bound = refl;
  ready = λ e. absurd (ground arith);
}
step-Inv w closes h = record {
  validation_bound = refl;
  preview_bound = refl;
  diff_bound = refl;
  ready = λ e. absurd (ground arith);
}

-- However a workflow is operated, its validation, preview and diff are those of its present
-- candidate, and when it is ready to apply it has a successful validation and a preview, and no
-- conflict with the latest remote policy.
pub workflow-Inv : {w : PolicyWorkflow} → Reach w → Inv w
unfolding opening
workflow-Inv (opened workflow_id profile tailnet opened_at) = record {
  validation_bound = refl;
  preview_bound = refl;
  diff_bound = refl;
  ready = λ e. absurd (ground arith);
}
workflow-Inv (stepped {w} c h) = step-Inv w c (workflow-Inv h)
