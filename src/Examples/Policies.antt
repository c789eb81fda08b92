-- ===== src/Examples/Policies.antt =====
-- Runs of the policy workflow, src/domain/policy_workflow.rs.
use tale.Prelude.{ℕ, ◌≡◌, ◌↔◌, Text, codes, none, [], ◌∷◌, true}
use tale.PolicyWorkflow.Documents.{
  PolicyDocument, PolicyValidation, PolicyPreview, by_user, ready_to_apply,
}
use tale.PolicyWorkflow.Steps.{PolicyWorkflow, opening}
use tale.PolicyWorkflow.Guard.{apply_guard, MayApply}
use tale.PolicyWorkflow.Invariant.{
  Inv, sets_base, sets_candidate, sets_validation, sets_preview, step, Reach, opened, stepped,
  workflow-Inv,
}
use tale.PolicyWorkflow.Applying.{expected, apply_guard_expected, apply_guard_iff}

abbrev document : ℕ → Text → PolicyDocument
document at hash = record {
  bytes = 123 ∷ 125 ∷ [];
  hash = hash;
  content_type = codes "application/hujson";
  observed_at = at;
}

abbrev server_validation : PolicyValidation
server_validation = record {
  candidate_hash = codes "b";
  validated_at = 20;
  valid = true;
  message = none;
  bounded_safe_detail = none;
  diagnostics = [];
  server_tests = [];
  observed_at = 20;
}

abbrev server_preview : PolicyPreview
server_preview = record {
  candidate_hash = codes "b";
  selector_type = by_user;
  selector = [];
  matches = [];
  observed_at = 21;
}

abbrev workflow : PolicyWorkflow
workflow =
    step
      (step
        (step (step (opening 1 (codes "p") (codes "t") 1) (sets_base (document 5 (codes "a"))))
          (sets_candidate (document 10 (codes "b")) (codes "/tmp/policy")))
        (sets_validation server_validation))
      (sets_preview server_preview)

workflow_reached : Reach workflow
workflow_reached = stepped (sets_preview server_preview) (
    stepped (sets_validation server_validation) (
      stepped (sets_candidate (document 10 (codes "b")) (codes "/tmp/policy"))
        (stepped (sets_base (document 5 (codes "a"))) (opened 1 (codes "p") (codes "t") 1))))

workflow-Inv_example : Inv workflow
workflow-Inv_example = workflow-Inv workflow_reached

apply_guard_expected_example : expected (apply_guard workflow 100) ≡ true
apply_guard_expected_example = apply_guard_expected 100 workflow_reached

apply_guard_iff_example : (apply_guard workflow 100 ≡ none) ↔ (
    (workflow.state ≡ ready_to_apply)
    × ((base : PolicyDocument) × (candidate : PolicyDocument) × (validation : PolicyValidation)
        × MayApply workflow 100 base candidate validation))
apply_guard_iff_example = apply_guard_iff workflow 100
