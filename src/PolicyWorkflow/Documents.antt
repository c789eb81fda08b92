-- ===== src/PolicyWorkflow/Documents.antt =====
-- The types of src/domain/policy_workflow.rs.
use tale.Prelude.{
  ℕ, ◌*◌, Bool, ◌&&◌, Option, none, some, List, String, Text, codes, length, ltb, all, is_empty,
  if◌then◌else◌,
}

-- 4 MiB
abbrev pub max_policy_bytes : ℕ
max_policy_bytes = 4 * 1024 * 1024

-- Five minutes, in seconds.
abbrev pub max_apply_age : ℕ
max_apply_age = 5 * 60

pub data PolicyState : Type 0 where
  at_opening editing_externally candidate_ready remote_conflict validating invalid previewing
        ready_to_apply applying verifying succeeded succeeded_unverified failed_retained
        outcome_unknown closed :
      PolicyState

unfoldable pub label : PolicyState → String
label at_opening = "opening"
label editing_externally = "editing externally"
label candidate_ready = "candidate ready"
label remote_conflict = "remote conflict"
label validating = "validating"
label invalid = "invalid"
label previewing = "previewing"
label ready_to_apply = "ready to apply"
label applying = "applying"
label verifying = "verifying"
label succeeded = "succeeded"
label succeeded_unverified = "succeeded, verification unavailable"
label failed_retained = "failed; candidate retained"
label outcome_unknown = "outcome unknown"
label closed = "closed"

-- A byte is a number.
pub record PolicyDocument : Type 0 where
  pub bytes : List ℕ
  pub hash : Text
  pub content_type : Text
  pub observed_at : ℕ

-- `None` is PolicyDocumentError::TooLarge, the only error.
module _ (hash_bytes : List ℕ → Text) where
  unfoldable pub from_bytes_with_content_type : List ℕ → Text → ℕ → Option PolicyDocument
  from_bytes_with_content_type bytes content_type observed_at =
      if ltb max_policy_bytes (length bytes)
      then none
      else some (record {
        bytes = bytes;
        hash = hash_bytes bytes;
        content_type = content_type;
        observed_at = observed_at;
      })

  unfoldable pub from_bytes : List ℕ → ℕ → Option PolicyDocument
  unfolding from_bytes_with_content_type
  from_bytes bytes observed_at =
      from_bytes_with_content_type bytes (codes "application/hujson") observed_at

pub record ValidationDiagnostic : Type 0 where
  pub message : Text
  pub user : Option Text
  pub severity : Option Text
  pub line : Option ℕ
  pub column : Option ℕ
  pub range : Option Text
  pub source : Option Text
  pub destination : Option Text
  pub expected : Option Text
  pub actual : Option Text
  pub test_id : Option Text
  pub errors : List Text
  pub warnings : List Text

pub record ServerPolicyTest : Type 0 where
  pub name : Text
  pub passed : Bool
  pub message : Option Text

pub record PolicyValidation : Type 0 where
  pub candidate_hash : Text
  pub validated_at : ℕ
  pub valid : Bool
  pub message : Option Text
  pub bounded_safe_detail : Option Text
  pub diagnostics : List ValidationDiagnostic
  pub server_tests : List ServerPolicyTest
  pub observed_at : ℕ

unfoldable pub validation_is_success : PolicyValidation → Bool
validation_is_success validation =
    validation.valid
    && all (λ (diagnostic : ValidationDiagnostic). is_empty diagnostic.errors)
        validation.diagnostics
    && all (λ (test : ServerPolicyTest). test.passed) validation.server_tests

pub data PolicySelectorType : Type 0 where
  by_user ip_port : PolicySelectorType

unfoldable pub api_value : PolicySelectorType → String
api_value by_user = "user"
api_value ip_port = "ipport"

pub record PolicyPreviewMatch : Type 0 where
  pub users : List Text
  pub ports : List Text
  pub line_number : Option ℕ

pub record PolicyPreview : Type 0 where
  pub candidate_hash : Text
  pub selector_type : PolicySelectorType
  pub selector : Text
  pub matches : List PolicyPreviewMatch
  pub observed_at : ℕ

pub record PolicyDiff : Type 0 where
  pub base_hash : Text
  pub candidate_hash : Text
  pub base_observed_at : ℕ
  pub candidate_observed_at : ℕ
  pub text : Text
  pub additions : ℕ
  pub removals : ℕ
