-- ===== src/AdminMutation/Batch.antt =====
-- Batches of administrative mutations, src/domain/admin_mutation.rs.
use tale.Prelude.{
  ℕ, suc, ◌≤◌, ◌+◌, ◌≡◌, refl, ap, Bool, true, false, ◌&&◌, List, [], ◌∷◌, arith, String, Text,
  text_eq, text_eq_iff, if◌then◌else◌, put, any, filter, length, min, max, text_key,
}
use tale.Action.Id.{ActionId}

pub record BatchTarget : Type 0 where
  pub target_id : Text
  pub target_label : Text
  pub requested_change : Text

pub data BatchChildOutcome : Type 0 where
  verified_success succeeded_unverified failed_before_dispatch outcome_unknown
        cancelled_before_dispatch failed :
      BatchChildOutcome

unfoldable pub label : BatchChildOutcome → String
label verified_success = "VerifiedSuccess"
label succeeded_unverified = "SucceededUnverified"
label failed_before_dispatch = "FailedBeforeDispatch"
label outcome_unknown = "OutcomeUnknown"
label cancelled_before_dispatch = "CancelledBeforeDispatch"
label failed = "Failed"

pub record BatchMutation : Type 0 where
  pub parent_task_id : ℕ
  pub action_id : ActionId
  pub targets : List BatchTarget
  pub max_concurrency : ℕ
  pub child_outcomes : List (Text × BatchChildOutcome)

abbrev pub seen : Text → List Text → Bool
seen id ids = any (λ k. text_eq k id) ids

-- `filter(|target| unique.insert(..))`, with the ids met so far.
unfoldable pub unique_targets : List Text → List BatchTarget → List BatchTarget
unique_targets unique [] = []
unique_targets unique (target ∷ rest) =
    let others = unique_targets (target.target_id ∷ unique) rest in
    if seen target.target_id unique then unique_targets unique rest else target ∷ others

unfoldable pub new : ℕ → ActionId → List BatchTarget → ℕ → BatchMutation
unfolding unique_targets
new parent_task_id action_id targets max_concurrency = record {
  parent_task_id = parent_task_id;
  action_id = action_id;
  targets = unique_targets [] targets;
  max_concurrency = min (max max_concurrency 1) 4;
  child_outcomes = [];
}

abbrev pub same_ids : List BatchTarget → List Text → Bool
same_ids [] [] = true
same_ids (target ∷ targets) (id ∷ ids) = text_eq target.target_id id && same_ids targets ids
same_ids _ _ = false

unfoldable pub target_list_is_unchanged : BatchMutation → List Text → Bool
target_list_is_unchanged batch target_ids = same_ids batch.targets target_ids

unfoldable pub record_outcome : BatchMutation → Text → BatchChildOutcome → BatchMutation
record_outcome batch target_id outcome = record batch {
  child_outcomes = put target_id outcome batch.child_outcomes;
}

abbrev pub is_verified : Text × BatchChildOutcome → Bool
is_verified (_, verified_success) = true
is_verified _ = false

abbrev pub is_failure : Text × BatchChildOutcome → Bool
is_failure (_, failed_before_dispatch) = true
is_failure (_, outcome_unknown) = true
is_failure (_, cancelled_before_dispatch) = true
is_failure (_, failed) = true
is_failure (_, succeeded_unverified) = true
is_failure (_, verified_success) = false

unfoldable pub has_failures : BatchMutation → Bool
has_failures batch = any is_failure batch.child_outcomes

unfoldable pub has_partial_failure : BatchMutation → Bool
unfolding has_failures
has_partial_failure batch = has_failures batch && any is_verified batch.child_outcomes

unfoldable pub verified_count : BatchMutation → ℕ
verified_count batch = length (filter is_verified batch.child_outcomes)

-- In a batch without failures every recorded outcome is counted as verified.
pub verified_count-all :
    (batch : BatchMutation)
    → has_failures batch ≡ false
    → verified_count batch ≡ length batch.child_outcomes
unfolding has_failures verified_count
verified_count-all batch h = counted batch.child_outcomes h
  where
    counted :
        (outcomes : List (Text × BatchChildOutcome))
        → any is_failure outcomes ≡ false
        → length (filter is_verified outcomes) ≡ length outcomes
    counted [] h = refl
    counted ((_, verified_success) ∷ outcomes) h = ap suc (counted outcomes h)
    counted ((_, _) ∷ outcomes) h = absurd (ground arith)

-- How often a target is listed.
abbrev pub occurrences : Text → List BatchTarget → ℕ
occurrences id [] = 0
occurrences id (target ∷ rest) =
    let n = occurrences id rest in if text_eq target.target_id id then 1 + n else n

occurrences-unique_targets :
    (id : Text) (unique : List Text) (targets : List BatchTarget)
    → occurrences id (unique_targets unique targets)
      ≡ (if seen id unique then 0 else min (occurrences id targets) 1)
unfolding unique_targets
occurrences-unique_targets id unique [] = ground arith
occurrences-unique_targets id unique (target ∷ rest) = ground (
  arith,
  text_eq_iff target.target_id id,
  occurrences-unique_targets id unique rest,
  occurrences-unique_targets id (target.target_id ∷ unique) rest,
  λ (e : target.target_id ≡ id). ap (λ i. seen i unique) e,
)

-- A new batch has each of its targets once, at most four run at a time and at least one.
pub new-targets :
    (parent_task_id : ℕ) (action_id : ActionId) (targets : List BatchTarget) (max_concurrency : ℕ)
    → let batch = new parent_task_id action_id targets max_concurrency in
      ((id : Text) → occurrences id batch.targets ≡ min (occurrences id targets) 1)
      × (1 ≤ batch.max_concurrency)
      × (batch.max_concurrency ≤ 4)
unfolding new
new-targets parent_task_id action_id targets max_concurrency =
    (λ id. occurrences-unique_targets id [] targets, ground arith, ground arith)
