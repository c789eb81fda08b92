-- ===== src/TaskReducer/Cancelling.antt =====
-- What a cancelled batch gives back, src/app/task_reducer.rs.
use tale.Prelude.{List, Bool, Text, text_eq, text_key, any}
use tale.AdminMutation.Change.{AdminResourceLockKey}
use tale.AdminMutation.Locks.{AdminResourceLocks, lock_key}
use tale.AdminMutation.Holding.{owned}
use tale.TaskReducer.{AdminMutationRequest}

-- Whether one of the requests owns a resource, and whether one has a target.
abbrev pub any_owns : List AdminMutationRequest → AdminResourceLockKey → AdminResourceLocks → Bool
any_owns requests key locks =
    any (λ (r : AdminMutationRequest). owned r.mutation_id key locks) requests

abbrev pub any_targets : List AdminMutationRequest → Text → Bool
any_targets requests target =
    any (λ (r : AdminMutationRequest). text_eq r.target_id target) requests
