-- ===== src/TaskReducer.antt =====
-- The events of tasks, src/app/task_reducer.rs, and of diagnostics, src/app/local_reducer.rs: how the
-- application answers them with changes of the task store, the diagnostics, the notifications, the batches in flight and the locks of administrative mutations. Of
-- the application's state there is what these functions use, of a request its mutation and its target.
pub mod Cancelling
pub mod History
use tale.Prelude.{
  ℕ, List, [], ◌∷◌, ◌++◌, Bool, true, false, Option, none, some, Text, codes, if◌then◌else◌, map,
  filter, lookup, put, number_key, saturating_add,
}
use tale.Diagnostic.{
  PingSample, NetcheckObservation, DiagnosticResult, DiagnosticState, LocalSnapshot, observe,
  linked_device, change_state,
}
use tale.Source.{LocalResource}
use tale.Task.{
  Task, Progress, TaskNotificationKind, running, success, failure, cancelled, Notification,
}
use tale.Task.Store.{TaskStore, get, active}
use tale.Task.Lifecycle.{start, progress, request_cancel, succeed, fail, cancel}
use tale.Task.Eviction.{evict_completed}
use tale.AdminMutation.Locks.{AdminResourceLocks, release}
use tale.AdminMutation.Batch.{BatchMutation, cancelled_before_dispatch, record_outcome}

pub record AdminMutationRequest : Type 0 where
  pub mutation_id : ℕ
  pub target_id : Text

-- The child tasks in the order of their mutations.
pub record AdminBatchInFlight : Type 0 where
  pub batch : BatchMutation
  pub parent_task_id : ℕ
  pub child_tasks : List (ℕ × ℕ)
  pub pending_requests : List AdminMutationRequest

pub record App : Type 0 where
  pub tasks : TaskStore
  pub notifications : List Notification
  pub now : ℕ
  pub max_tasks : ℕ
  pub admin_batches_in_flight : List (ℕ × AdminBatchInFlight)
  pub admin_resource_locks : AdminResourceLocks
  pub local_resource : LocalResource LocalSnapshot
  pub local_diagnostics : List (ℕ × DiagnosticState)

pub data Effect : Type 0 where
  cancel_task_effect : (task_id : ℕ) → Effect
  request_shutdown_effect : Effect

abbrev seconds_shown : ℕ
seconds_shown = 5

unfoldable pub add_notification : App → ℕ → TaskNotificationKind → Text → App
add_notification app task_id kind message = record app {
  notifications =
      app.notifications
      ++ record {
        task_id = task_id;
        message = elim (get app.tasks task_id) [
          | none ↦ message ++ codes " · @ view task"
          | some task ↦ task.target_label ++ (codes ": " ++ (message ++ codes " · @ view task"))
        ];
        kind = kind;
        expires_at = saturating_add app.now seconds_shown;
      }
        ∷ [];
}

unfoldable pub add_task_started_notification : App → ℕ → App
add_task_started_notification app task_id = elim (get app.tasks task_id) [
  | none ↦ app
  | some task ↦ record app {
    notifications =
        app.notifications
        ++ record {
          task_id = task_id;
          message = task.target_label ++ codes " running · @ view task";
          kind = running;
          expires_at = saturating_add app.now seconds_shown;
        }
          ∷ [];
  }
]

-- The loop over the requests that were not dispatched.
unfoldable pub cancel_pending :
    List AdminMutationRequest
    → BatchMutation
    → AdminResourceLocks
    → BatchMutation × AdminResourceLocks
cancel_pending [] batch locks = (batch, locks)
cancel_pending (request ∷ requests) batch locks =
    cancel_pending requests (record_outcome batch request.target_id cancelled_before_dispatch)
      (release request.mutation_id locks)

-- The loop over the child tasks.
unfoldable pub cancel_children : List ℕ → TaskStore → TaskStore × List Effect
cancel_children [] tasks = (tasks, [])
cancel_children (child ∷ children) tasks =
    let (tasks', accepted) = request_cancel tasks child in
    let (tasks'', effects) = cancel_children children tasks' in
    (tasks'', if accepted then cancel_task_effect child ∷ effects else effects)

unfoldable pub cancel_batch : App → ℕ → AdminBatchInFlight → App × List Effect
cancel_batch app id batch =
    let (outcomes, locks) =
      cancel_pending batch.pending_requests batch.batch app.admin_resource_locks in
    let (tasks, effects) = cancel_children (map (λ child. child.1) batch.child_tasks) app.tasks in
    (
      record app {
        tasks = tasks;
        admin_batches_in_flight =
            put id (record batch { batch = outcomes; pending_requests = [] })
              app.admin_batches_in_flight;
        admin_resource_locks = locks;
      },
      effects,
    )

-- What the cancellation of a task means for the batch that it is the parent of, if any.
abbrev pub cancel_in_batch : App → ℕ → Option AdminBatchInFlight → App × List Effect
cancel_in_batch app id none = (app, cancel_task_effect id ∷ [])
cancel_in_batch app id (some batch) =
    let (app', effects) = cancel_batch app id batch in (app', cancel_task_effect id ∷ effects)

unfoldable pub cancel_task : App → ℕ → App × List Effect
cancel_task app id =
    let (tasks, accepted) = request_cancel app.tasks id in
    let app' = record app { tasks = tasks } in
    if accepted then cancel_in_batch app' id (lookup id app.admin_batches_in_flight) else (app', [])

unfoldable pub cancel_focused_task : App → App × List Effect
cancel_focused_task app = elim app.tasks.selected [
  | none ↦ (app, [])
  | some id ↦ cancel_task app id
]

pub data TaskEvent : Type 0 where
  started : (task_id : ℕ) → TaskEvent
  progressed : (task_id : ℕ) (amount : Progress) (detail : Text) → TaskEvent
  has_succeeded : (task_id finished_at : ℕ) (summary detail : Text) → TaskEvent
  has_failed : (task_id finished_at : ℕ) (summary detail : Text) → TaskEvent
  has_cancelled : (task_id finished_at : ℕ) (detail : Text) → TaskEvent
  diagnostic_progressed :
      (task_id : ℕ) (amount : Progress) (detail : Text) (sample : Option PingSample)
      (netcheck : Option NetcheckObservation)
      → TaskEvent
  diagnostic_ended : (task_id : ℕ) (result : DiagnosticResult) → TaskEvent

-- `update_local` on the events of a diagnostic.
unfoldable pub update_diagnostic :
    App → ℕ → Progress → Text → Option PingSample → Option NetcheckObservation → App
update_diagnostic app task_id amount detail sample netcheck = record app {
  local_diagnostics = change_state task_id (observe sample netcheck) app.local_diagnostics;
  tasks = (progress app.tasks task_id amount detail).0;
}

unfoldable pub end_diagnostic : App → ℕ → DiagnosticResult → App
end_diagnostic app task_id diagnostic_result =
    let linked = linked_device app.local_resource.snapshot diagnostic_result in
    record app {
      local_diagnostics =
          change_state task_id
            (λ state. record state { linked_device_id = linked; result = some diagnostic_result })
            app.local_diagnostics;
    }

-- What follows a task's end, if the store accepted it.
abbrev pub ended : App → TaskStore × Bool → ℕ → TaskNotificationKind → Text → App
ended app (tasks, accepted) task_id kind message =
    let app' = record app { tasks = tasks } in
    let told = add_notification app' task_id kind message in
    if accepted then record told { tasks = evict_completed told.tasks told.max_tasks } else app'

unfoldable pub update_task : App → TaskEvent → App
update_task app (started task_id) = record app { tasks = (start app.tasks task_id).0 }
update_task app (progressed task_id amount detail) = record app {
  tasks = (progress app.tasks task_id amount detail).0;
}
update_task app (has_succeeded task_id finished_at summary detail) =
    ended app (succeed app.tasks task_id finished_at summary detail) task_id success summary
update_task app (has_failed task_id finished_at summary detail) =
    ended app (fail app.tasks task_id finished_at summary detail) task_id failure summary
update_task app (has_cancelled task_id finished_at detail) =
    ended app (cancel app.tasks task_id finished_at detail) task_id cancelled (codes "cancelled")
update_task app (diagnostic_progressed task_id amount detail sample netcheck) =
    update_diagnostic app task_id amount detail sample netcheck
update_task app (diagnostic_ended task_id diagnostic_result) =
    end_diagnostic app task_id diagnostic_result
