-- ===== src/TaskReducer/History.antt =====
-- That the task events of src/app/task_reducer.rs use the task store only by calls of its history.
use tale.Prelude.{
  ℕ, ◌≡◌, refl, List, [], ◌∷◌, true, Option, none, some, Text, map, lookup, number_key, codes,
  if-keeps,
}
use tale.Task.{TaskState, succeeded, failed, is_terminal, TaskNotificationKind, success, failure}
use tale.Task.Store.{TaskStore}
use tale.Task.Lifecycle.{request_cancel, finish, succeed, fail, cancel}
use tale.Task.Invariant.{Inv}
use tale.Task.History.{
  starts, progresses, cancels, finishes, evicts, Reach, none_yet, one_more, Reach-Inv,
}
use tale.TaskReducer.{
  App, Effect, ended, AdminBatchInFlight, cancel_children, cancel_batch, cancel_in_batch,
  cancel_task, TaskEvent, started, progressed, has_succeeded, has_failed, has_cancelled,
  diagnostic_progressed, diagnostic_ended, update_diagnostic, end_diagnostic, add_notification,
  update_task,
}

-- What happens to tasks: their events, and requests to cancel one.
pub data Happening : Type 0 where
  event : TaskEvent → Happening
  cancel_request : (id : ℕ) → Happening

unfoldable pub happen : App → Happening → App
happen app (event e) = update_task app e
happen app (cancel_request id) = (cancel_task app id).0

unfoldable pub run : App → List Happening → App
run app [] = app
run app (h ∷ hs) = run (happen app h) hs

module _ (lower : ℕ → Text) where
  Reach-cancel_children :
      (s : TaskStore) (children : List ℕ) (tasks : TaskStore)
      → Reach lower s tasks
      → Reach lower s (cancel_children children tasks).0
  unfolding cancel_children
  Reach-cancel_children s [] tasks r = r
  Reach-cancel_children s (child ∷ children) tasks r =
      Reach-cancel_children s children (request_cancel tasks child).0 (one_more r (cancels child))

  Reach-in_batch :
      (app : App) (id : ℕ) (batch : Option AdminBatchInFlight)
      → Reach lower app.tasks (request_cancel app.tasks id).0
      → Reach lower app.tasks
          (cancel_in_batch
            (record app { tasks = (request_cancel app.tasks id).0 })
            id
            batch).0.tasks
  unfolding cancel_batch
  Reach-in_batch app id none requested = requested
  Reach-in_batch app id (some b) requested =
      Reach-cancel_children app.tasks (map (λ child. child.1) b.child_tasks)
        (request_cancel app.tasks id).0 requested

  Reach-cancel_task : (app : App) (id : ℕ) → Reach lower app.tasks (cancel_task app id).0.tasks
  unfolding cancel_task cancel_batch
  Reach-cancel_task app id =
      let requested : Reach lower app.tasks (request_cancel app.tasks id).0 =
        one_more none_yet (cancels id) in
      if-keeps (λ (x : App × List Effect). Reach lower app.tasks x.0.tasks)
        (request_cancel app.tasks id).1
        (Reach-in_batch app id (lookup id app.admin_batches_in_flight) requested) requested

  -- The store after a task has ended, and after an eviction if the store accepted the end.
  Reach-ended :
      (app : App) (task_id : ℕ) (state : TaskState) (finished_at : ℕ) (summary detail : Text)
      (kind : TaskNotificationKind) (message : Text)
      → is_terminal state ≡ true
      → Reach lower app.tasks
          (ended app
            (finish app.tasks task_id state finished_at summary detail)
            task_id
            kind
            message).tasks
  unfolding add_notification
  Reach-ended app task_id state finished_at summary detail kind message terminal =
      let finished : Reach lower app.tasks
          (finish app.tasks task_id state finished_at summary detail).0 =
        one_more none_yet (finishes task_id state finished_at summary detail terminal) in
      if-keeps (λ (x : App). Reach lower app.tasks x.tasks)
        (finish app.tasks task_id state finished_at summary detail).1
        (one_more finished (evicts app.max_tasks)) finished

  Reach-update_task :
      (app : App) (event : TaskEvent) → Reach lower app.tasks (update_task app event).tasks
  unfolding update_task update_diagnostic end_diagnostic succeed fail cancel is_terminal
  Reach-update_task app (started task_id) = one_more none_yet (starts task_id)
  Reach-update_task app (progressed task_id amount detail) =
      one_more none_yet (progresses task_id amount detail)
  Reach-update_task app (has_succeeded task_id finished_at summary detail) =
      Reach-ended app task_id succeeded finished_at summary detail success summary refl
  Reach-update_task app (has_failed task_id finished_at summary detail) =
      Reach-ended app task_id failed finished_at summary detail failure summary refl
  Reach-update_task app (has_cancelled task_id finished_at detail) =
      Reach-ended app task_id TaskState.cancelled finished_at (codes "cancelled") detail
        TaskNotificationKind.cancelled (codes "cancelled") refl
  Reach-update_task app (diagnostic_progressed task_id amount detail sample netcheck) =
      one_more none_yet (progresses task_id amount detail)
  Reach-update_task app (diagnostic_ended task_id diagnostic_result) = none_yet

  happen-Inv : (app : App) (h : Happening) → Inv app.tasks → Inv (happen app h).tasks
  unfolding happen
  happen-Inv app (event e) v = Reach-Inv lower v (Reach-update_task app e)
  happen-Inv app (cancel_request id) v = Reach-Inv lower v (Reach-cancel_task app id)

  -- Whatever events of tasks come in, those of diagnostics included, and whatever cancellations are
  -- asked for, in any order, the task store keeps its invariant: its tasks have different identifiers
  -- below the next one, the details are within the cap, and the selection, if any, is one of the tasks.
  pub run-Inv : (app : App) (hs : List Happening) → Inv app.tasks → Inv (run app hs).tasks
  unfolding run
  run-Inv app [] v = v
  run-Inv app (h ∷ hs) v = run-Inv (happen app h) hs (happen-Inv app h v)
