-- ===== src/Task/Lifecycle.antt =====
-- The transitions of tasks in src/task.rs. `bounded_ends` never panics (Detail.Bounds), so that
-- `bounded_detail` always has its text.
use tale.Prelude.{
  ℕ, Text, codes, Option, none, some, Bool, true, false, ◌||◌, if◌then◌else◌, is_some_and, is_empty,
}
use tale.Detail.{bounded_ends, with_line}
use tale.Task.{Task, TaskState, Progress, detail_cap, is_terminal}
use tale.Task.Store.{TaskStore, get, update}

unfoldable pub bounded_detail : Text → ℕ → Text
bounded_detail value cap = elim (bounded_ends value cap) [ none ↦ value | some text ↦ text ]

unfoldable pub append_detail : Task → Text → Task
append_detail task detail =
    if is_empty detail
    then task
    else record task { detail = bounded_detail (with_line task.detail detail) detail_cap }

-- The four transitions. `none` is an early `return false`.
unfoldable pub starting : Task → Option Task
starting task = elim task.state [
  | TaskState.queued ↦ some (record task { state = TaskState.running; summary = codes "running" })
  | _ ↦ none
]

unfoldable pub progressing : Progress → Text → Task → Option Task
progressing amount detail task = elim task.state [
  | TaskState.running ↦ some (append_detail (record task { progress = some amount }) detail)
  | TaskState.cancelling ↦ some (append_detail (record task { progress = some amount }) detail)
  | _ ↦ none
]

abbrev pub cancelling_task : Task → Task
cancelling_task task = record task { state = TaskState.cancelling; summary = codes "cancelling" }

unfoldable pub cancelling : Task → Option Task
cancelling task = elim task.state [
  | TaskState.queued ↦ if task.cancellable then some (cancelling_task task) else none
  | TaskState.running ↦ if task.cancellable then some (cancelling_task task) else none
  | _ ↦ none
]

abbrev pub is_queued : TaskState → Bool
is_queued TaskState.queued = true
is_queued _ = false

unfoldable pub finishing : TaskState → ℕ → Text → Text → Task → Option Task
finishing state finished_at summary detail task =
    if is_terminal task.state || is_queued task.state
    then none
    else some (
        append_detail
          (record task { state = state; finished_at = some finished_at; summary = summary }) detail)

unfoldable pub start : TaskStore → ℕ → TaskStore × Bool
start s id = update s id starting

unfoldable pub progress : TaskStore → ℕ → Progress → Text → TaskStore × Bool
progress s id amount detail = update s id (progressing amount detail)

abbrev pub is_cancelling : Task → Bool
is_cancelling task = elim task.state [ TaskState.cancelling ↦ true | _ ↦ false ]

unfoldable pub request_cancel : TaskStore → ℕ → TaskStore × Bool
request_cancel s id =
    let (s', changed) = update s id cancelling in
    (s', changed || is_some_and (get s' id) is_cancelling)

unfoldable pub finish : TaskStore → ℕ → TaskState → ℕ → Text → Text → TaskStore × Bool
finish s id state finished_at summary detail =
    update s id (finishing state finished_at summary detail)

unfoldable pub succeed : TaskStore → ℕ → ℕ → Text → Text → TaskStore × Bool
succeed s id finished_at summary detail = finish s id TaskState.succeeded finished_at summary detail

unfoldable pub fail : TaskStore → ℕ → ℕ → Text → Text → TaskStore × Bool
fail s id finished_at summary detail = finish s id TaskState.failed finished_at summary detail

unfoldable pub cancel : TaskStore → ℕ → ℕ → Text → TaskStore × Bool
cancel s id finished_at detail =
    finish s id TaskState.cancelled finished_at (codes "cancelled") detail
