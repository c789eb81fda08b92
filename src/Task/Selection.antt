-- ===== src/Task/Selection.antt =====
-- The selection of src/task.rs, over all tasks and over those that a query finds, and notices. The
-- parameter is Unicode's lower-case mapping, as in `Matching`.
use tale.Prelude.{
  ℕ, ◌+◌, ◌-◌, Text, codes, Option, none, some, List, [], ◌∷◌, ◌++◌, map, Bool, ◌||◌, ◌==◌, ℤ, pos,
  negsuc, min, saturating_add, length, is_empty, get_elem?, get_last?, filter, any, position,
  if◌then◌else◌,
}
use tale.Matching.{to_ascii_lowercase, contains_matches}
use tale.Action.Names.{as_str}
use tale.Task.{Task, TaskState, TaskNotificationKind, Notification, label}
use tale.Task.Store.{TaskStore, get, session}

-- `current.saturating_sub(offset.unsigned_abs())` for a negative offset, else
-- `current.saturating_add(offset).min(count.saturating_sub(1))`.
unfoldable pub moved : ℕ → ℤ → ℕ → ℕ
moved current (pos n) count = min (saturating_add current n) (count - 1)
moved current (negsuc n) count = current - (n + 1)

abbrev or_zero : Option ℕ → ℕ
or_zero none = 0
or_zero (some i) = i

-- `selected.and_then(|id| ids.iter().position(|candidate| *candidate == id)).unwrap_or(0)`.
unfoldable pub current_position : Option ℕ → List ℕ → ℕ
current_position none ids = 0
current_position (some id) ids = or_zero (position (λ candidate. candidate == id) ids)

-- The body that `select_next` and `select_next_filtered` share.
unfoldable pub step_selection : TaskStore → List ℕ → ℤ → TaskStore
step_selection s ids offset = if is_empty ids then record s { selected = none } else record s {
  selected = get_elem? ids (moved (current_position s.selected ids) offset (length ids));
}

unfoldable pub select_next : TaskStore → ℤ → TaskStore
unfolding step_selection
select_next s offset = step_selection s (map (λ task. task.id) s.tasks) offset

unfoldable pub notification_for : TaskStore → ℕ → ℕ → Option Notification
notification_for s id now = elim (get s id) [
  | none ↦ none
  | some task ↦ notice task (kind task.state)
]
  where
    kind : TaskState → Option TaskNotificationKind
    kind TaskState.succeeded = some TaskNotificationKind.success
    kind TaskState.failed = some TaskNotificationKind.failure
    kind TaskState.cancelled = some TaskNotificationKind.cancelled
    kind TaskState.interrupted = some TaskNotificationKind.failure
    kind _ = none

    notice : Task → Option TaskNotificationKind → Option Notification
    notice task none = none
    notice task (some kind) = some (record {
      task_id = id;
      message = task.target_label ++ (codes ": " ++ (task.summary ++ codes " · @ view task"));
      kind = kind;
      expires_at = saturating_add now 5;
    })

module _ (lower : ℕ → Text) where
  unfoldable pub task_matches_query : Text → Task → Bool
  task_matches_query query task =
      is_empty query
      || any (λ value. contains_matches lower value query)
          (codes (as_str task.action_id)
            ∷ task.target_label
            ∷ codes (label task.state)
            ∷ task.summary
            ∷ task.detail
            ∷ [])

  unfoldable pub filtered : TaskStore → Text → List Task
  filtered s query = filter (task_matches_query (map to_ascii_lowercase query)) s.tasks

  unfoldable pub filtered_ids : TaskStore → Text → List ℕ
  unfolding filtered
  filtered_ids s query = map (λ task. task.id) (filtered s query)

  unfoldable pub session_filtered : TaskStore → Text → List Task
  session_filtered s query = filter (task_matches_query query) (session s)

  unfoldable pub select_filtered_position : TaskStore → Text → ℕ → TaskStore
  select_filtered_position s query position = record s {
    selected = get_elem? (filtered_ids s query) position;
  }

  unfoldable pub select_filtered_first : TaskStore → Text → TaskStore
  select_filtered_first s query = select_filtered_position s query 0

  unfoldable pub select_filtered_last : TaskStore → Text → TaskStore
  select_filtered_last s query = record s { selected = get_last? (filtered_ids s query) }

  unfoldable pub select_next_filtered : TaskStore → Text → ℤ → TaskStore
  unfolding step_selection
  select_next_filtered s query offset = step_selection s (filtered_ids s query) offset
