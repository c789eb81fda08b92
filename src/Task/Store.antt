-- ===== src/Task/Store.antt =====
-- `TaskStore` of src/task.rs. A method that takes `&mut self` returns the store, and its result beside
-- it. The two sets are lists without repeats, whose order the program does not read. The UUID of a new
-- record comes from outside: it is an argument of `create`.
use tale.Prelude.{
  ℕ, Text, codes, Option, none, some, List, [], ◌∷◌, ◌++◌, map, Bool, true, false, not, ◌&&◌, ◌==◌,
  if◌then◌else◌, ℤ, is_some_and, saturating_add, get_last?, find, filter, any, contains, insert,
}
use tale.Action.Id.{ActionId}
use tale.Task.{Task, TaskState, TaskChange, is_terminal}

pub record TaskStore : Type 0 where
  pub tasks : List Task
  pub next_id : ℕ
  pub dirty : List ℕ
  pub session_task_ids : List ℕ
  pub selected : Option ℕ

unfoldable pub new : TaskStore
new = record { tasks = []; next_id = 1; dirty = []; session_task_ids = []; selected = none }

abbrev pub has_id : ℕ → Task → Bool
has_id id task = task.id == id

-- `get`; `get_mut` finds the same task, which `write` puts back changed.
unfoldable pub get : TaskStore → ℕ → Option Task
get s id = find (has_id id) s.tasks

unfoldable pub replace_first : ℕ → Task → List Task → List Task
replace_first id task [] = []
replace_first id task (t ∷ ts) = if t.id == id then task ∷ ts else t ∷ replace_first id task ts

unfoldable pub write : TaskStore → ℕ → Task → TaskStore
write s id task = record s { tasks = replace_first id task s.tasks }

unfoldable pub mark_dirty : TaskStore → ℕ → TaskStore
mark_dirty s id = elim (get s id) [
  | none ↦ s
  | some task ↦ record s { dirty = insert s.dirty task.record_id }
]

-- `get_mut`, the change and `mark_dirty`, or `false` where the task is missing or refuses.
unfoldable pub update : TaskStore → ℕ → (Task → Option Task) → TaskStore × Bool
update s id change = elim (get s id) [
  | none ↦ (s, false)
  | some task ↦ elim (change task) [
    | none ↦ (s, false)
    | some task' ↦ (mark_dirty (write s id task') id, true)
  ]
]

unfoldable pub create : TaskStore → ℕ → ActionId → Text → ℕ → Bool → TaskStore × ℕ
create s record_id action_id target_label started_at cancellable = (
  record {
    tasks = s.tasks ++ task ∷ [];
    next_id = saturating_add s.next_id 1;
    dirty = insert s.dirty record_id;
    session_task_ids = insert s.session_task_ids s.next_id;
    selected = elim s.selected [ none ↦ some s.next_id | some id ↦ some id ];
  },
  s.next_id,
)
  where
    task : Task
    task = record {
      id = s.next_id;
      record_id = record_id;
      action_id = action_id;
      target_label = target_label;
      state = TaskState.queued;
      started_at = started_at;
      finished_at = none;
      progress = none;
      summary = codes "queued";
      detail = [];
      cancellable = cancellable;
      requested_fields = [];
      redacted_argv = [];
      exit_status = none;
      verification = none;
      changes = [];
    }

unfoldable pub take_dirty : TaskStore → TaskStore × List Task
take_dirty s = (record s { dirty = [] }, filter (λ task. contains s.dirty task.record_id) s.tasks)

-- The restored tasks in order, renumbered from the next identifier on.
unfoldable pub renumber : ℕ → List Task → List Task × ℕ
renumber next [] = ([], next)
renumber next (t ∷ ts) =
    let (rest, next') = renumber (saturating_add next 1) ts in
    (record t { id = next } ∷ rest, next')

abbrev pub or_last : Option ℕ → List Task → Option ℕ
or_last (some id) tasks = some id
or_last none tasks = elim (get_last? tasks) [ none ↦ none | some task ↦ some task.id ]

unfoldable pub merge_restored : TaskStore → List Task → TaskStore
merge_restored s restored =
    let known = map (λ task. task.record_id) s.tasks in
    let (fresh, next) =
      renumber s.next_id (filter (λ task. not (contains known task.record_id)) restored) in
    let tasks = fresh ++ s.tasks in
    record s { tasks = tasks; next_id = next; selected = or_last s.selected tasks }

unfoldable pub session : TaskStore → List Task
session s = filter (λ task. contains s.session_task_ids task.id) s.tasks

-- The changes that the four setters make.
abbrev pub changing : List TaskChange → Task → Option Task
changing changes task = some (record task { changes = changes })

abbrev pub annotating : List Text → List Text → Task → Option Task
annotating requested_fields redacted_argv task =
    some (record task { requested_fields = requested_fields; redacted_argv = redacted_argv })

abbrev pub exiting : Option ℤ → Task → Option Task
exiting exit_status task = some (record task { exit_status = exit_status })

abbrev pub verifying : Text → Task → Option Task
verifying verification task = some (record task { verification = some verification })

unfoldable pub set_changes : TaskStore → ℕ → List TaskChange → TaskStore × Bool
set_changes s id changes = update s id (changing changes)

unfoldable pub set_local_metadata : TaskStore → ℕ → List Text → List Text → TaskStore × Bool
set_local_metadata s id requested_fields redacted_argv =
    update s id (annotating requested_fields redacted_argv)

unfoldable pub set_exit_status : TaskStore → ℕ → Option ℤ → TaskStore × Bool
set_exit_status s id exit_status = update s id (exiting exit_status)

unfoldable pub set_verification : TaskStore → ℕ → Text → TaskStore × Bool
set_verification s id verification = update s id (verifying verification)

abbrev pub is_cancellable_now : Task → Bool
is_cancellable_now task = task.cancellable && elim task.state [
  | TaskState.queued ↦ true
  | TaskState.running ↦ true
  | TaskState.cancelling ↦ true
  | _ ↦ false
]

unfoldable pub selected_can_cancel : TaskStore → Bool
selected_can_cancel s = elim s.selected [
  | none ↦ false
  | some id ↦ is_some_and (get s id) is_cancellable_now
]

unfoldable pub active : TaskStore → List Task
active s = filter (λ task. not (is_terminal task.state)) s.tasks

unfoldable pub has_active : TaskStore → Bool
has_active s = any (λ task. not (is_terminal task.state)) s.tasks
