-- ===== src/Task/Eviction.antt =====
-- `evict_completed` of src/task.rs: the oldest finished tasks leave once there are too many.
use tale.Prelude.{
  ℕ, zero, suc, ◌-◌, none, List, [], ◌∷◌, map, Bool, true, false, not, ◌==◌, if◌then◌else◌, length,
  filter, contains, is_some, is_some_and,
}
use tale.Task.{Task, is_terminal}
use tale.Task.Store.{TaskStore, get, or_last}

abbrev pub finished : Task → Bool
finished task = is_terminal task.state

-- `retain` with the counter `remove` that its closure counts down.
unfoldable pub retain : ℕ → List Task → List Task
retain remove [] = []
retain zero (t ∷ ts) = t ∷ retain zero ts
retain (suc remove) (t ∷ ts) = elim (finished t) [
  | true ↦ retain remove ts
  | false ↦ t ∷ retain (suc remove) ts
]

-- `self.selected.is_some_and(|id| self.get(id).is_none())`.
unfoldable pub selection_lost : TaskStore → Bool
unfolding get
selection_lost s = is_some_and s.selected λ id. not (is_some (get s id))

-- A selection that is lost moves to the last task.
unfoldable pub reselect : TaskStore → TaskStore
reselect s = if selection_lost s then record s { selected = or_last none s.tasks } else s

unfoldable pub remove_completed : TaskStore → ℕ → TaskStore
remove_completed s remove =
    let tasks = retain remove s.tasks in
    let remaining = map (λ task. task.id) tasks in
    reselect (record s {
      tasks = tasks;
      session_task_ids = filter (contains remaining) s.session_task_ids;
    })

unfoldable pub evict_completed : TaskStore → ℕ → TaskStore
evict_completed s max_tasks =
    let remove = length (filter finished s.tasks) - max_tasks in
    if remove == 0 then s else remove_completed s remove
