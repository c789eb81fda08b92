-- ===== src/Examples/Tasks.antt =====
-- Runs of the task store, src/task.rs.
use tale.Prelude.{
  ℕ, ◌<◌, ◌≤◌, ◌≡◌, ◌-◌, ◌+◌, refl, Text, codes, none, some, List, [], ◌∷◌, true, arith, min,
  length, get_elem?, pos, negsuc, All,
}
use tale.Action.Id.{local_netcheck}
use tale.Task.{Task, TaskState, is_terminal}
use tale.Task.Store.{TaskStore, new, get, create, update, take_dirty}
use tale.Task.Lifecycle.{start, starting, finish}
use tale.Task.Eviction.{evict_completed}
use tale.Task.Selection.{step_selection}
use tale.Task.Invariant.{Inv, new-Inv, IsBounded}
use tale.Prelude.{u64_max, len, len_utf8}
use tale.Task.Store.{mark_dirty, write, replace_first}
use tale.Task.Lifecycle.{finishing, append_detail, bounded_detail}
use tale.Detail.{bounded_ends}
use tale.Task.History.{Step, Reach, Reach-Inv}
use tale.Task.Evolution.{Traced, Reach-Traced}
use tale.Task.Evicting.{Evicted, evict_completed-Evicted}
use tale.Task.Selecting.{step_selection_row}
use tale.Task.Growth.{create-Inv}

abbrev same_case : ℕ → Text
same_case c = c ∷ []

abbrev one_task : TaskStore
one_task = (create new 70 local_netcheck (codes "this device") 5 true).0

abbrev started_task : TaskStore
started_task = (start one_task 1).0

abbrev done_task : TaskStore
done_task = (finish started_task 1 TaskState.succeeded 9 (codes "done") (codes "all well")).0

new_room : new.next_id < u64_max
unfolding new
new_room = omega arith

one_task-Inv : Inv one_task
one_task-Inv = create-Inv new 70 local_netcheck (codes "this device") 5 true new_room new-Inv

history : Reach same_case one_task done_task
unfolding is_terminal
history =
    Reach.one_more (Reach.one_more Reach.none_yet (Step.starts 1))
      (Step.finishes 1 TaskState.succeeded 9 (codes "done") (codes "all well") refl)

one_task-next_id : 1 < one_task.next_id
unfolding create new
one_task-next_id = omega arith

abbrev the_task : Task
the_task = record {
  id = 1;
  record_id = 70;
  action_id = local_netcheck;
  target_label = codes "this device";
  state = TaskState.queued;
  started_at = 5;
  finished_at = none;
  progress = none;
  summary = codes "queued";
  detail = [];
  cancellable = true;
  requested_fields = [];
  redacted_argv = [];
  exit_status = none;
  verification = none;
  changes = [];
}

abbrev running_task : Task
running_task = record the_task { state = TaskState.running; summary = codes "running" }

abbrev ended_task : Task
ended_task = record running_task {
  state = TaskState.succeeded;
  summary = codes "done";
  finished_at = some 9;
  detail = codes "all well";
}

one_task-get : get one_task 1 ≡ some the_task
unfolding get create new
one_task-get = refl

done_task-get : get done_task 1 ≡ some ended_task
unfolding get create new start finish update starting finishing mark_dirty write replace_first
    append_detail bounded_detail bounded_ends is_terminal len len_utf8
done_task-get = refl

Reach-Inv_example : Inv done_task
Reach-Inv_example = Reach-Inv same_case one_task-Inv history

Reach-Traced_example : Traced same_case (get one_task 1) (get done_task 1)
Reach-Traced_example = Reach-Traced same_case 1 one_task-Inv one_task-next_id history

evict_completed-Evicted_example : Evicted done_task 0 (evict_completed done_task 0)
evict_completed-Evicted_example = evict_completed-Evicted done_task 0

one_task-room : one_task.next_id + length (ended_task ∷ []) ≤ u64_max
unfolding create new
one_task-room = omega arith

ended_task-IsBounded : All IsBounded (ended_task ∷ [])
unfolding len len_utf8
ended_task-IsBounded = (omega arith, tt)

abbrev rows : List ℕ
rows = 1 ∷ 2 ∷ []

one_task-selected : one_task.selected ≡ some 1
unfolding create new
one_task-selected = refl

step_selection_row_example :
    ((down : ℕ) × (get_elem? rows (min (0 + 3) (length rows - 1)) ≡ some down)
      × ((step_selection one_task rows (pos 3)).selected ≡ some down))
    × ((up : ℕ) × (get_elem? rows (0 - (3 + 1)) ≡ some up)
        × ((step_selection one_task rows (negsuc 3)).selected ≡ some up))
step_selection_row_example =
    step_selection_row one_task rows 0 1 3 (refl, (refl, tt)) (omega arith) one_task-selected refl

taken_task-get : get (take_dirty done_task).0 1 ≡ some ended_task
unfolding get take_dirty
taken_task-get = done_task-get

done_task-next_id : 1 < done_task.next_id
unfolding create new start finish update starting finishing mark_dirty write replace_first
    append_detail bounded_detail bounded_ends is_terminal get
done_task-next_id = omega arith

ended_task-is_terminal : is_terminal ended_task.state ≡ true
unfolding is_terminal
ended_task-is_terminal = refl
