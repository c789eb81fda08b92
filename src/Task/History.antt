-- ===== src/Task/History.antt =====
-- Histories of the store: every method, with the arguments that its callers pass, in any order.
use tale.Prelude.{
  ℕ, ◌+◌, ◌≤◌, ◌<◌, ◌≡◌, List, Bool, Text, ℤ, Option, All, u64_max, length, arith, true,
}
use tale.Action.Id.{ActionId}
use tale.Task.{Task, TaskState, TaskChange, Progress, is_terminal}
use tale.Task.Store.{
  TaskStore, create, merge_restored, take_dirty, set_changes, set_local_metadata, set_exit_status,
  set_verification, changing, annotating, exiting, verifying,
}
use tale.Task.Lifecycle.{start, progress, request_cancel, finish, starting, cancelling}
use tale.Task.Eviction.{evict_completed}
use tale.Task.Selection.{
  select_next, select_next_filtered, select_filtered_position, select_filtered_last,
}
use tale.Task.Invariant.{
  IsBounded, Inv, Keeps, update-Inv, starting-Keeps, progressing-Keeps, cancelling-Keeps,
  finishing-Keeps,
}
use tale.Task.Growth.{create-Inv, merge_restored-Inv}
use tale.Task.Evicting.{evict_completed-Inv}
use tale.Task.Selecting.{
  select_next-Inv, select_next_filtered-Inv, select_filtered_position-Inv, select_filtered_last-Inv,
}

changing-Keeps : (c : List TaskChange) → Keeps (changing c)
changing-Keeps c = record {
  same_id = λ t t' e. ground arith;
  still_bounded = λ t t' e h. ground arith;
}

annotating-Keeps : (fields argv : List Text) → Keeps (annotating fields argv)
annotating-Keeps fields argv = record {
  same_id = λ t t' e. ground arith;
  still_bounded = λ t t' e h. ground arith;
}

exiting-Keeps : (status : Option ℤ) → Keeps (exiting status)
exiting-Keeps status = record {
  same_id = λ t t' e. ground arith;
  still_bounded = λ t t' e h. ground arith;
}

verifying-Keeps : (verification : Text) → Keeps (verifying verification)
verifying-Keeps verification = record {
  same_id = λ t t' e. ground arith;
  still_bounded = λ t t' e h. ground arith;
}

module _ (lower : ℕ → Text) where
  -- One call of a method. Identifiers are left for the tasks that it adds, and restored tasks come
  -- with details within the cap, as they were stored.
  pub data Step (s : TaskStore) : TaskStore → Type 0 where
    creates :
        (record_id : ℕ) (action_id : ActionId) (target_label : Text) (at : ℕ) (cancellable : Bool)
        → s.next_id < u64_max
        → Step s (create s record_id action_id target_label at cancellable).0
    merges :
        (restored : List Task)
        → s.next_id + length restored ≤ u64_max
        → All IsBounded restored
        → Step s (merge_restored s restored)
    takes : Step s (take_dirty s).0
    changes : (id : ℕ) (changes : List TaskChange) → Step s (set_changes s id changes).0
    annotates : (id : ℕ) (fields argv : List Text) → Step s (set_local_metadata s id fields argv).0
    exits : (id : ℕ) (status : Option ℤ) → Step s (set_exit_status s id status).0
    verifies : (id : ℕ) (verification : Text) → Step s (set_verification s id verification).0
    starts : (id : ℕ) → Step s (start s id).0
    progresses :
        (id : ℕ) (amount : Progress) (detail : Text) → Step s (progress s id amount detail).0
    cancels : (id : ℕ) → Step s (request_cancel s id).0
    finishes :
        (id : ℕ) (state : TaskState) (at : ℕ) (summary detail : Text)
        → is_terminal state ≡ true
        → Step s (finish s id state at summary detail).0
    evicts : (max_tasks : ℕ) → Step s (evict_completed s max_tasks)
    selects : (offset : ℤ) → Step s (select_next s offset)
    selects_filtered :
        (query : Text) (offset : ℤ) → Step s (select_next_filtered lower s query offset)
    selects_position : (query : Text) (at : ℕ) → Step s (select_filtered_position lower s query at)
    selects_last : (query : Text) → Step s (select_filtered_last lower s query)

  pub data Reach (s : TaskStore) : TaskStore → Type 0 where
    none_yet : Reach s s
    one_more : {t u : TaskStore} → Reach s t → Step t u → Reach s u

  pub Step-Inv : {s u : TaskStore} → Step s u → Inv s → Inv u
  unfolding set_changes set_local_metadata set_exit_status set_verification start progress
      request_cancel finish take_dirty
  Step-Inv {s} (creates record_id action_id target_label at cancellable room) v =
      create-Inv s record_id action_id target_label at cancellable room v
  Step-Inv {s} (merges restored room bounded) v = merge_restored-Inv s restored room bounded v
  Step-Inv {s} takes v = record {
    fresh = v.fresh;
    distinct = v.distinct;
    bounded = v.bounded;
    chosen = v.chosen;
    within = v.within;
  }
  Step-Inv {s} (changes id c) v = update-Inv s id (changing c) (changing-Keeps c) v
  Step-Inv {s} (annotates id fields argv) v =
      update-Inv s id (annotating fields argv) (annotating-Keeps fields argv) v
  Step-Inv {s} (exits id status) v = update-Inv s id (exiting status) (exiting-Keeps status) v
  Step-Inv {s} (verifies id verification) v =
      update-Inv s id (verifying verification) (verifying-Keeps verification) v
  Step-Inv {s} (starts id) v = update-Inv s id starting starting-Keeps v
  Step-Inv {s} (progresses id amount detail) v =
      update-Inv s id _ (progressing-Keeps amount detail) v
  Step-Inv {s} (cancels id) v = update-Inv s id cancelling cancelling-Keeps v
  Step-Inv {s} (finishes id state at summary detail h) v =
      update-Inv s id _ (finishing-Keeps state at summary detail) v
  Step-Inv {s} (evicts max_tasks) v = evict_completed-Inv s max_tasks v
  Step-Inv {s} (selects offset) v = select_next-Inv s offset v
  Step-Inv {s} (selects_filtered query offset) v = select_next_filtered-Inv lower s query offset v
  Step-Inv {s} (selects_position query at) v = select_filtered_position-Inv lower s query at v
  Step-Inv {s} (selects_last query) v = select_filtered_last-Inv lower s query v

  -- From a store with the invariant, by any calls that find identifiers left for the tasks they add and
  -- restore details within the cap, only stores with the invariant come about: tasks have different
  -- identifiers below the next one, their details are within the cap, and the selection, if any, is
  -- one of them.
  pub Reach-Inv : {s u : TaskStore} → Inv s → Reach s u → Inv u
  Reach-Inv v none_yet = v
  Reach-Inv v (one_more r step) = Step-Inv step (Reach-Inv v r)
