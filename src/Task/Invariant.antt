-- ===== src/Task/Invariant.antt =====
-- What holds of the store of tasks between any two calls of its methods.
use tale.Prelude.{
  ℕ, ◌≤◌, ◌<◌, ◌≡◌, refl, inl, inr, Option, none, some, List, ◌∙◌, ◌++◌, All-find, Bool-cases,
  is_empty, true, arith, All, Distinct, contains, Text, len, u64_max, contains-append,
}
use tale.Detail.{with_line}
use tale.Detail.Bounds.{bounded_ends-len-le}
use tale.Task.{Task, TaskState, Progress, detail_cap}
use tale.Task.Store.{TaskStore, has_id, new, update, mark_dirty, write, get}
use tale.Task.Lifecycle.{
  bounded_detail, append_detail, starting, progressing, cancelling, finishing,
}
use tale.Task.Updates.{
  ids, missing, refused, changed, update-Updated, id_of_get, ids-replace_first, All-replace_first,
  tasks-mark_dirty, next_id-mark_dirty, selected-mark_dirty,
}

-- The detail of a task stays within its cap.
abbrev pub IsBounded : Task → Type 0
IsBounded task = len task.detail ≤ detail_cap

abbrev pub IsChosen : Option ℕ → List ℕ → Type 0
IsChosen none known = Unit
IsChosen (some id) known = contains known id ≡ true

-- The numbers of the tasks differ and are below the next one, the selection is a task, and each
-- detail is within its cap.
pub record Inv (s : TaskStore) : Type 0 where
  pub fresh : All (λ id. id < s.next_id) (ids s.tasks)
  pub distinct : Distinct (ids s.tasks)
  pub bounded : All IsBounded s.tasks
  pub chosen : IsChosen s.selected (ids s.tasks)
  pub within : s.next_id ≤ u64_max

pub new-Inv : Inv new
unfolding new
new-Inv = record { fresh = tt; distinct = tt; bounded = tt; chosen = tt; within = omega arith }

-- The invariant reads the tasks through their numbers and their details only.
pub Inv-of_ids :
    (s u : TaskStore)
    → ids u.tasks ≡ ids s.tasks
    → u.next_id ≡ s.next_id
    → u.selected ≡ s.selected
    → All IsBounded u.tasks
    → Inv s
    → Inv u
Inv-of_ids s u same_ids same_next same_choice bounded v = record {
  fresh = rw (same_ids, same_next) v.fresh;
  distinct = rw same_ids v.distinct;
  bounded = bounded;
  chosen = rw (same_choice, same_ids) v.chosen;
  within = rw same_next v.within;
}

-- A change of one task that keeps its number and a bounded detail.
pub record Keeps (change : Task → Option Task) : Type 0 where
  pub same_id : (t t' : Task) → change t ≡ some t' → t'.id ≡ t.id
  pub still_bounded : (t t' : Task) → change t ≡ some t' → IsBounded t → IsBounded t'

pub update-Inv :
    (s : TaskStore) (id : ℕ) (change : Task → Option Task)
    → Keeps change
    → Inv s
    → Inv (update s id change).0
unfolding write get
update-Inv s id change k v = elim (update-Updated s id change) [
  | missing _ e ↦ rw e v
  | refused _ _ _ e ↦ rw e v
  | changed t t' found new_task e ↦ rw e (
      Inv-of_ids s (mark_dirty (write s id t') id)
        (rw (tasks-mark_dirty (write s id t') id)
          (ids-replace_first id t' s.tasks (k.same_id t t' new_task ∙ id_of_get s id t found)))
        (next_id-mark_dirty (write s id t') id) (selected-mark_dirty (write s id t') id)
        (rw (tasks-mark_dirty (write s id t') id) (
          All-replace_first IsBounded id t' s.tasks
            (k.still_bounded t t' new_task
              (All-find IsBounded (has_id id) s.tasks t found v.bounded))
            v.bounded))
        v)
]

bounded_detail-IsBounded : (value : Text) → len (bounded_detail value detail_cap) ≤ detail_cap
unfolding bounded_detail
bounded_detail-IsBounded value = ground (arith, bounded_ends-len-le value detail_cap)

pub append_detail_lem :
    (t : Task) (detail : Text)
    → ((append_detail t detail).id ≡ t.id)
      × ((append_detail t detail).record_id ≡ t.record_id)
      × ((append_detail t detail).state ≡ t.state)
      × (IsBounded t → IsBounded (append_detail t detail))
unfolding append_detail
append_detail_lem t detail = elim (Bool-cases (is_empty detail)) [
  | inl e ↦ rw e (refl, refl, refl, λ h. h)
  | inr e ↦ rw e (refl, refl, refl, λ _. bounded_detail-IsBounded (with_line t.detail detail))
]

pub starting-Keeps : Keeps starting
unfolding starting
starting-Keeps = record {
  same_id = λ t t' e. ground arith;
  still_bounded = λ t t' e h. ground arith;
}

pub progressing-Keeps : (amount : Progress) (detail : Text) → Keeps (progressing amount detail)
unfolding progressing
progressing-Keeps amount detail = record {
  same_id =
      λ t t' e. ground (arith, append_detail_lem (record t { progress = some amount }) detail);
  still_bounded =
      λ t t' e h. ground (arith, append_detail_lem (record t { progress = some amount }) detail);
}

pub cancelling-Keeps : Keeps cancelling
unfolding cancelling
cancelling-Keeps = record {
  same_id = λ t t' e. ground arith;
  still_bounded = λ t t' e h. ground arith;
}

pub finishing-Keeps :
    (state : TaskState) (finished_at : ℕ) (summary detail : Text)
    → Keeps (finishing state finished_at summary detail)
unfolding finishing
finishing-Keeps state finished_at summary detail = record {
  same_id = λ t t' e. ground (
    arith,
    append_detail_lem
        (record t { state = state; finished_at = some finished_at; summary = summary }) detail,
  );
  still_bounded = λ t t' e h. ground (
    arith,
    append_detail_lem
        (record t { state = state; finished_at = some finished_at; summary = summary }) detail,
  );
}

pub IsChosen-append :
    (chosen : Option ℕ) (known more : List ℕ)
    → IsChosen chosen known
    → IsChosen chosen (known ++ more)
IsChosen-append none known more h = tt
IsChosen-append (some id) known more h = rw (contains-append known more id, h) refl
