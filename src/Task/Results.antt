-- ===== src/Task/Results.antt =====
-- What the methods of the store answer, and what they leave for the task history.
use tale.Prelude.{
  ℕ, ◌≡◌, ◌↔◌, refl, ◌∙◌, ◌⊎◌, Option, none, some, List, [], ◌∷◌, Bool, true, false, arith, find,
  filter, contains, contains-insert, Text, is_some_and,
}
use tale.Task.{Task, TaskState, is_terminal}
use tale.Task.Store.{TaskStore, has_id, get, replace_first, write, mark_dirty, update, take_dirty}
use tale.Task.Lifecycle.{request_cancel, finish, cancelling, finishing, is_cancelling}
use tale.Task.Updates.{missing, refused, changed, update-Updated, id_of_get, tasks-mark_dirty}
use tale.Task.Invariant.{cancelling-Keeps, Keeps}

find-replaced :
    (id : ℕ) (t t' : Task) (ts : List Task)
    → find (has_id id) ts ≡ some t
    → t'.id ≡ id
    → find (has_id id) (replace_first id t' ts) ≡ some t'
unfolding replace_first
find-replaced id t t' [] h e = cc
find-replaced id t t' (x ∷ ts) h e = ground (arith, find-replaced id t t' ts)

-- The task that an accepted change leaves behind.
get_of_changed :
    (s : TaskStore) (id : ℕ) (t t' : Task)
    → get s id ≡ some t
    → t'.id ≡ id
    → get (mark_dirty (write s id t') id) id ≡ some t'
unfolding get write
get_of_changed s id t t' found e =
    rw (tasks-mark_dirty (write s id t') id) (find-replaced id t t' s.tasks found e)

finishable :
    (state : TaskState) (at : ℕ) (summary detail : Text) (t t' : Task)
    → finishing state at summary detail t ≡ some t'
    → (t.state ≡ TaskState.running) ⊎ (t.state ≡ TaskState.cancelling)
unfolding finishing is_terminal
finishable state at summary detail t t' e = ground arith

refused_finish :
    (state : TaskState) (at : ℕ) (summary detail : Text) (t : Task)
    → finishing state at summary detail t ≡ none
    → (t.state ≡ TaskState.running) ⊎ (t.state ≡ TaskState.cancelling)
    → ⊥
unfolding finishing is_terminal
refused_finish state at summary detail t e h = ground arith

-- A task can end exactly when it runs or is being cancelled: otherwise `finish` answers `false`.
pub finish_answer :
    (s : TaskStore) (id : ℕ) (state : TaskState) (at : ℕ) (summary detail : Text)
    → ((finish s id state at summary detail).1 ≡ true) ↔ (
        (t : Task) × (get s id ≡ some t)
        × ((t.state ≡ TaskState.running) ⊎ (t.state ≡ TaskState.cancelling)))
unfolding finish
finish_answer s id state at summary detail =
    elim (update-Updated s id (finishing state at summary detail)) [
      | missing gone e ↦
          (λ h. absurd (ground (arith, e, h)), λ h. absurd (ground (arith, gone, h.1)))
      | refused t found no_change e ↦ (
        λ h. absurd (ground (arith, e, h)),
        λ h.
            absurd (
              refused_finish state at summary detail t no_change (ground (arith, found, h.1, h.2))),
      )
      | changed t t' found new_task e ↦ (
        λ h. (t, found, finishable state at summary detail t t' new_task),
        λ h. ground (arith, e),
      )
    ]

cancelling_state : (t t' : Task) → cancelling t ≡ some t' → t'.state ≡ TaskState.cancelling
unfolding cancelling
cancelling_state t t' e = ground arith

is_cancelling_iff : (t : Task) → (is_cancelling t ≡ true) ↔ (t.state ≡ TaskState.cancelling)
is_cancelling_iff t = (λ h. ground arith, λ h. ground arith)

some_and_iff :
    (o : Option Task)
    → (is_some_and o is_cancelling ≡ true)
      ↔ ((t : Task) × (o ≡ some t) × (t.state ≡ TaskState.cancelling))
some_and_iff none = (λ h. absurd (ground arith), λ h. absurd (ground (arith, h.1)))
some_and_iff (some t) = (λ h. (t, refl, ground arith), λ h. ground (arith, h.1, h.2))

-- `request_cancel` answers `true` exactly if the task is being cancelled afterwards, whether by this
-- request or an earlier one.
pub request_cancel_answer :
    (s : TaskStore) (id : ℕ)
    → ((request_cancel s id).1 ≡ true)
      ↔ ((t : Task) × (get (request_cancel s id).0 id ≡ some t) × (t.state ≡ TaskState.cancelling))
unfolding request_cancel
request_cancel_answer s id = elim (update-Updated s id cancelling) [
  | missing gone e ↦ rw e (some_and_iff (get s id))
  | refused t found no_change e ↦ rw e (some_and_iff (get s id))
  | changed t t' found new_task e ↦ rw e (
    λ _. (
      t',
      get_of_changed s id t t' found
          (cancelling-Keeps.same_id t t' new_task ∙ id_of_get s id t found),
      cancelling_state t t' new_task,
    ),
    λ _. refl,
  )
]

find-filter :
    (p q : Task → Bool) (ts : List Task) (t : Task)
    → find p ts ≡ some t
    → q t ≡ true
    → find p (filter q ts) ≡ some t
find-filter p q [] t h e = cc
find-filter p q (x ∷ ts) t h e = ground (arith, find-filter p q ts t)

dirty-mark_dirty :
    (s : TaskStore) (id : ℕ) (t : Task)
    → get s id ≡ some t
    → contains (mark_dirty s id).dirty t.record_id ≡ true
unfolding mark_dirty
dirty-mark_dirty s id t found =
    rw (found, mark_dirty) (ground (arith, contains-insert s.dirty t.record_id t.record_id))

update_changed :
    (s : TaskStore) (id : ℕ) (change : Task → Option Task) (t t' : Task)
    → get s id ≡ some t
    → change t ≡ some t'
    → update s id change ≡ (mark_dirty (write s id t') id, true)
unfolding update
update_changed s id change t t' found new_task = rw (found, update) (rw new_task)

filter_none : (ts : List Task) → filter (λ t. false) ts ≡ []
filter_none [] = refl
filter_none (t ∷ ts) = filter_none ts

-- A change that keeps identifiers and is accepted for a task of the store reaches the task history:
-- the next `take_dirty` hands out the task as the change left it, and another one right after hands out
-- nothing.
pub take_dirty-update :
    (s : TaskStore) (id : ℕ) (change : Task → Option Task) (t t' : Task)
    → Keeps change
    → get s id ≡ some t
    → change t ≡ some t'
    → let taken = take_dirty (update s id change).0 in
      (find (has_id id) taken.1 ≡ some t') × ((take_dirty taken.0).1 ≡ [])
unfolding take_dirty get write
take_dirty-update s id change t t' k found new_task =
    let kept_id = k.same_id t t' new_task ∙ id_of_get s id t found in
    let left = get_of_changed s id t t' found kept_id in
    rw (update_changed s id change t t' found new_task) (
      find-filter (has_id id) _ _ t' left
          (dirty-mark_dirty (write s id t') id t' (find-replaced id t t' s.tasks found kept_id)),
      filter_none (mark_dirty (write s id t') id).tasks,
    )
