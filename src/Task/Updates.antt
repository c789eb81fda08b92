-- ===== src/Task/Updates.antt =====
-- How a method of the store reaches one task: the cases of `update`, for the proofs about tasks.
use tale.Prelude.{
  ℕ, ◌≡◌, refl, inl, inr, Option, none, some, List, [], ◌∷◌, map, Bool, true, false, arith, ◌==◌,
  if◌then◌else◌, find_passes, All, Option-cases, ==_iff,
}
use tale.Task.{Task}
use tale.Task.Store.{TaskStore, has_id, get, replace_first, write, mark_dirty, update}

abbrev pub ids : List Task → List ℕ
ids = map (λ task. task.id)

-- What `update` did: the task was changed, or it was missing or refused and nothing changed.
pub data Updated (s : TaskStore) (id : ℕ) (change : Task → Option Task) (r : TaskStore × Bool)
    : Type 0 where
  missing : get s id ≡ none → r ≡ (s, false) → Updated s id change r
  refused :
      (t : Task) → get s id ≡ some t → change t ≡ none → r ≡ (s, false) → Updated s id change r
  changed :
      (t t' : Task)
      → get s id ≡ some t
      → change t ≡ some t'
      → r ≡ (mark_dirty (write s id t') id, true)
      → Updated s id change r

pub update-Updated :
    (s : TaskStore) (id : ℕ) (change : Task → Option Task)
    → Updated s id change (update s id change)
unfolding update
update-Updated s id change = elim (Option-cases (get s id)) [
  | inl gone ↦ missing gone (rw (gone, update) refl)
  | inr (t, found) ↦ elim (Option-cases (change t)) [
    | inl no_change ↦ refused t found no_change (rw (found, update) (rw (no_change) refl))
    | inr (t', new_task) ↦ changed t t' found new_task (rw (found, update) (rw (new_task) refl))
  ]
]

-- The task found has the identifier that was asked for.
pub id_of_get : (s : TaskStore) (id : ℕ) (t : Task) → get s id ≡ some t → t.id ≡ id
unfolding get
id_of_get s id t h = (==_iff _ _).0 (find_passes (has_id id) s.tasks t h)

module _ {ℓ} (P : Task → Type ℓ) where
  pub All-replace_first :
      (id : ℕ) (t : Task) (ts : List Task) → P t → All P ts → All P (replace_first id t ts)
  unfolding replace_first
  All-replace_first id t [] p h = tt
  All-replace_first id t (x ∷ ts) p h =
      elim (x.id == id) as (λ b. All P (if b then t ∷ ts else x ∷ replace_first id t ts)) [
        | true ↦ (p, h.1)
        | false ↦ (h.0, All-replace_first id t ts p h.1)
      ]

pub ids-replace_first :
    (id : ℕ) (t : Task) (ts : List Task) → t.id ≡ id → ids (replace_first id t ts) ≡ ids ts
unfolding replace_first
ids-replace_first id t [] e = refl
ids-replace_first id t (x ∷ ts) e = ground (arith, ids-replace_first id t ts)

-- Marking a task touches only the set of changed records.
pub tasks-mark_dirty : (s : TaskStore) (id : ℕ) → (mark_dirty s id).tasks ≡ s.tasks
unfolding mark_dirty
tasks-mark_dirty s id = ground arith

pub next_id-mark_dirty : (s : TaskStore) (id : ℕ) → (mark_dirty s id).next_id ≡ s.next_id
unfolding mark_dirty
next_id-mark_dirty s id = ground arith

pub selected-mark_dirty : (s : TaskStore) (id : ℕ) → (mark_dirty s id).selected ≡ s.selected
unfolding mark_dirty
selected-mark_dirty s id = ground arith

pub session_task_ids-mark_dirty :
    (s : TaskStore) (id : ℕ) → (mark_dirty s id).session_task_ids ≡ s.session_task_ids
unfolding mark_dirty
session_task_ids-mark_dirty s id = ground arith
