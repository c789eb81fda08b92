-- ===== src/Task/Evolution.antt =====
-- What becomes of one task over a history of the store.
use tale.Prelude.{ℕ, ◌≤◌, ◌<◌, ◌≡◌, refl, ◌∙◌, ◌⊎◌, inl, inr, Option, none, some, true, arith, Text}
use tale.Task.{Task, is_terminal}
use tale.Task.Store.{
  TaskStore, get, create, take_dirty, set_changes, set_local_metadata, set_exit_status,
  set_verification, changing, annotating, exiting, verifying,
}
use tale.Task.Lifecycle.{
  start, progress, request_cancel, finish, starting, progressing, cancelling, finishing,
}
use tale.Task.Selection.{
  step_selection, select_next, select_next_filtered, select_filtered_position, select_filtered_last,
  filtered_ids,
}
use tale.Task.Updates.{ids}
use tale.Task.Invariant.{Inv, starting-Keeps, progressing-Keeps, cancelling-Keeps, finishing-Keeps}
use tale.Task.Edges.{
  ◌⟶◌, ◌⟶*◌, stay, onward, starting-Moves, progressing-Moves, cancelling-Moves, finishing-Moves,
  terminal_stays,
}
use tale.Task.History.{
  creates, merges, takes, changes, annotates, exits, verifies, starts, progresses, cancels,
  finishes, evicts, selects, selects_filtered, selects_position, selects_last, Step, Reach,
  none_yet, one_more, Reach-Inv,
}
use mathlib.Core.Path.{subst₂}
use tale.Task.Fates.{
  Fate, Fate-refl, update-Fate, evict-Fate, merge-Fate, appended_Fate, same_tasks_Fate,
  tasks-step_selection, next_id-update, next_id-evict_completed, next_id-step_selection,
  next_id-merge_restored,
}

module _ (lower : ℕ → Text) where
  -- One call, seen from one task.
  Step-Fate :
      {s u : TaskStore} (id : ℕ)
      → Step lower s u
      → Inv s
      → id < s.next_id
      → Fate (get s id) (get u id)
  unfolding start progress request_cancel finish set_changes set_local_metadata set_exit_status
      set_verification create take_dirty select_next select_next_filtered select_filtered_position
      select_filtered_last get
  Step-Fate {s} id (creates record_id action_id target_label at cancellable room) v lt =
      appended_Fate id s.tasks _ lt
  Step-Fate {s} id (merges restored room bounded) v lt = merge-Fate s restored id room lt
  Step-Fate {s} id takes v lt = Fate-refl (get s id)
  Step-Fate {s} id (changes j c) v lt =
      update-Fate s j (changing c) id
        (record { same_id = λ t t' e. ground arith; moves = λ t t' e. ground arith })
  Step-Fate {s} id (annotates j fields argv) v lt =
      update-Fate s j (annotating fields argv) id
        (record { same_id = λ t t' e. ground arith; moves = λ t t' e. ground arith })
  Step-Fate {s} id (exits j status) v lt =
      update-Fate s j (exiting status) id
        (record { same_id = λ t t' e. ground arith; moves = λ t t' e. ground arith })
  Step-Fate {s} id (verifies j verification) v lt =
      update-Fate s j (verifying verification) id
        (record { same_id = λ t t' e. ground arith; moves = λ t t' e. ground arith })
  Step-Fate {s} id (starts j) v lt =
      update-Fate s j starting id
        (record { same_id = starting-Keeps.same_id; moves = starting-Moves })
  Step-Fate {s} id (progresses j amount detail) v lt =
      update-Fate s j (progressing amount detail) id (record {
        same_id = (progressing-Keeps amount detail).same_id;
        moves = progressing-Moves amount detail;
      })
  Step-Fate {s} id (cancels j) v lt =
      update-Fate s j cancelling id
        (record { same_id = cancelling-Keeps.same_id; moves = cancelling-Moves })
  Step-Fate {s} id (finishes j state at summary detail terminal) v lt =
      update-Fate s j (finishing state at summary detail) id (record {
        same_id = (finishing-Keeps state at summary detail).same_id;
        moves = λ t t' e. finishing-Moves state at summary detail t t' terminal e;
      })
  Step-Fate {s} id (evicts max_tasks) v lt = evict-Fate s max_tasks id v
  Step-Fate {s} id (selects offset) v lt =
      same_tasks_Fate s (step_selection s (ids s.tasks) offset) id (tasks-step_selection s _ offset)
  Step-Fate {s} id (selects_filtered query offset) v lt =
      same_tasks_Fate s (step_selection s (filtered_ids lower s query) offset) id
        (tasks-step_selection s _ offset)
  Step-Fate {s} id (selects_position query at) v lt = Fate-refl (get s id)
  Step-Fate {s} id (selects_last query) v lt = Fate-refl (get s id)

  -- The next identifier never goes back.
  Step-grows : {s u : TaskStore} → Step lower s u → Inv s → s.next_id ≤ u.next_id
  unfolding start progress request_cancel finish set_changes set_local_metadata set_exit_status
      set_verification create take_dirty select_next select_next_filtered select_filtered_position
      select_filtered_last
  Step-grows {s} (creates record_id action_id target_label at cancellable room) v = omega arith
  Step-grows {s} (merges restored room bounded) v = next_id-merge_restored s restored room
  Step-grows {s} takes v = omega arith
  Step-grows {s} (changes j c) v = omega (arith, next_id-update s j (changing c))
  Step-grows {s} (annotates j fields argv) v =
      omega (arith, next_id-update s j (annotating fields argv))
  Step-grows {s} (exits j status) v = omega (arith, next_id-update s j (exiting status))
  Step-grows {s} (verifies j text) v = omega (arith, next_id-update s j (verifying text))
  Step-grows {s} (starts j) v = omega (arith, next_id-update s j starting)
  Step-grows {s} (progresses j amount detail) v =
      omega (arith, next_id-update s j (progressing amount detail))
  Step-grows {s} (cancels j) v = omega (arith, next_id-update s j cancelling)
  Step-grows {s} (finishes j state at summary detail h) v =
      omega (arith, next_id-update s j (finishing state at summary detail))
  Step-grows {s} (evicts max_tasks) v = omega (arith, next_id-evict_completed s max_tasks)
  Step-grows {s} (selects offset) v = omega (arith, next_id-step_selection s (ids s.tasks) offset)
  Step-grows {s} (selects_filtered query offset) v =
      omega (arith, next_id-step_selection s (filtered_ids lower s query) offset)
  Step-grows {s} (selects_position query at) v = omega arith
  Step-grows {s} (selects_last query) v = omega arith

  Reach-grows : {s u : TaskStore} → Inv s → Reach lower s u → s.next_id ≤ u.next_id
  Reach-grows v none_yet = omega arith
  Reach-grows v (one_more r step) =
      omega (arith, Reach-grows v r, Step-grows step (Reach-Inv lower v r))

  -- A task, followed by its number over a history: it is the same record, in a state that the edges
  -- lead to, or it left; a number that no task has any more comes back to none.
  abbrev pub Traced : Option Task → Option Task → Type 0
  Traced none none = Unit
  Traced none (some t') = ⊥
  Traced (some t) none = Unit
  Traced (some t) (some t') = (t'.record_id ≡ t.record_id) × (t.state ⟶* t'.state)

  Traced-Fate : (o p q : Option Task) → Traced o p → Fate p q → Traced o q
  Traced-Fate none none none a b = tt
  Traced-Fate none none (some t) a b = b
  Traced-Fate none (some t) q a b = absurd a
  Traced-Fate (some t) p none a b = tt
  Traced-Fate (some t) none (some t'') a b = absurd b
  Traced-Fate (some t) (some t') (some t'') a b = (b.same_record ∙ a.0, go b.edge)
    where
      go : (t''.state ≡ t'.state) ⊎ (t'.state ⟶ t''.state) → t.state ⟶* t''.state
      go (inl e) = rw e a.1
      go (inr step) = onward a.1 step

  Traced-refl : (o : Option Task) → Traced o o
  Traced-refl none = tt
  Traced-refl (some t) = (refl, stay)

  -- From a store with the invariant, over any history of calls as in `History`, for a number below the
  -- store's next one: a task found by its number is, whenever it is found again, the same
  -- record, and its state has moved along the edges only; and a number that no
  -- task has is never given to a task again.
  pub Reach-Traced :
      {s u : TaskStore} (id : ℕ)
      → Inv s
      → id < s.next_id
      → Reach lower s u
      → Traced (get s id) (get u id)
  Reach-Traced {s} id v lt none_yet = Traced-refl (get s id)
  Reach-Traced {s} {u} id v lt (one_more {t = m} r step) =
      Traced-Fate (get s id) (get m id) (get u id) (Reach-Traced id v lt r)
        (Step-Fate id step (Reach-Inv lower v r) (omega (arith, Reach-grows v r)))

  -- From a store with the invariant, over any history of calls as in `History`: a task that has ended,
  -- with a number below the next one, keeps its state and its record for as long as the store has it.
  Reach-terminal :
      {s u : TaskStore} (id : ℕ) (t t' : Task)
      → Inv s
      → Reach lower s u
      → id < s.next_id
      → get s id ≡ some t
      → get u id ≡ some t'
      → is_terminal t.state ≡ true
      → (t'.state ≡ t.state) × (t'.record_id ≡ t.record_id)
  Reach-terminal {s} {u} id t t' v r lt before after ended =
      let traced : Traced (some t) (some t') =
        subst₂ Traced before after (Reach-Traced id v lt r) in
      (terminal_stays traced.1 ended, traced.0)
