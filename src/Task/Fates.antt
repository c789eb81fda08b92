-- ===== src/Task/Fates.antt =====
-- What each method of the store does to one task, followed by its number.
use tale.Prelude.{
  ℕ, zero, suc, ◌+◌, ◌-◌, ◌≤◌, ℤ, All-mono, ◌<◌, ◌≡◌, refl, subst, ◌∙◌, ◌⊎◌, inl, inr, Option, none,
  some, List, [], ◌∷◌, ◌++◌, map, false, not, arith, All, Distinct, contains, find, filter, length,
  u64_max, ◌==◌, if◌then◌else◌, length-filter-le, Bool-cases, ==_iff,
}
use tale.Task.{Task}
use tale.Task.Store.{TaskStore, has_id, get, replace_first, write, update, renumber, merge_restored}
use tale.Task.Eviction.{finished, retain, remove_completed, evict_completed}
use tale.Task.Selection.{step_selection}
use tale.Task.Updates.{
  ids, missing, refused, changed, update-Updated, id_of_get, tasks-mark_dirty, next_id-mark_dirty,
}
use tale.Task.Invariant.{Inv}
use tale.Task.Growth.{renumber-Renumbered}
use tale.Task.Evicting.{tasks-reselect, next_id-reselect, contains-retain}
use tale.Task.Edges.{Moves}

-- A task moves along an edge, or leaves; a number that no task has is not used again.
abbrev pub Fate : Option Task → Option Task → Type 0
Fate none none = Unit
Fate none (some t') = ⊥
Fate (some t) none = Unit
Fate (some t) (some t') = Moves t t'

pub Fate-refl : (o : Option Task) → Fate o o
Fate-refl none = tt
Fate-refl (some t) = record { same_record = refl; edge = inl refl }

find-replace_first :
    (id j : ℕ) (t t' : Task) (ts : List Task)
    → find (has_id j) ts ≡ some t
    → t'.id ≡ j
    → find (has_id id) (replace_first j t' ts) ≡ (if j == id then some t' else find (has_id id) ts)
unfolding replace_first
find-replace_first id j t t' [] h e = cc
find-replace_first id j t t' (x ∷ ts) h e = ground (arith, find-replace_first id j t t' ts)

written :
    (id j : ℕ) (t t' : Task) (ts : List Task)
    → find (has_id j) ts ≡ some t
    → Moves t t'
    → Fate (find (has_id id) ts) (if j == id then some t' else find (has_id id) ts)
written id j t t' ts found m = elim (Bool-cases (j == id)) [
  | inl here ↦ rw (here, subst (λ k. find (has_id k) ts ≡ some t) ((==_iff j id).0 here) found) m
  | inr there ↦ rw there (Fate-refl (find (has_id id) ts))
]

-- A change that keeps numbers and moves along an edge.
pub record Advances (change : Task → Option Task) : Type 0 where
  pub same_id : (t t' : Task) → change t ≡ some t' → t'.id ≡ t.id
  pub moves : (t t' : Task) → change t ≡ some t' → Moves t t'

pub update-Fate :
    (s : TaskStore) (j : ℕ) (change : Task → Option Task) (id : ℕ)
    → Advances change
    → Fate (get s id) (get (update s j change).0 id)
unfolding get write
update-Fate s j change id a = elim (update-Updated s j change) [
  | missing _ e ↦ rw e (Fate-refl (get s id))
  | refused _ _ _ e ↦ rw e (Fate-refl (get s id))
  | changed t t' found new_task e ↦ rw e (
      rw (tasks-mark_dirty (write s j t') j) (
        rw
          (find-replace_first id j t t' s.tasks found
            (a.same_id t t' new_task ∙ id_of_get s j t found))
          (written id j t t' s.tasks found (a.moves t t' new_task))))
]

find-append_missing :
    (id : ℕ) (ts us : List Task)
    → All (λ j. id < j) (ids ts)
    → find (has_id id) (ts ++ us) ≡ find (has_id id) us
find-append_missing id [] us h = refl
find-append_missing id (t ∷ ts) us h = ground (arith, find-append_missing id ts us, h.0, h.1)

find-append_last :
    (id : ℕ) (ts : List Task) (t : Task)
    → id < t.id
    → find (has_id id) (ts ++ t ∷ []) ≡ find (has_id id) ts
find-append_last id [] t h = ground arith
find-append_last id (x ∷ ts) t h = ground (arith, find-append_last id ts t)

not_found : (id : ℕ) (ts : List Task) → contains (ids ts) id ≡ false → find (has_id id) ts ≡ none
not_found id [] h = refl
not_found id (t ∷ ts) h = ground (arith, not_found id ts)

find-retain :
    (id remove : ℕ) (ts : List Task)
    → Distinct (ids ts)
    → (find (has_id id) (retain remove ts) ≡ none)
      ⊎ (find (has_id id) (retain remove ts) ≡ find (has_id id) ts)
unfolding retain
find-retain id remove [] d = inl refl
find-retain id zero (t ∷ ts) d = ground (arith, find-retain id zero ts d.1)
find-retain id (suc remove) (t ∷ ts) d = ground (
  arith,
  find-retain id remove ts d.1,
  find-retain id (suc remove) ts d.1,
  not_found id (retain remove ts),
  contains-retain remove ts id,
  d.0,
)

Fate-of_retain :
    (id remove : ℕ) (ts : List Task)
    → Distinct (ids ts)
    → Fate (find (has_id id) ts) (find (has_id id) (retain remove ts))
Fate-of_retain id remove ts d = elim (find-retain id remove ts d) [
  | inl gone ↦ rw gone (gone_Fate (find (has_id id) ts))
  | inr same ↦ rw same (Fate-refl (find (has_id id) ts))
]
  where
    gone_Fate : (o : Option Task) → Fate o none
    gone_Fate none = tt
    gone_Fate (some t) = tt

pub evict-Fate :
    (s : TaskStore) (max_tasks id : ℕ)
    → Inv s
    → Fate (get s id) (get (evict_completed s max_tasks) id)
unfolding evict_completed remove_completed get
evict-Fate s max_tasks id v =
    let remove = length (filter finished s.tasks) - max_tasks in
    elim (Bool-cases (remove == 0)) [
      | inl e ↦ rw e (Fate-refl (get s id))
      | inr e ↦ rw e (rw tasks-reselect (Fate-of_retain id remove s.tasks v.distinct))
    ]

pub merge-Fate :
    (s : TaskStore) (restored : List Task) (id : ℕ)
    → s.next_id + length restored ≤ u64_max
    → id < s.next_id
    → Fate (get s id) (get (merge_restored s restored) id)
unfolding merge_restored get
merge-Fate s restored id room lt =
    let known = map (λ (task : Task). task.record_id) s.tasks in
    let kept = filter (λ (task : Task). not (contains known task.record_id)) restored in
    let few = length-filter-le (λ (task : Task). not (contains known task.record_id)) restored in
    let r = renumber-Renumbered s.next_id kept (omega (arith, few)) in
    rw
      (find-append_missing id (renumber s.next_id kept).0 s.tasks
        (All-mono (λ j from. omega arith) _ r.from))
      (Fate-refl (get s id))

pub appended_Fate :
    (id : ℕ) (ts : List Task) (t : Task)
    → id < t.id
    → Fate (find (has_id id) ts) (find (has_id id) (ts ++ t ∷ []))
appended_Fate id ts t lt = rw (find-append_last id ts t lt) (Fate-refl (find (has_id id) ts))

pub same_tasks_Fate : (s u : TaskStore) (id : ℕ) → u.tasks ≡ s.tasks → Fate (get s id) (get u id)
unfolding get
same_tasks_Fate s u id e = rw e (Fate-refl (get s id))

pub tasks-step_selection :
    (s : TaskStore) (known : List ℕ) (offset : ℤ) → (step_selection s known offset).tasks ≡ s.tasks
unfolding step_selection
tasks-step_selection s known offset = ground arith

pub next_id-update :
    (s : TaskStore) (j : ℕ) (change : Task → Option Task)
    → (update s j change).0.next_id ≡ s.next_id
unfolding write
next_id-update s j change = elim (update-Updated s j change) [
  | missing _ e ↦ rw e refl
  | refused _ _ _ e ↦ rw e refl
  | changed t t' _ _ e ↦ rw e (next_id-mark_dirty (write s j t') j)
]

pub next_id-evict_completed :
    (s : TaskStore) (max_tasks : ℕ) → (evict_completed s max_tasks).next_id ≡ s.next_id
unfolding evict_completed remove_completed
next_id-evict_completed s max_tasks =
    elim (Bool-cases (length (filter finished s.tasks) - max_tasks == 0)) [
      | inl e ↦ rw e refl
      | inr e ↦ rw e (next_id-reselect _)
    ]

pub next_id-step_selection :
    (s : TaskStore) (known : List ℕ) (offset : ℤ)
    → (step_selection s known offset).next_id ≡ s.next_id
unfolding step_selection
next_id-step_selection s known offset = ground arith

pub next_id-merge_restored :
    (s : TaskStore) (restored : List Task)
    → s.next_id + length restored ≤ u64_max
    → s.next_id ≤ (merge_restored s restored).next_id
unfolding merge_restored
next_id-merge_restored s restored room =
    let known = map (λ (task : Task). task.record_id) s.tasks in
    let kept = filter (λ (task : Task). not (contains known task.record_id)) restored in
    let few = length-filter-le (λ (task : Task). not (contains known task.record_id)) restored in
    omega (arith, (renumber-Renumbered s.next_id kept (omega (arith, few))).next_after)
