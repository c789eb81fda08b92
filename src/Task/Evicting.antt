-- ===== src/Task/Evicting.antt =====
-- What `evict_completed` removes: the oldest finished tasks, and no more than the limit asks for.
use tale.Prelude.{
  ℕ, zero, suc, ◌-◌, ◌≤◌, ◌<◌, ◌≡◌, refl, ap, Option, none, some, List, [], ◌∷◌, true, false, not,
  arith, All, Distinct, contains, filter, length, drop, inl, inr, is_some, is_some_and, find,
  Bool-cases, ◌==◌, ==_iff, u64_max,
}
use tale.Task.{Task}
use tale.Task.Store.{TaskStore, active, has_id}
use tale.Task.Eviction.{
  finished, retain, selection_lost, reselect, remove_completed, evict_completed,
}
use tale.Task.Updates.{ids}
use tale.Task.Invariant.{IsBounded, IsChosen, Inv}
use tale.Task.Growth.{last_IsChosen}

-- The finished tasks that stay are the newest: the first `remove` of them are dropped.
pub finished-retain :
    (remove : ℕ) (ts : List Task)
    → filter finished (retain remove ts) ≡ drop remove (filter finished ts)
unfolding retain
finished-retain zero [] = refl
finished-retain (suc remove) [] = refl
finished-retain zero (t ∷ ts) = ground (arith, finished-retain zero ts)
finished-retain (suc remove) (t ∷ ts) =
    ground (arith, finished-retain remove ts, finished-retain (suc remove) ts)

-- A task that runs is never dropped.
pub active-retain :
    (remove : ℕ) (ts : List Task)
    → filter (λ t. not (finished t)) (retain remove ts) ≡ filter (λ t. not (finished t)) ts
unfolding retain
active-retain remove [] = refl
active-retain zero (t ∷ ts) = ground (arith, active-retain zero ts)
active-retain (suc remove) (t ∷ ts) =
    ground (arith, active-retain remove ts, active-retain (suc remove) ts)

pub contains-retain :
    (remove : ℕ) (ts : List Task) (k : ℕ)
    → contains (ids ts) k ≡ false
    → contains (ids (retain remove ts)) k ≡ false
unfolding retain
contains-retain remove [] k h = refl
contains-retain zero (t ∷ ts) k h = ground (arith, contains-retain zero ts k)
contains-retain (suc remove) (t ∷ ts) k h =
    ground (arith, contains-retain remove ts k, contains-retain (suc remove) ts k)

Distinct-retain :
    (remove : ℕ) (ts : List Task) → Distinct (ids ts) → Distinct (ids (retain remove ts))
unfolding retain
Distinct-retain remove [] h = tt
Distinct-retain zero (t ∷ ts) h = (contains-retain zero ts t.id h.0, Distinct-retain zero ts h.1)
Distinct-retain (suc remove) (t ∷ ts) h =
    elim (finished t)
      as (λ b.
        Distinct (ids (elim b [ true ↦ retain remove ts | false ↦ t ∷ retain (suc remove) ts ]))) [
          | true ↦ Distinct-retain remove ts h.1
          | false ↦ (contains-retain (suc remove) ts t.id h.0, Distinct-retain (suc remove) ts h.1)
        ]

module _ {ℓ} (P : Task → Type ℓ) where
  pub All-retain : (remove : ℕ) (ts : List Task) → All P ts → All P (retain remove ts)
  unfolding retain
  All-retain remove [] h = tt
  All-retain zero (t ∷ ts) h = (h.0, All-retain zero ts h.1)
  All-retain (suc remove) (t ∷ ts) h =
      elim (finished t)
        as (λ b. All P (elim b [ true ↦ retain remove ts | false ↦ t ∷ retain (suc remove) ts ])) [
          | true ↦ All-retain remove ts h.1
          | false ↦ (h.0, All-retain (suc remove) ts h.1)
        ]

All-ids {ℓ} : (P : ℕ → Type ℓ) (ts : List Task) → All P (ids ts) → All (λ t. P t.id) ts
All-ids P [] h = tt
All-ids P (t ∷ ts) h = (h.0, All-ids P ts h.1)

ids-All {ℓ} : (P : ℕ → Type ℓ) (ts : List Task) → All (λ (t : Task). P t.id) ts → All P (ids ts)
ids-All P [] h = tt
ids-All P (t ∷ ts) h = (h.0, ids-All P ts h.1)

pub tasks-reselect : (s : TaskStore) → (reselect s).tasks ≡ s.tasks
unfolding reselect
tasks-reselect s = ground arith

pub next_id-reselect : (s : TaskStore) → (reselect s).next_id ≡ s.next_id
unfolding reselect
next_id-reselect s = ground arith

found_contains : (ts : List Task) (id : ℕ) → is_some (find (has_id id) ts) ≡ contains (ids ts) id
found_contains [] id = refl
found_contains (t ∷ ts) id = ground (arith, found_contains ts id)

-- What `evict_completed` does, whatever the limit: the newest finished tasks stay, at most as many as
-- the limit, and every task that is not finished stays.
pub record Evicted (s : TaskStore) (max_tasks : ℕ) (r : TaskStore) : Type 0 where
  pub newest :
      filter finished r.tasks
      ≡ drop (length (filter finished s.tasks) - max_tasks) (filter finished s.tasks)
  pub few : length (filter finished r.tasks) ≤ max_tasks
  pub running : active r ≡ active s

length-drop : (n : ℕ) (ts : List Task) → length (drop n ts) ≡ length ts - n
length-drop zero ts = omega arith
length-drop (suc n) [] = omega arith
length-drop (suc n) (t ∷ ts) = omega (arith, length-drop n ts)

remove_completed-Evicted :
    (s : TaskStore) (max_tasks : ℕ)
    → Evicted s max_tasks (remove_completed s (length (filter finished s.tasks) - max_tasks))
unfolding remove_completed active
remove_completed-Evicted s max_tasks =
    let remove = length (filter finished s.tasks) - max_tasks in
    record {
      newest = rw tasks-reselect (finished-retain remove s.tasks);
      few = rw tasks-reselect (
          omega (
            arith,
            ap length (finished-retain remove s.tasks),
            length-drop remove (filter finished s.tasks),
          ));
      running = rw tasks-reselect (active-retain remove s.tasks);
    }

unchanged-Evicted :
    (s : TaskStore) (max_tasks : ℕ)
    → length (filter finished s.tasks) - max_tasks ≡ 0
    → Evicted s max_tasks s
unchanged-Evicted s max_tasks none_over = record {
  newest = rw none_over refl;
  few = omega arith;
  running = refl;
}

-- Eviction, at every limit: what `Evicted` says.
pub evict_completed-Evicted :
    (s : TaskStore) (max_tasks : ℕ) → Evicted s max_tasks (evict_completed s max_tasks)
unfolding evict_completed
evict_completed-Evicted s max_tasks =
    let remove = length (filter finished s.tasks) - max_tasks in
    elim (Bool-cases (remove == 0)) [
      | inl e ↦ rw e (unchanged-Evicted s max_tasks ((==_iff _ _).0 e))
      | inr e ↦ rw e (remove_completed-Evicted s max_tasks)
    ]

kept_IsChosen :
    (o : Option ℕ) (ts : List Task)
    → is_some_and o (λ id. not (is_some (find (has_id id) ts))) ≡ false
    → IsChosen o (ids ts)
kept_IsChosen none ts h = tt
kept_IsChosen (some id) ts h = ground (arith, found_contains ts id)

IsChosen-reselect : (s : TaskStore) → IsChosen (reselect s).selected (ids s.tasks)
unfolding reselect selection_lost
IsChosen-reselect s = elim (Bool-cases (selection_lost s)) [
  | inl lost ↦ rw lost (last_IsChosen s.tasks)
  | inr kept ↦ rw kept (kept_IsChosen s.selected s.tasks kept)
]

reselect-Inv :
    (s : TaskStore)
    → All (λ id. id < s.next_id) (ids s.tasks)
    → Distinct (ids s.tasks)
    → All IsBounded s.tasks
    → s.next_id ≤ u64_max
    → Inv (reselect s)
reselect-Inv s fresh distinct bounded within = record {
  fresh = rw (tasks-reselect s, next_id-reselect s) fresh;
  distinct = rw (tasks-reselect s) distinct;
  bounded = rw (tasks-reselect s) bounded;
  chosen = rw (tasks-reselect s) (IsChosen-reselect s);
  within = rw (next_id-reselect s) within;
}

-- Eviction keeps the store's invariant; where the selected task left, another is selected.
pub evict_completed-Inv :
    (s : TaskStore) (max_tasks : ℕ) → Inv s → Inv (evict_completed s max_tasks)
unfolding evict_completed remove_completed
evict_completed-Inv s max_tasks v =
    let remove = length (filter finished s.tasks) - max_tasks in
    elim (Bool-cases (remove == 0)) [
      | inl e ↦ rw e v
      | inr e ↦ rw e (
          reselect-Inv _ (ids-All _ _ (All-retain _ remove s.tasks (All-ids _ s.tasks v.fresh)))
            (Distinct-retain remove s.tasks v.distinct)
            (All-retain IsBounded remove s.tasks v.bounded) v.within)
    ]
