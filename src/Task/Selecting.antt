-- ===== src/Task/Selecting.antt =====
-- The selection stays on a task, and moves by whole rows within the list.
use tale.Prelude.{
  ℕ, zero, suc, ◌+◌, ◌-◌, ◌≤◌, ◌<◌, ◌≡◌, refl, ap, ◌∙◌, Option, none, some, List, [], ◌∷◌, Bool,
  true, false, arith, contains, filter, length, get_elem?, get_last?, position, ℤ, pos, negsuc, min,
  Text, ◌==◌, inl, inr, is_empty, u64_max, Bool-cases, Distinct,
}
use tale.Task.{Task}
use tale.Task.Store.{TaskStore}
use tale.Task.Selection.{
  moved, current_position, step_selection, select_next, filtered_ids, select_filtered_position,
  select_filtered_last, select_next_filtered,
}
use tale.Task.Updates.{ids}
use tale.Task.Invariant.{IsChosen, Inv}

get_elem?-IsChosen : (known : List ℕ) (i : ℕ) → IsChosen (get_elem? known i) known
get_elem?-IsChosen [] i = tt
get_elem?-IsChosen (x ∷ known) zero = ground arith
get_elem?-IsChosen (x ∷ known) (suc i) = widen (get_elem? known i) (get_elem?-IsChosen known i)
  where
    widen : (o : Option ℕ) → IsChosen o known → IsChosen o (x ∷ known)
    widen none h = tt
    widen (some id) h = ground arith

get_last?-IsChosen : (known : List ℕ) → IsChosen (get_last? known) known
get_last?-IsChosen [] = tt
get_last?-IsChosen (x ∷ []) = ground arith
get_last?-IsChosen (x ∷ y ∷ known) = widen (get_last? (y ∷ known)) (get_last?-IsChosen (y ∷ known))
  where
    widen : (o : Option ℕ) → IsChosen o (y ∷ known) → IsChosen o (x ∷ y ∷ known)
    widen none h = tt
    widen (some id) h = ground arith

pub filter-IsChosen :
    (p : Task → Bool) (ts : List Task) (o : Option ℕ)
    → IsChosen o (ids (filter p ts))
    → IsChosen o (ids ts)
filter-IsChosen p ts none h = tt
filter-IsChosen p ts (some id) h = contains_of_filter ts h
  where
    contains_of_filter :
        (ts : List Task) → contains (ids (filter p ts)) id ≡ true → contains (ids ts) id ≡ true
    contains_of_filter [] h = h
    contains_of_filter (t ∷ ts) h = ground (arith, contains_of_filter ts)

select-Inv :
    (s : TaskStore) (o : Option ℕ)
    → IsChosen o (ids s.tasks)
    → Inv s
    → Inv (record s { selected = o })
select-Inv s o chosen v = record {
  fresh = v.fresh;
  distinct = v.distinct;
  bounded = v.bounded;
  chosen = chosen;
  within = v.within;
}

step_selection-Inv :
    (s : TaskStore) (known : List ℕ) (offset : ℤ)
    → ((o : Option ℕ) → IsChosen o known → IsChosen o (ids s.tasks))
    → Inv s
    → Inv (step_selection s known offset)
unfolding step_selection
step_selection-Inv s known offset widen v = elim (Bool-cases (is_empty known)) [
  | inl e ↦ rw e (select-Inv s none tt v)
  | inr e ↦ rw e (select-Inv s _ (widen _ (get_elem?-IsChosen known _)) v)
]

-- Moving the selection over all tasks keeps it on a task.
pub select_next-Inv : (s : TaskStore) (offset : ℤ) → Inv s → Inv (select_next s offset)
unfolding select_next
select_next-Inv s offset v = step_selection-Inv s (ids s.tasks) offset (λ o h. h) v

module _ (lower : ℕ → Text) where
  filtered_IsChosen :
      (s : TaskStore) (query : Text) (o : Option ℕ)
      → IsChosen o (filtered_ids lower s query)
      → IsChosen o (ids s.tasks)
  unfolding filtered_ids
  filtered_IsChosen s query o h = filter-IsChosen _ s.tasks o h

  -- So does moving it over the tasks that a query finds.
  pub select_next_filtered-Inv :
      (s : TaskStore) (query : Text) (offset : ℤ)
      → Inv s
      → Inv (select_next_filtered lower s query offset)
  unfolding select_next_filtered
  select_next_filtered-Inv s query offset v =
      step_selection-Inv s (filtered_ids lower s query) offset (filtered_IsChosen s query) v

  pub select_filtered_position-Inv :
      (s : TaskStore) (query : Text) (place : ℕ)
      → Inv s
      → Inv (select_filtered_position lower s query place)
  unfolding select_filtered_position
  select_filtered_position-Inv s query place v =
      select-Inv s _
        (filtered_IsChosen s query _ (get_elem?-IsChosen (filtered_ids lower s query) place)) v

  pub select_filtered_last-Inv :
      (s : TaskStore) (query : Text) → Inv s → Inv (select_filtered_last lower s query)
  unfolding select_filtered_last
  select_filtered_last-Inv s query v =
      select-Inv s _ (filtered_IsChosen s query _ (get_last?-IsChosen (filtered_ids lower s query)))
        v

position_of_elem :
    (known : List ℕ) (i id : ℕ)
    → Distinct known
    → get_elem? known i ≡ some id
    → position (λ candidate. candidate == id) known ≡ some i
position_of_elem [] i id d h = cc
position_of_elem (x ∷ known) zero id d h = ground arith
position_of_elem (x ∷ known) (suc i) id d h =
    ground (arith, position_of_elem known i id d.1, elem_contains known i id)
  where
    elem_contains :
        (known : List ℕ) (i id : ℕ) → get_elem? known i ≡ some id → contains known id ≡ true
    elem_contains [] i id h = cc
    elem_contains (x ∷ known) zero id h = ground arith
    elem_contains (x ∷ known) (suc i) id h = ground (arith, elem_contains known i id)

get_elem?-some :
    (known : List ℕ) (i : ℕ) → i < length known → (id : ℕ) × (get_elem? known i ≡ some id)
get_elem?-some [] i h = absurd (omega arith)
get_elem?-some (x ∷ known) zero h = (x, refl)
get_elem?-some (x ∷ known) (suc i) h = get_elem?-some known i (omega arith)

get_elem?-lt : (known : List ℕ) (i id : ℕ) → get_elem? known i ≡ some id → i < length known
get_elem?-lt [] i id h = cc
get_elem?-lt (x ∷ known) zero id h = omega arith
get_elem?-lt (x ∷ known) (suc i) id h = omega (arith, get_elem?-lt known i id h)

current_position-selected :
    (s : TaskStore) (known : List ℕ) (i id : ℕ)
    → Distinct known
    → s.selected ≡ some id
    → get_elem? known i ≡ some id
    → current_position s.selected known ≡ i
unfolding current_position
current_position-selected s known i id d chosen at =
    rw (chosen, current_position) (rw (position_of_elem known i id d at))

nonempty : (known : List ℕ) (i id : ℕ) → get_elem? known i ≡ some id → is_empty known ≡ false
nonempty [] i id h = cc
nonempty (x ∷ known) i id h = refl

selected_row :
    (s : TaskStore) (known : List ℕ) (i id : ℕ) (offset : ℤ)
    → Distinct known
    → s.selected ≡ some id
    → get_elem? known i ≡ some id
    → (step_selection s known offset).selected ≡ get_elem? known (moved i offset (length known))
unfolding step_selection
selected_row s known i id offset d chosen at =
    rw (nonempty known i id at, current_position-selected s known i id d chosen at)

-- In a list of different rows, no more than usize counts, with row `i` selected, moving down by `n` selects row `min (i + n) (last row)`,
-- and moving up by `n + 1` selects row `i - (n + 1)`, or the first. The row is there in both cases.
pub step_selection_row :
    (s : TaskStore) (known : List ℕ) (i id n : ℕ)
    → Distinct known
    → length known ≤ u64_max
    → s.selected ≡ some id
    → get_elem? known i ≡ some id
    → ((down : ℕ) × (get_elem? known (min (i + n) (length known - 1)) ≡ some down)
        × ((step_selection s known (pos n)).selected ≡ some down))
      × ((up : ℕ) × (get_elem? known (i - (n + 1)) ≡ some up)
          × ((step_selection s known (negsuc n)).selected ≡ some up))
unfolding moved
step_selection_row s known i id n d fits chosen at =
    let inside = get_elem?-lt known i id at in
    let clamped : min (min (i + n) u64_max) (length known - 1) ≡ min (i + n) (length known - 1) =
      omega arith in
    let (down, found) = get_elem?-some known (min (i + n) (length known - 1)) (omega arith) in
    let (up, found') = get_elem?-some known (i - (n + 1)) (omega arith) in
    (
      (
        down,
        found,
        selected_row s known i id (pos n) d chosen at ∙ ap (get_elem? known) clamped ∙ found,
      ),
      (up, found', selected_row s known i id (negsuc n) d chosen at ∙ found'),
    )
