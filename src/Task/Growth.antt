-- ===== src/Task/Growth.antt =====
-- New tasks and restored tasks keep the store's invariant while identifiers are left.
use mathlib.Core.List.{map-append}
use tale.Prelude.{
  ℕ, suc, ◌+◌, ◌≤◌, ◌<◌, ◌≡◌, refl, ap, Option, none, some, List, [], ◌∷◌, ◌++◌, map, Bool, not,
  arith, All, All-append, All-mono, All-filter, Distinct, Distinct-append, Apart, contains,
  contains-append, contains_above, contains_below, Text, len, filter, u64_max, saturating_add,
  length, length-filter-le,
}
use tale.Action.Id.{ActionId}
use tale.Task.{Task}
use tale.Task.Store.{TaskStore, create, renumber, merge_restored, or_last}
use tale.Task.Updates.{ids}
use tale.Task.Invariant.{IsBounded, IsChosen, IsChosen-append, Inv}

ids-append : (ts us : List Task) → ids (ts ++ us) ≡ ids ts ++ ids us
ids-append ts us = map-append (λ (task : Task). task.id) ts us

Apart-above : (xs : List ℕ) (n : ℕ) → All (λ x. x < n) xs → Apart xs (n ∷ [])
Apart-above xs n = All-mono (λ x h. ground arith) xs

-- While an identifier is left, a new task keeps the invariant.
pub create-Inv :
    (s : TaskStore) (record_id : ℕ) (action_id : ActionId) (target_label : Text) (started_at : ℕ)
    (cancellable : Bool)
    → s.next_id < u64_max
    → Inv s
    → Inv (create s record_id action_id target_label started_at cancellable).0
unfolding create len
create-Inv s record_id action_id target_label started_at cancellable room v = record {
  fresh = rw (ids-append s.tasks) (
      All-append _ (ids s.tasks) (s.next_id ∷ [])
        (All-mono (λ id h. omega arith) (ids s.tasks) v.fresh) (omega arith, tt));
  distinct = rw (ids-append s.tasks) (
      Distinct-append (ids s.tasks) (s.next_id ∷ []) v.distinct (refl, tt)
        (Apart-above (ids s.tasks) s.next_id v.fresh));
  bounded = All-append IsBounded s.tasks _ v.bounded (omega arith, tt);
  chosen = rw (ids-append s.tasks) (pick s.selected v.chosen);
  within = omega arith;
}
  where
    pick :
        (chosen : Option ℕ)
        → IsChosen chosen (ids s.tasks)
        → IsChosen
            (elim chosen [ none ↦ some s.next_id | some id ↦ some id ])
            (ids s.tasks ++ s.next_id ∷ [])
    pick none h = ground (arith, contains-append (ids s.tasks) (s.next_id ∷ []) s.next_id)
    pick (some id) h = IsChosen-append (some id) (ids s.tasks) (s.next_id ∷ []) h

next_saturated : (next : ℕ) → next < u64_max → saturating_add next 1 ≡ suc next
next_saturated next h = omega arith

-- Renumbered tasks take the numbers from the next one on, in order.
pub record Renumbered (next : ℕ) (ts : List Task) (r : List Task × ℕ) : Type 0 where
  pub next_after : r.1 ≡ next + length ts
  pub from : All (λ id. next ≤ id) (ids r.0)
  pub below : All (λ id. id < next + length ts) (ids r.0)
  pub distinct : Distinct (ids r.0)

pub renumber-Renumbered :
    (next : ℕ) (ts : List Task) → next + length ts ≤ u64_max → Renumbered next ts (renumber next ts)
unfolding renumber
renumber-Renumbered next [] room = record {
  next_after = omega arith;
  from = tt;
  below = tt;
  distinct = tt;
}
renumber-Renumbered next (t ∷ ts) room =
    let rest = renumber-Renumbered (suc next) ts (omega arith) in
    rw (next_saturated next (omega arith)) (record {
      next_after = omega (arith, rest.next_after);
      from = (omega arith, All-mono (λ id h. omega arith) _ rest.from);
      below = (omega arith, All-mono (λ id h. omega arith) _ rest.below);
      distinct = (contains_below _ next (suc next) rest.from (omega arith), rest.distinct);
    })

renumber-IsBounded :
    (next : ℕ) (ts : List Task) → All IsBounded ts → All IsBounded (renumber next ts).0
unfolding renumber
renumber-IsBounded next [] h = tt
renumber-IsBounded next (t ∷ ts) h = (h.0, renumber-IsBounded (saturating_add next 1) ts h.1)

pub last_IsChosen : (ts : List Task) → IsChosen (or_last none ts) (ids ts)
last_IsChosen [] = tt
last_IsChosen (t ∷ []) = ground arith
last_IsChosen (t ∷ u ∷ ts) = ground (arith, last_IsChosen (u ∷ ts))

IsChosen-or_last :
    (chosen : Option ℕ) (more ts : List Task)
    → IsChosen chosen (ids ts)
    → IsChosen (or_last chosen (more ++ ts)) (ids (more ++ ts))
IsChosen-or_last none more ts h = last_IsChosen (more ++ ts)
IsChosen-or_last (some id) more ts h = ground (
  arith,
  ap (λ known. contains known id) (ids-append more ts),
  contains-append (ids more) (ids ts) id,
)

-- Merging restored tasks keeps the invariant while enough identifiers are left for all of them and
-- their details are within the cap.
pub merge_restored-Inv :
    (s : TaskStore) (restored : List Task)
    → s.next_id + length restored ≤ u64_max
    → All IsBounded restored
    → Inv s
    → Inv (merge_restored s restored)
unfolding merge_restored
merge_restored-Inv s restored room bounded v =
    let known = map (λ (task : Task). task.record_id) s.tasks in
    let kept = filter (λ (task : Task). not (contains known task.record_id)) restored in
    let fresh = renumber s.next_id kept in
    let few = length-filter-le (λ (task : Task). not (contains known task.record_id)) restored in
    let r = renumber-Renumbered s.next_id kept (omega (arith, few)) in
    record {
      fresh = rw (ids-append fresh.0 s.tasks) (
          All-append _ (ids fresh.0) (ids s.tasks)
            (All-mono (λ id h. omega (arith, r.next_after)) _ r.below)
            (All-mono (λ id h. omega (arith, r.next_after)) _ v.fresh));
      distinct = rw (ids-append fresh.0 s.tasks) (
          Distinct-append (ids fresh.0) (ids s.tasks) r.distinct v.distinct (
            All-mono
              (λ id from.
                contains_above (ids s.tasks) id (All-mono (λ old h. omega arith) _ v.fresh))
              _ r.from));
      bounded =
          All-append IsBounded fresh.0 s.tasks
            (renumber-IsBounded s.next_id kept (All-filter IsBounded _ restored bounded)) v.bounded;
      chosen = IsChosen-or_last s.selected fresh.0 s.tasks v.chosen;
      within = omega (arith, r.next_after, few);
    }
