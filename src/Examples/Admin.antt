-- ===== src/Examples/Admin.antt =====
-- Runs of administrative mutations, src/domain/admin_mutation.rs.
use tale.Prelude.{
  ◌≡◌, refl, Text, codes, text_eq, some, none, arith, List, [], ◌∷◌, true, false, Subsequence, find,
  lookup, put,
}
use tale.Action.Id.{admin_device_delete}
use tale.AdminMutation.Change.{AdminResourceLockKey, device, device_routes}
use tale.AdminMutation.Lifecycle.{
  AdminMutationState, editing, preflighting, conflict_detected, awaiting_confirmation, dispatching,
  verifying, correlating_audit, succeeded, failed, transition, transitions, can_transition,
  terminal, success_needs_preflight,
}
use tale.AdminMutation.Preflight.{compare_preflight, FieldConflict, report, compare_preflight_lem}
use tale.AdminMutation.Locks.{
  AdminResourceLocks, AdminResourceLockLease, has_lock, acquire, drop_lease, lock_key,
}
use tale.AdminMutation.Holding.{drop_lease-acquire}
use tale.AdminMutation.Exclusion.{
  Call, acquires, holds, releases, run, by_try_hold, ask, owner_excludes,
}
use tale.AdminMutation.Batch.{
  BatchTarget, BatchMutation, verified_success, new, record_outcome, has_failures,
}

failed_ended : terminal failed ≡ true
unfolding terminal
failed_ended = refl

abbrev whole_life : List AdminMutationState
whole_life =
    dispatching ∷ preflighting ∷ conflict_detected ∷ preflighting ∷ awaiting_confirmation
    ∷ dispatching ∷ verifying ∷ correlating_audit ∷ succeeded ∷ []

whole_life_succeeds : transitions editing whole_life ≡ succeeded
unfolding transition can_transition
whole_life_succeeds = refl

success_needs_preflight_example :
    Subsequence
      (preflighting ∷ awaiting_confirmation ∷ dispatching ∷ verifying ∷ correlating_audit
        ∷ succeeded ∷ [])
      whole_life
success_needs_preflight_example = success_needs_preflight whole_life whole_life_succeeds

abbrev base_fields : List (Text × Text)
base_fields = (codes "name", codes "old") ∷ []

abbrev fresh_fields : List (Text × Text)
fresh_fields = (codes "name", codes "changed") ∷ []

compare_preflight_lem_example :
    find
      (λ (c : FieldConflict). text_eq c.field (codes "name"))
      (compare_preflight base_fields fresh_fields [])
    ≡ report base_fields fresh_fields [] (codes "name")
compare_preflight_lem_example = compare_preflight_lem base_fields fresh_fields [] (codes "name")

abbrev device_a : AdminResourceLockKey
device_a = record { profile = codes "ops"; kind = device; resource_id = codes "device-a" }

abbrev routes_a : AdminResourceLockKey
routes_a = record { profile = codes "ops"; kind = device_routes; resource_id = codes "device-a" }

abbrev locks : AdminResourceLocks
locks = (device_a, 1) ∷ []

locks-device_a : lookup device_a locks ≡ some 1
unfolding lookup text_eq
locks-device_a = refl

abbrev calls : List Call
calls = acquires 3 (routes_a ∷ device_a ∷ []) ∷ releases 3 ∷ holds 1 (routes_a ∷ []) ∷ []

asked : has_lock device_a (routes_a ∷ device_a ∷ []) ≡ true
unfolding text_eq
asked = refl

owner_excludes_example :
    ask by_try_hold 2 (routes_a ∷ device_a ∷ []) (run locks calls) ≡ (run locks calls, false)
owner_excludes_example =
    owner_excludes 1 2 device_a (routes_a ∷ device_a ∷ []) locks calls by_try_hold (refl, tt)
      locks-device_a (tt, ((λ e. absurd (omega (arith, e))), (tt, tt)))
      (λ e. absurd (omega (arith, e))) asked

abbrev lease : AdminResourceLockLease
lease = record { mutation_id = 2; keys = routes_a ∷ [] }

routes_granted : (acquire 2 (routes_a ∷ []) []).1 ≡ some lease
unfolding acquire lookup
routes_granted = refl

abbrev no_locks : AdminResourceLocks
no_locks = []

nobody :
    (key : AdminResourceLockKey) → has_lock key (routes_a ∷ []) ≡ true → lookup key no_locks ≡ none
unfolding lookup
nobody key h = refl

drop_lease-acquire_example :
    lookup routes_a (drop_lease lease (acquire 2 (routes_a ∷ []) []).0) ≡ lookup routes_a []
drop_lease-acquire_example =
    drop_lease-acquire 2 (routes_a ∷ []) [] lease tt nobody routes_granted routes_a

abbrev batch_targets : List BatchTarget
batch_targets =
    record { target_id = codes "a"; target_label = codes "A"; requested_change = [] }
    ∷ record { target_id = codes "a"; target_label = codes "again"; requested_change = [] }
    ∷ []

abbrev batch : BatchMutation
batch = record_outcome (new 1 admin_device_delete batch_targets 9) (codes "a") verified_success

batch_fine : has_failures batch ≡ false
unfolding has_failures record_outcome new put
batch_fine = refl

abbrev others : List Call
others = acquires 3 (device_a ∷ []) ∷ releases 3 ∷ []
