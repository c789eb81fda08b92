-- ===== src/Examples/Mutations.antt =====
-- Runs of local and administrative mutations, src/domain/mutation.rs and src/domain/admin_mutation.rs.
use tale.Prelude.{ℕ, ◌≡◌, refl, some, none, arith, List, [], ◌∷◌, true, false, All, Subsequence}
use tale.Action.{reversible}
use tale.Action.Id.{local_connect}
use tale.LocalMutation.{
  Mutation, MutationState, editing, preview, awaiting_confirmation, running, verifying, succeeded,
  terminal, can_transition, transition, transitions,
}
use tale.LocalMutation.Lifecycle.{success_needs_confirmation}
use tale.LocalMutation.Lock.{Call, holds, acquires, releases, run, run_excluded, step}

abbrev connecting : Mutation ℕ ℕ
connecting = record {
  id = 3;
  action = local_connect;
  target = 0;
  base_observation = 0;
  request = 0;
  level = reversible;
  state = editing;
}

abbrev all_steps : List MutationState
all_steps =
    preview ∷ awaiting_confirmation ∷ editing ∷ succeeded ∷ preview ∷ awaiting_confirmation
    ∷ running ∷ verifying ∷ succeeded ∷ []

all_steps_succeed : (transitions connecting all_steps).state ≡ succeeded
unfolding transitions transition can_transition
all_steps_succeed = refl

success_needs_confirmation_example :
    Subsequence (awaiting_confirmation ∷ running ∷ verifying ∷ succeeded ∷ []) all_steps
success_needs_confirmation_example =
    success_needs_confirmation connecting all_steps refl all_steps_succeed

abbrev connected : Mutation ℕ ℕ
connected = record connecting { state = succeeded }

connected_ended : terminal connected.state ≡ true
unfolding terminal
connected_ended = refl

abbrev calls : List Call
calls = holds 2 ∷ releases 2 ∷ acquires 4 ∷ []

run_excluded_example :
    ((run (some 1) calls).0 ≡ some 1) × All (λ granted. granted ≡ false) (run (some 1) calls).1
run_excluded_example = run_excluded 1 calls (tt, ((λ e. absurd (omega (arith, e))), (tt, tt)))

free_step : (step none (holds 6)).1 ≡ true
unfolding step
free_step = refl
