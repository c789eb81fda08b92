-- ===== src/LocalMutation/Lifecycle.antt =====
-- The life of a local mutation.
use tale.Prelude.{
  ◌≡◌, refl, true, false, List, [], ◌∷◌, arith, ◌⊎◌, inl, inr, if◌then◌else◌, Bool-cases,
  Subsequence, ended, both, skipped, Subsequence-tail, sym, subst, ◌∙◌, ap,
}
use tale.LocalMutation.{
  MutationState, editing, preview, awaiting_confirmation, running, verifying, succeeded, terminal,
  can_transition, Mutation, transition, transitions, LocalMutation, connect, action_id,
}
use tale.Action.Kinds.{needs_local_verification, is_mutating}

-- The state that calls of `transition` lead to.
advance : MutationState → List MutationState → MutationState
advance state [] = state
advance state (next ∷ calls) = advance (if can_transition state next then next else state) calls

module _ {ℓ κ} {Target : Type ℓ} {Request : Type κ} where
  accepted :
      (m : Mutation Target Request) (next : MutationState)
      → can_transition m.state next ≡ true
      → (transition m next).0 ≡ record m { state = next }
  unfolding transition
  accepted m next e = rw e

  refused :
      (m : Mutation Target Request) (next : MutationState)
      → can_transition m.state next ≡ false
      → (transition m next).0 ≡ m
  unfolding transition
  refused m next e = rw e

  state-transitions :
      (m : Mutation Target Request) (calls : List MutationState)
      → (transitions m calls).state ≡ advance m.state calls
  unfolding transitions advance
  state-transitions m [] = refl
  state-transitions m (next ∷ calls) = elim (Bool-cases (can_transition m.state next)) [
    | inl e ↦
        ap (λ (k : Mutation Target Request). (transitions k calls).state) (accepted m next e)
        ∙ state-transitions (record m { state = next }) calls
        ∙ ap (λ b. advance (if b then next else m.state) calls) (sym e)
    | inr e ↦
        ap (λ (k : Mutation Target Request). (transitions k calls).state) (refused m next e)
        ∙ state-transitions m calls
        ∙ ap (λ b. advance (if b then next else m.state) calls) (sym e)
  ]

final_state :
    (state next : MutationState) → terminal state ≡ true → can_transition state next ≡ false
unfolding can_transition terminal
final_state state next h = ground arith

advance_final :
    (state : MutationState) (calls : List MutationState)
    → terminal state ≡ true
    → advance state calls ≡ state
unfolding advance
advance_final state [] h = refl
advance_final state (next ∷ calls) h = rw (final_state state next h) (advance_final state calls h)

-- A mutation that has ended stays as it ended, whatever is called.
pub transitions_final {ℓ κ} :
    {Target : Type ℓ} {Request : Type κ} (m : Mutation Target Request) (calls : List MutationState)
    → terminal m.state ≡ true
    → transitions m calls ≡ m
unfolding transitions transition
transitions_final m [] h = refl
transitions_final m (next ∷ calls) h = rw (final_state m.state next h) (transitions_final m calls h)

-- The steps that a mutation in a given state still has before it succeeds.
abbrev milestones : MutationState → List MutationState
milestones editing = awaiting_confirmation ∷ running ∷ verifying ∷ succeeded ∷ []
milestones preview = awaiting_confirmation ∷ running ∷ verifying ∷ succeeded ∷ []
milestones awaiting_confirmation = running ∷ verifying ∷ succeeded ∷ []
milestones running = verifying ∷ succeeded ∷ []
milestones verifying = succeeded ∷ []
milestones _ = []

milestone_step :
    (from to : MutationState) (rest : List MutationState)
    → can_transition from to ≡ true
    → (to ≡ succeeded) ⊎ (terminal to ≡ false)
    → Subsequence (milestones to) rest
    → Subsequence (milestones from) (to ∷ rest)
unfolding can_transition terminal
milestone_step editing preview rest h k s = skipped s
milestone_step preview editing rest h k s = skipped s
milestone_step preview awaiting_confirmation rest h k s = both s
milestone_step awaiting_confirmation running rest h k s = both s
milestone_step awaiting_confirmation editing rest h k s = skipped (Subsequence-tail s)
milestone_step running verifying rest h k s = both s
milestone_step verifying succeeded rest h k s = both s
milestone_step _ _ rest h k s = absurd (ground arith)

advance-milestones :
    (state : MutationState) (calls : List MutationState)
    → advance state calls ≡ succeeded
    → Subsequence (milestones state) calls
unfolding advance terminal
advance-milestones state [] h = rw h ended
advance-milestones state (next ∷ calls) h = elim (Bool-cases (can_transition state next)) [
  | inl e ↦
      let later : advance next calls ≡ succeeded = (rw e at h) in
      milestone_step state next calls e (going_on next calls later)
        (advance-milestones next calls later)
  | inr e ↦ skipped (advance-milestones state calls (rw e at h))
]
  where
    going_on :
        (next : MutationState) (calls : List MutationState)
        → advance next calls ≡ succeeded
        → (next ≡ succeeded) ⊎ (terminal next ≡ false)
    going_on next calls later = elim (Bool-cases (terminal next)) [
      | inl e ↦ inl (sym (advance_final next calls e) ∙ later)
      | inr e ↦ inr e
    ]

-- A mutation that starts in editing succeeds only if it was confirmed, ran, was verified and then
-- succeeded, in this order, whatever other calls were made between.
pub success_needs_confirmation {ℓ κ} :
    {Target : Type ℓ} {Request : Type κ} (m : Mutation Target Request) (calls : List MutationState)
    → m.state ≡ editing
    → (transitions m calls).state ≡ succeeded
    → Subsequence (awaiting_confirmation ∷ running ∷ verifying ∷ succeeded ∷ []) calls
success_needs_confirmation m calls start done = advance-milestones editing calls (
    subst (λ state. advance state calls ≡ succeeded) start (sym (state-transitions m calls) ∙ done))

-- Each action of a local mutation is one that is verified against the local client, and mutates.
pub action_id_verified :
    (m : LocalMutation)
    → (needs_local_verification (action_id m) ≡ true) × (is_mutating (action_id m) ≡ true)
unfolding action_id is_mutating
action_id_verified connect = (refl, refl)
action_id_verified _ = (refl, refl)
