-- ===== src/AdminMutation/Lifecycle.antt =====
-- The life of an administrative mutation, src/domain/admin_mutation.rs.
use tale.Prelude.{
  ℕ, ◌≤◌, ◌+◌, ◌-◌, ◌≡◌, ◌↔◌, refl, sym, ◌∙◌, Bool, true, false, ◌&&◌, Option, none, some, List, [],
  ◌∷◌, ◌⊎◌, inl, inr, arith, Text, leb, if◌then◌else◌, Bool-cases, Subsequence, ended, both,
  skipped, Subsequence-tail,
}
use tale.Action.{Risk}
use tale.Action.Id.{ActionId}

pub data AdminMutationState : Type 0 where
  editing preflighting conflict_detected awaiting_confirmation dispatching verifying
        correlating_audit succeeded succeeded_unverified partially_succeeded failed
        cancelled_before_dispatch outcome_unknown :
      AdminMutationState

unfoldable pub terminal : AdminMutationState → Bool
terminal succeeded = true
terminal succeeded_unverified = true
terminal partially_succeeded = true
terminal failed = true
terminal cancelled_before_dispatch = true
terminal outcome_unknown = true
terminal _ = false

unfoldable pub can_transition : AdminMutationState → AdminMutationState → Bool
can_transition editing preflighting = true
can_transition editing cancelled_before_dispatch = true
can_transition preflighting conflict_detected = true
can_transition preflighting awaiting_confirmation = true
can_transition preflighting failed = true
can_transition preflighting cancelled_before_dispatch = true
can_transition conflict_detected editing = true
can_transition conflict_detected preflighting = true
can_transition conflict_detected cancelled_before_dispatch = true
can_transition awaiting_confirmation dispatching = true
can_transition awaiting_confirmation editing = true
can_transition awaiting_confirmation cancelled_before_dispatch = true
can_transition dispatching verifying = true
can_transition dispatching failed = true
can_transition dispatching outcome_unknown = true
can_transition verifying correlating_audit = true
can_transition verifying failed = true
can_transition verifying outcome_unknown = true
can_transition correlating_audit succeeded = true
can_transition correlating_audit succeeded_unverified = true
can_transition correlating_audit partially_succeeded = true
can_transition correlating_audit failed = true
can_transition correlating_audit outcome_unknown = true
can_transition _ _ = false

pub record AdminMutationTransitionError : Type 0 where
  pub from : AdminMutationState
  pub to : AdminMutationState

-- The state after the call, and the error if it was refused.
unfoldable pub transition :
    AdminMutationState
    → AdminMutationState
    → AdminMutationState × Option AdminMutationTransitionError
transition state next =
    if can_transition state next
    then (next, none)
    else (state, some (record { from = state; to = next }))

abbrev pub remote_write_preflight_max_age : ℕ
remote_write_preflight_max_age = 30

pub record AdminPreflight {ℓ} (Snapshot : Type ℓ) : Type ℓ where
  pub observed_at : ℕ
  pub snapshot : Snapshot
  pub fields : List (Text × Text)

unfoldable pub is_fresh_at {ℓ} : {Snapshot : Type ℓ} → AdminPreflight Snapshot → ℕ → Bool
is_fresh_at preflight now =
    leb preflight.observed_at now
    && leb (now - preflight.observed_at) remote_write_preflight_max_age

pub record AdminMutation {ℓ κ} (Target : Type ℓ) (Change : Type κ) : Type (ℓ ⊔ κ) where
  pub mutation_id : ℕ
  pub action_id : ActionId
  pub profile : Text
  pub target_id : Text
  pub base_snapshot : Target
  pub change : Change
  pub risk : Risk
  pub preflight : Option (AdminPreflight Target)
  pub state : AdminMutationState

module _ {ℓ κ} {Target : Type ℓ} {Change : Type κ} where
  unfoldable pub new :
      ℕ → Text → Text → Target → Change → ActionId → Risk → AdminMutation Target Change
  new mutation_id profile target_id base_snapshot change action_id risk = record {
    mutation_id = mutation_id;
    action_id = action_id;
    profile = profile;
    target_id = target_id;
    base_snapshot = base_snapshot;
    change = change;
    risk = risk;
    preflight = none;
    state = editing;
  }

  unfoldable pub begin_preflight :
      AdminMutation Target Change
      → AdminMutation Target Change × Option AdminMutationTransitionError
  unfolding transition
  begin_preflight m =
      let (state, error) = transition m.state preflighting in (record m { state = state }, error)

  -- The preflight is stored also when the transition is refused.
  unfoldable pub set_preflight :
      AdminMutation Target Change
      → AdminPreflight Target
      → AdminMutation Target Change × Option AdminMutationTransitionError
  unfolding transition
  set_preflight m preflight =
      let (state, error) = transition m.state awaiting_confirmation in
      (record m { preflight = some preflight; state = state }, error)

-- A preflight is fresh from its observation until thirty seconds later, and at no other time.
pub is_fresh_at_iff {ℓ} :
    {Snapshot : Type ℓ} (preflight : AdminPreflight Snapshot) (now : ℕ)
    → (is_fresh_at preflight now ≡ true)
      ↔ ((preflight.observed_at ≤ now) × (now ≤ preflight.observed_at + 30))
unfolding is_fresh_at
is_fresh_at_iff preflight now = (λ h. (ground arith, ground arith), λ (h₁, h₂). ground arith)

final_state :
    (state next : AdminMutationState) → terminal state ≡ true → can_transition state next ≡ false
unfolding can_transition terminal
final_state state next h = ground arith

-- The state after calls whose refusals are ignored.
abbrev pub transitions : AdminMutationState → List AdminMutationState → AdminMutationState
transitions state [] = state
transitions state (next ∷ calls) = transitions (transition state next).0 calls

-- A mutation that has ended is in the state in which it ended after any further transitions.
pub terminal-transitions :
    (state : AdminMutationState) (calls : List AdminMutationState)
    → terminal state ≡ true
    → transitions state calls ≡ state
unfolding transition
terminal-transitions state [] h = refl
terminal-transitions state (next ∷ calls) h =
    rw (transitions, final_state state next h) (terminal-transitions state calls h)

-- The steps still due before success.
abbrev pub milestones : AdminMutationState → List AdminMutationState
milestones editing =
    preflighting ∷ awaiting_confirmation ∷ dispatching ∷ verifying ∷ correlating_audit ∷ succeeded
    ∷ []
milestones conflict_detected =
    preflighting ∷ awaiting_confirmation ∷ dispatching ∷ verifying ∷ correlating_audit ∷ succeeded
    ∷ []
milestones preflighting =
    awaiting_confirmation ∷ dispatching ∷ verifying ∷ correlating_audit ∷ succeeded ∷ []
milestones awaiting_confirmation = dispatching ∷ verifying ∷ correlating_audit ∷ succeeded ∷ []
milestones dispatching = verifying ∷ correlating_audit ∷ succeeded ∷ []
milestones verifying = correlating_audit ∷ succeeded ∷ []
milestones correlating_audit = succeeded ∷ []
milestones _ = []

milestone_step :
    (from to : AdminMutationState) (rest : List AdminMutationState)
    → can_transition from to ≡ true
    → (to ≡ succeeded) ⊎ (terminal to ≡ false)
    → Subsequence (milestones to) rest
    → Subsequence (milestones from) (to ∷ rest)
unfolding can_transition terminal
milestone_step editing preflighting rest h k s = both s
milestone_step preflighting conflict_detected rest h k s = skipped (Subsequence-tail s)
milestone_step preflighting awaiting_confirmation rest h k s = both s
milestone_step conflict_detected editing rest h k s = skipped s
milestone_step conflict_detected preflighting rest h k s = both s
milestone_step awaiting_confirmation dispatching rest h k s = both s
milestone_step awaiting_confirmation editing rest h k s =
    skipped (Subsequence-tail (Subsequence-tail s))
milestone_step dispatching verifying rest h k s = both s
milestone_step verifying correlating_audit rest h k s = both s
milestone_step correlating_audit succeeded rest h k s = both s
milestone_step _ _ rest h k s = absurd (ground arith)

going_on :
    (next : AdminMutationState) (calls : List AdminMutationState)
    → transitions next calls ≡ succeeded
    → (next ≡ succeeded) ⊎ (terminal next ≡ false)
going_on next calls later = elim (Bool-cases (terminal next)) [
  | inl e ↦ inl (sym (terminal-transitions next calls e) ∙ later)
  | inr e ↦ inr e
]

milestones_met :
    (state : AdminMutationState) (calls : List AdminMutationState)
    → transitions state calls ≡ succeeded
    → Subsequence (milestones state) calls
unfolding transition
milestones_met state [] h = rw h ended
milestones_met state (next ∷ calls) h = elim (Bool-cases (can_transition state next)) [
  | inl e ↦
      let later : transitions next calls ≡ succeeded = (rw (transitions, e) at h) in
      milestone_step state next calls e (going_on next calls later)
        (milestones_met next calls later)
  | inr e ↦ skipped (milestones_met state calls (rw (transitions, e) at h))
]

-- A mutation that starts in editing succeeds only by a preflight, a confirmation, a dispatch, a
-- verification and an audit correlation, in this order, whatever other transitions were asked for.
pub success_needs_preflight :
    (calls : List AdminMutationState)
    → transitions editing calls ≡ succeeded
    → Subsequence
        (preflighting ∷ awaiting_confirmation ∷ dispatching ∷ verifying ∷ correlating_audit
          ∷ succeeded ∷ [])
        calls
success_needs_preflight calls h = milestones_met editing calls h
