-- ===== src/LocalMutation.antt =====
-- src/domain/mutation.rs: a change of the local client, its life from editing to its verified end,
-- and the lock that lets one change run at a time. The mutex makes each method of the lock one step.
pub mod Lock
pub mod Lifecycle
use tale.Prelude.{ℕ, List, [], ◌∷◌, Text, Bool, true, false, Option, none, some, ℤ, if◌then◌else◌}
use tale.Action.{Risk, reversible, disruptive, destructive_or_secret}
use tale.Action.Id.{
  ActionId, local_connect, local_disconnect, local_preferences_edit, local_exit_node_select,
  local_routes_edit_advertisements, local_account_switch, local_account_remove,
  local_syspolicy_reload,
}
use tale.Preference.{PreferenceRequest}
use tale.Route.{ExitNodeRequest, AdvertisementRequest}

pub data MutationState : Type 0 where
  editing preview awaiting_confirmation running verifying succeeded failed cancelled_before_dispatch
        verification_mismatch :
      MutationState

unfoldable pub terminal : MutationState → Bool
terminal succeeded = true
terminal failed = true
terminal cancelled_before_dispatch = true
terminal verification_mismatch = true
terminal _ = false

pub data LocalMutation : Type 0 where
  connect : LocalMutation
  disconnect : Bool → LocalMutation
  preferences : PreferenceRequest → LocalMutation
  exit_node : ExitNodeRequest → LocalMutation
  advertisements : AdvertisementRequest → LocalMutation
  account_switch account_remove : Text → LocalMutation
  syspolicy_reload : LocalMutation

unfoldable pub risk : LocalMutation → Risk
risk (advertisements request) =
    if request.accept_mac_app_connector_risk then disruptive else reversible
risk (disconnect _) = disruptive
risk (account_remove _) = destructive_or_secret
risk _ = reversible

unfoldable pub action_id : LocalMutation → ActionId
action_id connect = local_connect
action_id (disconnect _) = local_disconnect
action_id (preferences _) = local_preferences_edit
action_id (exit_node _) = local_exit_node_select
action_id (advertisements _) = local_routes_edit_advertisements
action_id (account_switch _) = local_account_switch
action_id (account_remove _) = local_account_remove
action_id syspolicy_reload = local_syspolicy_reload

-- The results carry one record each of a summary, a detail and an exit status.
pub record Outcome : Type 0 where
  pub summary : Text
  pub detail : Text
  pub exit_status : Option ℤ

pub data MutationResult : Type 0 where
  verified command_failed cancelled_before_dispatch read_failed verification_mismatch
        outcome_unknown :
      Outcome → MutationResult

unfoldable pub is_success : MutationResult → Bool
is_success (verified _) = true
is_success _ = false

pub record MutationTransitionError : Type 0 where
  pub from : MutationState
  pub to : MutationState

unfoldable pub can_transition : MutationState → MutationState → Bool
can_transition editing preview = true
can_transition editing cancelled_before_dispatch = true
can_transition preview editing = true
can_transition preview awaiting_confirmation = true
can_transition preview cancelled_before_dispatch = true
can_transition awaiting_confirmation running = true
can_transition awaiting_confirmation cancelled_before_dispatch = true
can_transition awaiting_confirmation editing = true
can_transition running verifying = true
can_transition running failed = true
can_transition verifying succeeded = true
can_transition verifying failed = true
can_transition verifying verification_mismatch = true
can_transition _ _ = false

pub record Mutation {ℓ κ} (Target : Type ℓ) (Request : Type κ) : Type (ℓ ⊔ κ) where
  pub id : ℕ
  pub action : ActionId
  pub target : Target
  pub base_observation : Target
  pub request : Request
  pub level : Risk
  pub state : MutationState

module _ {ℓ κ} {Target : Type ℓ} {Request : Type κ} where
  unfoldable pub new : ℕ → ActionId → Target → Request → Risk → Mutation Target Request
  new id action target request level = record {
    id = id;
    action = action;
    target = target;
    base_observation = target;
    request = request;
    level = level;
    state = editing;
  }

  -- The mutation after the call, and the error if it was refused.
  unfoldable pub transition :
      Mutation Target Request
      → MutationState
      → Mutation Target Request × Option MutationTransitionError
  transition m next =
      if can_transition m.state next
      then (record m { state = next }, none)
      else (m, some (record { from = m.state; to = next }))

  -- A sequence of calls, whose refusals are ignored.
  unfoldable pub transitions :
      Mutation Target Request → List MutationState → Mutation Target Request
  transitions m [] = m
  transitions m (next ∷ rest) = transitions (transition m next).0 rest
