-- ===== src/Source.antt =====
-- What src/domain/source.rs keeps of a source that is asked again and again: the last snapshot, how
-- fresh it is, the last failure and the generation of the request. LocalResource and
-- LocalPreferencesResource have the same operations; they differ in the snapshot, here the
-- parameter `A`, and in where it says when it was observed, here `observed_at`.
pub mod Refinement
pub mod Invariant
pub mod Generations
use tale.Prelude.{
  ℕ, ◌+◌, ◌-◌, ◌^◌, List, [], ◌∷◌, Bool, true, false, ◌&&◌, Option, none, some, String, Text, min,
  ltb, if◌then◌else◌, is_some,
}

pub data LocalFailureKind : Type 0 where
  executable_missing executable_denied unsupported_client daemon_unavailable : LocalFailureKind
  permission_denied needs_login invalid_output timed_out cancelled transport : LocalFailureKind

pub record LocalFailure : Type 0 where
  pub kind : LocalFailureKind
  pub operation : Text
  pub summary : Text
  pub detail : Text
  pub retryable : Bool

pub data LocalResourceStatus : Type 0 where
  never_loaded loading fresh stale failed : LocalResourceStatus

abbrev pub label : LocalResourceStatus → String
label never_loaded = "never loaded"
label loading = "loading"
label fresh = "fresh"
label stale = "stale"
label failed = "failed"

abbrev pub is_fresh : LocalResourceStatus → Bool
is_fresh fresh = true
is_fresh _ = false

-- Rust's `saturating_add(1)` on u32.
abbrev pub u32_max : ℕ
u32_max = 2 ^ 32 - 1

abbrev pub saturating_succ : ℕ → ℕ
saturating_succ n = min (n + 1) u32_max

pub record LocalResource (A : Type 0) : Type 0 where
  pub snapshot : Option A
  pub status : LocalResourceStatus
  pub last_attempt_at : Option ℕ
  pub last_success_at : Option ℕ
  pub failure : Option LocalFailure
  pub generation : ℕ
  pub consecutive_failures : ℕ

module _ {A : Type 0} (observed_at : A → ℕ) where
  abbrev pub new : LocalResource A
  new = record {
    snapshot = none;
    status = never_loaded;
    last_attempt_at = none;
    last_success_at = none;
    failure = none;
    generation = 0;
    consecutive_failures = 0;
  }

  unfoldable pub begin : LocalResource A → ℕ → ℕ → LocalResource A
  begin r generation attempted_at = record r {
    generation = generation;
    last_attempt_at = some attempted_at;
    status = if is_some r.snapshot then r.status else loading;
    failure = none;
  }

  unfoldable pub succeed : LocalResource A → ℕ → A → LocalResource A × Bool
  succeed r generation snapshot = if ltb generation r.generation then (r, false) else (
    record r {
      generation = generation;
      last_success_at = some (observed_at snapshot);
      snapshot = some snapshot;
      status = fresh;
      failure = none;
      consecutive_failures = 0;
    },
    true,
  )

  unfoldable pub fail : LocalResource A → ℕ → LocalFailure → LocalResource A × Bool
  fail r generation failure = if ltb generation r.generation then (r, false) else (
    record r {
      generation = generation;
      status = if is_some r.snapshot then stale else failed;
      consecutive_failures = saturating_succ r.consecutive_failures;
      failure = some failure;
    },
    true,
  )

  unfoldable pub mark_stale : LocalResource A → LocalResource A
  mark_stale r = if is_some r.snapshot && is_fresh r.status then record r { status = stale } else r

  -- One call of the resource, and whether it reports an answer as accepted.
  pub data Call : Type 0 where
    begins : (generation attempted_at : ℕ) → Call
    succeeds : (generation : ℕ) (snapshot : A) → Call
    fails : (generation : ℕ) (failure : LocalFailure) → Call
    marks_stale : Call

  abbrev pub step : LocalResource A → Call → LocalResource A × Bool
  step r (begins generation attempted_at) = (begin r generation attempted_at, false)
  step r (succeeds generation snapshot) = succeed r generation snapshot
  step r (fails generation failure) = fail r generation failure
  step r marks_stale = (mark_stale r, false)

  abbrev pub steps : LocalResource A → List Call → LocalResource A
  steps r [] = r
  steps r (c ∷ cs) = steps (step r c).0 cs
