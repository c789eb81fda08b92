-- ===== src/Source/Invariant.antt =====
-- What the state of a resource of src/domain/source.rs says of what it holds.
use tale.Prelude.{ℕ, ◌≤◌, ◌≡◌, Bool, true, false, none, List, [], ◌∷◌, is_some, arith, refl}
use tale.Source.{
  LocalResource, LocalResourceStatus, loading, fresh, stale, new, begin, succeed, fail, mark_stale,
  Call, begins, succeeds, fails, marks_stale, step, steps,
}

-- The states in which a snapshot is shown.
abbrev pub shows_snapshot : LocalResourceStatus → Bool
shows_snapshot fresh = true
shows_snapshot stale = true
shows_snapshot _ = false

module _ {A : Type 0} (observed_at : A → ℕ) where
  pub record Inv (r : LocalResource A) : Type 0 where
    pub shown : shows_snapshot r.status ≡ is_some r.snapshot
    pub attempted : r.status ≡ loading → is_some r.last_attempt_at ≡ true
    pub quiet : r.status ≡ fresh → (r.failure ≡ none) × (r.consecutive_failures ≡ 0)
    pub counted : is_some r.failure ≡ true → 1 ≤ r.consecutive_failures

  step-Inv : (r : LocalResource A) (c : Call observed_at) → Inv r → Inv (step observed_at r c).0
  unfolding begin succeed fail mark_stale
  step-Inv r (begins generation attempted_at) h = record {
    shown = ground (arith, h.shown);
    attempted = λ e. refl;
    quiet = ground (arith, h.shown, h.quiet);
    counted = λ e. absurd (ground arith);
  }
  step-Inv r (succeeds generation snapshot) h =
      ground (arith, h.shown, h.attempted, h.quiet, h.counted)
  step-Inv r (fails generation failure) h = ground (arith, h.shown, h.attempted, h.quiet, h.counted)
  step-Inv r marks_stale h = ground (arith, h.shown, h.attempted, h.quiet, h.counted)

  steps-Inv :
      (r : LocalResource A) (cs : List (Call observed_at)) → Inv r → Inv (steps observed_at r cs)
  steps-Inv r [] h = h
  steps-Inv r (c ∷ cs) h = steps-Inv (step observed_at r c).0 cs (step-Inv r c h)

  -- Whatever calls are made of a new resource, it holds a snapshot exactly if its state is fresh or
  -- stale, it is loading only after an attempt, it keeps no failure and counts none while it is
  -- fresh, and a kept failure is counted.
  pub new-Inv : (cs : List (Call observed_at)) → Inv (steps observed_at (new observed_at) cs)
  new-Inv cs = steps-Inv (new observed_at) cs (record {
    shown = refl;
    attempted = λ e. absurd (ground arith);
    quiet = λ e. absurd (ground arith);
    counted = λ e. absurd (ground arith);
  })
