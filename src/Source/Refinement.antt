-- ===== src/Source/Refinement.antt =====
-- A resource of src/domain/source.rs against the history of the answers it has accepted.
use tale.Prelude.{ℕ, suc, ◌≡◌, Option, none, some, List, [], ◌∷◌, min, if◌then◌else◌, arith, refl}
use tale.Source.{
  LocalResource, u32_max, new, begin, succeed, fail, mark_stale, Call, begins, succeeds, fails,
  marks_stale, step, steps,
}

-- An accepted answer is a snapshot or a failure; the latest stands first.
abbrev pub latest : {A : Type 0} → List (Option A) → Option A
latest [] = none
latest (none ∷ h) = latest h
latest (some a ∷ h) = some a

-- The failures since the latest snapshot.
abbrev pub failures : {A : Type 0} → List (Option A) → ℕ
failures [] = 0
failures (none ∷ h) = suc (failures h)
failures (some a ∷ h) = 0

module _ {A : Type 0} (observed_at : A → ℕ) where
  abbrev pub recorded : Call observed_at → List (Option A) → List (Option A)
  recorded (succeeds generation snapshot) h = some snapshot ∷ h
  recorded (fails generation failure) h = none ∷ h
  recorded _ h = h

  -- The history of a run: what each accepted answer said.
  abbrev pub history : LocalResource A → List (Call observed_at) → List (Option A) → List (Option A)
  history r [] h = h
  history r (c ∷ cs) h =
      history (step observed_at r c).0 cs (if (step observed_at r c).1 then recorded c h else h)

  abbrev pub map_observed : Option A → Option ℕ
  map_observed none = none
  map_observed (some a) = some (observed_at a)

  pub record Represents (r : LocalResource A) (h : List (Option A)) : Type 0 where
    pub snapshot : r.snapshot ≡ latest h
    pub last_success_at : r.last_success_at ≡ map_observed (latest h)
    pub consecutive_failures : r.consecutive_failures ≡ min (failures h) u32_max

  step-Represents :
      (r : LocalResource A) (h : List (Option A)) (c : Call observed_at)
      → Represents r h
      → Represents (step observed_at r c).0 (if (step observed_at r c).1 then recorded c h else h)
  unfolding begin succeed fail mark_stale
  step-Represents r h (begins generation attempted_at) p = record {
    snapshot = p.snapshot;
    last_success_at = p.last_success_at;
    consecutive_failures = p.consecutive_failures;
  }
  step-Represents r h (succeeds generation snapshot) p =
      ground (arith, p.snapshot, p.last_success_at, p.consecutive_failures)
  step-Represents r h (fails generation failure) p =
      ground (arith, p.snapshot, p.last_success_at, p.consecutive_failures)
  step-Represents r h marks_stale p =
      ground (arith, p.snapshot, p.last_success_at, p.consecutive_failures)

  steps-Represents :
      (r : LocalResource A) (h : List (Option A)) (cs : List (Call observed_at))
      → Represents r h
      → Represents (steps observed_at r cs) (history r cs h)
  steps-Represents r h [] p = p
  steps-Represents r h (c ∷ cs) p =
      steps-Represents (step observed_at r c).0
        (if (step observed_at r c).1 then recorded c h else h) cs (step-Represents r h c p)

  -- After any calls a resource holds the snapshot that it accepted last, with the time at which
  -- that was observed, and counts the failures accepted since, up to the largest u32.
  pub new-Represents :
      (cs : List (Call observed_at))
      → Represents (steps observed_at (new observed_at) cs) (history (new observed_at) cs [])
  new-Represents cs =
      steps-Represents (new observed_at) [] cs
        (record { snapshot = refl; last_success_at = refl; consecutive_failures = ground arith })
