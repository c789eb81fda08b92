-- ===== src/Source/Generations.antt =====
-- Late answers to a resource of src/domain/source.rs.
use tale.Prelude.{ℕ, ◌<◌, ◌≡◌}
use tale.Source.{LocalResource, Call, begins, succeeds, fails, marks_stale}

module _ {A : Type 0} (observed_at : A → ℕ) where
  -- Everything but a new request and the answer to request `g` or a later one.
  abbrev pub Idle : ℕ → Call observed_at → Type 0
  Idle g (begins generation attempted_at) = ⊥
  Idle g (succeeds generation snapshot) = generation < g
  Idle g (fails generation failure) = generation < g
  Idle g marks_stale = Unit

  -- What waiting leaves of a resource.
  pub record Waiting (r r' : LocalResource A) : Type 0 where
    pub snapshot : r'.snapshot ≡ r.snapshot
    pub last_success_at : r'.last_success_at ≡ r.last_success_at
    pub failure : r'.failure ≡ r.failure
    pub generation : r'.generation ≡ r.generation
    pub consecutive_failures : r'.consecutive_failures ≡ r.consecutive_failures
