-- ===== src/Examples/Sources.antt =====
-- Runs of a resource, src/domain/source.rs. A snapshot is its time and a number.
use tale.Prelude.{ℕ, List, [], ◌∷◌, true, codes}
use tale.Source.{
  LocalResource, LocalFailure, timed_out, new, Call, begins, succeeds, fails, marks_stale, steps,
}
use tale.Source.Refinement.{Represents, history, new-Represents}
use tale.Source.Invariant.{Inv, new-Inv}

abbrev Snapshot : Type 0
Snapshot = ℕ × ℕ

abbrev observed_at : Snapshot → ℕ
observed_at s = s.0

abbrev late : LocalFailure
late = record {
  kind = timed_out;
  operation = codes "status";
  summary = codes "timed out";
  detail = codes "";
  retryable = true;
}

abbrev calls : List (Call observed_at)
calls =
    begins 1 100
    ∷ succeeds 1 (101, 7)
    ∷ begins 2 110
    ∷ fails 2 late
    ∷ begins 3 120
    ∷ succeeds 2 (111, 8)
    ∷ fails 3 late
    ∷ []

new-Represents_example :
    Represents observed_at
      (steps observed_at (new observed_at) calls)
      (history observed_at (new observed_at) calls [])
new-Represents_example = new-Represents observed_at calls

new-Inv_example : Inv observed_at (steps observed_at (new observed_at) calls)
new-Inv_example = new-Inv observed_at calls

abbrev loaded : LocalResource Snapshot
loaded = steps observed_at (new observed_at) calls

abbrev idle_calls : List (Call observed_at)
idle_calls = succeeds 3 (121, 9) ∷ marks_stale ∷ fails 2 late ∷ []
