-- ===== src/Examples/Searches.antt =====
-- Runs of the searches of src/domain/filter.rs, where letters have no other case.
use tale.Prelude.{ℕ, ◌≡◌, ◌↔◌, Text, codes, [], ◌∷◌, true, Subsequence}
use tale.Matching.{contains_matches, fuzzy_matches}
use tale.Matching.Substrings.{Alike, Occurs, contains_matches_lem}
use tale.Matching.Fuzzy.{fuzzy_matches_lem}

abbrev same_case : ℕ → Text
same_case c = c ∷ []

contains_matches_lem_example :
    (contains_matches same_case (codes "My Laptop") (codes "laptop") ≡ true)
    ↔ Occurs same_case (codes "My Laptop") (codes "laptop")
contains_matches_lem_example = contains_matches_lem same_case (codes "My Laptop") (codes "laptop")

fuzzy_matches_lem_example : (fuzzy_matches same_case (codes "My Laptop") (codes "mltp") ≡ true) ↔ (
    (found : Text) × Subsequence found (codes "My Laptop") × Alike same_case found (codes "mltp"))
fuzzy_matches_lem_example = fuzzy_matches_lem same_case (codes "My Laptop") (codes "mltp")
