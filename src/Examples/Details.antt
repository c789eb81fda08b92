-- ===== src/Examples/Details.antt =====
-- Runs of the cuts of src/detail.rs, and names of actions.
use tale.Prelude.{◌<◌, ◌≤◌, ◌≡◌, ◌↔◌, ◌-◌, Text, codes, len, len_utf8, some, arith}
use tale.Detail.{output_truncation_marker, bounded_ends}
use tale.Detail.Bounds.{Kept, bounded_ends-Kept, bounded_ends-len-le}
use tale.Action.Id.{app_quit}
use tale.Action.Names.{as_str, parse}
use tale.Action.Parsing.{parse_iff}

abbrev output : Text
output = codes "first line of the output, and then much more of it"

output_long : 30 < len output
unfolding len len_utf8
output_long = omega arith

marker_short : len output_truncation_marker < 30
unfolding len len_utf8
marker_short = omega arith

bounded_ends-Kept_example :
    (r : Text) × (bounded_ends output 30 ≡ some r)
    × Kept output output_truncation_marker (30 - len output_truncation_marker) r
bounded_ends-Kept_example = bounded_ends-Kept output 30 marker_short output_long

bounded_ends-len-le_example : (r : Text) × (bounded_ends output 30 ≡ some r) × (len r ≤ 30)
bounded_ends-len-le_example = bounded_ends-len-le output 30

parse_iff_example :
    (parse (codes "app.quit") ≡ some app_quit) ↔ (codes "app.quit" ≡ codes (as_str app_quit))
parse_iff_example = parse_iff (codes "app.quit") app_quit
