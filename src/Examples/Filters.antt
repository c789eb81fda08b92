-- ===== src/Examples/Filters.antt =====
-- Filters and devices, src/domain/filter.rs and src/domain/device.rs.
use tale.Prelude.{
  ℕ, ◌≤◌, ◌≡◌, ◌↔◌, refl, List, [], ◌∷◌, true, false, none, some, Text, codes, len, len_utf8,
  char_indices_from, slice_to, slice_from, map, ok, err, arith, text_eq, All,
}
use tale.Matching.{to_ascii_lowercase, starts_with}
use tale.Device.{Device, AdminDevice, to_display_device}
use tale.Device.Composition.{compose_exact_id}
use tale.Device.Counting.{admin_passes, count_by, compose_exact_id-count}
use tale.Device.Correspondence.{locals_of, Corresponds, compose_exact_id-Corresponds}
use tale.Filter.Schema.{on_tag, on_property, on_approval}
use tale.Filter.Views.{device_schema}
use tale.Filter.Tokens.{unclosed_quote, tokenize, token_spans, lex_step}
use tale.Filter.Terms.{
  comparison_parts, split_once, split_values, split_step, last_value, normalize_value, FilterTerm,
  text_term, field_term, structured_term,
}
use tale.Filter.Parser.{
  parse, parse_terms, parse_term, parse_body, parse_field, parse_values, parse_structured,
  parse_comparison,
}
use tale.Filter.Durations.{parse_filter_duration}
use tale.Filter.Reads.{IsDuration, parse_filter_duration_iff}
use tale.Filter.Reading.{token_of}
use tale.Filter.Spans.{Chain, Sliceable, token_spans-Chain}
use tale.Filter.Agreement.{tokenize-token_spans}
use tale.Filter.Errors.{parse-position-le}
use tale.Filter.Quoting.{in_quotes}
use tale.Filter.QuotedTerms.{parse-in_quotes}
use tale.Filter.Evaluation.{requires_now, matches, matches_with_dns}
use tale.Filter.Administration.{matches_admin, matches_admin_term}
use tale.Filter.Clock.{requires_now_sound}
use tale.Filter.Records.{RoutesReturned, matches-to_display_device}

-- A lower case of texts and of characters that leaves them as they are.
abbrev same_text : Text → Text
same_text v = v

abbrev lower : ℕ → Text
lower c = c ∷ []

abbrev input : Text
input = codes "web \"a b\" tag:prod"

abbrev input_tokens : List (Text × ℕ)
input_tokens = (codes "web", 0) ∷ (codes "\"a b\"", 4) ∷ (codes "tag:prod", 10) ∷ []

abbrev input_terms : List FilterTerm
input_terms =
    text_term (codes "web")
    ∷ text_term (codes "a b")
    ∷ field_term on_tag false (codes "prod" ∷ []) none
    ∷ []

token_spans-Chain_example :
    Chain 0 (token_spans input) (len input) × Sliceable input (token_spans input)
token_spans-Chain_example = token_spans-Chain input

tokenized_input : tokenize input ≡ ok input_tokens
unfolding tokenize lex_step char_indices_from len len_utf8
tokenized_input = refl

tokenize-token_spans_example : input_tokens ≡ map (token_of input) (token_spans input)
tokenize-token_spans_example = tokenize-token_spans input input_tokens tokenized_input

parsed_input : parse same_text input device_schema ≡ ok input_terms
unfolding parse parse_terms parse_term parse_body parse_field parse_values parse_structured
    parse_comparison parse_filter_duration comparison_parts split_once split_values split_step
    last_value normalize_value tokenize lex_step char_indices_from len len_utf8 slice_to slice_from
    text_eq to_ascii_lowercase
parsed_input = refl

abbrev unfinished : Text
unfinished = codes "tag:\"prod"

rejected_unfinished : parse same_text unfinished device_schema ≡ err (unclosed_quote 8)
unfolding parse tokenize lex_step char_indices_from len len_utf8
rejected_unfinished = refl

parse-position-le_example : 8 ≤ len unfinished
parse-position-le_example =
    parse-position-le same_text unfinished device_schema (unclosed_quote 8) rejected_unfinished

parse_filter_duration_iff_example :
    (parse_filter_duration (codes "7d") ≡ some 604800) ↔ IsDuration (codes "7d") 604800
parse_filter_duration_iff_example = parse_filter_duration_iff (codes "7d") 604800

abbrev written : List Text
written = codes "say \"hi\"" ∷ codes "!x" ∷ []

parse-in_quotes_example :
    parse same_text (in_quotes written) device_schema
    ≡ ok (map (λ v. text_term (same_text v)) written)
parse-in_quotes_example = parse-in_quotes same_text device_schema written (refl, (refl, tt))

-- A quote that is escaped in the value of a field makes the parser miss a closing quote.
rejected_escape : parse same_text (codes "name:\"a\\\"b\"") device_schema ≡ err (unclosed_quote 5)
unfolding parse parse_terms parse_term parse_body parse_field parse_values parse_structured
    parse_comparison parse_filter_duration comparison_parts split_once split_values split_step
    last_value normalize_value tokenize lex_step char_indices_from len len_utf8 slice_to slice_from
    text_eq to_ascii_lowercase
rejected_escape = refl

abbrev pub record_of : Text → Text → AdminDevice
record_of id name = record {
  stable_id = id;
  legacy_id = none;
  node_id = some id;
  addresses = [];
  user_id = none;
  name = some name;
  hostname = none;
  client_version = none;
  update_available = none;
  os = none;
  created_at = none;
  connected_to_control = some true;
  last_seen = some 100;
  key_expiry_disabled = none;
  expires_at = some 500;
  authorized = some true;
  is_external = none;
  multiple_connections = none;
  advertised_routes_returned = true;
  advertised_routes = codes "0.0.0.0/0" ∷ [];
  enabled_routes_returned = false;
  enabled_routes = [];
  tags = codes "tag:prod" ∷ [];
  is_ephemeral = none;
  ssh_enabled = some true;
  posture_present = none;
  source_observed_at = 200;
}

abbrev admin_device : AdminDevice
admin_device = record_of (codes "n1") (codes "web.example.ts.net")

abbrev device : Device
device = to_display_device admin_device

abbrev stable_terms : List FilterTerm
stable_terms =
    field_term on_approval true (codes "pending" ∷ []) none
    ∷ structured_term on_tag false (codes "tag") starts_with
    ∷ []

requires_now_sound_example :
    (matches_with_dns lower stable_terms device none 300
      ≡ matches_with_dns lower stable_terms device none 900)
    × (matches_admin lower stable_terms admin_device 300
        ≡ matches_admin lower stable_terms admin_device 900)
unfolding requires_now
requires_now_sound_example =
    requires_now_sound lower stable_terms device admin_device none 300 900 refl

admin_device-RoutesReturned : RoutesReturned admin_device
admin_device-RoutesReturned = record {
  advertised = λ e. absurd (ground arith);
  enabled = λ e. refl;
}

matches-to_display_device_example :
    matches lower (field_term on_property true (codes "exit-node" ∷ []) none) device none 300
    ≡ matches_admin_term lower
        (field_term on_property true (codes "exit-node" ∷ []) none)
        admin_device
        300
unfolding to_ascii_lowercase
matches-to_display_device_example =
    matches-to_display_device lower on_property true (codes "exit-node" ∷ []) admin_device none 300
      refl admin_device-RoutesReturned (refl, tt)

-- Local devices, each its identifier.
abbrev locals : List Text
locals = codes "n2" ∷ codes "n1" ∷ []

abbrev admin_devices : List AdminDevice
admin_devices = admin_device ∷ record_of (codes "n3") (codes "db") ∷ []

compose_exact_id-count_example :
    count_by
      (admin_passes same_text (λ d. text_eq d.stable_id (codes "n3")))
      (compose_exact_id same_text locals admin_devices)
    ≡ count_by (λ d. text_eq d.stable_id (codes "n3")) admin_devices
compose_exact_id-count_example =
    compose_exact_id-count same_text (λ d. text_eq d.stable_id (codes "n3")) locals admin_devices

compose_exact_id-Corresponds_example :
    (locals_of same_text (compose_exact_id same_text locals admin_devices) ≡ locals)
    × All (Corresponds same_text) (compose_exact_id same_text locals admin_devices)
compose_exact_id-Corresponds_example = compose_exact_id-Corresponds same_text locals admin_devices
