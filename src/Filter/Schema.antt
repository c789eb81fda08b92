-- ===== src/Filter/Schema.antt =====
-- The fields that each view filters on, src/domain/filter.rs.
use tale.Prelude.{
  join, ℕ, List, [], ◌∷◌, ◌++◌, Bool, false, ◌||◌, Option, String, Text, codes, is_empty, find,
  text_eq, map, ◌==◌,
}
use tale.Matching.{to_ascii_lowercase}

pub data FilterOperator : Type 0 where
  match_op starts_with_op less_than less_or_equal greater_than greater_or_equal : FilterOperator

abbrev pub syntax : FilterOperator → Text
syntax match_op = codes ""
syntax starts_with_op = codes "starts_with="
syntax less_than = codes "<"
syntax less_or_equal = codes "<="
syntax greater_than = codes ">"
syntax greater_or_equal = codes ">="

abbrev pub operator_description : FilterOperator → String
operator_description match_op = "substring"
operator_description starts_with_op = "prefix"
operator_description less_than = "newer than"
operator_description less_or_equal = "newer or equal"
operator_description greater_than = "older than"
operator_description greater_or_equal = "older or equal"

abbrev pub operator_code : FilterOperator → ℕ
operator_code match_op = 0
operator_code starts_with_op = 1
operator_code less_than = 2
operator_code less_or_equal = 3
operator_code greater_than = 4
operator_code greater_or_equal = 5

-- `contains` on the operators of a field; the derived equality compares the variants.
abbrev pub allows : List FilterOperator → FilterOperator → Bool
allows [] operator = false
allows (o ∷ operators) operator =
    operator_code o == operator_code operator || allows operators operator

pub data FilterField : Type 0 where
  on_id on_name on_online on_owner on_os on_path on_tag on_last_seen on_property : FilterField
  on_approval on_key_expiry on_client_version on_sharing on_posture on_route_role : FilterField
  on_exposure on_listener on_port on_mount on_backend : FilterField

pub data FilterValueKind : Type 0 where
  enumeration : List Text → FilterValueKind
  snapshot duration : FilterValueKind

pub record FilterFieldSpec : Type 0 where
  pub name : Text
  pub field : FilterField
  pub operators : List FilterOperator
  pub value_kind : FilterValueKind
  pub description : Text

abbrev pub allowed_values : FilterFieldSpec → List Text
allowed_values s = elim s.value_kind [ enumeration values ↦ values | snapshot ↦ [] | duration ↦ [] ]

abbrev pub expected_syntax : FilterFieldSpec → Text
expected_syntax s = elim s.value_kind [
  | enumeration values ↦ s.name ++ (codes ":" ++ join values (codes "|"))
  | snapshot ↦ s.name ++ codes ":<text>"
  | duration ↦ s.name ++ codes ":<7d"
]

pub record FilterFieldGroup : Type 0 where
  pub label : Text
  pub fields : List FilterFieldSpec

pub record FilterSchema : Type 0 where
  pub free_text : Text
  pub groups : List FilterFieldGroup

abbrev pub grouped_fields : List FilterFieldGroup → List FilterFieldSpec
grouped_fields [] = []
grouped_fields (group ∷ groups) = group.fields ++ grouped_fields groups

abbrev pub fields : FilterSchema → List FilterFieldSpec
fields schema = grouped_fields schema.groups

-- `str::eq_ignore_ascii_case`.
abbrev pub text_eq_ignore_ascii_case : Text → Text → Bool
text_eq_ignore_ascii_case v w = text_eq (map to_ascii_lowercase v) (map to_ascii_lowercase w)

abbrev pub field : FilterSchema → Text → Option FilterFieldSpec
field schema name = find (λ s. text_eq_ignore_ascii_case s.name name) (fields schema)

abbrev pub has_no_fields : FilterSchema → Bool
has_no_fields schema = is_empty (fields schema)

abbrev pub spec :
    String → FilterField → List FilterOperator → FilterValueKind → String → FilterFieldSpec
spec name field operators value_kind description = record {
  name = codes name;
  field = field;
  operators = operators;
  value_kind = value_kind;
  description = codes description;
}

abbrev pub text_operators : List FilterOperator
text_operators = match_op ∷ starts_with_op ∷ []

abbrev pub enum_operators : List FilterOperator
enum_operators = match_op ∷ []

abbrev pub age_operators : List FilterOperator
age_operators = less_than ∷ less_or_equal ∷ greater_than ∷ greater_or_equal ∷ []
