-- ===== src/AdminMutation/Preflight.antt =====
-- The comparison of a preflight with its base, src/domain/admin_mutation.rs.
use tale.Prelude.{
  ◌≡◌, refl, sym, ap, ◌∙◌, Bool, true, false, ◌&&◌, ◌||◌, Option, none, some, List, [], ◌∷◌, arith,
  Text, text_eq, text_eq_iff, lookup, if◌then◌else◌, ltb, ◌==◌, find, any, has_key, lookup_missing,
  Bool-cases, inl, inr, text_key,
}

-- `Ord` of strings: their UTF-8 bytes are in the order of their code points.
abbrev pub text_lt : Text → Text → Bool
text_lt s [] = false
text_lt [] (d ∷ t) = true
text_lt (c ∷ s) (d ∷ t) = ltb c d || (c == d && text_lt s t)

-- `BTreeSet::insert`, the keys in order.
abbrev pub insert_key : Text → List Text → List Text
insert_key key [] = key ∷ []
insert_key key (k ∷ keys) =
    if text_eq k key
    then k ∷ keys
    else let rest = insert_key key keys in if text_lt key k then key ∷ k ∷ keys else k ∷ rest

abbrev pub extend : List Text → List (Text × Text) → List Text
extend keys [] = keys
extend keys ((k, _) ∷ m) = extend (insert_key k keys) m

-- `get(..).unwrap_or_default()`
abbrev pub value_of : Text → List (Text × Text) → Text
value_of field m = elim (lookup field m) [ none ↦ [] | some v ↦ v ]

pub record FieldConflict : Type 0 where
  pub field : Text
  pub base : Text
  pub fresh : Text
  pub requested : Text

abbrev pub conflicts :
    List (Text × Text) → List (Text × Text) → List (Text × Text) → List Text → List FieldConflict
conflicts base fresh requested [] = []
conflicts base fresh requested (field ∷ keys) =
    let rest = conflicts base fresh requested keys in
    if text_eq (value_of field base) (value_of field fresh)
    then rest
    else record {
      field = field;
      base = value_of field base;
      fresh = value_of field fresh;
      requested = value_of field requested;
    }
      ∷ rest

unfoldable pub compare_preflight :
    List (Text × Text) → List (Text × Text) → List (Text × Text) → List FieldConflict
compare_preflight base fresh requested =
    conflicts base fresh requested (extend (extend (extend [] base) fresh) requested)

abbrev has_text : Text → List Text → Bool
has_text key keys = any (λ k. text_eq k key) keys

has_text-insert_key :
    (key j : Text) (keys : List Text)
    → has_text j (insert_key key keys) ≡ (text_eq key j || has_text j keys)
has_text-insert_key key j [] = refl
has_text-insert_key key j (k ∷ keys) =
    ground
      (arith, text_eq_iff k key, text_eq_iff k j, text_eq_iff key j, has_text-insert_key key j keys)

has_text-extend :
    (j : Text) (m : List (Text × Text)) (keys : List Text)
    → has_text j (extend keys m) ≡ (has_key j m || has_text j keys)
has_text-extend j [] keys = refl
has_text-extend j ((k, v) ∷ m) keys =
    ground (arith, has_text-extend j m (insert_key k keys), has_text-insert_key k j keys)

value_missing :
    (field : Text) (m : List (Text × Text)) → has_key field m ≡ false → value_of field m ≡ []
value_missing field m h = rw (lookup_missing field m h, value_of) refl

-- What is reported of a field.
abbrev pub report :
    List (Text × Text) → List (Text × Text) → List (Text × Text) → Text → Option FieldConflict
report base fresh requested field =
    if text_eq (value_of field base) (value_of field fresh)
    then none
    else some (record {
      field = field;
      base = value_of field base;
      fresh = value_of field fresh;
      requested = value_of field requested;
    })

find-conflicts :
    (base fresh requested : List (Text × Text)) (field : Text) (keys : List Text)
    → find (λ (c : FieldConflict). text_eq c.field field) (conflicts base fresh requested keys)
      ≡ (if has_text field keys then report base fresh requested field else none)
find-conflicts base fresh requested field [] = refl
find-conflicts base fresh requested field (k ∷ keys) = ground (
  arith,
  text_eq_iff k field,
  find-conflicts base fresh requested field keys,
  λ (e : k ≡ field). ap (report base fresh requested) e,
)

report_missing :
    (base fresh requested : List (Text × Text)) (field : Text)
    → has_text field (extend (extend (extend [] base) fresh) requested) ≡ false
    → report base fresh requested field ≡ none
report_missing base fresh requested field h =
    let in_requested = has_text-extend field requested (extend (extend [] base) fresh) in
    let in_fresh = has_text-extend field fresh (extend [] base) in
    let in_base = has_text-extend field base [] in
    let base_missing : value_of field base ≡ [] = value_missing field base (ground arith) in
    let fresh_missing : value_of field fresh ≡ [] = value_missing field fresh (ground arith) in
    let same =
      (text_eq_iff (value_of field base) (value_of field fresh)).1
        (base_missing ∙ sym fresh_missing) in
    rw (same, report) refl

-- A field is reported exactly if its value in the base differs from the fresh one, where a missing
-- field has the empty value, and the report holds its base, fresh and requested values.
pub compare_preflight_lem :
    (base fresh requested : List (Text × Text)) (field : Text)
    → find (λ (c : FieldConflict). text_eq c.field field) (compare_preflight base fresh requested)
      ≡ report base fresh requested field
unfolding compare_preflight
compare_preflight_lem base fresh requested field =
    let keys = extend (extend (extend [] base) fresh) requested in
    let found = find-conflicts base fresh requested field keys in
    elim (Bool-cases (has_text field keys)) [
      | inl e ↦ found ∙ ap (λ b. if b then report base fresh requested field else none) e
      | inr e ↦
          found
          ∙ ap (λ b. if b then report base fresh requested field else none) e
          ∙ sym (report_missing base fresh requested field e)
    ]
