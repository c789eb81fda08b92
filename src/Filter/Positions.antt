-- ===== src/Filter/Positions.antt =====
-- The positions that the errors of src/domain/filter.rs report.
use tale.Prelude.{
  ℕ, ◌≡◌, refl, [], ◌∷◌, Bool, not, ◌&&◌, Option, none, some, ◌==◌, if◌then◌else◌, Text, codes,
  is_empty, text_eq, foldl, Result, ok, err, ◌>>=◌, if-keeps, subst,
}
use tale.Filter.Schema.{FilterOperator, starts_with_op, allows, FilterFieldSpec, allowed_values}
use tale.Filter.Durations.{parse_filter_duration}
use tale.Filter.Tokens.{FilterError}
use tale.Filter.Terms.{
  comparison_parts, split_once, trim, Splitting, splitting, normalize_value, split_step, last_value,
  split_values,
}
use tale.Filter.Parser.{
  first_not_allowed, is_duration, parse_values, parse_structured, parse_comparison, parse_field,
}

-- A result that is fine, or an error whose position passes.
pub data Errs (P : ℕ → Type 0) {A : Type 0} : Result FilterError A → Type 0 where
  fine : {a : A} → Errs P (ok a)
  fails_at : {e : FilterError} → P e.position → Errs P (err e)

pub Errs-bind :
    {P : ℕ → Type 0} {A B : Type 0} {m : Result FilterError A} {f : A → Result FilterError B}
    → Errs P m
    → ((a : A) → Errs P (f a))
    → Errs P (m >>= f)
Errs-bind fine hf = hf _
Errs-bind (fails_at p) hf = fails_at p

-- The same, where the answer that goes on is known.
pub Errs-bind_known :
    {P : ℕ → Type 0} {A B : Type 0} (m : Result FilterError A) {f : A → Result FilterError B}
    → Errs P m
    → ((a : A) → m ≡ ok a → Errs P (f a))
    → Errs P (m >>= f)
Errs-bind_known (ok a) h hf = hf a refl
Errs-bind_known (err e) (fails_at p) hf = fails_at p

pub Errs-position :
    {P : ℕ → Type 0} {A : Type 0} {r : Result FilterError A} {e : FilterError}
    → Errs P r
    → r ≡ err e
    → P e.position
Errs-position {P} {e = e} fine h = absurd (cc)
Errs-position {P} (fails_at p) h = subst P (cc) p

pub Errs-if :
    {P : ℕ → Type 0} {A : Type 0} (b : Bool) {x y : Result FilterError A}
    → Errs P x
    → Errs P y
    → Errs P (if b then x else y)
Errs-if {P} b hx hy = if-keeps (Errs P) b hx hy

pub Errs-elim :
    {P : ℕ → Type 0} {A B : Type 0} (o : Option B) {x : Result FilterError A}
    {f : B → Result FilterError A}
    → Errs P x
    → ((b : B) → Errs P (f b))
    → Errs P (elim o [ none ↦ x | some b ↦ f b ])
Errs-elim none hx hf = hx
Errs-elim (some b) hx hf = hf b

-- All of the errors at one position.
abbrev pub At : {A : Type 0} → ℕ → Result FilterError A → Type 0
At position r = Errs (λ n. n ≡ position) r

module _ (lowercase : Text → Text) where
  pub normalize_value-At :
      (value : Text) (position : ℕ) → At position (normalize_value lowercase value position)
  unfolding normalize_value
  normalize_value-At value position = Errs-if _ (Errs-if _ (fails_at refl) fine) fine

  split_step-At :
      (position : ℕ) (spec : FilterFieldSpec) (r : Result FilterError Splitting) (c : ℕ)
      → At position r
      → At position (split_step lowercase position spec r c)
  unfolding split_step
  split_step-At position spec (err e) c h = h
  split_step-At position spec (ok s) c h = Errs-if (c == b'"') fine (
      Errs-if ((c == b',') && not s.quoted)
        (Errs-if (is_empty (trim s.current)) (fails_at refl)
          (Errs-bind (normalize_value-At (trim s.current) position) (λ value. fine)))
        fine)

  split_loop-At :
      (position : ℕ) (spec : FilterFieldSpec) (r : Result FilterError Splitting) (v : Text)
      → At position r
      → At position (foldl (split_step lowercase position spec) r v)
  split_loop-At position spec r [] h = h
  split_loop-At position spec r (c ∷ v) h =
      split_loop-At position spec (split_step lowercase position spec r c) v
        (split_step-At position spec r c h)

  last_value-At :
      (position : ℕ) (spec : FilterFieldSpec) (s : Splitting)
      → At position (last_value lowercase position spec s)
  unfolding last_value
  last_value-At position spec s = Errs-if s.quoted (fails_at refl) (
      Errs-if (is_empty (trim s.current)) (fails_at refl)
        (Errs-bind (normalize_value-At (trim s.current) position) (λ value. fine)))

  split_values-At :
      (value : Text) (position : ℕ) (spec : FilterFieldSpec)
      → At position (split_values lowercase value position spec)
  unfolding split_values
  split_values-At value position spec =
      Errs-bind {f = last_value lowercase position spec}
        (split_loop-At position spec (ok splitting) value fine) (last_value-At position spec)

  parse_values-At :
      (spec : FilterFieldSpec) (negated : Bool) (value_text : Text) (position : ℕ)
      → At position (parse_values lowercase spec negated value_text position)
  unfolding parse_values
  parse_values-At spec negated value_text position =
      Errs-bind (split_values-At value_text position spec) (λ values.
        Errs-elim (first_not_allowed (allowed_values spec) values) fine (λ value. fails_at refl))

  parse_structured-At :
      (spec : FilterFieldSpec) (negated : Bool) (prefix value : Text) (position : ℕ)
      → At position (parse_structured lowercase spec negated prefix value position)
  unfolding parse_structured
  parse_structured-At spec negated prefix value position =
      Errs-if (not (text_eq prefix (codes "starts_with"))) (fails_at refl) (
        Errs-if (not (allows spec.operators starts_with_op)) (fails_at refl) (
          Errs-if (is_empty value) (fails_at refl)
            (Errs-bind (normalize_value-At value position) (λ value. fine))))

  parse_comparison-At :
      (spec : FilterFieldSpec) (negated : Bool) (operator : FilterOperator) (value : Text)
      (position : ℕ)
      → At position (parse_comparison lowercase spec negated operator value position)
  unfolding parse_comparison
  parse_comparison-At spec negated operator value position =
      Errs-if (not (allows spec.operators operator)) (fails_at refl)
        (Errs-elim (parse_filter_duration value) (fails_at refl) (λ seconds. fine))

  pub parse_field-At :
      (spec : FilterFieldSpec) (negated : Bool) (value_text : Text) (position : ℕ)
      → At position (parse_field lowercase spec negated value_text position)
  unfolding parse_field
  parse_field-At spec negated value_text position = Errs-if (is_empty value_text) (fails_at refl) (
      Errs-elim (comparison_parts value_text)
        (Errs-if (is_duration spec.value_kind) (fails_at refl) (
          Errs-elim (split_once b'=' value_text) (parse_values-At spec negated value_text position)
            (λ (prefix, value). parse_structured-At spec negated prefix value position)))
        (λ (operator, value). parse_comparison-At spec negated operator value position))
