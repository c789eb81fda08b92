-- ===== src/PolicyWorkflow/Applying.antt =====
-- When the guard of src/domain/policy_workflow.rs lets a policy be applied.
use tale.Prelude.{
  ℕ, ◌≡◌, refl, sym, ◌↔◌, Bool, true, false, Option, none, some, Text, text_eq, text_eq_iff,
  is_some, arith, Bool-cases, inl, inr,
}
use tale.PolicyWorkflow.Documents.{
  PolicyState, ready_to_apply, PolicyDocument, PolicyValidation, PolicyPreview,
}
use tale.PolicyWorkflow.Steps.{PolicyWorkflow, validated, differ}
use tale.PolicyWorkflow.Guard.{
  is_ready, apply_guard, MayApply, Passes, PolicyApplyGuardError, documents_guard, not_ready,
  missing_base, stale_candidate, stale_validation,
}
use tale.PolicyWorkflow.Invariant.{
  Reach, workflow-Inv, bound_or_none, validation_hash, preview_hash,
}

-- Only these errors come of a workflow that was operated by its own operations.
abbrev pub expected : Option PolicyApplyGuardError → Bool
expected none = true
expected (some not_ready) = true
expected (some missing_base) = true
expected (some stale_candidate) = true
expected (some stale_validation) = true
expected (some _) = false

text_eq_sym : (s t : Text) → text_eq s t ≡ true → text_eq t s ≡ true
text_eq_sym s t h = (text_eq_iff t s).1 (sym ((text_eq_iff s t).0 h))

documents_expected :
    (now : ℕ) (latest_remote : Option PolicyDocument) (validation : Option PolicyValidation)
    (preview : Option PolicyPreview) (base candidate : Option PolicyDocument)
    → bound_or_none candidate (validation_hash validation) ≡ true
    → bound_or_none candidate (preview_hash preview) ≡ true
    → validated validation ≡ true
    → is_some preview ≡ true
    → differ latest_remote base ≡ false
    → expected (documents_guard now latest_remote validation preview base candidate) ≡ true
documents_expected now remote validation preview none candidate b p v s d = refl
documents_expected now remote (some validation) (some preview) (some base) (some candidate) b p v s
      d =
    ground (
      arith,
      text_eq_sym candidate.hash validation.candidate_hash b,
      text_eq_sym candidate.hash preview.candidate_hash p,
      v,
      d,
    )
documents_expected now remote none preview (some base) candidate b p v s d = absurd (ground arith)
documents_expected now remote (some validation) none (some base) candidate b p v s d =
    absurd (ground arith)
documents_expected now remote (some validation) (some preview) (some base) none b p v s d =
    absurd (ground arith)

-- The guard never finds a changed remote policy, a missing candidate, or a validation or preview of
-- another document in a workflow that its operations lead to: they keep such a workflow from being
-- ready to apply.
pub apply_guard_expected :
    {w : PolicyWorkflow} (now : ℕ) → Reach w → expected (apply_guard w now) ≡ true
unfolding apply_guard
apply_guard_expected {w} now r =
    let h = workflow-Inv r in
    elim (Bool-cases (is_ready w.state)) [
      | inl e ↦
          let (validated, previewed, agreed) = h.ready e in
          rw e (
            documents_expected now w.latest_remote w.validation w.preview w.base w.candidate
              h.validation_bound h.preview_bound validated previewed agreed)
      | inr e ↦ rw e refl
    ]

documents_passed :
    (now : ℕ) (latest_remote : Option PolicyDocument) (validation : Option PolicyValidation)
    (preview : Option PolicyPreview) (base candidate : Option PolicyDocument)
    → documents_guard now latest_remote validation preview base candidate ≡ none
    → (b : PolicyDocument) × (c : PolicyDocument) × (v : PolicyValidation) × Passes now
        latest_remote validation preview base candidate b c v
documents_passed now remote validation preview none candidate h = absurd (ground arith)
documents_passed now remote validation preview (some base) none h = absurd (ground arith)
documents_passed now remote none preview (some base) (some candidate) h = absurd (ground arith)
documents_passed now remote (some v) preview (some b) (some c) h = (
  b,
  c,
  v,
  (
    refl,
    refl,
    refl,
    ground arith,
    ground arith,
    ground arith,
    (text_eq_iff v.candidate_hash c.hash).0 (ground arith),
    ground arith,
    ground arith,
    ground arith,
    ground arith,
  ),
)

passed_documents :
    (now : ℕ) (latest_remote : Option PolicyDocument) (preview : Option PolicyPreview)
    (b c : PolicyDocument) (v : PolicyValidation)
    → Passes now latest_remote (some v) preview (some b) (some c) b c v
    → documents_guard now latest_remote (some v) preview (some b) (some c) ≡ none
passed_documents now remote none b c v (_, _, _, c₁, c₂, r, bound, success, v₁, v₂, p) =
    absurd (ground arith)
passed_documents now remote (some preview) b c v (_, _, _, c₁, c₂, r, bound, success, v₁, v₂, p) =
    let same = (text_eq_iff v.candidate_hash c.hash).1 bound in ground arith

passes_guard :
    (w : PolicyWorkflow) (now : ℕ) (b c : PolicyDocument) (v : PolicyValidation)
    → w.state ≡ ready_to_apply
    → MayApply w now b c v
    → apply_guard w now ≡ none
unfolding apply_guard
passes_guard w now b c v ready passes =
    let (hb, hc, hv, _, _, _, _, _, _, _, _) = passes in
    rw (ready, hb, hc, hv)
      (passed_documents now w.latest_remote w.preview b c v (rw (hb, hc, hv) at passes))

-- The guard lets a policy be applied exactly if the workflow is ready and has a base, a candidate
-- observed at most five minutes ago, no other remote policy than the base, a successful validation
-- of this candidate from the last five minutes and a preview of this candidate.
pub apply_guard_iff :
    (w : PolicyWorkflow) (now : ℕ)
    → (apply_guard w now ≡ none) ↔ (
        (w.state ≡ ready_to_apply)
        × ((base : PolicyDocument) × (candidate : PolicyDocument) × (validation : PolicyValidation)
            × MayApply w now base candidate validation))
unfolding apply_guard
apply_guard_iff w now = (
  λ h. elim (Bool-cases (is_ready w.state)) [
    | inl e ↦ (
      is_ready_state w.state e,
      documents_passed now w.latest_remote w.validation w.preview w.base w.candidate (rw e at h),
    )
    | inr e ↦ absurd (ground arith)
  ],
  λ (ready, (b, c, v, (hb, hc, hv, c₁, c₂, r, bound, success, v₁, v₂, p))).
      passes_guard w now b c v ready (hb, hc, hv, c₁, c₂, r, bound, success, v₁, v₂, p),
)
  where
    is_ready_state : (state : PolicyState) → is_ready state ≡ true → state ≡ ready_to_apply
    is_ready_state state h = ground arith
