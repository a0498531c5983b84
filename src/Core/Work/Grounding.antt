-- ===== src/Core/Work/Grounding.antt =====
-- Which assertions and relations are accepted.
use agbox.Common.{◌≢◌, ◌⊎◌, inl, inr, ℕ, ◌≡◌, ◌≤◌, ◌<◌, ◌↔◌, true, List, length, arith}
use agbox.Core.Base.{Text, ok, max_inline_bytes, max_contract_evidence_refs, Text-discrete}
use agbox.Core.Privacy.{
  PrivacyLabel, Authority, DisclosureClass, RedactedText, is_transferable, may_define_instruction,
  same_class-eq,
}
use agbox.Core.Work.{WorkAssertion, new_assertion, assertion_of, next_action}

-- What an assertion has to satisfy.
pub record IsGrounded (a : WorkAssertion) : Type 0 where
  pub instructs :
      (a.field ≢ next_action)
      ⊎ ((a.authority ≡ Authority.human_intent)
          × (a.disclosure_class ≡ DisclosureClass.human_intent))
  pub evidence : 0 < length a.evidence_refs
  pub evidence_bound : length a.evidence_refs ≤ max_contract_evidence_refs
  pub field_bound : length a.field ≤ max_inline_bytes
  pub value_bound : length a.value ≤ max_inline_bytes
  pub confidence : a.confidence_basis_points ≤ 10_000
  pub transferable : is_transferable a.disclosure_class ≡ true

may_define_instruction-eq :
    (a : Authority) → may_define_instruction a ≡ true → a ≡ Authority.human_intent
unfolding may_define_instruction
may_define_instruction-eq a h = ground arith

-- `WorkAssertion::new` accepts exactly the assertions that cite between 1 and 128 pieces of evidence, keep the
-- bounds on texts and confidence, are of a class that may be transferred, and, if they are the next
-- action, have the authority of the human and are disclosed as human intent; it changes no field.
pub new_assertion-eq-ok :
    (field : Text) (value : RedactedText) (authority : Authority) (privacy : PrivacyLabel)
    (refs : List Text) (confidence : ℕ) (a : WorkAssertion)
    → (new_assertion field value authority privacy refs confidence ≡ ok a) ↔ (
        IsGrounded (assertion_of field value authority privacy refs confidence)
        × (a ≡ assertion_of field value authority privacy refs confidence))
unfolding new_assertion may_define_instruction
new_assertion-eq-ok field value authority privacy refs confidence a = (
  λ h. (
    record {
      instructs = elim (Text-discrete field next_action) [
        | yes e ↦ inr (
          may_define_instruction-eq authority (ground arith),
          same_class-eq value.disclosure_class DisclosureClass.human_intent (ground arith),
        )
        | no other ↦ inl other
      ];
      evidence = ground arith;
      evidence_bound = ground arith;
      field_bound = ground arith;
      value_bound = ground arith;
      confidence = ground arith;
      transferable = ground arith;
    },
    ground arith,
  ),
  λ (g, e). elim (Text-discrete field next_action) [
    | yes hit ↦ elim g.instructs [
      | inl other ↦ absurd (other hit)
      | inr allowed ↦ ground (arith, allowed)
    ]
    | no miss ↦ ground arith
  ],
)
