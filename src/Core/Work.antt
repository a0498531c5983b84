-- ===== src/Core/Work.antt =====
-- crates/agbox-core/src/work.rs: assertions about work and relations between work items.
use agbox.Common.{
  ℕ, Bool, true, false, ◌||◌, ◌&&◌, not, Option, none, some, List, [], ◌∷◌, ◌++◌, map, ltb, length,
  ◌==◌, all,
}
use mathlib.Core.Option
use Prim.Native.String.{String}
use agbox.Core.Base.{
  Text, Result, ok, err, ◌>>=◌, ◌>>◌, refuse, same_text, max_inline_bytes,
  max_contract_evidence_refs, max_contract_items_per_field, max_contract_source_runs,
  max_contract_serialized_bytes,
}
use agbox.Core.Privacy.{
  PrivacyLabel, Authority, DisclosureClass, human_intent, RedactedText, is_transferable,
  may_define_instruction, same_class,
}
pub mod Grounding

pub data WorkStatus : Type 0 where
  observed active blocked completed abandoned : WorkStatus

pub data WorkEdgeKind : Type 0 where
  continues depends_on blocked_by produces validated_by supersedes : WorkEdgeKind

pub record WorkAssertion : Type 0 where
  pub field : Text
  pub value : Text
  pub authority : Authority
  pub privacy : PrivacyLabel
  pub evidence_refs : List Text
  pub confidence_basis_points : ℕ
  pub disclosure_class : DisclosureClass

pub data AssertionError : Type 0 where
  instruction_authority missing_evidence text_too_large too_many_evidence_refs invalid_confidence
        forbidden_disclosure :
      AssertionError

-- The bytes of `next_action`.
abbrev pub next_action : Text
next_action = b'n' ∷ b'e' ∷ b'x' ∷ b't' ∷ b'_' ∷ b'a' ∷ b'c' ∷ b't' ∷ b'i' ∷ b'o' ∷ b'n' ∷ []

unfoldable pub validate_assertion : WorkAssertion → Result AssertionError (Unit {0})
validate_assertion a = do
  refuse
      (same_text a.field next_action
        && (not (may_define_instruction a.authority)
            || not (same_class a.disclosure_class DisclosureClass.human_intent)))
      instruction_authority
  refuse (length a.evidence_refs == 0) missing_evidence
  refuse (ltb max_inline_bytes (length a.field) || ltb max_inline_bytes (length a.value))
      text_too_large
  refuse (ltb max_contract_evidence_refs (length a.evidence_refs)) too_many_evidence_refs
  refuse (ltb 10_000 a.confidence_basis_points) invalid_confidence
  refuse (not (is_transferable a.disclosure_class)) forbidden_disclosure
  ok tt

abbrev pub assertion_of :
    Text → RedactedText → Authority → PrivacyLabel → List Text → ℕ → WorkAssertion
assertion_of field value authority privacy evidence_refs confidence = record {
  field = field;
  value = value.value;
  authority = authority;
  privacy = privacy;
  evidence_refs = evidence_refs;
  confidence_basis_points = confidence;
  disclosure_class = value.disclosure_class;
}

-- `WorkAssertion::new`.
unfoldable pub new_assertion :
    Text
    → RedactedText
    → Authority
    → PrivacyLabel
    → List Text
    → ℕ
    → Result AssertionError WorkAssertion
unfolding validate_assertion
new_assertion field value authority privacy evidence_refs confidence =
    let assertion = assertion_of field value authority privacy evidence_refs confidence in
    do validate_assertion assertion; ok assertion

unfoldable pub instruction :
    RedactedText → Authority → PrivacyLabel → List Text → Result AssertionError WorkAssertion
unfolding new_assertion
instruction value authority privacy evidence_refs =
    new_assertion next_action value authority privacy evidence_refs 10_000

pub record WorkEdge : Type 0 where
  pub from : Text
  pub to : Text
  pub kind : WorkEdgeKind
  pub evidence_refs : List Text

pub data WorkEdgeError : Type 0 where
  missing_evidence too_many_evidence_refs : WorkEdgeError

unfoldable pub validate_edge : WorkEdge → Result WorkEdgeError (Unit {0})
validate_edge e = do
  refuse (length e.evidence_refs == 0) missing_evidence
  refuse (ltb max_contract_evidence_refs (length e.evidence_refs)) too_many_evidence_refs
  ok tt
