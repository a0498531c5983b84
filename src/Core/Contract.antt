-- ===== src/Core/Contract.antt =====
-- crates/agbox-core/src/work.rs: drafts and immutable revisions of a work contract. The length of a
-- revision's JSON text is a parameter (`none` where it cannot be written).
use agbox.Common.{
  ℕ, Bool, true, false, ◌||◌, ◌&&◌, not, Option, none, some, List, [], ◌∷◌, ◌++◌, map, ltb, length,
  ◌==◌, all,
}
use mathlib.Core.Option
use Prim.Native.String.{String}
use agbox.Core.Base.{
  Text, Result, ok, err, ◌>>=◌, ◌>>◌, refuse, max_inline_bytes, max_contract_evidence_refs,
  max_contract_items_per_field, max_contract_source_runs, max_contract_serialized_bytes,
}
use agbox.Core.Privacy.{DisclosureClass, RedactedText, is_transferable, same_class}
use agbox.Core.Work.{WorkStatus}
pub mod Revisions

-- The texts of a contract's draft (`RedactedText`) and of a revision (`Text`), with what they share.
pub record Contract (T : Type 0) : Type 0 where
  pub contract_id : Text
  pub work_id : Text
  pub revision : ℕ
  pub project_id : Text
  pub objective : Option T
  pub status : WorkStatus
  pub summary : T
  pub completed_steps : List T
  pub next_actions : List T
  pub blockers : List T
  pub constraints : List T
  pub completion_criteria : List T
  pub artifacts : List T
  pub verification : List T
  pub source_runs : List Text
  pub evidence_refs : List Text
  pub confidence_basis_points : ℕ
  pub created_at : ℕ
  pub extractor_version : Text
  pub disclosure_class : DisclosureClass

abbrev pub WorkContractRevisionDraft : Type 0
WorkContractRevisionDraft = Contract RedactedText

abbrev pub WorkContractRevision : Type 0
WorkContractRevision = Contract Text

pub data ContractError : Type 0 where
  text_too_large too_many_items : String → ContractError
  too_many_source_runs missing_evidence too_many_evidence_refs invalid_confidence
        serialized_too_large serialization forbidden_disclosure disclosure_mismatch :
      ContractError

unfoldable pub validate_text : String → Text → Result ContractError (Unit {0})
validate_text field value = refuse (ltb max_inline_bytes (length value)) (text_too_large field)

abbrev pub validate_optional_text : String → Option Text → Result ContractError (Unit {0})
validate_optional_text field none = ok tt
validate_optional_text field (some value) = validate_text field value

-- The loop of `validate_text_list`, which stops at the first text that is too long.
unfoldable pub validate_texts : String → List Text → Result ContractError (Unit {0})
unfolding validate_text
validate_texts field [] = ok tt
validate_texts field (value ∷ values) =
    let rest = validate_texts field values in validate_text field value >> rest

unfoldable pub validate_text_list : String → List Text → Result ContractError (Unit {0})
validate_text_list field values = do
  refuse (ltb max_contract_items_per_field (length values)) (too_many_items field)
  validate_texts field values

-- `serde_json::to_vec(self)?.len() > MAX_CONTRACT_SERIALIZED_BYTES`.
abbrev pub validate_serialized : Option ℕ → Result ContractError (Unit {0})
validate_serialized none = err serialization
validate_serialized (some bytes) =
    refuse (ltb max_contract_serialized_bytes bytes) serialized_too_large

-- The checks of `validate` on the seven lists, in its order.
unfoldable pub validate_lists : WorkContractRevision → Result ContractError (Unit {0})
validate_lists r = do
  validate_text_list "completed_steps" r.completed_steps
  validate_text_list "next_actions" r.next_actions
  validate_text_list "blockers" r.blockers
  validate_text_list "constraints" r.constraints
  validate_text_list "completion_criteria" r.completion_criteria
  validate_text_list "artifacts" r.artifacts
  validate_text_list "verification" r.verification

-- The checks of `validate` behind the texts, up to the serialized length.
unfoldable pub validate_metadata : WorkContractRevision → Result ContractError (Unit {0})
validate_metadata r = do
  refuse (ltb max_contract_source_runs (length r.source_runs)) too_many_source_runs
  refuse (length r.evidence_refs == 0) missing_evidence
  refuse (ltb max_contract_evidence_refs (length r.evidence_refs)) too_many_evidence_refs
  refuse (ltb 10_000 r.confidence_basis_points) invalid_confidence
  refuse (not (is_transferable r.disclosure_class)) forbidden_disclosure

unfoldable pub validate :
    (WorkContractRevision → Option ℕ) → WorkContractRevision → Result ContractError (Unit {0})
validate serialized_length r = do
  validate_optional_text "objective" r.objective
  validate_text "summary" r.summary
  validate_lists r
  validate_text "extractor_version" r.extractor_version
  validate_metadata r
  validate_serialized (serialized_length r)

abbrev pub class_is : DisclosureClass → RedactedText → Bool
class_is class text = same_class text.disclosure_class class

abbrev pub draft_texts : {T : Type 0} → Contract T → List T
draft_texts d =
    d.completed_steps
    ++ (d.next_actions
        ++ (d.blockers
            ++ (d.constraints ++ (d.completion_criteria ++ (d.artifacts ++ d.verification)))))

abbrev pub objective_matches : DisclosureClass → Option RedactedText → Bool
objective_matches class none = true
objective_matches class (some text) = class_is class text

unfoldable pub validate_draft_disclosure :
    WorkContractRevisionDraft → Result ContractError (Unit {0})
validate_draft_disclosure d = do
  refuse (not (is_transferable d.disclosure_class)) forbidden_disclosure
  refuse
      (not (objective_matches d.disclosure_class d.objective)
        || not (class_is d.disclosure_class d.summary)
        || not (all (class_is d.disclosure_class) (draft_texts d)))
      disclosure_mismatch

abbrev pub value : RedactedText → Text
value r = r.value

abbrev pub into_strings : List RedactedText → List Text
into_strings = map value

-- The revision that `new` builds from a draft before it validates it.
abbrev pub revision_of : WorkContractRevisionDraft → WorkContractRevision
revision_of d = record {
  contract_id = d.contract_id;
  work_id = d.work_id;
  revision = d.revision;
  project_id = d.project_id;
  objective = Option.map value d.objective;
  status = d.status;
  summary = value d.summary;
  completed_steps = into_strings d.completed_steps;
  next_actions = into_strings d.next_actions;
  blockers = into_strings d.blockers;
  constraints = into_strings d.constraints;
  completion_criteria = into_strings d.completion_criteria;
  artifacts = into_strings d.artifacts;
  verification = into_strings d.verification;
  source_runs = d.source_runs;
  evidence_refs = d.evidence_refs;
  confidence_basis_points = d.confidence_basis_points;
  created_at = d.created_at;
  extractor_version = d.extractor_version;
  disclosure_class = d.disclosure_class;
}

unfoldable pub new :
    (WorkContractRevision → Option ℕ)
    → WorkContractRevisionDraft
    → Result ContractError WorkContractRevision
new serialized_length draft =
    let revision = revision_of draft in
    do validate_draft_disclosure draft; validate serialized_length revision; ok revision
