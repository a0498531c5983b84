-- ===== src/Workgraph/Contract.antt =====
-- crates/agbox-workgraph/src/contract.rs: the provisional contract of a piece of work, built from facts. An action's
-- key in the map is the hash of its session and its identifier. A `BTreeMap` whose keys are the fields is a
-- function from the field to what the map has for it.
use agbox.Common.{
  ℕ, Bool, true, false, not, Option, none, some, List, [], ◌∷◌, ◌++◌, length, ◌==◌, if◌then◌else◌,
  map,
}
use agbox.Core.Base.{Text, Result}
use agbox.Core.Privacy.{DisclosureClass}
use agbox.Core.Work.{WorkStatus}
pub mod Facts
pub mod Actions
pub mod Draft
pub mod Status
pub mod Build
pub mod Citations
pub mod Grounded
pub mod Replay
pub mod Stored
pub mod Extends
pub mod Origins
pub mod Latest
pub mod Sources
pub mod Fields
pub mod Derived
pub mod Tests

pub data ContractField : Type 0 where
  objective status summary completed_steps next_actions blockers constraints completion_criteria
        artifacts verification :
      ContractField

-- The order of the variants.
abbrev pub field_code : ContractField → ℕ
field_code objective = 0
field_code status = 1
field_code summary = 2
field_code completed_steps = 3
field_code next_actions = 4
field_code blockers = 5
field_code constraints = 6
field_code completion_criteria = 7
field_code artifacts = 8
field_code verification = 9

abbrev pub same_field : ContractField → ContractField → Bool
same_field f g = field_code f == field_code g

abbrev pub all_fields : List ContractField
all_fields =
    objective ∷ status ∷ summary ∷ completed_steps ∷ next_actions ∷ blockers ∷ constraints
    ∷ completion_criteria ∷ artifacts ∷ verification ∷ []

abbrev pub FieldEvidence : Type 0
FieldEvidence = ContractField → Option (List Text)

pub record ProjectedText : Type 0 where
  pub text : Text
  pub evidence : Text

pub record ProjectedOutcome : Type 0 where
  pub command : Option Text
  pub succeeded : Bool
  pub observed_at : ℕ
  pub evidence : Text

pub record ActionProjection : Type 0 where
  pub request : Option ProjectedText
  pub finished : Bool
  pub authoritative : Option ProjectedOutcome

pub record ProjectionState : Type 0 where
  pub actions : List (Text × ActionProjection)
  pub completion_reopened : Bool
  pub active_identity_watermark : List Text
  pub active_identity_truncated : Bool

-- What a contract and a draft of it say.
pub record MaterialDraft : Type 0 where
  pub objective : Option Text
  pub status : WorkStatus
  pub summary : Text
  pub completed_steps : List Text
  pub next_actions : List Text
  pub blockers : List Text
  pub constraints : List Text
  pub completion_criteria : List Text
  pub artifacts : List Text
  pub verification : List Text
  pub field_evidence : FieldEvidence
  pub projection_state : ProjectionState

-- What the contract has in common with a draft is `material`.
pub record ProvisionalContract : Type 0 where
  pub contract_id : Text
  pub work_id : Text
  pub revision : ℕ
  pub project_id : Text
  pub material : MaterialDraft
  pub evidence_refs : List Text
  pub evidence_truncated : Bool
  pub confidence_basis_points : ℕ
  pub created_at : ℕ
  pub extractor_version : Text
  pub fact_set_digest : Text
  pub material_content_hash : Text

pub data RedactionError : Type 0 where
  input_too_large invalid_patterns : RedactionError

pub data ContractBuildError : Type 0 where
  missing_facts mixed_projects extractor_version_too_large revision_overflow serialization
        missing_field_evidence :
      ContractBuildError
  redaction : RedactionError → ContractBuildError

-- What the builder calls: BLAKE3 in hexadecimal, the making of the redaction policy and its `redact`, the JSON writer,
-- and the random identifier of new work.
pub record Services : Type 0 where
  pub hash : Text → Text
  pub redact : Result RedactionError (DisclosureClass → Text → Result RedactionError Text)
  pub encode : MaterialDraft → Option Text
  pub fresh_work_id : Text

pub record ProvisionalContractBuilder : Type 0 where
  pub extractor_version : Text
  pub work_id : Option Text

abbrev pub filled : {A : Type 0} → List A → Bool
filled values = not (length values == 0)

abbrev pub filled_option : Option Text → Bool
filled_option none = false
filled_option (some value) = filled value

abbrev pub is_filled : MaterialDraft → ContractField → Bool
is_filled d objective = filled_option d.objective
is_filled d status = true
is_filled d summary = filled d.summary
is_filled d completed_steps = filled d.completed_steps
is_filled d next_actions = filled d.next_actions
is_filled d blockers = filled d.blockers
is_filled d constraints = filled d.constraints
is_filled d completion_criteria = filled d.completion_criteria
is_filled d artifacts = filled d.artifacts
is_filled d verification = filled d.verification

abbrev pub select : (ContractField → Bool) → List ContractField → List ContractField
select p [] = []
select p (f ∷ fields) = let rest = select p fields in if p f then f ∷ rest else rest

-- The fields in the order in which they are listed: the status first, then as the variants are.
abbrev pub listed_fields : List ContractField
listed_fields =
    status ∷ objective ∷ summary ∷ completed_steps ∷ next_actions ∷ blockers ∷ constraints
    ∷ completion_criteria ∷ artifacts ∷ verification ∷ []

unfoldable pub non_empty_fields : ProvisionalContract → List ContractField
non_empty_fields c = select (is_filled c.material) listed_fields

abbrev pub no_projection : ProjectionState
no_projection = record {
  actions = [];
  completion_reopened = false;
  active_identity_watermark = [];
  active_identity_truncated = false;
}

-- `MaterialDraft::from_previous`.
unfoldable pub from_previous : Option ProvisionalContract → MaterialDraft
from_previous (some contract) = contract.material
from_previous none = record {
  objective = none;
  status = WorkStatus.observed;
  summary = [];
  completed_steps = [];
  next_actions = [];
  blockers = [];
  constraints = [];
  completion_criteria = [];
  artifacts = [];
  verification = [];
  field_evidence = λ field. none;
  projection_state = no_projection;
}
