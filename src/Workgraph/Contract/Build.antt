-- ===== src/Workgraph/Contract/Build.antt =====
-- `ProvisionalContractBuilder::build`.
use agbox.Common.{
  ℕ, suc, ◌^◌, ◌-◌, max, Bool, true, false, not, ◌&&◌, ◌||◌, Option, none, some, List, [], ◌∷◌,
  ◌++◌, length, ◌==◌, ltb, leb, if◌then◌else◌, take, any, all,
}
use agbox.Core.Base.{
  Text, same_text, Result, ok, err, ◌>>=◌, ◌>>◌, refuse, map_err, max_inline_bytes,
}
use agbox.Core.Strings.{bytes}
use agbox.Core.Work.{WorkStatus}
use agbox.Workgraph.Reducer.{ReducedFact}
use agbox.Workgraph.Contract.{
  ContractField, MaterialDraft, ProjectionState, ProvisionalContract, ProvisionalContractBuilder,
  ContractBuildError, missing_facts, mixed_projects, extractor_version_too_large, revision_overflow,
  serialization, redaction, Services, RedactionError, from_previous,
}
use agbox.Workgraph.Contract.Facts.{
  fact_project, fact_time, successful_structured_result, evidence_of, digest, framed_all,
  fact_set_digest,
}
use agbox.Workgraph.Contract.Actions.{set_field, apply_action_facts}
use agbox.Workgraph.Contract.Draft.{
  apply_text_facts, apply_artifact_facts, normalize, bounded_provenance, bound_field_evidence,
  retain_field_evidence, validate_field_evidence,
}
use agbox.Workgraph.Contract.Status.{
  derive_status, has_failed_authority, observe_active_facts, activity_projection,
  ActivityProjection-discrete, differs, authoritative_digest, AuthoritativeDigest-discrete,
}

abbrev pub Previous : Type 0
Previous = Option ProvisionalContract

abbrev pub previous_status : Previous → Option WorkStatus
previous_status none = none
previous_status (some contract) = some contract.material.status

abbrev pub was_completed : Option WorkStatus → Bool
was_completed (some WorkStatus.completed) = true
was_completed _ = false

abbrev pub previous_evidence : Previous → List Text
previous_evidence none = []
previous_evidence (some contract) = contract.evidence_refs

abbrev pub previous_truncated : Previous → Bool
previous_truncated none = false
previous_truncated (some contract) = contract.evidence_truncated

abbrev pub other_project : Text → Previous → Bool
other_project project_id none = false
other_project project_id (some contract) = not (same_text contract.project_id project_id)

abbrev pub is_of : Text → ReducedFact → Bool
is_of project_id fact = same_text (fact_project fact) project_id

-- What the reopening of completed work becomes.
abbrev pub reopened : Bool → Bool → Bool → Bool → Bool
reopened before completed_changed new_success failed =
    let opened = before || (completed_changed && not new_success) in
    opened && not (new_success && not failed)

abbrev pub with_reopened : ProjectionState → Bool → ProjectionState
with_reopened p reopened = record p { completion_reopened = reopened }

abbrev pub with_status : MaterialDraft → ProjectionState → WorkStatus × List Text → MaterialDraft
with_status d projection (status, references) = record d {
  projection_state = projection;
  status = status;
  field_evidence = set_field ContractField.status (some references) d.field_evidence;
}

-- From the facts' draft to the status, which `or_insert_with` finds in the map.
unfoldable pub conclude : Previous → List ReducedFact → MaterialDraft → MaterialDraft
unfolding derive_status observe_active_facts has_failed_authority authoritative_digest
conclude previous facts draft =
    let before = from_previous previous in
    let d = normalize draft in
    let activity_changed =
      differs ActivityProjection-discrete (activity_projection d) (activity_projection before) in
    let (observed, new_active_observation) = observe_active_facts d.projection_state facts in
    let authoritative_changed =
      differs AuthoritativeDigest-discrete (authoritative_digest observed)
        (authoritative_digest before.projection_state) in
    let new_success = authoritative_changed && any successful_structured_result facts in
    let projection = with_reopened observed (
      reopened observed.completion_reopened
        (was_completed (previous_status previous) && (activity_changed || new_active_observation))
        new_success (has_failed_authority observed)) in
    normalize (
      with_status d projection
        (derive_status projection facts (previous_status previous) activity_changed))

-- The bytes of a wire identifier.
abbrev pub is_wire : Text → Bool
is_wire value =
    not (length value == 0) && leb (length value) 128 && all (λ b. leb 33 b && leb b 126) value

abbrev pub parse_wire_or : Text → Text → Text
parse_wire_or otherwise value = if is_wire value then value else otherwise

abbrev pub latest_time : ℕ → List ReducedFact → ℕ
latest_time time [] = time
latest_time time (fact ∷ facts) = latest_time (max time (fact_time fact)) facts

abbrev pub next_revision : Previous → Result ContractBuildError ℕ
next_revision none = ok 1
next_revision (some contract) =
    if leb (2 ^ 64 - 1) contract.revision then err revision_overflow else ok (suc contract.revision)

module _ (services : Services) where
  unfoldable pub stable_work_id : Text → List Text → Text
  stable_work_id project_id evidence_refs =
      parse_wire_or services.fresh_work_id
        (bytes "work_" ++ take 24 (services.hash (project_id ++ framed_all evidence_refs)))

  unfoldable pub stable_contract_id : Text → Text
  stable_contract_id work_id =
      parse_wire_or (bytes "contract_invalid")
        (bytes "contract_" ++ take 24 (services.hash work_id))

  abbrev pub hashed_material : Option Text → Result ContractBuildError Text
  hashed_material none = err serialization
  hashed_material (some encoded) = ok (digest services.hash encoded)

  unfoldable pub material_hash : MaterialDraft → Result ContractBuildError Text
  material_hash d = hashed_material (services.encode d)

  unfoldable pub draft_of : Previous → List ReducedFact → Result RedactionError MaterialDraft
  draft_of previous facts = do
    redact ← services.redact
    texts ← apply_text_facts redact (from_previous previous) facts
    artifacts ← apply_artifact_facts redact texts facts
    apply_action_facts services.hash redact artifacts facts

  abbrev pub chosen_work_id : Option Text → Text → List Text → Previous → Text
  chosen_work_id work_id project_id evidence (some contract) = contract.work_id
  chosen_work_id (some work_id) project_id evidence none = work_id
  chosen_work_id none project_id evidence none = stable_work_id project_id evidence

  abbrev pub chosen_contract_id : Text → Previous → Text
  chosen_contract_id work_id (some contract) = contract.contract_id
  chosen_contract_id work_id none = stable_contract_id work_id

  -- The record that `build` ends with.
  abbrev pub contract_of :
      ProvisionalContractBuilder
      → Previous
      → ReducedFact
      → List ReducedFact
      → MaterialDraft × List Text
      → Bool
      → Text
      → ℕ
      → ProvisionalContract
  contract_of builder previous fact facts (d, evidence) truncated hashed revision =
      let project_id = fact_project fact in
      let work_id = chosen_work_id builder.work_id project_id evidence previous in
      record {
        contract_id = chosen_contract_id work_id previous;
        work_id = work_id;
        revision = revision;
        project_id = project_id;
        material = d;
        evidence_refs = evidence;
        evidence_truncated = truncated;
        confidence_basis_points = 10_000;
        created_at = latest_time (fact_time fact) facts;
        extractor_version = builder.extractor_version;
        fact_set_digest = fact_set_digest services.hash (fact ∷ facts);
        material_content_hash = hashed;
      }

  -- The previous contract, if it has the hash of its material.
  abbrev pub unless_same :
      Text
      → Previous
      → Result ContractBuildError ProvisionalContract
      → Result ContractBuildError ProvisionalContract
  unless_same hashed none revised = revised
  unless_same hashed (some contract) revised =
      if same_text contract.material_content_hash hashed then ok contract else revised

  -- From the facts' draft to the new revision.
  unfoldable pub revise :
      ProvisionalContractBuilder
      → Previous
      → ReducedFact
      → List ReducedFact
      → MaterialDraft
      → Result ContractBuildError ProvisionalContract
  unfolding stable_work_id stable_contract_id material_hash
  revise builder previous fact facts draft =
      let (provenance, truncated) =
        bounded_provenance (previous_evidence previous ++ evidence_of (fact ∷ facts)) in
      let retained =
        retain_field_evidence (bound_field_evidence (conclude previous (fact ∷ facts) draft))
          provenance in
      do
        validate_field_evidence retained.0 retained.1
        hashed ← material_hash retained.0
        unless_same hashed previous (
            next_revision previous >>= λ revision. ok (
              contract_of builder previous fact facts retained
                (truncated || previous_truncated previous) hashed revision))

  abbrev pub unless_known :
      Text
      → Previous
      → Result ContractBuildError ProvisionalContract
      → Result ContractBuildError ProvisionalContract
  unless_known fact_digest none revised = revised
  unless_known fact_digest (some contract) revised =
      if same_text contract.fact_set_digest fact_digest then ok contract else revised

  abbrev pub previous_or_missing : Previous → Result ContractBuildError ProvisionalContract
  previous_or_missing none = err missing_facts
  previous_or_missing (some contract) = ok contract

  unfoldable pub build :
      ProvisionalContractBuilder
      → Previous
      → List ReducedFact
      → Result ContractBuildError ProvisionalContract
  unfolding draft_of revise
  build builder previous [] = previous_or_missing previous
  build builder previous (fact ∷ facts) =
      let project_id = fact_project fact in
      do
        refuse (ltb max_inline_bytes (length builder.extractor_version)) extractor_version_too_large
        refuse (not (all (is_of project_id) (fact ∷ facts)) || other_project project_id previous)
            mixed_projects
        unless_known (fact_set_digest services.hash (fact ∷ facts)) previous (
            map_err redaction (draft_of previous (fact ∷ facts)) >>= λ draft.
            revise builder previous fact facts draft)
