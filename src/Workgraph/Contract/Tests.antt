-- ===== src/Workgraph/Contract/Tests.antt =====
-- A contract from two facts, and another one built on it.
use agbox.Common.{◌≡◌, ◌⊎◌, refl, true, false, none, some, List, length, [], ◌∷◌, All, ℕ_discrete}
use agbox.Core.Base.{Text, Text-discrete, Result, ok, err}
use agbox.Core.Strings.{bytes, trim, trim_end, trim_start, trim_start_from, space_width, is_blank}
use agbox.Core.Work.{WorkStatus}
use agbox.Core.Ordered.{put}
use agbox.Workgraph.Correlate.{bounded_unique, bounded_unique_loop}
use agbox.Workgraph.Reducer.{ReducedFact, action_requested_fact, verification, evidence_id}
use agbox.Workgraph.Contract.{
  ProvisionalContract, ProvisionalContractBuilder, Services, MaterialDraft, from_previous,
  ProjectionState, no_projection,
}
use agbox.Workgraph.Contract.Facts
use agbox.Workgraph.Contract.Actions
use agbox.Workgraph.Contract.Draft
use agbox.Workgraph.Contract.Status
use agbox.Workgraph.Contract.Build
use agbox.Workgraph.Contract.Build.{Previous, build, previous_status}
use agbox.Workgraph.Contract.Actions.{update_actions, apply_action_facts, bound_actions, Redact}
use agbox.Workgraph.Contract.Grounded.{IsGrounded, Follows, build-IsGrounded}
use agbox.Workgraph.Contract.Replay.{build-again}
use agbox.Workgraph.Contract.Derived.{IsDone, build-IsDone}
use agbox.Workgraph.Contract.Origins.{Originates}
use agbox.Workgraph.Contract.Latest.{Grows, Records, update_actions-Records}
use agbox.Workgraph.Contract.Fields.{ShowsActions, apply_action_facts-ShowsActions}

abbrev counted : Text → Text
counted text = length text ∷ []

abbrev pub keep : Redact
keep class text = ok text

abbrev pub services : Services
services = record {
  hash = counted;
  redact = ok keep;
  encode = λ d. some d.summary;
  fresh_work_id = bytes "work_new";
}

abbrev pub builder : ProvisionalContractBuilder
builder = record { extractor_version = bytes "v1"; work_id = none }

abbrev project : Text
project = bytes "p"

abbrev facts : List ReducedFact
facts =
    action_requested_fact project (bytes "s") (bytes "a") (bytes "sh") (bytes "h")
      (some (bytes "make")) 1 (bytes "e1")
    ∷ verification project (bytes "s") (bytes "a") (some (bytes "make")) true 2 (bytes "e2")
    ∷ []

-- What a failed run is taken to give.
abbrev pub nothing : ProvisionalContract
nothing = record {
  contract_id = [];
  work_id = [];
  revision = 0;
  project_id = [];
  material = from_previous none;
  evidence_refs = [];
  evidence_truncated = false;
  confidence_basis_points = 0;
  created_at = 0;
  extractor_version = [];
  fact_set_digest = [];
  material_content_hash = [];
}

abbrev pub result_or : {E A : Type 0} → A → Result E A → A
result_or a (ok b) = b
result_or a (err e) = a

abbrev built : ProvisionalContract
built = result_or nothing (build services builder none facts)

abbrev projected : ProjectionState
projected = result_or no_projection (update_actions counted keep no_projection facts)

abbrev applied : MaterialDraft
applied =
    result_or (from_previous none) (apply_action_facts counted keep (from_previous none) facts)

runs :
    (build services builder none facts ≡ ok built)
    × (built.material.status ≡ WorkStatus.completed)
    × (update_actions counted keep no_projection facts ≡ ok projected)
    × (apply_action_facts counted keep (from_previous none) facts ≡ ok applied)
unfolding build Build.draft_of Build.revise Build.conclude Build.material_hash Build.stable_work_id
    Build.stable_contract_id from_previous Facts.fact_project Facts.fact_time Facts.abandons
    Facts.explicit_abandonment Facts.active_work Facts.successful_structured_result
    Facts.action_projection_key Facts.fact_set_digest evidence_id Actions.safe_text
    Actions.update_authoritative Actions.update_request Actions.project_actions
    Actions.project_action_fields Actions.updated Actions.update_action_projection
    Actions.update_actions Actions.apply_action_facts Draft.candidates Draft.apply_text_facts
    Draft.apply_artifact_facts Draft.bounded_items Draft.normalize Draft.bound_field_evidence
    Draft.bounded_provenance Draft.fill Draft.retained_evidence Draft.retain_field_evidence
    Draft.validate_field_evidence Status.outcomes_where Status.derive_status
    Status.has_failed_authority Status.observe_active_facts Status.ActivityProjection-discrete
    Status.AuthoritativeDigest-discrete Status.authoritative_digest bounded_unique
    bounded_unique_loop put Text-discrete trim trim_end trim_start trim_start_from space_width
    is_blank ℕ_discrete
runs = (refl, refl, refl, refl)

build-IsGrounded_example : IsGrounded built × ((none ≡ some built) ⊎ Follows none built)
build-IsGrounded_example = build-IsGrounded services builder none facts built (λ p e. cc) runs.0

build-again_example : build services builder (some built) facts ≡ ok built
build-again_example = build-again services builder none facts built runs.0

build-IsDone_example : (none ≡ some built) ⊎ IsDone built.material.projection_state facts none
build-IsDone_example = build-IsDone services builder none facts built runs.0 runs.1

update_actions-Records_example :
    Grows no_projection projected
    × All (Records counted keep projected) facts
    × ((key : Text) → Originates counted keep no_projection projected facts key)
update_actions-Records_example =
    update_actions-Records counted keep no_projection projected facts runs.2

apply_action_facts-ShowsActions_example :
    ShowsActions applied
    × ((p : ProjectionState) × (update_actions counted keep
            (from_previous none).projection_state
            facts
          ≡ ok p)
        × (applied.projection_state ≡ bound_actions p))
apply_action_facts-ShowsActions_example =
    apply_action_facts-ShowsActions counted keep (from_previous none) applied facts runs.3
