-- ===== src/Workgraph/Intent/Tests.antt =====
-- A message of the human becomes the objective of a contract.
use agbox.Common.{◌≡◌, ◌⊎◌, refl, none, some, List, [], ◌∷◌, ℕ_discrete}
use agbox.Core.Base.{Text, Text-discrete, ok}
use agbox.Core.Strings.{bytes, trim, trim_end, trim_start, trim_start_from, space_width, is_blank}
use agbox.Core.Privacy.{DisclosureClass, is_transferable}
use agbox.Core.Content
use agbox.Core.Source.{validate_source_text}
use agbox.Core.Source
use agbox.Core.Activity.{Actor, message_created, validate_event_text, validate_payload}
use agbox.Core.Activity
use agbox.Core.Ordered.{put}
use agbox.Workgraph.Correlate.{bounded_unique, bounded_unique_loop}
use agbox.Workgraph.Reducer.{
  CommittedEvent, GraphMutation, human_objective, nonempty, fact_of, is_constraint,
  ActionKey-discrete, reduce_loop, evidence_id,
}
use agbox.Workgraph.Reducer.Reduce.{reduce, validate_slice, validate_loop}
use agbox.Workgraph.Reducer.Tests.{event, content, hundred, id}
use agbox.Workgraph.Contract.{ProvisionalContract, from_previous}
use agbox.Workgraph.Contract.Facts
use agbox.Workgraph.Contract.Actions
use agbox.Workgraph.Contract.Actions.{Redact}
use agbox.Workgraph.Contract.Draft
use agbox.Workgraph.Contract.Status
use agbox.Workgraph.Contract.Build
use agbox.Workgraph.Contract.Build.{build}
use agbox.Workgraph.Contract.Tests.{services, builder, nothing, result_or}
use agbox.Workgraph.Intent.{Intends, reduce-build-Intends}

abbrev said : CommittedEvent
said = record {
  event_seq = 7;
  event = event (bytes "e7") Actor.human (message_created (content DisclosureClass.human_intent));
}

abbrev slice : List CommittedEvent
slice = said ∷ []

abbrev mutation : GraphMutation
mutation = record {
  facts = human_objective (bytes "p") id (some (bytes "ls")) 6 (bytes "e7") ∷ [];
  expected_event_seq = 6;
  through_event_seq = some 7;
  through_event_id = some (bytes "e7");
}

abbrev built : ProvisionalContract
built = result_or nothing (build services builder none mutation.facts)

reduces : reduce hundred slice ≡ ok mutation
unfolding reduce validate_slice validate_loop reduce_loop fact_of nonempty is_blank trim_start
    trim_start_from space_width ActionKey-discrete Text-discrete ℕ_discrete Activity.validate
    validate_event_text validate_payload Source.validate validate_source_text Content.validate
    is_transferable is_constraint
reduces = refl

builds : build services builder none mutation.facts ≡ ok built
unfolding build Build.draft_of Build.revise Build.conclude Build.material_hash Build.stable_work_id
    Build.stable_contract_id from_previous Facts.fact_project Facts.fact_time Facts.abandons
    Facts.explicit_abandonment Facts.active_work Facts.successful_structured_result
    Facts.action_projection_key Facts.fact_set_digest evidence_id Actions.safe_text
    Actions.update_authoritative Actions.update_request Actions.project_actions
    Actions.project_action_fields Actions.updated Actions.update_action_projection
    Actions.update_actions Actions.apply_action_facts Draft.candidates Draft.apply_text_facts
    Draft.apply_artifact_facts Draft.bounded_items Draft.normalize Draft.bound_field_evidence
    Draft.bounded_provenance Draft.fill Draft.retained_evidence Draft.retain_field_evidence
    Draft.validate_field_evidence Status.outcomes_where Status.derive_status
    Status.has_failed_authority Status.observe_active_facts Status.ActivityProjection-discrete
    Status.AuthoritativeDigest-discrete Status.authoritative_digest bounded_unique
    bounded_unique_loop put Text-discrete trim trim_end trim_start trim_start_from space_width
    is_blank ℕ_discrete
builds = refl

reduce-build-Intends_example :
    (none ≡ some built)
    ⊎ ((built.material.objective ≡ (from_previous none).objective)
        ⊎ ((redact : Redact) × (text : Text) × (services.redact ≡ ok redact)
            × (built.material.objective ≡ some text)
            × Intends redact slice text))
reduce-build-Intends_example =
    reduce-build-Intends hundred services builder none slice mutation built reduces builds
