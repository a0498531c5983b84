-- ===== src/Core/Tests.antt =====
-- The values of the core at concrete inputs.
use agbox.Common.{ℕ, ◌≡◌, ◌↔◌, Option, none, some, [], ◌∷◌}
use agbox.Core.Base.{Text, ok}
use agbox.Core.Privacy.{derived_local, Authority, DisclosureClass, RedactedText}
use agbox.Core.Content.{ContentRef, LocalLocator, source_range, bounded, content_of}
use agbox.Core.Content
use agbox.Core.Content.Bounded.{Fits, bounded-eq-ok, validate-rebuilt, rebuilt, excerpt_of}
use agbox.Core.Source.{codex, SourceRef}
use agbox.Core.Activity.{Actor, agent, ActivityEventV1, message_created}
use agbox.Core.Activity
use agbox.Core.Activity.Validity
use agbox.Core.Work.{new_assertion, assertion_of, next_action, active}
use agbox.Core.Work.Grounding.{IsGrounded, new_assertion-eq-ok}
use agbox.Core.Contract.{Contract, WorkContractRevision, WorkContractRevisionDraft, revision_of}
use agbox.Core.Contract
use agbox.Core.Contract.Revisions.{IsOfOneClass, new-eq-ok}
use agbox.Core.Contract.Revisions

abbrev word : Text
word = 119 ∷ 111 ∷ 114 ∷ 107 ∷ []

abbrev said : RedactedText
said = record { value = word; redactions = 0; disclosure_class = DisclosureClass.human_intent }

abbrev place : Option LocalLocator
place = some (source_range word 1 10 20)

abbrev content : ContentRef
content = content_of word 10 word place DisclosureClass.human_intent (some said)

bounded-eq-ok_example :
    (bounded word 10 word place DisclosureClass.human_intent (some said) ≡ ok content)
    ↔ (Fits word word place DisclosureClass.human_intent (some said) × (content ≡ content))
bounded-eq-ok_example =
    bounded-eq-ok word 10 word place DisclosureClass.human_intent (some said) content

validate-rebuilt_example : (Content.validate content ≡ ok tt) ↔ (
    Fits word word place DisclosureClass.human_intent (excerpt_of content)
    × (rebuilt content ≡ ok content))
validate-rebuilt_example = validate-rebuilt content

abbrev source : SourceRef
source = record {
  provider = codex;
  format = word;
  native_session_id = word;
  native_record_type = word;
  native_record_id = none;
  source_generation = 1;
  byte_offset = 64;
  ordinal = some 1;
  record_hash = word;
  decoder_version = word;
}

abbrev event : ActivityEventV1
event = record {
  event_id = word;
  semantic_key = word;
  schema_version = 1;
  occurred_at = 0;
  observed_at = 0;
  project_id = word;
  session_id = word;
  turn_id = some word;
  actor = agent;
  correlation_id = none;
  causation_id = none;
  source = source;
  payload = message_created content;
  privacy = derived_local;
}

validate-eq-ok_example : (Activity.validate event ≡ ok tt) ↔ Activity.Validity.IsValid event
validate-eq-ok_example = Activity.Validity.validate-eq-ok event

new_assertion-eq-ok_example :
    (new_assertion next_action said Authority.human_intent derived_local (word ∷ []) 10_000
      ≡ ok (assertion_of next_action said Authority.human_intent derived_local (word ∷ []) 10_000))
    ↔ (IsGrounded
          (assertion_of next_action said Authority.human_intent derived_local (word ∷ []) 10_000)
        × (assertion_of next_action said Authority.human_intent derived_local (word ∷ []) 10_000
            ≡ assertion_of next_action said Authority.human_intent derived_local
                (word ∷ [])
                10_000))
new_assertion-eq-ok_example =
    new_assertion-eq-ok next_action said Authority.human_intent derived_local (word ∷ []) 10_000
      (assertion_of next_action said Authority.human_intent derived_local (word ∷ []) 10_000)

abbrev draft : WorkContractRevisionDraft
draft = record {
  contract_id = word;
  work_id = word;
  revision = 1;
  project_id = word;
  objective = some said;
  status = active;
  summary = said;
  completed_steps = said ∷ [];
  next_actions = [];
  blockers = [];
  constraints = [];
  completion_criteria = [];
  artifacts = [];
  verification = [];
  source_runs = [];
  evidence_refs = word ∷ [];
  confidence_basis_points = 5_000;
  created_at = 0;
  extractor_version = word;
  disclosure_class = DisclosureClass.human_intent;
}

abbrev hundred : WorkContractRevision → Option ℕ
hundred r = some 100

new-eq-ok_example : (Contract.new hundred draft ≡ ok (revision_of draft)) ↔ (
    IsOfOneClass draft
    × Contract.Revisions.IsValid hundred (revision_of draft)
    × (revision_of draft ≡ revision_of draft))
new-eq-ok_example = new-eq-ok hundred draft (revision_of draft)
