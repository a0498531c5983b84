-- ===== src/Workgraph/Reducer/Tests.antt =====
-- A slice of a request and its result, reduced.
use agbox.Common.{
  ℕ, suc, ◌+◌, ◌≡◌, ◌↔◌, refl, Option, none, some, [], ◌∷◌, map, All, length, false, true,
  ℕ_discrete,
}
use agbox.Core.Base.{Text, Text-discrete, ok}
use agbox.Core.Privacy.{DisclosureClass, derived_local, is_transferable}
use agbox.Core.Content.{ContentRef}
use agbox.Core.Content
use agbox.Core.Source.{SourceRef, codex, validate_source_text}
use agbox.Core.Source
use agbox.Core.Activity.{
  ActivityEventV1, Actor, ActionOutcome, EventPayload, action_requested, action_finished,
  validate_event_text, validate_payload,
}
use agbox.Core.Activity
use agbox.Core.Strings.{bytes, is_blank, trim_start, trim_start_from, space_width}
use agbox.Workgraph.Reducer.{
  CommittedEvent, GraphMutation, action_requested_fact, verification, nonempty, fact_of,
  ActionKey-discrete, reduce_loop, evidence_id,
}
use agbox.Workgraph.Reducer.Reduce.{reduce, validate_slice, validate_loop}
use agbox.Workgraph.Reducer.Slice.{IsSlice, reduce-succeeds, reduce-cursor}
use agbox.Workgraph.Reducer.Provenance.{Cites, evidence_of, reduce-Cites, reduce-evidence}

abbrev pub id : Text
id = bytes "a"

abbrev pub content : DisclosureClass → ContentRef
content class = record {
  hash = id;
  byte_length = 1;
  media_type = id;
  local_locator = none;
  redacted_excerpt = some (bytes "ls");
  truncated = false;
  disclosure_class = class;
}

abbrev pub source : SourceRef
source = record {
  provider = codex;
  format = id;
  native_session_id = id;
  native_record_type = id;
  native_record_id = none;
  source_generation = 1;
  byte_offset = 0;
  ordinal = none;
  record_hash = id;
  decoder_version = id;
}

abbrev pub event : Text → Actor → EventPayload → ActivityEventV1
event name actor payload = record {
  event_id = name;
  semantic_key = id;
  schema_version = 1;
  occurred_at = 5;
  observed_at = 6;
  project_id = bytes "p";
  session_id = bytes "s";
  turn_id = none;
  actor = actor;
  correlation_id = none;
  causation_id = none;
  source = source;
  payload = payload;
  privacy = derived_local;
}

abbrev request : CommittedEvent
request = record {
  event_seq = 7;
  event =
      event (bytes "e7") Actor.agent
        (action_requested id (bytes "shell") (content DisclosureClass.agent_statement));
}

abbrev result : CommittedEvent
result = record {
  event_seq = 8;
  event =
      event (bytes "e8") Actor.tool
        (action_finished id ActionOutcome.succeeded (some (content DisclosureClass.tool_result)));
}

abbrev mutation : GraphMutation
mutation = record {
  facts =
      action_requested_fact (bytes "p") (bytes "s") id (bytes "shell") id (some (bytes "ls")) 6
        (bytes "e7")
      ∷ verification (bytes "p") (bytes "s") id (some (bytes "ls")) true 6 (bytes "e8")
      ∷ [];
  expected_event_seq = 6;
  through_event_seq = some 8;
  through_event_id = some (bytes "e8");
}

-- Every event has a text of 100 bytes.
abbrev pub hundred : ActivityEventV1 → Option ℕ
hundred e = some 100

run : reduce hundred (request ∷ result ∷ []) ≡ ok mutation
unfolding reduce validate_slice validate_loop reduce_loop fact_of nonempty is_blank trim_start
    trim_start_from space_width ActionKey-discrete Text-discrete ℕ_discrete Activity.validate
    validate_event_text validate_payload Source.validate validate_source_text Content.validate
    is_transferable
run = refl

reduce-succeeds_example :
    ((m : GraphMutation) × (reduce hundred (request ∷ result ∷ []) ≡ ok m))
    ↔ IsSlice hundred (request ∷ result ∷ [])
reduce-succeeds_example = reduce-succeeds hundred (request ∷ result ∷ [])

reduce-cursor_example :
    (suc mutation.expected_event_seq ≡ request.event_seq)
    × (mutation.through_event_seq
        ≡ some (mutation.expected_event_seq + length (request ∷ result ∷ [])))
reduce-cursor_example = reduce-cursor hundred request (result ∷ []) mutation run

reduce-Cites_example : All (Cites (request ∷ result ∷ [])) mutation.facts
reduce-Cites_example = reduce-Cites hundred (request ∷ result ∷ []) mutation run

reduce-evidence_example : map evidence_id mutation.facts ≡ evidence_of (request ∷ result ∷ [])
reduce-evidence_example = reduce-evidence hundred (request ∷ result ∷ []) mutation run
