-- ===== src/Core/Activity.antt =====
-- crates/agbox-core/src/activity.rs: the immutable activity event and its validation.
use agbox.Common.{ℕ, Bool, true, false, not, Option, none, some, ltb, length, ◌==◌}
use Prim.Native.String.{String}
use agbox.Core.Base.{Text, Result, ok, err, ◌>>=◌, ◌>>◌, refuse, map_err, max_inline_bytes}
use agbox.Core.Privacy.{PrivacyLabel}
use agbox.Core.Content.{ContentRef, ContentError}
use agbox.Core.Content
use agbox.Core.Source.{SourceRef, SourceError}
use agbox.Core.Source
pub mod Validity

pub data Actor : Type 0 where
  human agent tool system : Actor

pub data ActionOutcome : Type 0 where
  succeeded failed cancelled unknown : ActionOutcome

pub data EventPayload : Type 0 where
  session_started : Option ContentRef → EventPayload
  session_context_changed : ContentRef → Option Text → EventPayload
  turn_started : Option Text → EventPayload
  turn_finished : ActionOutcome → EventPayload
  message_created : ContentRef → EventPayload
  -- The action, the tool and its input.
  action_requested : Text → Text → ContentRef → EventPayload
  action_finished : Text → ActionOutcome → Option ContentRef → EventPayload
  -- The path, the operation and the hash of the content.
  artifact_changed : ContentRef → Text → Option Text → EventPayload
  plan_observed : ContentRef → EventPayload
  agent_started : Text → EventPayload
  agent_finished : Text → ActionOutcome → EventPayload
  context_compacted : Option Text → EventPayload
  diagnostic_observed : Text → ContentRef → EventPayload

pub data ActivityError : Type 0 where
  invalid_schema_version : ActivityError
  text_too_large : String → ActivityError
  invalid_source : SourceError → ActivityError
  invalid_content : ContentError → ActivityError

unfoldable pub validate_event_text : String → Text → Result ActivityError (Unit {0})
validate_event_text field value =
    refuse (ltb max_inline_bytes (length value)) (text_too_large field)

abbrev pub validate_optional_event_text : String → Option Text → Result ActivityError (Unit {0})
validate_optional_event_text field none = ok tt
validate_optional_event_text field (some value) = validate_event_text field value

abbrev pub validate_content : ContentRef → Result ActivityError (Unit {0})
validate_content content = map_err invalid_content (Content.validate content)

abbrev pub validate_optional_content : Option ContentRef → Result ActivityError (Unit {0})
validate_optional_content none = ok tt
validate_optional_content (some content) = validate_content content

unfoldable pub validate_payload : EventPayload → Result ActivityError (Unit {0})
unfolding validate_event_text
validate_payload (session_started context) = validate_optional_content context
validate_payload (session_context_changed context branch_hash) = do
  validate_content context
  validate_optional_event_text "branch_hash" branch_hash
validate_payload (turn_started prompt_id) = validate_optional_event_text "prompt_id" prompt_id
validate_payload (turn_finished outcome) = ok tt
validate_payload (message_created content) = validate_content content
validate_payload (action_requested native_action_id tool_name input) = do
  validate_event_text "native_action_id" native_action_id
  validate_event_text "tool_name" tool_name
  validate_content input
validate_payload (action_finished native_action_id outcome output) = do
  validate_event_text "native_action_id" native_action_id
  validate_optional_content output
validate_payload (artifact_changed path operation content_hash) = do
  validate_content path
  validate_event_text "operation" operation
  validate_optional_event_text "content_hash" content_hash
validate_payload (plan_observed plan) = validate_content plan
validate_payload (agent_started native_agent_id) =
    validate_event_text "native_agent_id" native_agent_id
validate_payload (agent_finished native_agent_id outcome) =
    validate_event_text "native_agent_id" native_agent_id
validate_payload (context_compacted summary_hash) =
    validate_optional_event_text "summary_hash" summary_hash
validate_payload (diagnostic_observed level message) = do
  validate_event_text "level" level
  validate_content message

pub record ActivityEventV1 : Type 0 where
  pub event_id : Text
  pub semantic_key : Text
  pub schema_version : ℕ
  pub occurred_at : ℕ
  pub observed_at : ℕ
  pub project_id : Text
  pub session_id : Text
  pub turn_id : Option Text
  pub actor : Actor
  pub correlation_id : Option Text
  pub causation_id : Option Text
  pub source : SourceRef
  pub payload : EventPayload
  pub privacy : PrivacyLabel

unfoldable pub validate : ActivityEventV1 → Result ActivityError (Unit {0})
unfolding validate_event_text
validate e = do
  refuse (not (e.schema_version == 1)) invalid_schema_version
  validate_optional_event_text "turn_id" e.turn_id
  validate_optional_event_text "correlation_id" e.correlation_id
  validate_optional_event_text "causation_id" e.causation_id
  map_err invalid_source (Source.validate e.source)
  validate_payload e.payload

-- A draft has the fields of the event that it becomes.
unfoldable pub new : ActivityEventV1 → Result ActivityError ActivityEventV1
unfolding validate
new draft = do validate draft; ok draft
