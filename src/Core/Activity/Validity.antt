-- ===== src/Core/Activity/Validity.antt =====
-- Which activity events are valid, by the texts and the contents that they hold.
use agbox.Common.{◌≡◌, ◌≤◌, ◌↔◌, Option, none, some, List, [], ◌∷◌, ◌++◌, length, arith, All}
use agbox.Core.Base.{Text, ok, max_inline_bytes}
use agbox.Core.Content.{ContentRef}
use agbox.Core.Content
use agbox.Core.Source.{SourceRef}
use agbox.Core.Source
use agbox.Core.Activity.{
  EventPayload, ActivityEventV1, session_started, session_context_changed, turn_started,
  turn_finished, message_created, action_requested, action_finished, artifact_changed,
  plan_observed, agent_started, agent_finished, context_compacted, diagnostic_observed, validate,
  validate_payload,
}

abbrev pub to_list : {A : Type 0} → Option A → List A
to_list none = []
to_list (some a) = a ∷ []

-- The texts that stand in a payload itself.
abbrev pub payload_texts : EventPayload → List Text
payload_texts (session_started context) = []
payload_texts (session_context_changed context branch_hash) = to_list branch_hash
payload_texts (turn_started prompt_id) = to_list prompt_id
payload_texts (turn_finished outcome) = []
payload_texts (message_created content) = []
payload_texts (action_requested native_action_id tool_name input) =
    native_action_id ∷ tool_name ∷ []
payload_texts (action_finished native_action_id outcome output) = native_action_id ∷ []
payload_texts (artifact_changed path operation content_hash) = operation ∷ to_list content_hash
payload_texts (plan_observed plan) = []
payload_texts (agent_started native_agent_id) = native_agent_id ∷ []
payload_texts (agent_finished native_agent_id outcome) = native_agent_id ∷ []
payload_texts (context_compacted summary_hash) = to_list summary_hash
payload_texts (diagnostic_observed level message) = level ∷ []

-- The contents that a payload refers to.
abbrev pub payload_contents : EventPayload → List ContentRef
payload_contents (session_started context) = to_list context
payload_contents (session_context_changed context branch_hash) = context ∷ []
payload_contents (turn_started prompt_id) = []
payload_contents (turn_finished outcome) = []
payload_contents (message_created content) = content ∷ []
payload_contents (action_requested native_action_id tool_name input) = input ∷ []
payload_contents (action_finished native_action_id outcome output) = to_list output
payload_contents (artifact_changed path operation content_hash) = path ∷ []
payload_contents (plan_observed plan) = plan ∷ []
payload_contents (agent_started native_agent_id) = []
payload_contents (agent_finished native_agent_id outcome) = []
payload_contents (context_compacted summary_hash) = []
payload_contents (diagnostic_observed level message) = message ∷ []

abbrev pub source_texts : SourceRef → List Text
source_texts s =
    s.format
    ∷ s.native_session_id
    ∷ s.native_record_type
    ∷ s.record_hash
    ∷ s.decoder_version
    ∷ to_list s.native_record_id

abbrev pub IsShort : Text → Type 0
IsShort t = length t ≤ max_inline_bytes

abbrev pub IsValidContent : ContentRef → Type 0
IsValidContent c = Content.validate c ≡ ok tt

pub record IsValid (e : ActivityEventV1) : Type 0 where
  pub version : e.schema_version ≡ 1
  pub ids : All IsShort (to_list e.turn_id ++ (to_list e.correlation_id ++ to_list e.causation_id))
  pub source : All IsShort (source_texts e.source)
  pub texts : All IsShort (payload_texts e.payload)
  pub contents : All IsValidContent (payload_contents e.payload)

validate_payload-eq-ok :
    (p : EventPayload)
    → (validate_payload p ≡ ok tt)
      ↔ (All IsShort (payload_texts p) × All IsValidContent (payload_contents p))
unfolding validate_payload
validate_payload-eq-ok (session_started context) = (λ h. ground arith, λ h. ground arith)
validate_payload-eq-ok p = (λ h. ground arith, λ h. ground arith)

validate_source-eq-ok : (s : SourceRef) → (Source.validate s ≡ ok tt) ↔ All IsShort (source_texts s)
unfolding Source.validate
validate_source-eq-ok s = (λ h. ground arith, λ h. ground arith)

-- An event is valid exactly if its schema version is 1, each text of it, of its source and of its
-- payload fits inline, and each content that its payload refers to is valid.
pub validate-eq-ok : (e : ActivityEventV1) → (validate e ≡ ok tt) ↔ IsValid e
unfolding validate
validate-eq-ok e = (
  λ h. record {
    version = ground arith;
    ids = ground arith;
    source = (validate_source-eq-ok e.source).0 (ground arith);
    texts = ((validate_payload-eq-ok e.payload).0 (ground arith)).0;
    contents = ((validate_payload-eq-ok e.payload).0 (ground arith)).1;
  },
  λ v. ground (
    arith,
    (validate_source-eq-ok e.source).1 v.source,
    (validate_payload-eq-ok e.payload).1 (v.texts, v.contents),
  ),
)
