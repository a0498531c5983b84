-- ===== src/Workgraph/Reducer.antt =====
-- crates/agbox-workgraph/src/reducer.rs: from a slice of committed events to the facts of the work
-- graph. The length of an event's JSON text is a parameter (`none` where it cannot be written).
use agbox.Common.{
  ℕ, ◌+◌, ◌-◌, ◌*◌, ◌^◌, Bool, true, false, not, ◌&&◌, ◌||◌, Option, none, some, List, [], ◌∷◌,
  ◌++◌, length, ltb, ◌==◌, if◌then◌else◌, any,
}
use agbox.Common.Assoc.{lookup, insert}
use agbox.Core.Base.{
  Text, Text-discrete, Result, ok, err, ◌>>=◌, ◌>>◌, refuse, map_err, max_batch_records,
  max_batch_semantic_bytes,
}
use agbox.Core.Privacy.{DisclosureClass, same_class}
use agbox.Core.Content.{ContentRef}
use agbox.Core.Source.{Provider}
use agbox.Core.Activity.{
  ActivityEventV1, Actor, ActionOutcome, EventPayload, agent_started, agent_finished,
  session_context_changed, artifact_changed, action_requested, action_finished, message_created,
}
use agbox.Core.Activity
use agbox.Core.Strings.{bytes, is_blank, trim_start, to_ascii_lowercase, starts_with}
pub mod Reduce
pub mod Slice
pub mod Explains
pub mod Facts
pub mod Provenance
pub mod Tests

pub record CommittedEvent : Type 0 where
  pub event_seq : ℕ
  pub event : ActivityEventV1

pub data ReduceError : Type 0 where
  invalid_sequence too_many_events too_many_bytes invalid_event : ReduceError

-- Each fact has the project, the session where it has one, what it says, the time and the evidence.
-- The basis of a verification, which is always the same text, is left out.
pub data ReducedFact : Type 0 where
  agent_run_started : Text → Text → Provider → Text → ℕ → Text → ReducedFact
  agent_run_finished : Text → Text → Provider → Text → Bool → ℕ → Text → ReducedFact
  session_context : Text → Text → Provider → Option Text → ℕ → Text → ReducedFact
  -- The hash of the path, the path, the operation and the hash of the content.
  artifact : Text → Text → Text → Option Text → Text → Option Text → ℕ → Text → ReducedFact
  -- The action, the tool, the hash of the input and the input.
  action_requested_fact : Text → Text → Text → Text → Text → Option Text → ℕ → Text → ReducedFact
  action_finished_observed : Text → Text → Text → Bool → ℕ → Text → ReducedFact
  eligible_verification_observed : Text → Text → Text → Bool → ℕ → Text → ReducedFact
  -- The action and its command.
  verification : Text → Text → Text → Option Text → Bool → ℕ → Text → ReducedFact
  -- The hash of the content and the text.
  human_objective human_constraint agent_statement :
      Text → Text → Option Text → ℕ → Text → ReducedFact

unfoldable pub evidence_id : ReducedFact → Text
evidence_id (agent_run_started _ _ _ _ _ e) = e
evidence_id (agent_run_finished _ _ _ _ _ _ e) = e
evidence_id (session_context _ _ _ _ _ e) = e
evidence_id (artifact _ _ _ _ _ _ _ e) = e
evidence_id (action_requested_fact _ _ _ _ _ _ _ e) = e
evidence_id (action_finished_observed _ _ _ _ _ e) = e
evidence_id (eligible_verification_observed _ _ _ _ _ e) = e
evidence_id (verification _ _ _ _ _ _ e) = e
evidence_id (human_objective _ _ _ _ e) = e
evidence_id (human_constraint _ _ _ _ e) = e
evidence_id (agent_statement _ _ _ _ e) = e

pub record GraphMutation : Type 0 where
  pub facts : List ReducedFact
  pub expected_event_seq : ℕ
  pub through_event_seq : Option ℕ
  pub through_event_id : Option Text

abbrev pub succeeded : ActionOutcome → Bool
succeeded ActionOutcome.succeeded = true
succeeded _ = false

-- The text, if it has more than white space.
unfoldable pub nonempty : Option Text → Option Text
nonempty none = none
nonempty (some value) = if is_blank value then none else some value

unfoldable pub is_constraint : Text → Bool
is_constraint value =
    let lower = to_ascii_lowercase (trim_start value) in
    any (λ prefix. starts_with prefix lower)
      (bytes "do not "
        ∷ bytes "don't "
        ∷ bytes "must not "
        ∷ bytes "never "
        ∷ bytes "constraint:"
        ∷ [])

abbrev pub is_constraint_text : Option Text → Bool
is_constraint_text none = false
is_constraint_text (some value) = is_constraint value

-- The project, the session and the action.
abbrev pub ActionKey : Type 0
ActionKey = Text × Text × Text

unfoldable pub ActionKey-discrete : Discrete ActionKey
ActionKey-discrete = hlevel Text-discrete

abbrev pub action_key : ActivityEventV1 → Text → ActionKey
action_key event native_action_id = (event.project_id, event.session_id, native_action_id)

-- The actions that were requested, with their commands.
abbrev pub Requests : Type 0
Requests = List (ActionKey × Option Text)

abbrev pub is_tool : Actor → Bool
is_tool Actor.tool = true
is_tool _ = false

abbrev pub is_human : Actor → Bool
is_human Actor.human = true
is_human _ = false

abbrev pub is_agent : Actor → Bool
is_agent Actor.agent = true
is_agent _ = false

abbrev pub is_tool_output : Option ContentRef → Bool
is_tool_output none = true
is_tool_output (some content) = same_class content.disclosure_class DisclosureClass.tool_result

abbrev pub authorized_result : ActivityEventV1 → Option ContentRef → Bool
authorized_result event output = is_tool event.actor && is_tool_output output

-- The fact of an authorized result, by the request that was found.
abbrev pub verified : ActivityEventV1 → Text → ActionOutcome → Option (Option Text) → ReducedFact
verified event id outcome (some command) =
    verification event.project_id event.session_id id command (succeeded outcome) event.observed_at
      event.event_id
verified event id outcome none =
    eligible_verification_observed event.project_id event.session_id id (succeeded outcome)
      event.observed_at event.event_id

abbrev pub message_fact : ActivityEventV1 → ContentRef → Option ReducedFact
message_fact event content =
    let text = nonempty content.redacted_excerpt in
    if is_human event.actor && same_class content.disclosure_class DisclosureClass.human_intent
    then some (
        if is_constraint_text text
        then human_constraint event.project_id content.hash text event.observed_at event.event_id
        else human_objective event.project_id content.hash text event.observed_at event.event_id)
    else if is_agent event.actor
    then some (agent_statement event.project_id content.hash text event.observed_at event.event_id)
    else none

-- What the arm of the payload pushes to the facts.
unfoldable pub fact_of : Requests → ActivityEventV1 → EventPayload → Option ReducedFact
fact_of requests e (agent_started id) =
    some (agent_run_started e.project_id e.session_id e.source.provider id e.observed_at e.event_id)
fact_of requests e (agent_finished id outcome) = some (
    agent_run_finished e.project_id e.session_id e.source.provider id (succeeded outcome)
      e.observed_at e.event_id)
fact_of requests e (session_context_changed context branch_hash) = some (
    session_context e.project_id e.session_id e.source.provider branch_hash e.observed_at
      e.event_id)
fact_of requests e (artifact_changed path operation content_hash) = some (
    artifact e.project_id e.session_id path.hash (nonempty path.redacted_excerpt) operation
      content_hash e.observed_at e.event_id)
fact_of requests e (action_requested id tool_name input) = some (
    action_requested_fact e.project_id e.session_id id tool_name input.hash
      (nonempty input.redacted_excerpt) e.observed_at e.event_id)
fact_of requests e (action_finished id outcome output) = some (
    if authorized_result e output
    then verified e id outcome (lookup ActionKey-discrete (action_key e id) requests)
    else action_finished_observed e.project_id e.session_id id (succeeded outcome) e.observed_at
        e.event_id)
fact_of requests e (message_created content) = message_fact e content
fact_of requests e _ = none

abbrev pub request_of : ActivityEventV1 → EventPayload → Requests → Requests
request_of e (action_requested id tool_name input) requests =
    insert ActionKey-discrete (action_key e id) (nonempty input.redacted_excerpt) requests
request_of e _ requests = requests

abbrev pub push : Option ReducedFact → List ReducedFact → List ReducedFact
push none facts = facts
push (some fact) facts = facts ++ (fact ∷ [])

-- The loop over the events.
unfoldable pub reduce_loop : Requests → GraphMutation → List CommittedEvent → GraphMutation
reduce_loop requests mutation [] = mutation
reduce_loop requests mutation (c ∷ events) =
    reduce_loop (request_of c.event c.event.payload requests)
      (record {
        facts = push (fact_of requests c.event c.event.payload) mutation.facts;
        expected_event_seq = mutation.expected_event_seq;
        through_event_seq = some c.event_seq;
        through_event_id = some c.event.event_id;
      })
      events

abbrev pub first_expected : List CommittedEvent → ℕ
first_expected [] = 0
first_expected (c ∷ events) = c.event_seq - 1

abbrev pub empty_mutation : List CommittedEvent → GraphMutation
empty_mutation events = record {
  facts = [];
  expected_event_seq = first_expected events;
  through_event_seq = none;
  through_event_id = none;
}
