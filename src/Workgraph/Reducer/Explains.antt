-- ===== src/Workgraph/Reducer/Explains.antt =====
-- When a fact says of an event what the event shows.
use agbox.Common.{ℕ, ◌≡◌, true, false, Option, none, some, List, [], ◌∷◌, ite}
use agbox.Core.Base.{Text}
use agbox.Core.Privacy.{DisclosureClass}
use agbox.Core.Content.{ContentRef}
use agbox.Core.Activity.{
  ActivityEventV1, Actor, ActionOutcome, EventPayload, agent_started, agent_finished,
  session_context_changed, artifact_changed, action_requested, action_finished, message_created,
}
use agbox.Workgraph.Reducer.{
  CommittedEvent, ReducedFact, agent_run_started, agent_run_finished, session_context, artifact,
  action_requested_fact, action_finished_observed, eligible_verification_observed, verification,
  human_objective, human_constraint, agent_statement, ActionKey, ActionKey-discrete, action_key,
  succeeded, nonempty, is_constraint_text, authorized_result,
}

-- Where and when the event was, and which evidence it is.
abbrev pub At : ActivityEventV1 → Text → Text → ℕ → Text → Type 0
At e project session observed_at evidence =
    (project ≡ e.project_id)
    × (session ≡ e.session_id)
    × (observed_at ≡ e.observed_at)
    × (evidence ≡ e.event_id)

-- The command of the action, if the event requests it.
abbrev pub request_at : ActionKey → ActivityEventV1 → EventPayload → Option (Option Text)
request_at key e (action_requested id tool_name input) =
    ite (ActionKey-discrete (action_key e id) key) (some (nonempty input.redacted_excerpt)) none
request_at key e _ = none

abbrev pub or_else : {A : Type 0} → Option A → Option A → Option A
or_else none b = b
or_else (some a) b = some a

-- The command of the last request of the action.
abbrev pub last_request : ActionKey → List CommittedEvent → Option (Option Text)
last_request key [] = none
last_request key (c ∷ events) =
    let later = last_request key events in or_else later (request_at key c.event c.event.payload)

abbrev pub FromTool : ActivityEventV1 → Option ContentRef → Type 0
FromTool e none = e.actor ≡ Actor.tool
FromTool e (some content) =
    (e.actor ≡ Actor.tool) × (content.disclosure_class ≡ DisclosureClass.tool_result)

-- A message of the human, disclosed as such.
abbrev pub HumanSaid : ActivityEventV1 → ContentRef → Type 0
HumanSaid e content =
    (e.payload ≡ message_created content)
    × (e.actor ≡ Actor.human)
    × (content.disclosure_class ≡ DisclosureClass.human_intent)

abbrev pub Quotes : ContentRef → Text → Option Text → Type 0
Quotes content hash text = (hash ≡ content.hash) × (text ≡ nonempty content.redacted_excerpt)

-- The fact says of the event what the event shows, after the events before it in the slice.
abbrev pub Explains : List CommittedEvent → ActivityEventV1 → ReducedFact → Type 0
Explains before e (agent_run_started p s provider id t ev) =
    At e p s t ev × (provider ≡ e.source.provider) × (e.payload ≡ agent_started id)
Explains before e (agent_run_finished p s provider id good t ev) =
    At e p s t ev
    × (provider ≡ e.source.provider)
    × ((outcome : ActionOutcome) × (e.payload ≡ agent_finished id outcome)
        × (good ≡ succeeded outcome))
Explains before e (session_context p s provider branch_hash t ev) =
    At e p s t ev
    × (provider ≡ e.source.provider)
    × ((context : ContentRef) × (e.payload ≡ session_context_changed context branch_hash))
Explains before e (artifact p s path_hash relative operation content_hash t ev) =
    At e p s t ev
    × ((path : ContentRef) × (e.payload ≡ artifact_changed path operation content_hash)
        × Quotes path path_hash relative)
Explains before e (action_requested_fact p s id tool_name input_hash text t ev) =
    At e p s t ev
    × ((input : ContentRef) × (e.payload ≡ action_requested id tool_name input)
        × Quotes input input_hash text)
Explains before e (action_finished_observed p s id good t ev) =
    At e p s t ev
    × ((outcome : ActionOutcome) × (output : Option ContentRef) × (e.payload
          ≡ action_finished id outcome output)
        × (good ≡ succeeded outcome)
        × (authorized_result e output ≡ false))
Explains before e (eligible_verification_observed p s id good t ev) =
    At e p s t ev
    × ((outcome : ActionOutcome) × (output : Option ContentRef) × (e.payload
          ≡ action_finished id outcome output)
        × (good ≡ succeeded outcome)
        × FromTool e output)
    × (last_request (action_key e id) before ≡ none)
Explains before e (verification p s id command good t ev) =
    At e p s t ev
    × ((outcome : ActionOutcome) × (output : Option ContentRef) × (e.payload
          ≡ action_finished id outcome output)
        × (good ≡ succeeded outcome)
        × FromTool e output)
    × (last_request (action_key e id) before ≡ some command)
Explains before e (human_objective p hash text t ev) =
    At e p e.session_id t ev
    × ((content : ContentRef) × HumanSaid e content × Quotes content hash text)
    × (is_constraint_text text ≡ false)
Explains before e (human_constraint p hash text t ev) =
    At e p e.session_id t ev
    × ((content : ContentRef) × HumanSaid e content × Quotes content hash text)
    × (is_constraint_text text ≡ true)
Explains before e (agent_statement p hash text t ev) =
    At e p e.session_id t ev
    × (e.actor ≡ Actor.agent)
    × ((content : ContentRef) × (e.payload ≡ message_created content) × Quotes content hash text)

abbrev pub IsExplained : List CommittedEvent → ActivityEventV1 → Option ReducedFact → Type 0
IsExplained before e none = Unit
IsExplained before e (some fact) = Explains before e fact
