-- ===== src/Workgraph/Reducer/Facts.antt =====
-- The fact that the reducer makes of an event says what the event shows.
use agbox.Common.{
  ◌≡◌, refl, inl, inr, true, ◌&&◌, Option, none, some, List, arith, Bool-cases, subst, sym, ap,
  if◌then◌else◌,
}
use agbox.Common.Assoc.{lookup}
use agbox.Core.Base.{Text}
use agbox.Core.Privacy.{DisclosureClass, same_class, same_class-eq}
use agbox.Core.Content.{ContentRef}
use agbox.Core.Activity.{
  ActivityEventV1, Actor, ActionOutcome, EventPayload, session_started, turn_started, turn_finished,
  plan_observed, context_compacted, diagnostic_observed, agent_started, agent_finished,
  session_context_changed, artifact_changed, action_requested, action_finished, message_created,
}
use agbox.Workgraph.Reducer.{
  CommittedEvent, ReducedFact, action_finished_observed, human_objective, human_constraint,
  agent_statement, ActionKey, ActionKey-discrete, action_key, Requests, succeeded, nonempty,
  is_constraint_text, is_tool, is_human, is_agent, authorized_result, verified, message_fact,
  fact_of,
}
use agbox.Workgraph.Reducer.Explains.{last_request, FromTool, HumanSaid, Explains, IsExplained}

-- The fact of a result that is not authorized.
abbrev observed : ActivityEventV1 → Text → ActionOutcome → ReducedFact
observed e id outcome =
    action_finished_observed e.project_id e.session_id id (succeeded outcome) e.observed_at
      e.event_id

is_tool-eq : (a : Actor) → is_tool a ≡ true → a ≡ Actor.tool
is_tool-eq a h = ground arith

is_human-eq : (a : Actor) → is_human a ≡ true → a ≡ Actor.human
is_human-eq a h = ground arith

is_agent-eq : (a : Actor) → is_agent a ≡ true → a ≡ Actor.agent
is_agent-eq a h = ground arith

authorized_result-FromTool :
    (e : ActivityEventV1) (output : Option ContentRef)
    → authorized_result e output ≡ true
    → FromTool e output
authorized_result-FromTool e none h = is_tool-eq e.actor (ground arith)
authorized_result-FromTool e (some content) h = (
  is_tool-eq e.actor (ground arith),
  same_class-eq content.disclosure_class DisclosureClass.tool_result (ground arith),
)

verified-Explains :
    (before : List CommittedEvent) (e : ActivityEventV1) (id : Text) (outcome : ActionOutcome)
    (output : Option ContentRef) (o : Option (Option Text))
    → e.payload ≡ action_finished id outcome output
    → FromTool e output
    → last_request (action_key e id) before ≡ o
    → Explains before e (verified e id outcome o)
verified-Explains before e id outcome output none h tool l =
    ((refl, refl, refl, refl), (outcome, output, h, refl, tool), l)
verified-Explains before e id outcome output (some command) h tool l =
    ((refl, refl, refl, refl), (outcome, output, h, refl, tool), l)

message_fact-IsExplained :
    (before : List CommittedEvent) (e : ActivityEventV1) (content : ContentRef)
    → e.payload ≡ message_created content
    → IsExplained before e (message_fact e content)
message_fact-IsExplained before e content h =
    let text = nonempty content.redacted_excerpt in
    elim (Bool-cases
      (is_human e.actor && same_class content.disclosure_class DisclosureClass.human_intent)) [
        | inl said ↦
            let human : HumanSaid e content = (
              h,
              is_human-eq e.actor (ground arith),
              same_class-eq content.disclosure_class DisclosureClass.human_intent (ground arith),
            ) in
            elim (Bool-cases (is_constraint_text text)) [
              | inl c ↦
                  subst (IsExplained before e)
                    {x = some
                      (human_constraint e.project_id content.hash text e.observed_at e.event_id)}
                    (rw (said, c)) ((refl, refl, refl, refl), (content, human, (refl, refl)), c)
              | inr c ↦
                  subst (IsExplained before e)
                    {x = some
                      (human_objective e.project_id content.hash text e.observed_at e.event_id)}
                    (rw (said, c)) ((refl, refl, refl, refl), (content, human, (refl, refl)), c)
            ]
        | inr other ↦ elim (Bool-cases (is_agent e.actor)) [
          | inl a ↦
              subst (IsExplained before e)
                {x = some (agent_statement e.project_id content.hash text e.observed_at e.event_id)}
                (rw (other, a))
                ((refl, refl, refl, refl), is_agent-eq e.actor a, (content, h, (refl, refl)))
          | inr neither ↦ subst (IsExplained before e) {x = none} (rw (other, neither)) tt
        ]
      ]

pub fact_of-IsExplained :
    (requests : Requests) (before : List CommittedEvent) (e : ActivityEventV1)
    (payload : EventPayload)
    → ((key : ActionKey) → lookup ActionKey-discrete key requests ≡ last_request key before)
    → e.payload ≡ payload
    → IsExplained before e (fact_of requests e payload)
unfolding fact_of
fact_of-IsExplained requests before e (agent_started id) inv h = ((refl, refl, refl, refl), refl, h)
fact_of-IsExplained requests before e (agent_finished id outcome) inv h =
    ((refl, refl, refl, refl), refl, (outcome, h, refl))
fact_of-IsExplained requests before e (session_context_changed context branch_hash) inv h =
    ((refl, refl, refl, refl), refl, (context, h))
fact_of-IsExplained requests before e (artifact_changed path operation content_hash) inv h =
    ((refl, refl, refl, refl), (path, h, (refl, refl)))
fact_of-IsExplained requests before e (action_requested id tool_name input) inv h =
    ((refl, refl, refl, refl), (input, h, (refl, refl)))
fact_of-IsExplained requests before e (action_finished id outcome output) inv h =
    elim (Bool-cases (authorized_result e output)) [
      | inl authorized ↦
          subst (IsExplained before e)
            (ap
              (λ b. some (
                if b
                then verified e id outcome (lookup ActionKey-discrete (action_key e id) requests)
                else observed e id outcome))
              (sym authorized))
            (verified-Explains before e id outcome output
              (lookup ActionKey-discrete (action_key e id) requests) h
              (authorized_result-FromTool e output authorized) (sym (inv (action_key e id))))
      | inr not_authorized ↦
          subst (IsExplained before e)
            (ap
              (λ b. some (
                if b
                then verified e id outcome (lookup ActionKey-discrete (action_key e id) requests)
                else observed e id outcome))
              (sym not_authorized))
            ((refl, refl, refl, refl), (outcome, output, h, refl, not_authorized))
    ]
fact_of-IsExplained requests before e (message_created content) inv h =
    message_fact-IsExplained before e content h
fact_of-IsExplained requests before e (session_started context) inv h = tt
fact_of-IsExplained requests before e (turn_started p) inv h = tt
fact_of-IsExplained requests before e (turn_finished o) inv h = tt
fact_of-IsExplained requests before e (plan_observed p) inv h = tt
fact_of-IsExplained requests before e (context_compacted p) inv h = tt
fact_of-IsExplained requests before e (diagnostic_observed l m) inv h = tt
