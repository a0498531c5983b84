-- ===== src/Workgraph/Contract/Facts.antt =====
-- What the builder reads from a fact.
use agbox.Common.{ℕ, Bool, true, false, Option, none, some, List, [], ◌∷◌, ◌++◌, length, any}
use agbox.Core.Base.{Text}
use agbox.Core.Strings.{le_bytes, bytes, trim, to_ascii_lowercase, starts_with}
use agbox.Workgraph.Correlate.{set_of}
use agbox.Workgraph.Reducer.{
  ReducedFact, agent_run_started, agent_run_finished, session_context, artifact,
  action_requested_fact, action_finished_observed, eligible_verification_observed, verification,
  human_objective, human_constraint, agent_statement, evidence_id,
}

unfoldable pub fact_project : ReducedFact → Text
fact_project (agent_run_started p _ _ _ _ _) = p
fact_project (agent_run_finished p _ _ _ _ _ _) = p
fact_project (session_context p _ _ _ _ _) = p
fact_project (artifact p _ _ _ _ _ _ _) = p
fact_project (action_requested_fact p _ _ _ _ _ _ _) = p
fact_project (action_finished_observed p _ _ _ _ _) = p
fact_project (eligible_verification_observed p _ _ _ _ _) = p
fact_project (verification p _ _ _ _ _ _) = p
fact_project (human_objective p _ _ _ _) = p
fact_project (human_constraint p _ _ _ _) = p
fact_project (agent_statement p _ _ _ _) = p

unfoldable pub fact_time : ReducedFact → ℕ
fact_time (agent_run_started _ _ _ _ t _) = t
fact_time (agent_run_finished _ _ _ _ _ t _) = t
fact_time (session_context _ _ _ _ t _) = t
fact_time (artifact _ _ _ _ _ _ t _) = t
fact_time (action_requested_fact _ _ _ _ _ _ t _) = t
fact_time (action_finished_observed _ _ _ _ t _) = t
fact_time (eligible_verification_observed _ _ _ _ t _) = t
fact_time (verification _ _ _ _ _ t _) = t
fact_time (human_objective _ _ _ t _) = t
fact_time (human_constraint _ _ _ t _) = t
fact_time (agent_statement _ _ _ t _) = t

unfoldable pub abandons : Text → Bool
abandons text =
    let normalized = to_ascii_lowercase (trim text) in
    any (λ marker. starts_with marker normalized)
      (bytes "abandon"
        ∷ bytes "cancel this work"
        ∷ bytes "stop this work"
        ∷ bytes "do not continue"
        ∷ [])

unfoldable pub explicit_abandonment : ReducedFact → Bool
explicit_abandonment (human_objective _ _ (some text) _ _) = abandons text
explicit_abandonment (human_constraint _ _ (some text) _ _) = abandons text
explicit_abandonment _ = false

unfoldable pub active_work : ReducedFact → Bool
active_work (agent_run_started _ _ _ _ _ _) = true
active_work (artifact _ _ _ _ _ _ _ _) = true
active_work (action_requested_fact _ _ _ _ _ _ _ _) = true
active_work (human_objective _ _ _ _ _) = true
active_work (human_constraint _ _ _ _ _) = true
active_work _ = false

unfoldable pub successful_structured_result : ReducedFact → Bool
successful_structured_result (verification _ _ _ _ succeeded _ _) = succeeded
successful_structured_result (eligible_verification_observed _ _ _ succeeded _ _) = succeeded
successful_structured_result _ = false

-- The facts that are tied to an action: its session and its identifier.
abbrev pub action_of : ReducedFact → Option (Text × Text)
action_of (action_requested_fact _ s id _ _ _ _ _) = some (s, id)
action_of (action_finished_observed _ s id _ _ _) = some (s, id)
action_of (eligible_verification_observed _ s id _ _ _) = some (s, id)
action_of (verification _ s id _ _ _ _) = some (s, id)
action_of _ = none

-- The length as a `u64`, then the text.
abbrev pub framed : Text → Text
framed text = le_bytes 8 (length text) ++ text

abbrev pub framed_all : List Text → Text
framed_all [] = []
framed_all (text ∷ texts) = framed text ++ framed_all texts

abbrev pub evidence_of : List ReducedFact → List Text
evidence_of [] = []
evidence_of (fact ∷ facts) = evidence_id fact ∷ evidence_of facts

module _ (hash : Text → Text) where
  abbrev pub digest : Text → Text
  digest text = bytes "b3:" ++ hash text

  abbrev pub key_of : Option (Text × Text) → Option Text
  key_of none = none
  key_of (some (session_id, native_action_id)) =
      some (digest (framed session_id ++ framed native_action_id))

  unfoldable pub action_projection_key : ReducedFact → Option Text
  action_projection_key fact = key_of (action_of fact)

  unfoldable pub fact_set_digest : List ReducedFact → Text
  fact_set_digest facts = digest (framed_all (set_of (evidence_of facts)))
