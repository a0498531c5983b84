-- ===== src/Workgraph/Contract/Actions.antt =====
-- What the facts say of each action, and the fields that this gives.
use agbox.Common.{
  ℕ, Bool, true, false, ◌&&◌, ◌||◌, Option, none, some, List, [], ◌∷◌, ◌++◌, length, ◌==◌, ltb,
  if◌then◌else◌, take,
}
use agbox.Common.Assoc.{lookup}
use agbox.Core.Ordered.{put}
use agbox.Core.Base.{
  Text, Text-discrete, Result, ok, ◌>>=◌, max_preview_bytes, max_contract_evidence_refs,
}
use agbox.Core.Strings.{text_less}
use agbox.Core.Privacy.{DisclosureClass}
use agbox.Workgraph.Reducer.{
  ReducedFact, action_requested_fact, action_finished_observed, eligible_verification_observed,
  verification,
}
use agbox.Workgraph.Contract.Facts.{action_projection_key}
use agbox.Workgraph.Contract.{
  RedactionError, ActionProjection, ProjectedText, ProjectedOutcome, ProjectionState, MaterialDraft,
  ContractField, FieldEvidence, same_field,
}

abbrev pub Redact : Type 0
Redact = DisclosureClass → Text → Result RedactionError Text

abbrev pub nonempty_text : Text → Option Text
nonempty_text [] = none
nonempty_text (b ∷ text) = some (b ∷ text)

unfoldable pub safe_text : Redact → DisclosureClass → Text → Result RedactionError (Option Text)
safe_text redact class text =
    if length text == 0 || ltb max_preview_bytes (length text)
    then ok none
    else redact class text >>= λ redacted. ok (nonempty_text redacted)

abbrev pub safe_optional_text :
    Redact → DisclosureClass → Option Text → Result RedactionError (Option Text)
safe_optional_text redact class none = ok none
safe_optional_text redact class (some text) = safe_text redact class text

abbrev pub later : ℕ → Text → ℕ → Text → Bool
later time evidence time' evidence' =
    ltb time' time || (time == time' && text_less evidence' evidence)

abbrev pub replaces_outcome : ProjectedOutcome → Option ProjectedOutcome → Bool
replaces_outcome candidate none = true
replaces_outcome candidate (some existing) =
    later candidate.observed_at candidate.evidence existing.observed_at existing.evidence

unfoldable pub update_authoritative : ActionProjection → ProjectedOutcome → ActionProjection
update_authoritative action candidate =
    if replaces_outcome candidate action.authoritative
    then record action { authoritative = some candidate }
    else action

abbrev pub replaces_request : Text → Option ProjectedText → Bool
replaces_request evidence none = true
replaces_request evidence (some existing) = text_less existing.evidence evidence

unfoldable pub update_request : ActionProjection → Text → Option Text → ActionProjection
update_request action evidence none = action
update_request action evidence (some text) =
    if replaces_request evidence action.request
    then record action { request = some (record { text = text; evidence = evidence }) }
    else action

abbrev pub finish_action : ActionProjection → ActionProjection
finish_action action = record action { finished = true }

abbrev pub outcome_at : Bool → ℕ → Text → Option Text → ProjectedOutcome
outcome_at succeeded observed_at evidence command = record {
  command = command;
  succeeded = succeeded;
  observed_at = observed_at;
  evidence = evidence;
}

abbrev pub new_action : ActionProjection
new_action = record { request = none; finished = false; authoritative = none }

-- The entry of the map, or a new one.
abbrev pub entry_or_default : Option ActionProjection → ActionProjection
entry_or_default none = new_action
entry_or_default (some action) = action

abbrev pub action_at : Text → ProjectionState → ActionProjection
action_at key projection = entry_or_default (lookup Text-discrete key projection.actions)

abbrev pub store : Text → ProjectionState → ActionProjection → ProjectionState
store key projection action = record projection { actions = put key action projection.actions }

abbrev pub set_field : ContractField → Option (List Text) → FieldEvidence → FieldEvidence
set_field field references evidence other =
    if same_field field other then references else evidence other

abbrev pub references_of : Option (List Text) → List Text
references_of none = []
references_of (some references) = references

-- `entry(field).or_default().push(evidence)`.
abbrev pub cite : ContractField → Text → FieldEvidence → FieldEvidence
cite field reference evidence =
    set_field field (some (references_of (evidence field) ++ (reference ∷ []))) evidence

-- The four lists start empty, and so does their evidence.
abbrev pub clear_action_fields : MaterialDraft → MaterialDraft
clear_action_fields d = record d {
  completed_steps = [];
  next_actions = [];
  blockers = [];
  verification = [];
  field_evidence = set_field ContractField.verification none (
      set_field ContractField.blockers none (
        set_field ContractField.next_actions none
          (set_field ContractField.completed_steps none d.field_evidence)));
}

abbrev pub add_next_action : MaterialDraft → ProjectedText → MaterialDraft
add_next_action d request = record d {
  next_actions = d.next_actions ++ (request.text ∷ []);
  field_evidence = cite ContractField.next_actions request.evidence d.field_evidence;
}

abbrev pub project_request : Bool → Option ProjectedText → MaterialDraft → MaterialDraft
project_request true request d = d
project_request false none d = d
project_request false (some request) d = add_next_action d request

abbrev pub add_verification : Text → Text → MaterialDraft → MaterialDraft
add_verification command evidence d = record d {
  verification = d.verification ++ (command ∷ []);
  field_evidence = cite ContractField.verification evidence d.field_evidence;
}

abbrev pub add_step : Bool → Text → Text → MaterialDraft → MaterialDraft
add_step true command evidence d = record d {
  completed_steps = d.completed_steps ++ (command ∷ []);
  field_evidence = cite ContractField.completed_steps evidence d.field_evidence;
}
add_step false command evidence d = record d {
  blockers = d.blockers ++ (command ∷ []);
  field_evidence = cite ContractField.blockers evidence d.field_evidence;
}

abbrev pub project_command : Bool → Text → Option Text → MaterialDraft → MaterialDraft
project_command succeeded evidence none d = d
project_command succeeded evidence (some command) d =
    add_step succeeded command evidence (add_verification command evidence d)

abbrev pub project_outcome : Option ProjectedOutcome → MaterialDraft → MaterialDraft
project_outcome none d = d
project_outcome (some outcome) d =
    project_command outcome.succeeded outcome.evidence outcome.command d

abbrev pub project_action : ActionProjection → MaterialDraft → MaterialDraft
project_action action d =
    project_outcome action.authoritative (project_request action.finished action.request d)

unfoldable pub project_actions : List (Text × ActionProjection) → MaterialDraft → MaterialDraft
project_actions [] d = d
project_actions ((key, action) ∷ actions) d = project_actions actions (project_action action d)

unfoldable pub project_action_fields : MaterialDraft → MaterialDraft
unfolding project_actions
project_action_fields d = project_actions d.projection_state.actions (clear_action_fields d)

-- The first actions in the order of their keys.
abbrev pub bound_actions : ProjectionState → ProjectionState
bound_actions p = record p { actions = take max_contract_evidence_refs p.actions }

module _ (hash : Text → Text) (redact : Redact) where
  unfoldable pub updated : ActionProjection → ReducedFact → Result RedactionError ActionProjection
  updated action (action_requested_fact _ _ _ _ _ (some input) _ evidence) =
      safe_text redact DisclosureClass.observed_state input >>= λ text.
      ok (update_request action evidence text)
  updated action (action_finished_observed _ _ _ _ _ _) = ok (finish_action action)
  updated action (eligible_verification_observed _ _ _ succeeded observed_at evidence) =
      ok (
        update_authoritative (finish_action action)
          (outcome_at succeeded observed_at evidence none))
  updated action (verification _ _ _ command succeeded observed_at evidence) =
      safe_optional_text redact DisclosureClass.tool_result command >>= λ text.
      ok (
        update_authoritative (finish_action action)
          (outcome_at succeeded observed_at evidence text))
  updated action _ = ok action

  abbrev pub update_at :
      Option Text → ProjectionState → ReducedFact → Result RedactionError ProjectionState
  update_at none projection fact = ok projection
  update_at (some key) projection fact =
      updated (action_at key projection) fact >>= λ action. ok (store key projection action)

  unfoldable pub update_action_projection :
      ProjectionState → ReducedFact → Result RedactionError ProjectionState
  unfolding updated
  update_action_projection projection fact =
      update_at (action_projection_key hash fact) projection fact

  unfoldable pub update_actions :
      ProjectionState → List ReducedFact → Result RedactionError ProjectionState
  unfolding update_action_projection
  update_actions projection [] = ok projection
  update_actions projection (fact ∷ facts) =
      update_action_projection projection fact >>= λ changed. update_actions changed facts

  unfoldable pub apply_action_facts :
      MaterialDraft → List ReducedFact → Result RedactionError MaterialDraft
  unfolding update_actions project_action_fields
  apply_action_facts d facts = update_actions d.projection_state facts >>= λ projection.
      ok (project_action_fields (record d { projection_state = bound_actions projection }))
