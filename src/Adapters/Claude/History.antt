-- ===== src/Adapters/Claude/History.antt =====
-- Every history of a state.
use agbox.Common.{ℕ, ◌≡◌, refl, Option, List, [], ◌∷◌}
use agbox.Core.Base.{Text, ok}
use agbox.Core.Activity.{ActionOutcome}
use agbox.Adapters.Claude.{
  ClaudeStateV1, ToolLink, ContextSnapshot, default, validate, valid_context,
}
use agbox.Adapters.Claude.Operations.{
  set_last_human_turn, insert_tool, take_tool, observe_agent, finish_agent, set_assistant_spawn,
  merge_context, finalize_record,
}
use agbox.Adapters.Claude.Validity.{IsValid, validate-eq-ok, fit-IsValid}
use agbox.Adapters.Claude.Steps.{
  take_tool-IsValid, set_last_human_turn-IsValid, insert_tool-IsValid, observe_agent-IsValid,
  finish_agent-IsValid, set_assistant_spawn-IsValid, merge_context-IsValid,
}

-- The calls that the decoder makes.
pub data ClaudeCall : Type 0 where
  sets_turn takes : Text → ClaudeCall
  inserts : ToolLink → ClaudeCall
  observes : Text → ClaudeCall
  finishes : Text → ActionOutcome → ClaudeCall
  spawns : Text → Option Text → ClaudeCall
  merges : ContextSnapshot → ClaudeCall
  finalizes : ClaudeCall

module _ (measure : ClaudeStateV1 → Option ℕ) where
  -- An error leaves the changed state to the next call.
  unfoldable pub step : ClaudeStateV1 → ClaudeCall → ClaudeStateV1
  step s (sets_turn value) = (set_last_human_turn measure s value).0
  step s (takes id) = (take_tool s id).0
  step s (inserts link) = (insert_tool measure s link).0
  step s (observes id) = (observe_agent measure s id).0
  step s (finishes id outcome) = (finish_agent measure s id outcome).0
  step s (spawns id request) = (set_assistant_spawn measure s id request).0
  step s (merges context) = (merge_context measure s context).0
  step s finalizes = (finalize_record measure s).0

  unfoldable pub history : ClaudeStateV1 → List ClaudeCall → ClaudeStateV1
  history s [] = s
  history s (c ∷ cs) = history (step s c) cs

  step-IsValid : (s : ClaudeStateV1) (c : ClaudeCall) → IsValid s → IsValid (step s c)
  unfolding step finalize_record
  step-IsValid s (sets_turn value) v = set_last_human_turn-IsValid measure s value v
  step-IsValid s (takes id) v = take_tool-IsValid measure s id v
  step-IsValid s (inserts link) v = insert_tool-IsValid measure s link v
  step-IsValid s (observes id) v = observe_agent-IsValid measure s id v
  step-IsValid s (finishes id outcome) v = finish_agent-IsValid measure s id outcome v
  step-IsValid s (spawns id request) v = set_assistant_spawn-IsValid measure s id request v
  step-IsValid s (merges context) v = merge_context-IsValid measure s context v
  step-IsValid s finalizes v = fit-IsValid measure s v

  history-IsValid : (s : ClaudeStateV1) (cs : List ClaudeCall) → IsValid s → IsValid (history s cs)
  unfolding history
  history-IsValid s [] v = v
  history-IsValid s (c ∷ cs) v = history-IsValid (step s c) cs (step-IsValid s c v)

  default-IsValid : IsValid default
  default-IsValid = (validate-eq-ok default).0 (unfold validate valid_context in refl)

  -- After every history of calls from the empty state, failed ones among them, the state passes
  -- `validate`, which the next decoding asks again.
  pub validate-history-default : (cs : List ClaudeCall) → validate (history default cs) ≡ ok tt
  validate-history-default cs =
      (validate-eq-ok (history default cs)).1 (history-IsValid default cs default-IsValid)
