-- ===== src/Adapters/Claude/Eviction.antt =====
-- What `ClaudeStateV1` drops to fit its bound. The length of the state's JSON text is a parameter (`none` where it cannot be
-- written). The loop drops one entry a round; here it goes on with the next queue when one is empty.
use agbox.Common.{ℕ, Bool, true, false, Option, none, some, List, [], ◌∷◌, ltb, if◌then◌else◌}
use agbox.Core.Base.{Text, Text-discrete, Result, ok, err, max_decoder_state_bytes}
use agbox.Adapters.Decoder.{DecodeError, malformed, state_too_large}
use agbox.Adapters.Claude.{
  ClaudeStateV1, ToolLink, FinishedAgent, AssistantSpawn, ContextSnapshot, default_context,
}

abbrev pub Outcome : Type 0 → Type 0
Outcome A = ClaudeStateV1 × Result DecodeError A

abbrev pub ContextFields : Type 0
ContextFields = Option Text × Option Text × Option Text × Option Text

unfoldable pub ContextFields-discrete : Discrete ContextFields
ContextFields-discrete = hlevel Text-discrete

abbrev pub context_fields : ContextSnapshot → ContextFields
context_fields c = (c.cwd, c.mode, c.permission, c.branch_hash)

unfoldable pub same_context : ContextSnapshot → ContextSnapshot → Bool
same_context a b = elim (ContextFields-discrete (context_fields a) (context_fields b)) [
  | yes _ ↦ true
  | no _ ↦ false
]

-- Stops with a state that fits or cannot be measured; else goes on with `rest`.
abbrev pub settle : Option ℕ → ClaudeStateV1 → Outcome (Unit {0}) → Outcome (Unit {0})
settle none s rest = (s, err (malformed "measure-claude-state"))
settle (some n) s rest = if ltb max_decoder_state_bytes n then rest else (s, ok tt)

abbrev pub with_tools : ClaudeStateV1 → List ToolLink → ClaudeStateV1
with_tools s tools = record s { unresolved_tools = tools }

abbrev pub with_spawns : ClaudeStateV1 → List AssistantSpawn → ClaudeStateV1
with_spawns s spawns = record s { assistant_spawns = spawns }

abbrev pub with_finished : ClaudeStateV1 → List FinishedAgent → ClaudeStateV1
with_finished s agents = record s { finished_agents = agents }

abbrev pub with_known : ClaudeStateV1 → List Text → ClaudeStateV1
with_known s agents = record s { known_agents = agents }

abbrev pub without_turn : ClaudeStateV1 → ClaudeStateV1
without_turn s = record s { last_human_turn = none }

abbrev pub without_context : ClaudeStateV1 → ClaudeStateV1
without_context s = record s { context = default_context }

module _ (measure : ClaudeStateV1 → Option ℕ) where
  unfoldable pub fit_tools : ClaudeStateV1 → List ToolLink → Outcome (Unit {0})
  fit_tools s [] =
      settle (measure (with_tools s [])) (with_tools s []) (with_tools s [], err state_too_large)
  fit_tools s (t ∷ tools) =
      let rest = fit_tools s tools in
      settle (measure (with_tools s (t ∷ tools))) (with_tools s (t ∷ tools)) rest

  abbrev pub fit_context : ClaudeStateV1 → Outcome (Unit {0})
  fit_context s =
      if same_context s.context default_context
      then fit_tools s s.unresolved_tools
      else settle (measure s) s (fit_tools (without_context s) s.unresolved_tools)

  abbrev pub fit_turn : ClaudeStateV1 → Option Text → Outcome (Unit {0})
  fit_turn s none = fit_context s
  fit_turn s (some turn) = settle (measure s) s (fit_context (without_turn s))

  unfoldable pub fit_spawns : ClaudeStateV1 → List AssistantSpawn → Outcome (Unit {0})
  unfolding fit_tools
  fit_spawns s [] = fit_turn (with_spawns s []) s.last_human_turn
  fit_spawns s (a ∷ spawns) =
      let rest = fit_spawns s spawns in
      settle (measure (with_spawns s (a ∷ spawns))) (with_spawns s (a ∷ spawns)) rest

  unfoldable pub fit_finished : ClaudeStateV1 → List FinishedAgent → Outcome (Unit {0})
  unfolding fit_spawns
  fit_finished s [] = fit_spawns (with_finished s []) s.assistant_spawns
  fit_finished s (a ∷ agents) =
      let rest = fit_finished s agents in
      settle (measure (with_finished s (a ∷ agents))) (with_finished s (a ∷ agents)) rest

  unfoldable pub fit_known : ClaudeStateV1 → List Text → Outcome (Unit {0})
  unfolding fit_finished
  fit_known s [] = fit_finished (with_known s []) s.finished_agents
  fit_known s (a ∷ agents) =
      let rest = fit_known s agents in
      settle (measure (with_known s (a ∷ agents))) (with_known s (a ∷ agents)) rest

  unfoldable pub fit_serialized_bound : ClaudeStateV1 → Outcome (Unit {0})
  unfolding fit_known
  fit_serialized_bound s = fit_known s s.known_agents
