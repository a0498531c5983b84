-- ===== src/Adapters/Claude/Validity.antt =====
-- The operations of `ClaudeStateV1` keep what `validate` asks of a state.
use agbox.Common.{
  ℕ, ◌≡◌, ◌≤◌, ◌↔◌, refl, Option, none, some, List, [], ◌∷◌, arith, ltb, all, true, length,
  if_cases,
}
use agbox.Core.Base.{Text, ok, err, max_decoder_state_bytes}
use agbox.Adapters.Decoder.{state_too_large}
use agbox.Adapters.Claude.{
  ClaudeStateV1, ToolLink, FinishedAgent, AssistantSpawn, ContextSnapshot, default_context,
  validate, valid_link, valid_finished, valid_spawn, valid_turn, valid_context,
  opaque_graph_identifier, max_unresolved_tools, max_known_agents, max_finished_agents,
  max_assistant_spawns,
}
use agbox.Adapters.Claude.Eviction.{
  Outcome, settle, with_tools, with_spawns, with_finished, with_known, without_turn,
  without_context, fit_tools, fit_context, fit_turn, fit_spawns, fit_finished, fit_known,
  fit_serialized_bound, same_context,
}

pub record IsValid (s : ClaudeStateV1) : Type 0 where
  pub tools_fit : length s.unresolved_tools ≤ max_unresolved_tools
  pub known_fit : length s.known_agents ≤ max_known_agents
  pub finished_fit : length s.finished_agents ≤ max_finished_agents
  pub spawns_fit : length s.assistant_spawns ≤ max_assistant_spawns
  pub tools_valid : all valid_link s.unresolved_tools ≡ true
  pub known_valid : all opaque_graph_identifier s.known_agents ≡ true
  pub finished_valid : all valid_finished s.finished_agents ≡ true
  pub spawns_valid : all valid_spawn s.assistant_spawns ≡ true
  pub turn_valid : valid_turn s.last_human_turn ≡ true
  pub context_valid : valid_context s.context ≡ true

pub validate-eq-ok : (s : ClaudeStateV1) → (validate s ≡ ok tt) ↔ IsValid s
unfolding validate
validate-eq-ok s = (
  λ h. record {
    tools_fit = ground arith;
    known_fit = ground arith;
    finished_fit = ground arith;
    spawns_fit = ground arith;
    tools_valid = ground arith;
    known_valid = ground arith;
    finished_valid = ground arith;
    spawns_valid = ground arith;
    turn_valid = ground arith;
    context_valid = ground arith;
  },
  λ v. ground arith,
)

-- A state whose fields are replaced, each by one as good.
assembled-IsValid :
    (s : ClaudeStateV1) (tools : List ToolLink) (known : List Text) (finished : List FinishedAgent)
    (spawns : List AssistantSpawn)
    → IsValid s
    → (length tools ≤ max_unresolved_tools) × (all valid_link tools ≡ true)
    → (length known ≤ max_known_agents) × (all opaque_graph_identifier known ≡ true)
    → (length finished ≤ max_finished_agents) × (all valid_finished finished ≡ true)
    → (length spawns ≤ max_assistant_spawns) × (all valid_spawn spawns ≡ true)
    → IsValid (record s {
      unresolved_tools = tools;
      known_agents = known;
      finished_agents = finished;
      assistant_spawns = spawns;
    })
assembled-IsValid s tools known finished spawns v (a, b) (c, d) (e, f) (g, h) = record {
  tools_fit = a;
  known_fit = c;
  finished_fit = e;
  spawns_fit = g;
  tools_valid = b;
  known_valid = d;
  finished_valid = f;
  spawns_valid = h;
  turn_valid = v.turn_valid;
  context_valid = v.context_valid;
}

pub with_tools-IsValid :
    (s : ClaudeStateV1) (tools : List ToolLink)
    → IsValid s
    → length tools ≤ max_unresolved_tools
    → all valid_link tools ≡ true
    → IsValid (with_tools s tools)
with_tools-IsValid s tools v a b =
    assembled-IsValid s tools s.known_agents s.finished_agents s.assistant_spawns v (a, b)
      (v.known_fit, v.known_valid) (v.finished_fit, v.finished_valid) (v.spawns_fit, v.spawns_valid)

pub with_known-IsValid :
    (s : ClaudeStateV1) (known : List Text)
    → IsValid s
    → length known ≤ max_known_agents
    → all opaque_graph_identifier known ≡ true
    → IsValid (with_known s known)
with_known-IsValid s known v a b =
    assembled-IsValid s s.unresolved_tools known s.finished_agents s.assistant_spawns v
      (v.tools_fit, v.tools_valid) (a, b) (v.finished_fit, v.finished_valid)
      (v.spawns_fit, v.spawns_valid)

pub with_finished-IsValid :
    (s : ClaudeStateV1) (finished : List FinishedAgent)
    → IsValid s
    → length finished ≤ max_finished_agents
    → all valid_finished finished ≡ true
    → IsValid (with_finished s finished)
with_finished-IsValid s finished v a b =
    assembled-IsValid s s.unresolved_tools s.known_agents finished s.assistant_spawns v
      (v.tools_fit, v.tools_valid) (v.known_fit, v.known_valid) (a, b)
      (v.spawns_fit, v.spawns_valid)

pub with_spawns-IsValid :
    (s : ClaudeStateV1) (spawns : List AssistantSpawn)
    → IsValid s
    → length spawns ≤ max_assistant_spawns
    → all valid_spawn spawns ≡ true
    → IsValid (with_spawns s spawns)
with_spawns-IsValid s spawns v a b =
    assembled-IsValid s s.unresolved_tools s.known_agents s.finished_agents spawns v
      (v.tools_fit, v.tools_valid) (v.known_fit, v.known_valid) (v.finished_fit, v.finished_valid)
      (a, b)

pub relabelled-IsValid :
    (s : ClaudeStateV1) (turn : Option Text) (context : ContextSnapshot)
    → IsValid s
    → valid_turn turn ≡ true
    → valid_context context ≡ true
    → IsValid (record s { last_human_turn = turn; context = context })
relabelled-IsValid s turn context v a b = record {
  tools_fit = v.tools_fit;
  known_fit = v.known_fit;
  finished_fit = v.finished_fit;
  spawns_fit = v.spawns_fit;
  tools_valid = v.tools_valid;
  known_valid = v.known_valid;
  finished_valid = v.finished_valid;
  spawns_valid = v.spawns_valid;
  turn_valid = a;
  context_valid = b;
}

default_context-valid : valid_context default_context ≡ true
unfolding valid_context
default_context-valid = refl

settle-IsValid :
    (o : Option ℕ) (s : ClaudeStateV1) (rest : Outcome (Unit {0}))
    → IsValid s
    → IsValid rest.0
    → IsValid (settle o s rest).0
settle-IsValid none s rest v w = v
settle-IsValid (some n) s rest v w =
    if_cases (λ (o : Outcome (Unit {0})). IsValid o.0) (ltb max_decoder_state_bytes n) rest
      (s, ok tt) (λ h. w) (λ h. v)

module _ (measure : ClaudeStateV1 → Option ℕ) where
  fit_tools-IsValid :
      (s : ClaudeStateV1) (tools : List ToolLink)
      → IsValid (with_tools s tools)
      → IsValid (fit_tools measure s tools).0
  unfolding fit_tools
  fit_tools-IsValid s [] v =
      settle-IsValid (measure (with_tools s [])) (with_tools s [])
        (with_tools s [], err state_too_large) v v
  fit_tools-IsValid s (t ∷ tools) v =
      settle-IsValid (measure (with_tools s (t ∷ tools))) (with_tools s (t ∷ tools))
        (fit_tools measure s tools) v
        (fit_tools-IsValid s tools (
          with_tools-IsValid (with_tools s (t ∷ tools)) tools v (omega (arith, v.tools_fit))
            (ground (arith, v.tools_valid))))

  fit_context-IsValid : (s : ClaudeStateV1) → IsValid s → IsValid (fit_context measure s).0
  fit_context-IsValid s v =
      if_cases (λ (o : Outcome (Unit {0})). IsValid o.0) (same_context s.context default_context)
        (fit_tools measure s s.unresolved_tools)
        (settle (measure s) s (fit_tools measure (without_context s) s.unresolved_tools))
        (λ h. fit_tools-IsValid s s.unresolved_tools v)
        (λ h.
          settle-IsValid (measure s) s (fit_tools measure (without_context s) s.unresolved_tools) v
            (fit_tools-IsValid (without_context s) s.unresolved_tools (
              relabelled-IsValid s s.last_human_turn default_context v v.turn_valid
                default_context-valid)))

  fit_turn-IsValid :
      (s : ClaudeStateV1) (turn : Option Text) → IsValid s → IsValid (fit_turn measure s turn).0
  fit_turn-IsValid s none v = fit_context-IsValid s v
  fit_turn-IsValid s (some turn) v =
      settle-IsValid (measure s) s (fit_context measure (without_turn s)) v (
        fit_context-IsValid (without_turn s)
          (relabelled-IsValid s none s.context v refl v.context_valid))

  fit_spawns-IsValid :
      (s : ClaudeStateV1) (spawns : List AssistantSpawn)
      → IsValid (with_spawns s spawns)
      → IsValid (fit_spawns measure s spawns).0
  unfolding fit_spawns
  fit_spawns-IsValid s [] v = fit_turn-IsValid (with_spawns s []) s.last_human_turn v
  fit_spawns-IsValid s (a ∷ spawns) v =
      settle-IsValid (measure (with_spawns s (a ∷ spawns))) (with_spawns s (a ∷ spawns))
        (fit_spawns measure s spawns) v
        (fit_spawns-IsValid s spawns (
          with_spawns-IsValid (with_spawns s (a ∷ spawns)) spawns v (omega (arith, v.spawns_fit))
            (ground (arith, v.spawns_valid))))

  fit_finished-IsValid :
      (s : ClaudeStateV1) (agents : List FinishedAgent)
      → IsValid (with_finished s agents)
      → IsValid (fit_finished measure s agents).0
  unfolding fit_finished
  fit_finished-IsValid s [] v = fit_spawns-IsValid (with_finished s []) s.assistant_spawns v
  fit_finished-IsValid s (a ∷ agents) v =
      settle-IsValid (measure (with_finished s (a ∷ agents))) (with_finished s (a ∷ agents))
        (fit_finished measure s agents) v
        (fit_finished-IsValid s agents (
          with_finished-IsValid (with_finished s (a ∷ agents)) agents v
            (omega (arith, v.finished_fit)) (ground (arith, v.finished_valid))))

  fit_known-IsValid :
      (s : ClaudeStateV1) (agents : List Text)
      → IsValid (with_known s agents)
      → IsValid (fit_known measure s agents).0
  unfolding fit_known
  fit_known-IsValid s [] v = fit_finished-IsValid (with_known s []) s.finished_agents v
  fit_known-IsValid s (a ∷ agents) v =
      settle-IsValid (measure (with_known s (a ∷ agents))) (with_known s (a ∷ agents))
        (fit_known measure s agents) v
        (fit_known-IsValid s agents (
          with_known-IsValid (with_known s (a ∷ agents)) agents v (omega (arith, v.known_fit))
            (ground (arith, v.known_valid))))

  pub fit-IsValid : (s : ClaudeStateV1) → IsValid s → IsValid (fit_serialized_bound measure s).0
  unfolding fit_serialized_bound
  fit-IsValid s v = fit_known-IsValid s s.known_agents v
