-- ===== src/Adapters/Claude/Operations.antt =====
-- The operations of `ClaudeStateV1`. An error leaves the state as the code does, changed in part.
use agbox.Common.{
  ℕ, Bool, false, not, ◌||◌, Option, none, some, List, [], ◌∷◌, ◌++◌, any, length, if◌then◌else◌,
}
use mathlib.Core.Option
use agbox.Core.Base.{Text, same_text, Result, ok, err, ◌>>=◌}
use agbox.Core.Activity.{ActionOutcome}
use agbox.Adapters.Queues.{retain_other, take_first, find_key, pop_to}
use agbox.Adapters.Identifiers.{bounded_identifier}
use agbox.Adapters.Decoder.{DecodeError, malformed, DecoderState, empty, replace}
use agbox.Adapters.Claude.{
  ClaudeStateV1, ToolLink, FinishedAgent, AssistantSpawn, ContextSnapshot, default,
  opaque_graph_identifier, valid_link, valid_context, validate, max_tool_use_id_bytes,
  max_event_id_bytes, max_unresolved_tools, max_known_agents, max_finished_agents,
  max_assistant_spawns, safe_modes, safe_permission_modes,
}
use agbox.Adapters.Claude.Eviction.{
  Outcome, fit_serialized_bound, same_context, with_tools, with_known, with_finished, with_spawns,
}

abbrev pub tool_id : ToolLink → Text
tool_id t = t.tool_use_id

abbrev pub finished_id : FinishedAgent → Text
finished_id a = a.agent_id

abbrev pub spawn_id : AssistantSpawn → Text
spawn_id s = s.assistant_record_id

unfoldable pub take_tool : ClaudeStateV1 → Text → ClaudeStateV1 × Option ToolLink
take_tool s tool_use_id =
    let taken = take_first tool_id tool_use_id s.unresolved_tools in (with_tools s taken.1, taken.0)

abbrev pub is_known : ClaudeStateV1 → Text → Bool
is_known s id = any (same_text id) s.known_agents

abbrev pub is_finished : ClaudeStateV1 → Text → Bool
is_finished s id = any (λ (a : FinishedAgent). same_text a.agent_id id) s.finished_agents

unfoldable pub retains_agent_lifecycle : ClaudeStateV1 → Text → Bool
retains_agent_lifecycle s id = is_known s id || is_finished s id

unfoldable pub finished_agent_outcome : ClaudeStateV1 → Text → Option ActionOutcome
finished_agent_outcome s id =
    Option.map (λ (a : FinishedAgent). a.outcome) (find_key finished_id id s.finished_agents)

unfoldable pub assistant_spawn_request : ClaudeStateV1 → Text → Option Text
assistant_spawn_request s id =
    Option.map (λ (a : AssistantSpawn). a.request_event_id)
      (find_key spawn_id id s.assistant_spawns)

abbrev pub or_previous : Option Text → Option Text → Option Text
or_previous none previous = previous
or_previous (some value) previous = some value

abbrev pub merged_context : ContextSnapshot → ContextSnapshot → ContextSnapshot
merged_context new previous = record {
  cwd = or_previous new.cwd previous.cwd;
  mode = or_previous new.mode previous.mode;
  permission = or_previous new.permission previous.permission;
  branch_hash = or_previous new.branch_hash previous.branch_hash;
}

unfoldable pub canonical_in : List Text → Text → Option Text
canonical_in [] value = none
canonical_in (safe ∷ more) value =
    let rest = canonical_in more value in if same_text safe value then some safe else rest

unfoldable pub canonical_context_mode : Text → Option Text
canonical_context_mode = canonical_in safe_modes

unfoldable pub canonical_permission_mode : Text → Option Text
canonical_permission_mode = canonical_in safe_permission_modes

-- Goes on with the state, or passes the error on.
abbrev pub after_fit : {A : Type 0} → Outcome (Unit {0}) → (ClaudeStateV1 → A) → Outcome A
after_fit (s, ok _) f = (s, ok (f s))
after_fit (s, err e) f = (s, err e)

abbrev pub drop_spawn : ClaudeStateV1 → Text → ClaudeStateV1
drop_spawn s id = with_spawns s (retain_other spawn_id id s.assistant_spawns)

module _ (measure : ClaudeStateV1 → Option ℕ) where
  unfoldable pub set_last_human_turn : ClaudeStateV1 → Text → Outcome (Unit {0})
  set_last_human_turn s value =
      if bounded_identifier value max_tool_use_id_bytes
      then fit_serialized_bound measure (record s { last_human_turn = some value })
      else (s, err (malformed "invalid-claude-human-turn"))

  unfoldable pub insert_tool : ClaudeStateV1 → ToolLink → Outcome (Unit {0})
  insert_tool s link =
      if valid_link link
      then fit_serialized_bound measure (
          with_tools s (
            pop_to max_unresolved_tools
              (retain_other tool_id link.tool_use_id s.unresolved_tools ++ (link ∷ []))))
      else (s, err (malformed "invalid-claude-state-link"))

  unfoldable pub observe_agent : ClaudeStateV1 → Text → Outcome Bool
  observe_agent s id =
      if not (opaque_graph_identifier id)
      then (s, err (malformed "invalid-claude-agent-id"))
      else if is_known s id || is_finished s id
      then (s, ok false)
      else after_fit
          (fit_serialized_bound measure
            (with_known s (pop_to max_known_agents (s.known_agents ++ (id ∷ [])))))
          (λ s'. is_known s' id)

  abbrev pub add_finished : ClaudeStateV1 → Text → ActionOutcome → Outcome Bool
  add_finished s id outcome =
      after_fit
        (fit_serialized_bound measure (
          with_finished s (
            pop_to max_finished_agents
              (s.finished_agents ++ (record { agent_id = id; outcome = outcome } ∷ [])))))
        (λ s'. is_finished s' id)

  unfoldable pub finish_agent : ClaudeStateV1 → Text → ActionOutcome → Outcome Bool
  finish_agent s id outcome =
      if not (opaque_graph_identifier id)
      then (s, err (malformed "invalid-claude-agent-id"))
      else if is_finished s id
      then (s, ok false)
      else if is_known s id
      then add_finished s id outcome
      else (s, ok false)

  unfoldable pub finalize_record : ClaudeStateV1 → Outcome (Unit {0})
  finalize_record = fit_serialized_bound measure

  abbrev pub add_spawn : ClaudeStateV1 → Text → Option Text → Outcome (Unit {0})
  add_spawn s id none = fit_serialized_bound measure s
  add_spawn s id (some request) =
      if bounded_identifier request max_event_id_bytes
      then fit_serialized_bound measure (
          with_spawns s (
            pop_to max_assistant_spawns (
              s.assistant_spawns
              ++ (record { assistant_record_id = id; request_event_id = request } ∷ []))))
      else (s, err (malformed "invalid-claude-assistant-spawn"))

  unfoldable pub set_assistant_spawn : ClaudeStateV1 → Text → Option Text → Outcome (Unit {0})
  set_assistant_spawn s id request =
      if opaque_graph_identifier id
      then add_spawn (drop_spawn s id) id request
      else (s, err (malformed "invalid-claude-assistant-spawn"))

  unfoldable pub merge_context : ClaudeStateV1 → ContextSnapshot → Outcome (Option ContextSnapshot)
  merge_context s new =
      let merged = merged_context new s.context in
      if not (valid_context merged)
      then (s, err (malformed "invalid-claude-state-context"))
      else if same_context merged s.context
      then (s, ok none)
      else after_fit (fit_serialized_bound measure (record s { context = merged }))
          (λ s'. some merged)

-- The JSON writer and reader of serde are parameters.
module _ (print : ClaudeStateV1 → Option Text) where
  -- `serialized_len` counts the bytes of the same text.
  abbrev pub measured : ClaudeStateV1 → Option ℕ
  measured s = Option.map length (print s)

  abbrev pub pack : Option Text → Result DecodeError DecoderState
  pack none = err (malformed "encode-claude-state")
  pack (some bytes) = replace empty bytes

  abbrev pub encode_fitted : Outcome (Unit {0}) → Result DecodeError DecoderState
  encode_fitted (s, err e) = err e
  encode_fitted (s, ok _) = pack (print s)

  unfoldable pub encode_bounded : ClaudeStateV1 → Result DecodeError DecoderState
  encode_bounded s = encode_fitted (fit_serialized_bound measured s)

module _ (parse : Text → Option ClaudeStateV1) where
  abbrev pub unpack : Option ClaudeStateV1 → Result DecodeError ClaudeStateV1
  unpack none = err (malformed "invalid-claude-state")
  unpack (some s) = validate s >>= λ _. ok s

  abbrev pub decode_bytes : Text → Result DecodeError ClaudeStateV1
  decode_bytes [] = ok default
  decode_bytes (b ∷ bytes) = unpack (parse (b ∷ bytes))

  unfoldable pub decode : DecoderState → Result DecodeError ClaudeStateV1
  decode state = decode_bytes state.bytes
