-- ===== src/Adapters/Claude/Steps.antt =====
-- Each operation of `ClaudeStateV1` keeps what `validate` asks of a state.
use agbox.Common.{
  ℕ, ◌-◌, ◌≡◌, refl, not, ◌||◌, Option, none, some, List, [], ◌∷◌, ◌++◌, arith, all, true, false,
  Bool, length, if_cases, if◌then◌else◌,
}
use agbox.Core.Base.{Text, ok, err}
use agbox.Core.Activity.{ActionOutcome}
use agbox.Adapters.Identifiers.{bounded_identifier}
use agbox.Adapters.Queues.{
  all-append, all-drop, all-retain_other, all-take_first, length-pop_to-le, length-retain_other-le,
  length-take_first-le, pop_to, retain_other, take_first,
}
use agbox.Adapters.Decoder.{malformed}
use agbox.Adapters.Claude.{
  ClaudeStateV1, ToolLink, FinishedAgent, AssistantSpawn, ContextSnapshot, valid_link,
  valid_finished, valid_spawn, valid_context, opaque_graph_identifier, max_unresolved_tools,
  max_known_agents, max_finished_agents, max_assistant_spawns, max_tool_use_id_bytes,
  max_event_id_bytes,
}
use agbox.Adapters.Claude.Eviction.{
  Outcome, with_tools, with_spawns, with_finished, with_known, fit_serialized_bound, same_context,
}
use agbox.Adapters.Claude.Operations.{
  set_last_human_turn, insert_tool, take_tool, observe_agent, finish_agent, add_finished,
  set_assistant_spawn, add_spawn, drop_spawn, merge_context, merged_context, after_fit, tool_id,
  spawn_id, is_known, is_finished,
}
use agbox.Adapters.Claude.Validity.{
  IsValid, fit-IsValid, with_tools-IsValid, with_known-IsValid, with_finished-IsValid,
  with_spawns-IsValid, relabelled-IsValid,
}

-- The queue with one more entry, cut to its bound.
pushed-all :
    {A : Type 0} (p : A → Bool) (bound : ℕ) (entries : List A) (a : A)
    → all p entries ≡ true
    → p a ≡ true
    → all p (pop_to bound (entries ++ (a ∷ []))) ≡ true
pushed-all p bound entries a h k =
    all-drop p (length (entries ++ (a ∷ [])) - bound) (entries ++ (a ∷ []))
      (all-append p entries (a ∷ []) h (rw k))

not-false : (b : Bool) → not b ≡ false → b ≡ true
not-false true h = refl
not-false false h = absurd (ground arith)

module _ (measure : ClaudeStateV1 → Option ℕ) where
  abbrev ValidOutcome : {A : Type 0} → Outcome A → Type 0
  ValidOutcome o = IsValid o.0

  after_fit-IsValid :
      {A : Type 0} (o : Outcome (Unit {0})) (f : ClaudeStateV1 → A)
      → IsValid o.0
      → IsValid (after_fit o f).0
  after_fit-IsValid (s, ok u) f v = v
  after_fit-IsValid (s, err e) f v = v

  pub take_tool-IsValid : (s : ClaudeStateV1) (id : Text) → IsValid s → IsValid (take_tool s id).0
  unfolding take_tool
  take_tool-IsValid s id v =
      with_tools-IsValid s (take_first tool_id id s.unresolved_tools).1 v
        (omega (arith, v.tools_fit, length-take_first-le tool_id id s.unresolved_tools))
        (all-take_first valid_link tool_id id s.unresolved_tools v.tools_valid)

  pub set_last_human_turn-IsValid :
      (s : ClaudeStateV1) (value : Text)
      → IsValid s
      → IsValid (set_last_human_turn measure s value).0
  unfolding set_last_human_turn
  set_last_human_turn-IsValid s value v =
      if_cases ValidOutcome (bounded_identifier value max_tool_use_id_bytes)
        (fit_serialized_bound measure (record s { last_human_turn = some value }))
        (s, err (malformed "invalid-claude-human-turn"))
        (λ h.
          fit-IsValid measure (record s { last_human_turn = some value })
            (relabelled-IsValid s (some value) s.context v h v.context_valid))
        (λ h. v)

  pub insert_tool-IsValid :
      (s : ClaudeStateV1) (link : ToolLink) → IsValid s → IsValid (insert_tool measure s link).0
  unfolding insert_tool
  insert_tool-IsValid s link v =
      let others : List ToolLink = retain_other tool_id link.tool_use_id s.unresolved_tools in
      let tools : List ToolLink = pop_to max_unresolved_tools (others ++ (link ∷ [])) in
      if_cases ValidOutcome (valid_link link) (fit_serialized_bound measure (with_tools s tools))
        (s, err (malformed "invalid-claude-state-link"))
        (λ h. fit-IsValid measure (with_tools s tools) (
          with_tools-IsValid s tools v
            (length-pop_to-le max_unresolved_tools (others ++ (link ∷ [])))
            (pushed-all valid_link max_unresolved_tools others link
              (all-retain_other valid_link tool_id link.tool_use_id s.unresolved_tools
                v.tools_valid)
              h)))
        (λ h. v)

  pub observe_agent-IsValid :
      (s : ClaudeStateV1) (id : Text) → IsValid s → IsValid (observe_agent measure s id).0
  unfolding observe_agent
  observe_agent-IsValid s id v =
      let known : List Text = pop_to max_known_agents (s.known_agents ++ (id ∷ [])) in
      let fitted : Outcome (Unit {0}) = fit_serialized_bound measure (with_known s known) in
      let added : Outcome Bool = after_fit fitted (λ s'. is_known s' id) in
      if_cases ValidOutcome (not (opaque_graph_identifier id))
        (s, err (malformed "invalid-claude-agent-id"))
        (if is_known s id || is_finished s id then (s, ok false) else added) (λ h. v)
        (λ h.
          if_cases ValidOutcome (is_known s id || is_finished s id) (s, ok false) added (λ k. v)
            (λ k.
              after_fit-IsValid fitted (λ s'. is_known s' id)
                (fit-IsValid measure (with_known s known) (
                  with_known-IsValid s known v
                    (length-pop_to-le max_known_agents (s.known_agents ++ (id ∷ [])))
                    (pushed-all opaque_graph_identifier max_known_agents s.known_agents id
                      v.known_valid (not-false _ h))))))

  add_finished-IsValid :
      (s : ClaudeStateV1) (id : Text) (outcome : ActionOutcome)
      → IsValid s
      → opaque_graph_identifier id ≡ true
      → IsValid (add_finished measure s id outcome).0
  add_finished-IsValid s id outcome v h =
      let agent : FinishedAgent = record { agent_id = id; outcome = outcome } in
      let agents : List FinishedAgent =
        pop_to max_finished_agents (s.finished_agents ++ (agent ∷ [])) in
      after_fit-IsValid (fit_serialized_bound measure (with_finished s agents))
        (λ s'. is_finished s' id)
        (fit-IsValid measure (with_finished s agents) (
          with_finished-IsValid s agents v
            (length-pop_to-le max_finished_agents (s.finished_agents ++ (agent ∷ [])))
            (pushed-all valid_finished max_finished_agents s.finished_agents agent v.finished_valid
              h)))

  pub finish_agent-IsValid :
      (s : ClaudeStateV1) (id : Text) (outcome : ActionOutcome)
      → IsValid s
      → IsValid (finish_agent measure s id outcome).0
  unfolding finish_agent
  finish_agent-IsValid s id outcome v =
      if_cases ValidOutcome (not (opaque_graph_identifier id))
        (s, err (malformed "invalid-claude-agent-id"))
        (if is_finished s id
          then (s, ok false)
          else if is_known s id
          then add_finished measure s id outcome
          else (s, ok false))
        (λ h. v)
        (λ h.
          if_cases ValidOutcome (is_finished s id) (s, ok false)
            (if is_known s id then add_finished measure s id outcome else (s, ok false)) (λ k. v)
            (λ k.
              if_cases ValidOutcome (is_known s id) (add_finished measure s id outcome)
                (s, ok false) (λ l. add_finished-IsValid s id outcome v (not-false _ h)) (λ l. v)))

  drop_spawn-IsValid : (s : ClaudeStateV1) (id : Text) → IsValid s → IsValid (drop_spawn s id)
  drop_spawn-IsValid s id v =
      with_spawns-IsValid s (retain_other spawn_id id s.assistant_spawns) v
        (omega (arith, v.spawns_fit, length-retain_other-le spawn_id id s.assistant_spawns))
        (all-retain_other valid_spawn spawn_id id s.assistant_spawns v.spawns_valid)

  add_spawn-IsValid :
      (s : ClaudeStateV1) (id : Text) (request : Option Text)
      → IsValid s
      → opaque_graph_identifier id ≡ true
      → IsValid (add_spawn measure s id request).0
  add_spawn-IsValid s id none v h = fit-IsValid measure s v
  add_spawn-IsValid s id (some request) v h =
      let spawn : AssistantSpawn = record {
        assistant_record_id = id;
        request_event_id = request;
      } in
      let entries : List AssistantSpawn =
        pop_to max_assistant_spawns (s.assistant_spawns ++ (spawn ∷ [])) in
      if_cases ValidOutcome (bounded_identifier request max_event_id_bytes)
        (fit_serialized_bound measure (with_spawns s entries))
        (s, err (malformed "invalid-claude-assistant-spawn"))
        (λ k. fit-IsValid measure (with_spawns s entries) (
          with_spawns-IsValid s entries v
            (length-pop_to-le max_assistant_spawns (s.assistant_spawns ++ (spawn ∷ [])))
            (pushed-all valid_spawn max_assistant_spawns s.assistant_spawns spawn v.spawns_valid
              (rw (h, k)))))
        (λ k. v)

  pub set_assistant_spawn-IsValid :
      (s : ClaudeStateV1) (id : Text) (request : Option Text)
      → IsValid s
      → IsValid (set_assistant_spawn measure s id request).0
  unfolding set_assistant_spawn
  set_assistant_spawn-IsValid s id request v =
      if_cases ValidOutcome (opaque_graph_identifier id)
        (add_spawn measure (drop_spawn s id) id request)
        (s, err (malformed "invalid-claude-assistant-spawn"))
        (λ h. add_spawn-IsValid (drop_spawn s id) id request (drop_spawn-IsValid s id v) h) (λ h. v)

  pub merge_context-IsValid :
      (s : ClaudeStateV1) (new : ContextSnapshot)
      → IsValid s
      → IsValid (merge_context measure s new).0
  unfolding merge_context
  merge_context-IsValid s new v =
      let merged : ContextSnapshot = merged_context new s.context in
      let fitted : Outcome (Unit {0}) =
        fit_serialized_bound measure (record s { context = merged }) in
      let changed : Outcome (Option ContextSnapshot) = after_fit fitted (λ s'. some merged) in
      if_cases ValidOutcome (not (valid_context merged))
        (s, err (malformed "invalid-claude-state-context"))
        (if same_context merged s.context then (s, ok none) else changed) (λ h. v)
        (λ h.
          if_cases ValidOutcome (same_context merged s.context) (s, ok none) changed (λ k. v)
            (λ k.
              after_fit-IsValid fitted (λ s'. some merged)
                (fit-IsValid measure (record s { context = merged })
                  (relabelled-IsValid s s.last_human_turn merged v v.turn_valid (not-false _ h)))))
