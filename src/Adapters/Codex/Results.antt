-- ===== src/Adapters/Codex/Results.antt =====
-- The operations on results, keys and agents keep what `validate` asks of a state.
use agbox.Common.{
  ℕ, ◌+◌, ◌-◌, ◌||◌, if◌then◌else◌, ◌≡◌, ◌≤◌, not, Option, none, some, List, [], ◌∷◌, ◌++◌, arith,
  ltb, leb, ◌==◌, all, true, false, Bool, length, length-append, if_cases, is_some,
}
use agbox.Core.Base.{Text, ok, err}
use agbox.Core.Activity.{ActionOutcome}
use agbox.Adapters.Identifiers.{bounded_identifier}
use agbox.Adapters.Queues.{
  all-append, all-drop, all-update_first, length-pop_to-le, length-update_first, pop_to,
  update_first, find_key,
}
use agbox.Adapters.Decoder.{malformed, state_too_large}
use agbox.Adapters.Codex.{
  CodexStateV1, PendingResult, RankedKey, AgentLifecycle, valid_pending, valid_key, valid_lifecycle,
  opaque_graph_identifier, max_calls, max_completed_keys, max_agent_lifecycles, max_call_id_bytes,
}
use agbox.Adapters.Codex.Operations.{
  Outcome, fit_serialized_bound, stage_result, place_result, observe_result, place_key,
  observe_agent, add_agent, finish_agent, mark_finished, finish, pending_id, key_id, agent_id,
  better, raise_rank, after_fit, retains_agent_lifecycle, same_outcome, finished_agent_outcome,
}
use agbox.Adapters.Codex.Validity.{IsValid, fit-IsValid, after_fit-IsValid}

-- The state with other queues.
pub with_pending-IsValid :
    (s : CodexStateV1) (pending : List PendingResult)
    → IsValid s
    → length s.unresolved_calls + length pending ≤ max_calls
    → all valid_pending pending ≡ true
    → IsValid (record s { pending_results = pending })
with_pending-IsValid s pending v le h = record {
  calls_fit = le;
  keys_fit = v.keys_fit;
  agents_fit = v.agents_fit;
  links_valid = v.links_valid;
  pending_valid = h;
  keys_valid = v.keys_valid;
  agents_valid = v.agents_valid;
  continuation_valid = v.continuation_valid;
}

with_keys-IsValid :
    (s : CodexStateV1) (keys : List RankedKey)
    → IsValid s
    → length keys ≤ max_completed_keys
    → all valid_key keys ≡ true
    → IsValid (record s { completed_semantic_keys = keys })
with_keys-IsValid s keys v le h = record {
  calls_fit = v.calls_fit;
  keys_fit = le;
  agents_fit = v.agents_fit;
  links_valid = v.links_valid;
  pending_valid = v.pending_valid;
  keys_valid = h;
  agents_valid = v.agents_valid;
  continuation_valid = v.continuation_valid;
}

with_agents-IsValid :
    (s : CodexStateV1) (agents : List AgentLifecycle)
    → IsValid s
    → length agents ≤ max_agent_lifecycles
    → all valid_lifecycle agents ≡ true
    → IsValid (record s { agent_lifecycle = agents })
with_agents-IsValid s agents v le h = record {
  calls_fit = v.calls_fit;
  keys_fit = v.keys_fit;
  agents_fit = le;
  links_valid = v.links_valid;
  pending_valid = v.pending_valid;
  keys_valid = v.keys_valid;
  agents_valid = h;
  continuation_valid = v.continuation_valid;
}

better-valid :
    (candidate existing : PendingResult)
    → valid_pending candidate ≡ true
    → valid_pending existing ≡ true
    → valid_pending (better candidate existing) ≡ true
better-valid candidate existing h k =
    if_cases (λ (p : PendingResult). valid_pending p ≡ true) (ltb existing.rank candidate.rank)
      candidate existing (λ e. h) (λ e. k)

raise_rank-valid :
    (rank : ℕ) (k : RankedKey)
    → rank ≤ 3
    → valid_key k ≡ true
    → valid_key (raise_rank rank k) ≡ true
raise_rank-valid rank k le h = ground arith

module _ (measure : CodexStateV1 → Option ℕ) where
  place_result-IsValid :
      (s : CodexStateV1) (candidate : PendingResult) (o : Option PendingResult)
      → IsValid s
      → valid_pending candidate ≡ true
      → IsValid (place_result measure s candidate o).0
  place_result-IsValid s candidate (some existing) v h =
      fit-IsValid measure
        (record s {
          pending_results =
              update_first pending_id candidate.call_id (better candidate) s.pending_results;
        })
        (with_pending-IsValid s
          (update_first pending_id candidate.call_id (better candidate) s.pending_results) v
          (omega (
            arith,
            v.calls_fit,
            length-update_first pending_id candidate.call_id (better candidate) s.pending_results,
          ))
          (all-update_first valid_pending pending_id candidate.call_id (better candidate)
            s.pending_results (λ p k. better-valid candidate p h k) v.pending_valid))
  place_result-IsValid s candidate none v h =
      if_cases (λ (o : Outcome (Unit {0})). IsValid o.0)
        (leb max_calls (length s.unresolved_calls + length s.pending_results))
        (s, err state_too_large)
        (fit_serialized_bound measure
          (record s { pending_results = s.pending_results ++ (candidate ∷ []) }))
        (λ e. v)
        (λ e.
          fit-IsValid measure (record s { pending_results = s.pending_results ++ (candidate ∷ []) })
            (with_pending-IsValid s (s.pending_results ++ (candidate ∷ [])) v
              (ground (arith, length-append s.pending_results (candidate ∷ [])))
              (all-append valid_pending s.pending_results (candidate ∷ []) v.pending_valid (rw h))))

  pub stage_result-IsValid :
      (s : CodexStateV1) (candidate : PendingResult)
      → IsValid s
      → IsValid (stage_result measure s candidate).0
  unfolding stage_result
  stage_result-IsValid s candidate v =
      if_cases (λ (o : Outcome (Unit {0})). IsValid o.0) (valid_pending candidate)
        (place_result measure s candidate (find_key pending_id candidate.call_id s.pending_results))
        (s, err (malformed "invalid-codex-pending-result"))
        (λ h.
          place_result-IsValid s candidate (find_key pending_id candidate.call_id s.pending_results)
            v h)
        (λ h. v)

  place_key-IsValid :
      (s : CodexStateV1) (key : Text) (rank : ℕ) (o : Option RankedKey)
      → IsValid s
      → rank ≤ 3
      → valid_key (record { key = key; rank = rank }) ≡ true
      → IsValid (place_key measure s key rank o).0
  place_key-IsValid s key rank (some existing) v le h =
      let keys = update_first key_id key (raise_rank rank) s.completed_semantic_keys in
      after_fit-IsValid measure (record s { completed_semantic_keys = keys }) (λ t. false)
        (with_keys-IsValid s keys v
          (omega (
            arith,
            v.keys_fit,
            length-update_first key_id key (raise_rank rank) s.completed_semantic_keys,
          ))
          (all-update_first valid_key key_id key (raise_rank rank) s.completed_semantic_keys
            (λ k e. raise_rank-valid rank k le e) v.keys_valid))
  place_key-IsValid s key rank none v le h =
      let new : RankedKey = record { key = key; rank = rank } in
      let keys = s.completed_semantic_keys ++ (new ∷ []) in
      after_fit-IsValid measure
        (record s { completed_semantic_keys = pop_to max_completed_keys keys }) (λ t. true)
        (with_keys-IsValid s (pop_to max_completed_keys keys) v
          (length-pop_to-le max_completed_keys keys)
          (all-drop valid_key (length keys - max_completed_keys) keys
            (all-append valid_key s.completed_semantic_keys (new ∷ []) v.keys_valid (rw h))))

  pub observe_result-IsValid :
      (s : CodexStateV1) (key : Text) (rank : ℕ)
      → IsValid s
      → rank ≤ 3
      → IsValid (observe_result measure s key rank).0
  unfolding observe_result
  observe_result-IsValid s key rank v le =
      if_cases (λ (o : Outcome Bool). IsValid o.0)
        (rank == 0 || not (bounded_identifier key max_call_id_bytes))
        (s, err (malformed "invalid-codex-result-key"))
        (place_key measure s key rank (find_key key_id key s.completed_semantic_keys)) (λ h. v)
        (λ h.
          place_key-IsValid s key rank (find_key key_id key s.completed_semantic_keys) v le
            (ground arith))

  add_agent-IsValid :
      (s : CodexStateV1) (id : Text)
      → IsValid s
      → opaque_graph_identifier id ≡ true
      → IsValid (add_agent measure s id).0
  add_agent-IsValid s id v h =
      let new : AgentLifecycle = record { agent_id = id; outcome = none } in
      let agents = s.agent_lifecycle ++ (new ∷ []) in
      after_fit-IsValid measure (record s { agent_lifecycle = pop_to max_agent_lifecycles agents })
        (λ t. retains_agent_lifecycle t id)
        (with_agents-IsValid s (pop_to max_agent_lifecycles agents) v
          (length-pop_to-le max_agent_lifecycles agents)
          (all-drop valid_lifecycle (length agents - max_agent_lifecycles) agents
            (all-append valid_lifecycle s.agent_lifecycle (new ∷ []) v.agents_valid (rw h))))

  pub observe_agent-IsValid :
      (s : CodexStateV1) (id : Text) → IsValid s → IsValid (observe_agent measure s id).0
  unfolding observe_agent
  observe_agent-IsValid s id v =
      if_cases (λ (o : Outcome Bool). IsValid o.0) (opaque_graph_identifier id)
        (if retains_agent_lifecycle s id then (s, ok false) else add_agent measure s id)
        (s, err (malformed "invalid-codex-agent-id"))
        (λ h.
          if_cases (λ (o : Outcome Bool). IsValid o.0) (retains_agent_lifecycle s id) (s, ok false)
            (add_agent measure s id) (λ e. v) (λ e. add_agent-IsValid s id v h))
        (λ h. v)

  mark_finished-IsValid :
      (s : CodexStateV1) (id : Text) (outcome : ActionOutcome) (o : Option AgentLifecycle)
      → IsValid s
      → IsValid (mark_finished measure s id outcome o).0
  mark_finished-IsValid s id outcome none v = v
  mark_finished-IsValid s id outcome (some a) v =
      let agents = update_first agent_id id (finish outcome) s.agent_lifecycle in
      if_cases (λ (o : Outcome Bool). IsValid o.0) (is_some a.outcome) (s, ok false)
        (after_fit (fit_serialized_bound measure (record s { agent_lifecycle = agents }))
          (λ t. same_outcome (finished_agent_outcome t id) outcome))
        (λ e. v)
        (λ e.
          after_fit-IsValid measure (record s { agent_lifecycle = agents })
            (λ t. same_outcome (finished_agent_outcome t id) outcome)
            (with_agents-IsValid s agents v
              (omega (
                arith,
                v.agents_fit,
                length-update_first agent_id id (finish outcome) s.agent_lifecycle,
              ))
              (all-update_first valid_lifecycle agent_id id (finish outcome) s.agent_lifecycle
                (λ b k. k) v.agents_valid)))

  pub finish_agent-IsValid :
      (s : CodexStateV1) (id : Text) (outcome : ActionOutcome)
      → IsValid s
      → IsValid (finish_agent measure s id outcome).0
  unfolding finish_agent
  finish_agent-IsValid s id outcome v =
      if_cases (λ (o : Outcome Bool). IsValid o.0) (opaque_graph_identifier id)
        (mark_finished measure s id outcome (find_key agent_id id s.agent_lifecycle))
        (s, err (malformed "invalid-codex-agent-id"))
        (λ h. mark_finished-IsValid s id outcome (find_key agent_id id s.agent_lifecycle) v)
        (λ h. v)
