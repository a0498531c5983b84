-- ===== src/Adapters/Codex/Operations.antt =====
-- The operations of `CodexStateV1`. The length of the state's JSON text is a parameter (`none` where it
-- cannot be written). An error leaves the state as the code does, changed in part.
use agbox.Common.{
  ℕ, ◌+◌, max, Bool, true, false, not, ◌||◌, Option, none, some, List, [], ◌∷◌, ◌++◌, length, ltb,
  leb, ◌==◌, ◌-◌, if◌then◌else◌, is_some, ◌^◌,
}
use mathlib.Core.Option
use agbox.Core.Base.{Text, Result, ok, err, max_decoder_state_bytes}
use agbox.Core.Activity.{ActionOutcome, succeeded, failed, cancelled}
use agbox.Adapters.Queues.{retain_other, take_first, find_key, update_first, pop_to, uncons}
use agbox.Adapters.Identifiers.{bounded_identifier}
use agbox.Adapters.Decoder.{DecodeError, malformed, state_too_large}
use agbox.Adapters.Codex.{
  HistoryMode, legacy, paginated, unknown, PendingResult, CallLink, RankedKey, AgentLifecycle,
  Continuation, CodexStateV1, opaque_graph_identifier, valid_link, valid_pending, max_calls,
  max_completed_keys, max_agent_lifecycles, max_call_id_bytes,
}

abbrev pub Outcome : Type 0 → Type 0
Outcome A = CodexStateV1 × Result DecodeError A

abbrev pub observed_mode : HistoryMode → HistoryMode → HistoryMode
observed_mode paginated _ = paginated
observed_mode mode unknown = mode
observed_mode _ paginated = paginated
observed_mode _ legacy = legacy

unfoldable pub observe_history_mode : CodexStateV1 → HistoryMode → CodexStateV1
observe_history_mode s observed = record s { history_mode = observed_mode s.history_mode observed }

abbrev pub u64_max : ℕ
u64_max = 2 ^ 64 - 1

abbrev pub next_ordinal : CodexStateV1 → Option ℕ → ℕ → Outcome (Unit {0})
next_ordinal s none current = (record s { last_ordinal = some current }, ok tt)
next_ordinal s (some previous) current =
    if ltb u64_max (previous + 1)
    then (s, err (malformed "codex-ordinal-exhausted"))
    else if current == previous + 1
    then (record s { last_ordinal = some current }, ok tt)
    else (s, err (malformed "codex-ordinal-gap"))

abbrev pub ordinal_in : CodexStateV1 → HistoryMode → Option ℕ → Outcome (Unit {0})
ordinal_in s paginated none = (s, err (malformed "codex-missing-ordinal"))
ordinal_in s paginated (some current) = next_ordinal s s.last_ordinal current
ordinal_in s _ ordinal = (s, ok tt)

unfoldable pub observe_ordinal : CodexStateV1 → Option ℕ → Outcome (Unit {0})
observe_ordinal s ordinal = ordinal_in s s.history_mode ordinal

abbrev pub link_id : CallLink → Text
link_id l = l.call_id

abbrev pub pending_id : PendingResult → Text
pending_id p = p.call_id

abbrev pub key_id : RankedKey → Text
key_id k = k.key

abbrev pub agent_id : AgentLifecycle → Text
agent_id a = a.agent_id

abbrev pub better : PendingResult → PendingResult → PendingResult
better candidate existing = if ltb existing.rank candidate.rank then candidate else existing

abbrev pub raise_rank : ℕ → RankedKey → RankedKey
raise_rank rank k = record k { rank = max k.rank rank }

abbrev pub finish : ActionOutcome → AgentLifecycle → AgentLifecycle
finish outcome a = record a { outcome = some outcome }

-- The outcome that the entry has.
abbrev pub outcome_of : Option AgentLifecycle → Option ActionOutcome
outcome_of none = none
outcome_of (some a) = a.outcome

unfoldable pub take_call : CodexStateV1 → Text → CodexStateV1 × Option CallLink
take_call s call_id =
    let taken = take_first link_id call_id s.unresolved_calls in
    (record s { unresolved_calls = taken.1 }, taken.0)

unfoldable pub take_pending_result : CodexStateV1 → Text → CodexStateV1 × Option PendingResult
take_pending_result s call_id =
    let taken = take_first pending_id call_id s.pending_results in
    (record s { pending_results = taken.1 }, taken.0)

unfoldable pub pop_pending_result : CodexStateV1 → CodexStateV1 × Option PendingResult
pop_pending_result s =
    let taken = uncons s.pending_results in (record s { pending_results = taken.1 }, taken.0)

unfoldable pub set_continuation : CodexStateV1 → Option Continuation → CodexStateV1
set_continuation s continuation = record s { continuation = continuation }

unfoldable pub completed_rank : CodexStateV1 → Text → Option ℕ
completed_rank s key =
    Option.map (λ (k : RankedKey). k.rank) (find_key key_id key s.completed_semantic_keys)

unfoldable pub finished_agent_outcome : CodexStateV1 → Text → Option ActionOutcome
finished_agent_outcome s id = outcome_of (find_key agent_id id s.agent_lifecycle)

unfoldable pub retains_agent_lifecycle : CodexStateV1 → Text → Bool
retains_agent_lifecycle s id = is_some (find_key agent_id id s.agent_lifecycle)

abbrev pub fitted : CodexStateV1 → List RankedKey → List AgentLifecycle → CodexStateV1
fitted s keys agents = record s { completed_semantic_keys = keys; agent_lifecycle = agents }

abbrev pub drop_call : CodexStateV1 → Text → CodexStateV1
drop_call s call_id = record s {
  unresolved_calls = retain_other link_id call_id s.unresolved_calls;
  pending_results = retain_other pending_id call_id s.pending_results;
}

abbrev pub outcome_code : ActionOutcome → ℕ
outcome_code succeeded = 0
outcome_code failed = 1
outcome_code cancelled = 2
outcome_code ActionOutcome.unknown = 3

abbrev pub same_outcome : Option ActionOutcome → ActionOutcome → Bool
same_outcome none outcome = false
same_outcome (some o) outcome = outcome_code o == outcome_code outcome

-- Stops with a state that fits or cannot be measured; else goes on with `rest`.
abbrev pub settle : Option ℕ → CodexStateV1 → Outcome (Unit {0}) → Outcome (Unit {0})
settle none s rest = (s, err (malformed "measure-codex-state"))
settle (some n) s rest = if ltb max_decoder_state_bytes n then rest else (s, ok tt)

-- Goes on with the state, or passes the error on.
abbrev pub after_fit : {A : Type 0} → Outcome (Unit {0}) → (CodexStateV1 → A) → Outcome A
after_fit (s, ok _) f = (s, ok (f s))
after_fit (s, err e) f = (s, err e)

module _ (measure : CodexStateV1 → Option ℕ) where
  -- The loop of `fit_serialized_bound` on the two queues that it empties.
  unfoldable pub fit_loop : CodexStateV1 → List RankedKey → List AgentLifecycle → Outcome (Unit {0})
  fit_loop s [] [] =
      settle (measure (fitted s [] [])) (fitted s [] []) (fitted s [] [], err state_too_large)
  fit_loop s [] (a ∷ agents) =
      let rest = fit_loop s [] agents in
      settle (measure (fitted s [] (a ∷ agents))) (fitted s [] (a ∷ agents)) rest
  fit_loop s (k ∷ keys) agents =
      let rest = fit_loop s keys agents in
      settle (measure (fitted s (k ∷ keys) agents)) (fitted s (k ∷ keys) agents) rest

  unfoldable pub fit_serialized_bound : CodexStateV1 → Outcome (Unit {0})
  unfolding fit_loop
  fit_serialized_bound s = fit_loop s s.completed_semantic_keys s.agent_lifecycle

  abbrev pub add_call : CodexStateV1 → CallLink → Outcome (Unit {0})
  add_call s link =
      if leb max_calls (length s.unresolved_calls + length s.pending_results)
      then (s, err state_too_large)
      else fit_serialized_bound (record s { unresolved_calls = s.unresolved_calls ++ (link ∷ []) })

  unfoldable pub insert_call : CodexStateV1 → CallLink → Outcome (Unit {0})
  insert_call s link =
      if valid_link link
      then add_call (drop_call s link.call_id) link
      else (s, err (malformed "invalid-codex-call-link"))

  abbrev pub place_result : CodexStateV1 → PendingResult → Option PendingResult → Outcome (Unit {0})
  place_result s candidate (some existing) = fit_serialized_bound (record s {
    pending_results =
        update_first pending_id candidate.call_id (better candidate) s.pending_results;
  })
  place_result s candidate none =
      if leb max_calls (length s.unresolved_calls + length s.pending_results)
      then (s, err state_too_large)
      else fit_serialized_bound
          (record s { pending_results = s.pending_results ++ (candidate ∷ []) })

  unfoldable pub stage_result : CodexStateV1 → PendingResult → Outcome (Unit {0})
  stage_result s candidate =
      if valid_pending candidate
      then place_result s candidate (find_key pending_id candidate.call_id s.pending_results)
      else (s, err (malformed "invalid-codex-pending-result"))

  abbrev pub place_key : CodexStateV1 → Text → ℕ → Option RankedKey → Outcome Bool
  place_key s key rank (some existing) =
      after_fit
        (fit_serialized_bound (record s {
          completed_semantic_keys =
              update_first key_id key (raise_rank rank) s.completed_semantic_keys;
        }))
        (λ s'. false)
  place_key s key rank none =
      after_fit
        (fit_serialized_bound (record s {
          completed_semantic_keys =
              pop_to max_completed_keys
                (s.completed_semantic_keys ++ (record { key = key; rank = rank } ∷ []));
        }))
        (λ s'. true)

  unfoldable pub observe_result : CodexStateV1 → Text → ℕ → Outcome Bool
  observe_result s key rank =
      if rank == 0 || not (bounded_identifier key max_call_id_bytes)
      then (s, err (malformed "invalid-codex-result-key"))
      else place_key s key rank (find_key key_id key s.completed_semantic_keys)

  abbrev pub add_agent : CodexStateV1 → Text → Outcome Bool
  add_agent s id =
      after_fit
        (fit_serialized_bound (record s {
          agent_lifecycle =
              pop_to max_agent_lifecycles
                (s.agent_lifecycle ++ (record { agent_id = id; outcome = none } ∷ []));
        }))
        (λ s'. retains_agent_lifecycle s' id)

  unfoldable pub observe_agent : CodexStateV1 → Text → Outcome Bool
  observe_agent s id =
      if opaque_graph_identifier id
      then (if retains_agent_lifecycle s id then (s, ok false) else add_agent s id)
      else (s, err (malformed "invalid-codex-agent-id"))

  abbrev pub mark_finished :
      CodexStateV1 → Text → ActionOutcome → Option AgentLifecycle → Outcome Bool
  mark_finished s id outcome none = (s, ok false)
  mark_finished s id outcome (some a) =
      if is_some a.outcome
      then (s, ok false)
      else after_fit
          (fit_serialized_bound (record s {
            agent_lifecycle = update_first agent_id id (finish outcome) s.agent_lifecycle;
          }))
          (λ s'. same_outcome (finished_agent_outcome s' id) outcome)

  unfoldable pub finish_agent : CodexStateV1 → Text → ActionOutcome → Outcome Bool
  finish_agent s id outcome =
      if opaque_graph_identifier id
      then mark_finished s id outcome (find_key agent_id id s.agent_lifecycle)
      else (s, err (malformed "invalid-codex-agent-id"))

  unfoldable pub finalize_record : CodexStateV1 → Outcome (Unit {0})
  finalize_record = fit_serialized_bound
