-- ===== src/Adapters/Codex/Run.antt =====
-- Every history of a state.
use agbox.Common.{
  ℕ, ◌+◌, ◌≡◌, ◌≤◌, refl, Option, none, some, List, [], ◌∷◌, All, true, all, arith, if_cases,
  if◌then◌else◌, ltb, ◌==◌,
}
use agbox.Core.Base.{Text, ok, err}
use agbox.Core.Activity.{ActionOutcome}
use agbox.Adapters.Queues.{
  all-take_first, length-take_first-le, take_first, length-uncons-le, uncons,
}
use agbox.Adapters.Decoder.{malformed}
use agbox.Adapters.Codex.{
  CodexStateV1, PendingResult, CallLink, Continuation, HistoryMode, legacy, paginated, unknown,
  validate, continuation_or_none, default, valid_link, valid_pending,
}
use agbox.Adapters.Codex.Operations.{
  observe_history_mode, observe_ordinal, ordinal_in, next_ordinal, insert_call, stage_result,
  observe_result, observe_agent, finish_agent, take_call, take_pending_result, pop_pending_result,
  set_continuation, finalize_record, link_id, pending_id, Outcome, u64_max,
}
use agbox.Adapters.Codex.Validity.{IsValid, validate-eq-ok, fit-IsValid, insert_call-IsValid}
use agbox.Adapters.Codex.Results.{
  with_pending-IsValid, stage_result-IsValid, observe_result-IsValid, observe_agent-IsValid,
  finish_agent-IsValid,
}

-- The calls that the decoder makes.
pub data Call : Type 0 where
  observes_mode : HistoryMode → Call
  observes_ordinal : Option ℕ → Call
  inserts : CallLink → Call
  takes takes_pending : Text → Call
  stages : PendingResult → Call
  pops : Call
  observes_result : Text → ℕ → Call
  observes_agent : Text → Call
  finishes : Text → ActionOutcome → Call
  continues : Option Continuation → Call
  finalizes : Call

-- Ranks are at most 3 and a continuation is a valid one, as the decoder makes them.
abbrev pub IsAllowed : Call → Type 0
IsAllowed (observes_result key rank) = rank ≤ 3
IsAllowed (continues c) = continuation_or_none c ≡ true
IsAllowed _ = Unit

module _ (measure : CodexStateV1 → Option ℕ) where
  -- An error leaves the changed state to the next call.
  unfoldable pub step : CodexStateV1 → Call → CodexStateV1
  step s (observes_mode mode) = observe_history_mode s mode
  step s (observes_ordinal ordinal) = (observe_ordinal s ordinal).0
  step s (inserts link) = (insert_call measure s link).0
  step s (takes call_id) = (take_call s call_id).0
  step s (takes_pending call_id) = (take_pending_result s call_id).0
  step s (stages candidate) = (stage_result measure s candidate).0
  step s pops = (pop_pending_result s).0
  step s (observes_result key rank) = (observe_result measure s key rank).0
  step s (observes_agent id) = (observe_agent measure s id).0
  step s (finishes id outcome) = (finish_agent measure s id outcome).0
  step s (continues c) = set_continuation s c
  step s finalizes = (finalize_record measure s).0

  unfoldable pub run : CodexStateV1 → List Call → CodexStateV1
  run s [] = s
  run s (c ∷ cs) = run (step s c) cs

  -- The mode and the ordinal stand in no check.
  relabel-IsValid :
      (s : CodexStateV1) (mode : HistoryMode) (ordinal : Option ℕ)
      → IsValid s
      → IsValid (record s { history_mode = mode; last_ordinal = ordinal })
  relabel-IsValid s mode ordinal v = record {
    calls_fit = v.calls_fit;
    keys_fit = v.keys_fit;
    agents_fit = v.agents_fit;
    links_valid = v.links_valid;
    pending_valid = v.pending_valid;
    keys_valid = v.keys_valid;
    agents_valid = v.agents_valid;
    continuation_valid = v.continuation_valid;
  }

  next_ordinal-IsValid :
      (s : CodexStateV1) (o : Option ℕ) (current : ℕ)
      → IsValid s
      → IsValid (next_ordinal s o current).0
  next_ordinal-IsValid s none current v = relabel-IsValid s s.history_mode (some current) v
  next_ordinal-IsValid s (some previous) current v =
      if_cases (λ (o : Outcome (Unit {0})). IsValid o.0) (ltb u64_max (previous + 1))
        (s, err (malformed "codex-ordinal-exhausted"))
        (if current == previous + 1
          then (record s { last_ordinal = some current }, ok tt)
          else (s, err (malformed "codex-ordinal-gap")))
        (λ e. v)
        (λ e.
          if_cases (λ (o : Outcome (Unit {0})). IsValid o.0) (current == previous + 1)
            (record s { last_ordinal = some current }, ok tt)
            (s, err (malformed "codex-ordinal-gap"))
            (λ f. relabel-IsValid s s.history_mode (some current) v) (λ f. v))

  ordinal_in-IsValid :
      (s : CodexStateV1) (mode : HistoryMode) (o : Option ℕ)
      → IsValid s
      → IsValid (ordinal_in s mode o).0
  ordinal_in-IsValid s paginated none v = v
  ordinal_in-IsValid s paginated (some current) v = next_ordinal-IsValid s s.last_ordinal current v
  ordinal_in-IsValid s legacy o v = v
  ordinal_in-IsValid s unknown o v = v

  all-uncons :
      (ps : List PendingResult)
      → all valid_pending ps ≡ true
      → all valid_pending (uncons ps).1 ≡ true
  all-uncons [] h = h
  all-uncons (p ∷ ps) h = ground arith

  pub step-IsValid : (s : CodexStateV1) (c : Call) → IsValid s → IsAllowed c → IsValid (step s c)
  unfolding step observe_history_mode observe_ordinal take_call take_pending_result
      pop_pending_result set_continuation finalize_record
  step-IsValid s (observes_mode mode) v a =
      relabel-IsValid s (observe_history_mode s mode).history_mode s.last_ordinal v
  step-IsValid s (observes_ordinal ordinal) v a = ordinal_in-IsValid s s.history_mode ordinal v
  step-IsValid s (inserts link) v a = insert_call-IsValid measure s link v
  step-IsValid s (takes call_id) v a = record {
    calls_fit = omega (arith, v.calls_fit, length-take_first-le link_id call_id s.unresolved_calls);
    keys_fit = v.keys_fit;
    agents_fit = v.agents_fit;
    links_valid = all-take_first valid_link link_id call_id s.unresolved_calls v.links_valid;
    pending_valid = v.pending_valid;
    keys_valid = v.keys_valid;
    agents_valid = v.agents_valid;
    continuation_valid = v.continuation_valid;
  }
  step-IsValid s (takes_pending call_id) v a =
      with_pending-IsValid s (take_first pending_id call_id s.pending_results).1 v
        (omega (arith, v.calls_fit, length-take_first-le pending_id call_id s.pending_results))
        (all-take_first valid_pending pending_id call_id s.pending_results v.pending_valid)
  step-IsValid s (stages candidate) v a = stage_result-IsValid measure s candidate v
  step-IsValid s pops v a =
      with_pending-IsValid s (uncons s.pending_results).1 v
        (omega (arith, v.calls_fit, length-uncons-le s.pending_results))
        (all-uncons s.pending_results v.pending_valid)
  step-IsValid s (observes_result key rank) v a = observe_result-IsValid measure s key rank v a
  step-IsValid s (observes_agent id) v a = observe_agent-IsValid measure s id v
  step-IsValid s (finishes id outcome) v a = finish_agent-IsValid measure s id outcome v
  step-IsValid s (continues c) v a = record {
    calls_fit = v.calls_fit;
    keys_fit = v.keys_fit;
    agents_fit = v.agents_fit;
    links_valid = v.links_valid;
    pending_valid = v.pending_valid;
    keys_valid = v.keys_valid;
    agents_valid = v.agents_valid;
    continuation_valid = a;
  }
  step-IsValid s finalizes v a = fit-IsValid measure s v

  run-IsValid :
      (s : CodexStateV1) (cs : List Call) → IsValid s → All IsAllowed cs → IsValid (run s cs)
  unfolding run
  run-IsValid s [] v a = v
  run-IsValid s (c ∷ cs) v a = run-IsValid (step s c) cs (step-IsValid s c v a.0) a.1

  default-IsValid : IsValid default
  default-IsValid = (validate-eq-ok default).0 (unfold validate in refl)

  -- After every history of calls from the empty state, failed ones among them, the state passes
  -- `validate`, which the next decoding asks again, if no rank is above 3 and each continuation
  -- that is set is a valid one.
  pub validate-run-default : (cs : List Call) → All IsAllowed cs → validate (run default cs) ≡ ok tt
  validate-run-default cs a =
      (validate-eq-ok (run default cs)).1 (run-IsValid default cs default-IsValid a)
