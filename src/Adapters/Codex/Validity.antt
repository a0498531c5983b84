-- ===== src/Adapters/Codex/Validity.antt =====
-- The operations keep what `validate` asks of a state.
use agbox.Common.{
  ℕ, ◌+◌, ◌≡◌, ◌≤◌, ◌↔◌, refl, Option, List, [], ◌∷◌, ◌++◌, arith, leb, subst, sym, all, true,
  length, length-append, if_cases,
}
use agbox.Core.Base.{Text, ok, err}
use agbox.Adapters.Queues.{all-append, all-retain_other, length-retain_other-le}
use agbox.Adapters.Decoder.{malformed, state_too_large}
use agbox.Adapters.Codex.{
  CodexStateV1, CallLink, RankedKey, AgentLifecycle, validate, valid_link, valid_pending, valid_key,
  valid_lifecycle, continuation_or_none, max_calls, max_completed_keys, max_agent_lifecycles,
}
use agbox.Adapters.Codex.Operations.{
  Outcome, fitted, fit_serialized_bound, insert_call, add_call, drop_call, link_id, pending_id,
  after_fit,
}
use agbox.Adapters.Codex.Fit.{
  Drops, stays, drops_key, drops_agent, IsFitted, fit_serialized_bound-IsFitted,
}

pub record IsValid (s : CodexStateV1) : Type 0 where
  pub calls_fit : length s.unresolved_calls + length s.pending_results ≤ max_calls
  pub keys_fit : length s.completed_semantic_keys ≤ max_completed_keys
  pub agents_fit : length s.agent_lifecycle ≤ max_agent_lifecycles
  pub links_valid : all valid_link s.unresolved_calls ≡ true
  pub pending_valid : all valid_pending s.pending_results ≡ true
  pub keys_valid : all valid_key s.completed_semantic_keys ≡ true
  pub agents_valid : all valid_lifecycle s.agent_lifecycle ≡ true
  pub continuation_valid : continuation_or_none s.continuation ≡ true

pub validate-eq-ok : (s : CodexStateV1) → (validate s ≡ ok tt) ↔ IsValid s
unfolding validate
validate-eq-ok s = (
  λ h. record {
    calls_fit = ground arith;
    keys_fit = ground arith;
    agents_fit = ground arith;
    links_valid = ground arith;
    pending_valid = ground arith;
    keys_valid = ground arith;
    agents_valid = ground arith;
    continuation_valid = ground arith;
  },
  λ v. ground arith,
)

-- What the two queues keep when entries are dropped.
abbrev Keeps : List RankedKey → List AgentLifecycle → List RankedKey → List AgentLifecycle → Type 0
Keeps keys agents keys' agents' =
    (length keys' ≤ length keys)
    × (length agents' ≤ length agents)
    × (all valid_key keys' ≡ true)
    × (all valid_lifecycle agents' ≡ true)

module _ (measure : CodexStateV1 → Option ℕ) where
  Drops-Keeps :
      (s : CodexStateV1) (keys keys' : List RankedKey) (agents agents' : List AgentLifecycle)
      → Drops measure s keys agents keys' agents'
      → all valid_key keys ≡ true
      → all valid_lifecycle agents ≡ true
      → Keeps keys agents keys' agents'
  Drops-Keeps s keys keys' agents agents' (stays _ _) h k = (omega arith, omega arith, h, k)
  Drops-Keeps s _ _ _ _ (drops_key k keys keys' agents agents' large d) h l =
      let (a, b, c, e) = Drops-Keeps s keys keys' agents agents' d (ground arith) l in
      (omega (arith, a), b, c, e)
  Drops-Keeps s _ _ _ _ (drops_agent a agents agents' keys' large d) h l =
      let (x, b, c, e) = Drops-Keeps s [] keys' agents agents' d h (ground arith) in
      (x, omega (arith, b), c, e)

  fitted-IsValid :
      (s t : CodexStateV1) (keys' : List RankedKey) (agents' : List AgentLifecycle)
      → IsValid s
      → Drops measure s s.completed_semantic_keys s.agent_lifecycle keys' agents'
      → t ≡ fitted s keys' agents'
      → IsValid t
  fitted-IsValid s t keys' agents' v d e =
      let (a, b, c, f) =
        Drops-Keeps s s.completed_semantic_keys keys' s.agent_lifecycle agents' d v.keys_valid
          v.agents_valid in
      subst IsValid (sym e) record {
        calls_fit = v.calls_fit;
        keys_fit = omega (arith, a, v.keys_fit);
        agents_fit = omega (arith, b, v.agents_fit);
        links_valid = v.links_valid;
        pending_valid = v.pending_valid;
        keys_valid = c;
        agents_valid = f;
        continuation_valid = v.continuation_valid;
      }

  outcome-IsValid :
      (s : CodexStateV1) (o : Outcome (Unit {0}))
      → IsValid s
      → IsFitted measure s s.completed_semantic_keys s.agent_lifecycle o
      → IsValid o.0
  outcome-IsValid s (t, ok u) v (keys', agents', d, e, f) = fitted-IsValid s t keys' agents' v d e
  outcome-IsValid s (t, err state_too_large) v (d, e, f) = fitted-IsValid s t [] [] v d e
  outcome-IsValid s (t, err (malformed m)) v (keys', agents', d, e, f) =
      fitted-IsValid s t keys' agents' v d e

  pub fit-IsValid : (s : CodexStateV1) → IsValid s → IsValid (fit_serialized_bound measure s).0
  fit-IsValid s v =
      outcome-IsValid s (fit_serialized_bound measure s) v (fit_serialized_bound-IsFitted measure s)

  after_fit-state :
      {A : Type 0} (o : Outcome (Unit {0})) (f : CodexStateV1 → A) → (after_fit o f).0 ≡ o.0
  after_fit-state (s, ok u) f = refl
  after_fit-state (s, err e) f = refl

  pub after_fit-IsValid :
      {A : Type 0} (s : CodexStateV1) (f : CodexStateV1 → A)
      → IsValid s
      → IsValid (after_fit (fit_serialized_bound measure s) f).0
  after_fit-IsValid s f v =
      subst IsValid (sym (after_fit-state (fit_serialized_bound measure s) f)) (fit-IsValid s v)

  add_call-IsValid :
      (s : CodexStateV1) (link : CallLink)
      → IsValid s
      → valid_link link ≡ true
      → IsValid (add_call measure s link).0
  add_call-IsValid s link v h =
      if_cases (λ (o : Outcome (Unit {0})). IsValid o.0)
        (leb max_calls (length s.unresolved_calls + length s.pending_results))
        (s, err state_too_large)
        (fit_serialized_bound measure
          (record s { unresolved_calls = s.unresolved_calls ++ (link ∷ []) }))
        (λ e. v)
        (λ e.
          fit-IsValid (record s { unresolved_calls = s.unresolved_calls ++ (link ∷ []) })
            record {
              calls_fit = ground (arith, length-append s.unresolved_calls (link ∷ []));
              keys_fit = v.keys_fit;
              agents_fit = v.agents_fit;
              links_valid =
                  all-append valid_link s.unresolved_calls (link ∷ []) v.links_valid (rw h);
              pending_valid = v.pending_valid;
              keys_valid = v.keys_valid;
              agents_valid = v.agents_valid;
              continuation_valid = v.continuation_valid;
            })

  drop_call-IsValid :
      (s : CodexStateV1) (call_id : Text) → IsValid s → IsValid (drop_call s call_id)
  drop_call-IsValid s call_id v = record {
    calls_fit = omega (
      arith,
      v.calls_fit,
      length-retain_other-le link_id call_id s.unresolved_calls,
      length-retain_other-le pending_id call_id s.pending_results,
    );
    keys_fit = v.keys_fit;
    agents_fit = v.agents_fit;
    links_valid = all-retain_other valid_link link_id call_id s.unresolved_calls v.links_valid;
    pending_valid =
        all-retain_other valid_pending pending_id call_id s.pending_results v.pending_valid;
    keys_valid = v.keys_valid;
    agents_valid = v.agents_valid;
    continuation_valid = v.continuation_valid;
  }

  pub insert_call-IsValid :
      (s : CodexStateV1) (link : CallLink) → IsValid s → IsValid (insert_call measure s link).0
  unfolding insert_call
  insert_call-IsValid s link v =
      if_cases (λ (o : Outcome (Unit {0})). IsValid o.0) (valid_link link)
        (add_call measure (drop_call s link.call_id) link)
        (s, err (malformed "invalid-codex-call-link"))
        (λ h.
          add_call-IsValid (drop_call s link.call_id) link (drop_call-IsValid s link.call_id v) h)
        (λ h. v)
