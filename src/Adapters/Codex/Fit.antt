-- ===== src/Adapters/Codex/Fit.antt =====
-- How a state is cut to its bound.
use agbox.Common.{ℕ, ◌≡◌, ◌≤◌, ◌<◌, refl, Option, none, some, List, [], ◌∷◌, arith, ltb, if_cases}
use agbox.Core.Base.{ok, err, max_decoder_state_bytes}
use agbox.Adapters.Decoder.{malformed, state_too_large}
use agbox.Adapters.Codex.{CodexStateV1, RankedKey, AgentLifecycle}
use agbox.Adapters.Codex.Operations.{Outcome, fitted, settle, fit_loop, fit_serialized_bound}

module _ (measure : CodexStateV1 → Option ℕ) (s : CodexStateV1) where
  abbrev pub TooLarge : CodexStateV1 → Type 0
  TooLarge t = (n : ℕ) × (measure t ≡ some n) × (max_decoder_state_bytes < n)

  abbrev pub Fits : CodexStateV1 → Type 0
  Fits t = (n : ℕ) × (measure t ≡ some n) × (n ≤ max_decoder_state_bytes)

  -- What is dropped, the oldest key first and agents only where no key is left, is dropped from a
  -- state that is too large.
  pub data Drops
      : List RankedKey → List AgentLifecycle → List RankedKey → List AgentLifecycle → Type 0 where
    stays : (keys : List RankedKey) (agents : List AgentLifecycle) → Drops keys agents keys agents
    drops_key :
        (k : RankedKey) (keys keys' : List RankedKey) (agents agents' : List AgentLifecycle)
        → TooLarge (fitted s (k ∷ keys) agents)
        → Drops keys agents keys' agents'
        → Drops (k ∷ keys) agents keys' agents'
    drops_agent :
        (a : AgentLifecycle) (agents agents' : List AgentLifecycle) (keys' : List RankedKey)
        → TooLarge (fitted s [] (a ∷ agents))
        → Drops [] agents keys' agents'
        → Drops [] (a ∷ agents) keys' agents'

  -- The outcomes: a state that fits, one with nothing left to drop, or one that cannot be measured.
  abbrev pub IsFitted : List RankedKey → List AgentLifecycle → Outcome (Unit {0}) → Type 0
  IsFitted keys agents (t, ok _) =
      (keys' : List RankedKey) × (agents' : List AgentLifecycle) × Drops keys agents keys' agents'
      × (t ≡ fitted s keys' agents')
      × Fits t
  IsFitted keys agents (t, err state_too_large) =
      Drops keys agents [] [] × (t ≡ fitted s [] []) × TooLarge t
  IsFitted keys agents (t, err (malformed m)) =
      (keys' : List RankedKey) × (agents' : List AgentLifecycle) × Drops keys agents keys' agents'
      × (t ≡ fitted s keys' agents')
      × (measure t ≡ none)

  settle-IsFitted :
      (keys : List RankedKey) (agents : List AgentLifecycle) (o : Option ℕ)
      (rest : Outcome (Unit {0}))
      → measure (fitted s keys agents) ≡ o
      → (TooLarge (fitted s keys agents) → IsFitted keys agents rest)
      → IsFitted keys agents (settle o (fitted s keys agents) rest)
  settle-IsFitted keys agents none rest e go = (keys, agents, stays keys agents, refl, e)
  settle-IsFitted keys agents (some n) rest e go =
      if_cases (IsFitted keys agents) (ltb max_decoder_state_bytes n) rest
        (fitted s keys agents, ok tt) (λ h. go (n, e, ground arith))
        (λ h. (keys, agents, stays keys agents, refl, (n, e, ground arith)))

  key-IsFitted :
      (k : RankedKey) (keys : List RankedKey) (agents : List AgentLifecycle)
      (o : Outcome (Unit {0}))
      → TooLarge (fitted s (k ∷ keys) agents)
      → IsFitted keys agents o
      → IsFitted (k ∷ keys) agents o
  key-IsFitted k keys agents (t, ok u) large (keys', agents', d, e, f) =
      (keys', agents', drops_key k keys keys' agents agents' large d, e, f)
  key-IsFitted k keys agents (t, err state_too_large) large (d, e, f) =
      (drops_key k keys [] agents [] large d, e, f)
  key-IsFitted k keys agents (t, err (malformed m)) large (keys', agents', d, e, f) =
      (keys', agents', drops_key k keys keys' agents agents' large d, e, f)

  agent-IsFitted :
      (a : AgentLifecycle) (agents : List AgentLifecycle) (o : Outcome (Unit {0}))
      → TooLarge (fitted s [] (a ∷ agents))
      → IsFitted [] agents o
      → IsFitted [] (a ∷ agents) o
  agent-IsFitted a agents (t, ok u) large (keys', agents', d, e, f) =
      (keys', agents', drops_agent a agents agents' keys' large d, e, f)
  agent-IsFitted a agents (t, err state_too_large) large (d, e, f) =
      (drops_agent a agents [] [] large d, e, f)
  agent-IsFitted a agents (t, err (malformed m)) large (keys', agents', d, e, f) =
      (keys', agents', drops_agent a agents agents' keys' large d, e, f)

  fit_loop-IsFitted :
      (keys : List RankedKey) (agents : List AgentLifecycle)
      → IsFitted keys agents (fit_loop measure s keys agents)
  unfolding fit_loop
  fit_loop-IsFitted [] [] =
      settle-IsFitted [] [] (measure (fitted s [] [])) (fitted s [] [], err state_too_large) refl
        (λ large. (stays [] [], refl, large))
  fit_loop-IsFitted [] (a ∷ agents) =
      settle-IsFitted [] (a ∷ agents) (measure (fitted s [] (a ∷ agents)))
        (fit_loop measure s [] agents) refl
        (λ large.
          agent-IsFitted a agents (fit_loop measure s [] agents) large
            (fit_loop-IsFitted [] agents))
  fit_loop-IsFitted (k ∷ keys) agents =
      settle-IsFitted (k ∷ keys) agents (measure (fitted s (k ∷ keys) agents))
        (fit_loop measure s keys agents) refl
        (λ large.
          key-IsFitted k keys agents (fit_loop measure s keys agents) large
            (fit_loop-IsFitted keys agents))

  -- `fit_serialized_bound` always ends. It succeeds with a state that fits the bound, from which only
  -- the oldest completed keys were dropped and agents only where no key was left, one at a
  -- time and each from a state that was too large; it fails as too large only with both queues
  -- empty, and else only where the state cannot be measured.
  pub fit_serialized_bound-IsFitted :
      IsFitted s.completed_semantic_keys s.agent_lifecycle (fit_serialized_bound measure s)
  unfolding fit_serialized_bound
  fit_serialized_bound-IsFitted = fit_loop-IsFitted s.completed_semantic_keys s.agent_lifecycle
