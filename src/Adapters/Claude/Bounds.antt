-- ===== src/Adapters/Claude/Bounds.antt =====
-- How the eviction of `ClaudeStateV1` goes on and ends.
use agbox.Common.{
  ℕ, ◌≡◌, ◌≤◌, ◌<◌, refl, Option, none, some, List, [], ◌∷◌, arith, ltb, true, false, if_cases,
}
use agbox.Core.Base.{Text, ok, err, max_decoder_state_bytes}
use agbox.Adapters.Decoder.{malformed, state_too_large}
use agbox.Adapters.Claude.{ClaudeStateV1, ToolLink, FinishedAgent, AssistantSpawn, default_context}
use agbox.Adapters.Claude.Eviction.{
  Outcome, settle, with_tools, with_spawns, with_finished, with_known, without_turn,
  without_context, fit_tools, fit_context, fit_turn, fit_spawns, fit_finished, fit_known,
  fit_serialized_bound, same_context, ContextFields-discrete,
}

-- All but the tools is gone.
pub record IsBare (s : ClaudeStateV1) : Type 0 where
  pub no_known : s.known_agents ≡ []
  pub no_finished : s.finished_agents ≡ []
  pub no_spawns : s.assistant_spawns ≡ []
  pub no_turn : s.last_human_turn ≡ none
  pub no_context : same_context s.context default_context ≡ true

default_same : same_context default_context default_context ≡ true
unfolding same_context ContextFields-discrete
default_same = ground arith

-- The next thing to drop: the oldest known agent; when there is none the oldest finished agent, then the
-- oldest spawn, the last human turn, the context, and at last the oldest tool.
pub data Step (s : ClaudeStateV1) : ClaudeStateV1 → Type 0 where
  drops_known :
      (a : Text) (rest : List Text) → s.known_agents ≡ a ∷ rest → Step s (with_known s rest)
  drops_finished :
      (a : FinishedAgent) (rest : List FinishedAgent)
      → s.known_agents ≡ []
      → s.finished_agents ≡ a ∷ rest
      → Step s (with_finished s rest)
  drops_spawn :
      (a : AssistantSpawn) (rest : List AssistantSpawn)
      → s.known_agents ≡ []
      → s.finished_agents ≡ []
      → s.assistant_spawns ≡ a ∷ rest
      → Step s (with_spawns s rest)
  drops_turn :
      (turn : Text)
      → s.known_agents ≡ []
      → s.finished_agents ≡ []
      → s.assistant_spawns ≡ []
      → s.last_human_turn ≡ some turn
      → Step s (without_turn s)
  drops_context :
      s.known_agents ≡ []
      → s.finished_agents ≡ []
      → s.assistant_spawns ≡ []
      → s.last_human_turn ≡ none
      → same_context s.context default_context ≡ false
      → Step s (without_context s)
  drops_tool :
      (t : ToolLink) (rest : List ToolLink)
      → IsBare s
      → s.unresolved_tools ≡ t ∷ rest
      → Step s (with_tools s rest)

module _ (measure : ClaudeStateV1 → Option ℕ) where
  abbrev pub TooLarge : ClaudeStateV1 → Type 0
  TooLarge s = (n : ℕ) × (measure s ≡ some n) × (max_decoder_state_bytes < n)

  -- Steps from states that are too large.
  pub data Drops : ClaudeStateV1 → ClaudeStateV1 → Type 0 where
    stays : (s : ClaudeStateV1) → Drops s s
    drops : (s r t : ClaudeStateV1) → TooLarge s → Step s r → Drops r t → Drops s t

  abbrev pub Ends : ClaudeStateV1 → Outcome (Unit {0}) → Type 0
  Ends s (t, ok _) = Drops s t × ((n : ℕ) × (measure t ≡ some n) × (n ≤ max_decoder_state_bytes))
  Ends s (t, err state_too_large) = Drops s t × TooLarge t × IsBare t × (t.unresolved_tools ≡ [])
  Ends s (t, err (malformed m)) = Drops s t × (measure t ≡ none)

  settle-Ends :
      (o : Option ℕ) (s : ClaudeStateV1) (rest : Outcome (Unit {0}))
      → measure s ≡ o
      → (TooLarge s → Ends s rest)
      → Ends s (settle o s rest)
  settle-Ends none s rest e ends = (stays s, e)
  settle-Ends (some n) s rest e ends =
      if_cases (Ends s) (ltb max_decoder_state_bytes n) rest (s, ok tt)
        (λ h. ends (n, e, ground arith)) (λ h. (stays s, (n, e, ground arith)))

  Step-Ends :
      (s r : ClaudeStateV1) (rest : Outcome (Unit {0}))
      → Step s r
      → Ends r rest
      → TooLarge s
      → Ends s rest
  Step-Ends s r (t, ok _) step (d, h) large = (drops s r t large step d, h)
  Step-Ends s r (t, err state_too_large) step (d, h, b, e) large =
      (drops s r t large step d, h, b, e)
  Step-Ends s r (t, err (malformed m)) step (d, h) large = (drops s r t large step d, h)

  fit_tools-Ends :
      (s : ClaudeStateV1) (tools : List ToolLink)
      → ((ts : List ToolLink) → IsBare (with_tools s ts))
      → Ends (with_tools s tools) (fit_tools measure s tools)
  unfolding fit_tools
  fit_tools-Ends s [] b =
      settle-Ends (measure (with_tools s [])) (with_tools s [])
        (with_tools s [], err state_too_large) refl
        (λ large. (stays (with_tools s []), large, b [], refl))
  fit_tools-Ends s (t ∷ tools) b =
      settle-Ends (measure (with_tools s (t ∷ tools))) (with_tools s (t ∷ tools))
        (fit_tools measure s tools) refl
        (Step-Ends (with_tools s (t ∷ tools)) (with_tools s tools) (fit_tools measure s tools)
          (drops_tool t tools (b (t ∷ tools)) refl) (fit_tools-Ends s tools b))

  fit_context-Ends :
      (s : ClaudeStateV1)
      → s.known_agents ≡ []
      → s.finished_agents ≡ []
      → s.assistant_spawns ≡ []
      → s.last_human_turn ≡ none
      → Ends s (fit_context measure s)
  fit_context-Ends s k f a t =
      if_cases (Ends s) (same_context s.context default_context)
        (fit_tools measure s s.unresolved_tools)
        (settle (measure s) s (fit_tools measure (without_context s) s.unresolved_tools))
        (λ h. fit_tools-Ends s s.unresolved_tools (λ ts. record {
          no_known = k;
          no_finished = f;
          no_spawns = a;
          no_turn = t;
          no_context = h;
        }))
        (λ h.
          settle-Ends (measure s) s (fit_tools measure (without_context s) s.unresolved_tools) refl
            (Step-Ends s (without_context s)
              (fit_tools measure (without_context s) s.unresolved_tools) (drops_context k f a t h)
              (fit_tools-Ends (without_context s) s.unresolved_tools (λ ts. record {
                no_known = k;
                no_finished = f;
                no_spawns = a;
                no_turn = t;
                no_context = default_same;
              }))))

  fit_turn-Ends :
      (s : ClaudeStateV1) (turn : Option Text)
      → s.last_human_turn ≡ turn
      → s.known_agents ≡ []
      → s.finished_agents ≡ []
      → s.assistant_spawns ≡ []
      → Ends s (fit_turn measure s turn)
  fit_turn-Ends s none e k f a = fit_context-Ends s k f a e
  fit_turn-Ends s (some turn) e k f a =
      settle-Ends (measure s) s (fit_context measure (without_turn s)) refl (
        Step-Ends s (without_turn s) (fit_context measure (without_turn s))
          (drops_turn turn k f a e) (fit_context-Ends (without_turn s) k f a refl))

  fit_spawns-Ends :
      (s : ClaudeStateV1) (spawns : List AssistantSpawn)
      → s.known_agents ≡ []
      → s.finished_agents ≡ []
      → Ends (with_spawns s spawns) (fit_spawns measure s spawns)
  unfolding fit_spawns
  fit_spawns-Ends s [] k f = fit_turn-Ends (with_spawns s []) s.last_human_turn refl k f refl
  fit_spawns-Ends s (a ∷ spawns) k f =
      settle-Ends (measure (with_spawns s (a ∷ spawns))) (with_spawns s (a ∷ spawns))
        (fit_spawns measure s spawns) refl
        (Step-Ends (with_spawns s (a ∷ spawns)) (with_spawns s spawns) (fit_spawns measure s spawns)
          (drops_spawn a spawns k f refl) (fit_spawns-Ends s spawns k f))

  fit_finished-Ends :
      (s : ClaudeStateV1) (agents : List FinishedAgent)
      → s.known_agents ≡ []
      → Ends (with_finished s agents) (fit_finished measure s agents)
  unfolding fit_finished
  fit_finished-Ends s [] k = fit_spawns-Ends (with_finished s []) s.assistant_spawns k refl
  fit_finished-Ends s (a ∷ agents) k =
      settle-Ends (measure (with_finished s (a ∷ agents))) (with_finished s (a ∷ agents))
        (fit_finished measure s agents) refl
        (Step-Ends (with_finished s (a ∷ agents)) (with_finished s agents)
          (fit_finished measure s agents) (drops_finished a agents k refl)
          (fit_finished-Ends s agents k))

  fit_known-Ends :
      (s : ClaudeStateV1) (agents : List Text)
      → Ends (with_known s agents) (fit_known measure s agents)
  unfolding fit_known
  fit_known-Ends s [] = fit_finished-Ends (with_known s []) s.finished_agents refl
  fit_known-Ends s (a ∷ agents) =
      settle-Ends (measure (with_known s (a ∷ agents))) (with_known s (a ∷ agents))
        (fit_known measure s agents) refl
        (Step-Ends (with_known s (a ∷ agents)) (with_known s agents) (fit_known measure s agents)
          (drops_known a agents refl) (fit_known-Ends s agents))

  -- `fit_serialized_bound` always ends. From states that are too large it drops one thing at a time: the
  -- oldest known agent, without one the oldest finished agent, then the oldest spawn, the last
  -- human turn, the context and the oldest tool. It ends with a state that fits the bound; or
  -- as too large with a state that does not fit with all of them dropped; or where the state
  -- cannot be measured.
  pub fit_serialized_bound-Ends : (s : ClaudeStateV1) → Ends s (fit_serialized_bound measure s)
  unfolding fit_serialized_bound
  fit_serialized_bound-Ends s = fit_known-Ends s s.known_agents
