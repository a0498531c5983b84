-- ===== src/Adapters/Claude/Tests.antt =====
-- A history of a state, with a bound that it meets and one that it does not.
use agbox.Common.{
  ℕ, ◌≡◌, refl, Option, none, some, List, [], ◌∷◌, ◌++◌, replicate, length, ◌*◌, ◌+◌, ℕ_discrete,
  true, false,
}
use agbox.Core.Base.{Text, ok, err, Text-discrete}
use agbox.Core.Strings.{bytes}
use agbox.Core.Activity.{succeeded}
use agbox.Adapters.Decoder.{state_too_large}
use agbox.Adapters.Claude.{
  ClaudeStateV1, ToolLink, ContextSnapshot, default, validate, valid_project_path, valid_cwd,
  split_slashes, all_normal,
}
use agbox.Adapters.Claude.Eviction.{
  fit_serialized_bound, fit_known, fit_finished, fit_spawns, fit_tools, same_context,
  ContextFields-discrete,
}
use agbox.Adapters.Claude.Bounds.{Ends, fit_serialized_bound-Ends}
use agbox.Adapters.Claude.History.{
  ClaudeCall, sets_turn, takes, inserts, observes, finishes, spawns, merges, finalizes, history,
  validate-history-default,
}

abbrev link : ToolLink
link = record {
  tool_use_id = bytes "t1";
  request_event_id = bytes "e1";
  tool_name = bytes "Bash";
  input_hash = bytes "h";
  project_relative_path = some (bytes "$PROJECT/a/b");
}

abbrev agent : Text
agent = bytes "claude_graph_" ++ replicate 48 b'a'

abbrev here : ContextSnapshot
here = record {
  cwd = some (bytes "$PROJECT");
  mode = some (bytes "plan");
  permission = none;
  branch_hash = none;
}

abbrev calls : List ClaudeCall
calls =
    sets_turn (bytes "u1")
    ∷ inserts link
    ∷ observes agent
    ∷ finishes agent succeeded
    ∷ spawns agent (some (bytes "e2"))
    ∷ merges here
    ∷ takes (bytes "t1")
    ∷ finalizes
    ∷ []

-- A state with agents has a long text, any other a short one.
abbrev by_agents : ClaudeStateV1 → Option ℕ
by_agents s = some (length s.known_agents * 40_000 + 100)

validate-history-default_example : validate (history by_agents default calls) ≡ ok tt
validate-history-default_example = validate-history-default by_agents calls

abbrev known : ClaudeStateV1
known = record default { known_agents = agent ∷ []; last_human_turn = some (bytes "u1") }

-- The agent is dropped and the turn stays.
drops :
    fit_serialized_bound by_agents known
    ≡ (record default { last_human_turn = some (bytes "u1") }, ok tt)
unfolding fit_serialized_bound fit_known fit_finished fit_spawns
drops = refl

-- Where nothing fits, everything is dropped.
abbrev never : ClaudeStateV1 → Option ℕ
never s = some 40_000

drops_all : fit_serialized_bound never known ≡ (default, err state_too_large)
unfolding fit_serialized_bound fit_known fit_finished fit_spawns fit_tools same_context
    ContextFields-discrete
drops_all = refl

fit_serialized_bound-Ends_example : Ends by_agents known (fit_serialized_bound by_agents known)
fit_serialized_bound-Ends_example = fit_serialized_bound-Ends by_agents known

inside : valid_project_path (bytes "$PROJECT/a/./b/") ≡ true
unfolding valid_project_path all_normal split_slashes Text-discrete ℕ_discrete
inside = refl

outside : valid_project_path (bytes "$PROJECT/a/../b") ≡ false
unfolding valid_project_path all_normal split_slashes Text-discrete ℕ_discrete
outside = refl

root : valid_cwd (bytes "$PROJECT//a") ≡ false
unfolding valid_cwd all_normal split_slashes Text-discrete ℕ_discrete
root = refl
