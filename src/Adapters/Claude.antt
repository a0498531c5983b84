-- ===== src/Adapters/Claude.antt =====
-- crates/agbox-adapters/src/claude/state.rs: what the decoder of Claude transcripts remembers. Queues are lists, the
-- oldest entry first.
use agbox.Common.{
  ℕ, zero, suc, ◌+◌, Bool, true, false, not, ◌&&◌, ◌||◌, Option, none, some, List, [], ◌∷◌, ◌++◌,
  length, all, any, drop, ltb, leb, ◌==◌, if◌then◌else◌,
}
use agbox.Core.Base.{Text, same_text, Result, ok, err, ◌>>=◌, ◌>>◌, refuse}
use agbox.Core.Activity.{ActionOutcome}
use agbox.Core.Strings.{bytes, starts_with}
use agbox.Adapters.Identifiers.{bounded_identifier, graph_identifier}
use agbox.Adapters.Decoder.{DecodeError, malformed}
pub mod Eviction
pub mod Operations
pub mod Bounds
pub mod Validity
pub mod Steps
pub mod History
mod Tests

abbrev pub max_unresolved_tools : ℕ
max_unresolved_tools = 128

abbrev pub max_known_agents : ℕ
max_known_agents = 128

abbrev pub max_finished_agents : ℕ
max_finished_agents = 128

abbrev pub max_assistant_spawns : ℕ
max_assistant_spawns = 128

abbrev pub max_tool_use_id_bytes : ℕ
max_tool_use_id_bytes = 128

abbrev pub max_event_id_bytes : ℕ
max_event_id_bytes = 128

abbrev pub max_tool_name_bytes : ℕ
max_tool_name_bytes = 64

abbrev pub max_hash_bytes : ℕ
max_hash_bytes = 128

abbrev pub max_project_path_bytes : ℕ
max_project_path_bytes = 512

abbrev pub safe_modes : List Text
safe_modes = bytes "build" ∷ bytes "default" ∷ bytes "plan" ∷ []

abbrev pub safe_permission_modes : List Text
safe_permission_modes =
    bytes "acceptEdits"
    ∷ bytes "bypassPermissions"
    ∷ bytes "default"
    ∷ bytes "delegate"
    ∷ bytes "dontAsk"
    ∷ bytes "plan"
    ∷ bytes "safe"
    ∷ []

pub record ContextSnapshot : Type 0 where
  pub cwd : Option Text
  pub mode : Option Text
  pub permission : Option Text
  pub branch_hash : Option Text

abbrev pub default_context : ContextSnapshot
default_context = record { cwd = none; mode = none; permission = none; branch_hash = none }

pub record ToolLink : Type 0 where
  pub tool_use_id : Text
  pub request_event_id : Text
  pub tool_name : Text
  pub input_hash : Text
  pub project_relative_path : Option Text

pub record FinishedAgent : Type 0 where
  pub agent_id : Text
  pub outcome : ActionOutcome

pub record AssistantSpawn : Type 0 where
  pub assistant_record_id : Text
  pub request_event_id : Text

pub record ClaudeStateV1 : Type 0 where
  pub unresolved_tools : List ToolLink
  pub known_agents : List Text
  pub finished_agents : List FinishedAgent
  pub assistant_spawns : List AssistantSpawn
  pub last_human_turn : Option Text
  pub context : ContextSnapshot

abbrev pub default : ClaudeStateV1
default = record {
  unresolved_tools = [];
  known_agents = [];
  finished_agents = [];
  assistant_spawns = [];
  last_human_turn = none;
  context = default_context;
}

unfoldable pub opaque_graph_identifier : Text → Bool
opaque_graph_identifier = graph_identifier (bytes "claude_graph_")

-- `char::is_control` on the bytes of UTF-8: below 32, 127, and 128 to 159 in two bytes.
abbrev pub has_control : Text → Bool
has_control [] = false
has_control (b ∷ []) = ltb b 32 || b == 127
has_control (b ∷ c ∷ text) =
    let rest = has_control (c ∷ text) in
    ltb b 32 || b == 127 || (b == 194 && (leb 128 c && leb c 159)) || rest

abbrev pub push_byte : ℕ → List Text → List Text
push_byte b [] = (b ∷ []) ∷ []
push_byte b (part ∷ parts) = (b ∷ part) ∷ parts

-- The parts between the slashes.
unfoldable pub split_slashes : Text → List Text
split_slashes [] = [] ∷ []
split_slashes (b ∷ text) =
    let rest = split_slashes text in if b == b'/' then [] ∷ rest else push_byte b rest

abbrev pub is_parent : Text → Bool
is_parent part = same_text part (b'.' ∷ b'.' ∷ [])

-- A path starts at the root if its first part is empty and is not the only one.
abbrev pub starts_aside : List Text → Bool
starts_aside [] = false
starts_aside (part ∷ []) = same_text part (b'.' ∷ [])
starts_aside (part ∷ next ∷ parts) = length part == 0 || same_text part (b'.' ∷ [])

-- All `Path::components` are normal: no root, no leading `.` and no `..`.
unfoldable pub all_normal : Text → Bool
unfolding split_slashes
all_normal path =
    not (starts_aside (split_slashes path)) && not (any is_parent (split_slashes path))

abbrev pub project_prefix : Text
project_prefix = bytes "$PROJECT/"

unfoldable pub valid_project_path : Text → Bool
unfolding all_normal
valid_project_path value =
    let relative = drop (length project_prefix) value in
    starts_with project_prefix value
    && not (length relative == 0)
    && leb (length value) max_project_path_bytes
    && not (has_control relative)
    && all_normal relative

-- `trim_start_matches`, at most so many times.
abbrev pub trim_project : ℕ → Text → Text
trim_project zero value = value
trim_project (suc rounds) value =
    let rest = trim_project rounds (drop (length project_prefix) value) in
    if starts_with project_prefix value then rest else value

unfoldable pub valid_cwd : Text → Bool
unfolding all_normal
valid_cwd value =
    same_text value (bytes "$PROJECT")
    || (starts_with project_prefix value
        && leb (length value) max_project_path_bytes
        && not (has_control value)
        && all_normal (trim_project (length value) value))

abbrev pub is_none_or : (Text → Bool) → Option Text → Bool
is_none_or p none = true
is_none_or p (some value) = p value

abbrev pub is_safe : List Text → Text → Bool
is_safe values value = any (same_text value) values

unfoldable pub valid_context : ContextSnapshot → Bool
valid_context c =
    is_none_or valid_cwd c.cwd
    && is_none_or (is_safe safe_modes) c.mode
    && is_none_or (is_safe safe_permission_modes) c.permission
    && is_none_or (λ value. bounded_identifier value max_hash_bytes) c.branch_hash

unfoldable pub valid_link : ToolLink → Bool
valid_link l =
    bounded_identifier l.tool_use_id max_tool_use_id_bytes
    && bounded_identifier l.request_event_id max_event_id_bytes
    && bounded_identifier l.tool_name max_tool_name_bytes
    && bounded_identifier l.input_hash max_hash_bytes
    && is_none_or valid_project_path l.project_relative_path

abbrev pub valid_finished : FinishedAgent → Bool
valid_finished a = opaque_graph_identifier a.agent_id

abbrev pub valid_spawn : AssistantSpawn → Bool
valid_spawn s =
    opaque_graph_identifier s.assistant_record_id
    && bounded_identifier s.request_event_id max_event_id_bytes

abbrev pub valid_turn : Option Text → Bool
valid_turn = is_none_or (λ value. bounded_identifier value max_tool_use_id_bytes)

-- `ClaudeStateV1::validate`.
unfoldable pub validate : ClaudeStateV1 → Result DecodeError (Unit {0})
validate s = do
  refuse (ltb max_unresolved_tools (length s.unresolved_tools))
      (malformed "invalid-claude-state-count")
  refuse
      (ltb max_known_agents (length s.known_agents)
        || not (all opaque_graph_identifier s.known_agents))
      (malformed "invalid-claude-state-agents")
  refuse
      (ltb max_finished_agents (length s.finished_agents)
        || not (all valid_finished s.finished_agents))
      (malformed "invalid-claude-state-finished-agents")
  refuse
      (ltb max_assistant_spawns (length s.assistant_spawns)
        || not (all valid_spawn s.assistant_spawns))
      (malformed "invalid-claude-state-assistant-spawns")
  refuse (not (valid_turn s.last_human_turn)) (malformed "invalid-claude-state-turn")
  refuse (not (valid_context s.context)) (malformed "invalid-claude-state-context")
  refuse (not (all valid_link s.unresolved_tools)) (malformed "invalid-claude-state-link")
