-- ===== src/Adapters/Codex.antt =====
-- crates/agbox-adapters/src/codex/state.rs: what the decoder of Codex transcripts remembers. Queues are lists, the
-- oldest entry first.
use agbox.Common.{
  ℕ, ◌+◌, Bool, true, false, not, ◌&&◌, ◌||◌, Option, none, some, List, [], ◌∷◌, ◌++◌, length, all,
  ltb, leb, ◌==◌, if◌then◌else◌,
}
use agbox.Core.Base.{Text, same_text, Result, ok, err, ◌>>=◌, ◌>>◌, refuse}
use agbox.Core.Activity.{ActionOutcome}
use agbox.Core.Strings.{bytes}
use agbox.Adapters.Identifiers.{bounded_identifier, graph_identifier, is_ascii_graphic}
use agbox.Adapters.Decoder.{DecodeError, malformed}
pub mod Operations
pub mod Fit
pub mod Validity
pub mod Results
pub mod Run
pub mod Wire
mod Tests

abbrev pub max_calls : ℕ
max_calls = 128

abbrev pub max_completed_keys : ℕ
max_completed_keys = 128

abbrev pub max_agent_lifecycles : ℕ
max_agent_lifecycles = 128

abbrev pub max_call_id_bytes : ℕ
max_call_id_bytes = 48

abbrev pub max_event_id_bytes : ℕ
max_event_id_bytes = 128

abbrev pub max_compact_hash_bytes : ℕ
max_compact_hash_bytes = 43

abbrev pub max_record_hash_bytes : ℕ
max_record_hash_bytes = 128

abbrev pub max_operation_bytes : ℕ
max_operation_bytes = 8

abbrev pub max_native_type_bytes : ℕ
max_native_type_bytes = 128

abbrev pub max_schema_bytes : ℕ
max_schema_bytes = 128

pub data HistoryMode : Type 0 where
  legacy paginated unknown : HistoryMode

pub record StagedContent : Type 0 where
  pub hash : Text
  pub byte_length : ℕ

pub record StagedArtifact : Type 0 where
  pub hash : Text
  pub byte_length : ℕ
  pub operation : Text

pub record PendingResult : Type 0 where
  pub call_id : Text
  pub request_event_id : Text
  pub rank : ℕ
  pub outcome : ActionOutcome
  pub output : Option StagedContent
  pub artifact : Option StagedArtifact

pub record CallLink : Type 0 where
  pub call_id : Text
  pub request_event_id : Text
  pub artifact : Option StagedArtifact

pub record RankedKey : Type 0 where
  pub key : Text
  pub rank : ℕ

pub record AgentLifecycle : Type 0 where
  pub agent_id : Text
  pub outcome : Option ActionOutcome

-- The fields in the order of the tuple.
pub record Continuation : Type 0 where
  pub record_hash : Text
  pub done : ℕ
  pub of : ℕ
  pub native_type : Text
  pub ordinal : Option ℕ
  pub schema : Text
  pub event_id : Text
  pub index : ℕ
  pub digest : Text

pub record CodexStateV1 : Type 0 where
  pub history_mode : HistoryMode
  pub unresolved_calls : List CallLink
  pub pending_results : List PendingResult
  pub completed_semantic_keys : List RankedKey
  pub agent_lifecycle : List AgentLifecycle
  pub last_ordinal : Option ℕ
  pub continuation : Option Continuation

abbrev pub default : CodexStateV1
default = record {
  history_mode = unknown;
  unresolved_calls = [];
  pending_results = [];
  completed_semantic_keys = [];
  agent_lifecycle = [];
  last_ordinal = none;
  continuation = none;
}

unfoldable pub opaque_graph_identifier : Text → Bool
opaque_graph_identifier = graph_identifier (bytes "codex_graph_")

unfoldable pub valid_artifact : StagedArtifact → Bool
valid_artifact a =
    bounded_identifier a.hash max_compact_hash_bytes
    && bounded_identifier a.operation max_operation_bytes

abbrev pub artifact_or_none : Option StagedArtifact → Bool
artifact_or_none none = true
artifact_or_none (some a) = valid_artifact a

abbrev pub content_or_none : Option StagedContent → Bool
content_or_none none = true
content_or_none (some c) = bounded_identifier c.hash max_compact_hash_bytes

abbrev pub valid_link : CallLink → Bool
valid_link l =
    bounded_identifier l.call_id max_call_id_bytes
    && bounded_identifier l.request_event_id max_event_id_bytes
    && artifact_or_none l.artifact

abbrev pub valid_pending : PendingResult → Bool
valid_pending p =
    bounded_identifier p.call_id max_call_id_bytes
    && bounded_identifier p.request_event_id max_event_id_bytes
    && (leb 1 p.rank && leb p.rank 2)
    && content_or_none p.output
    && artifact_or_none p.artifact

abbrev pub is_digest_byte : ℕ → Bool
is_digest_byte b =
    (leb b'0' b && leb b b'9')
    || (leb b'A' b && leb b b'Z')
    || (leb b'a' b && leb b b'z')
    || b == b'-'
    || b == b'_'

abbrev pub valid_continuation : Continuation → Bool
valid_continuation c =
    bounded_identifier c.record_hash max_record_hash_bytes
    && leb c.done c.of
    && bounded_identifier c.native_type max_native_type_bytes
    && bounded_identifier c.schema max_schema_bytes
    && not (length c.event_id == 0)
    && leb (length c.event_id) max_event_id_bytes
    && length c.digest == max_compact_hash_bytes
    && all is_digest_byte c.digest

abbrev pub continuation_or_none : Option Continuation → Bool
continuation_or_none none = true
continuation_or_none (some c) = valid_continuation c

abbrev pub valid_key : RankedKey → Bool
valid_key k = bounded_identifier k.key max_call_id_bytes && (leb 1 k.rank && leb k.rank 3)

abbrev pub valid_lifecycle : AgentLifecycle → Bool
valid_lifecycle a = opaque_graph_identifier a.agent_id

-- `CodexStateV1::validate`.
unfoldable pub validate : CodexStateV1 → Result DecodeError (Unit {0})
validate s = do
  refuse
      (ltb max_calls (length s.unresolved_calls + length s.pending_results)
        || ltb max_completed_keys (length s.completed_semantic_keys)
        || ltb max_agent_lifecycles (length s.agent_lifecycle))
      (malformed "invalid-codex-state-count")
  refuse (not (all valid_link s.unresolved_calls)) (malformed "invalid-codex-call-link")
  refuse (not (all valid_pending s.pending_results)) (malformed "invalid-codex-pending-result")
  refuse (not (all valid_key s.completed_semantic_keys)) (malformed "invalid-codex-ranked-key")
  refuse (not (all valid_lifecycle s.agent_lifecycle)) (malformed "invalid-codex-agent-lifecycle")
  refuse (not (continuation_or_none s.continuation)) (malformed "invalid-codex-continuation")
