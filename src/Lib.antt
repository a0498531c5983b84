-- ===== src/Lib.antt =====
-- A model of agbox, which reads the transcripts of coding agents, turns them into immutable events and
-- keeps a graph of the work and contracts for handing it over.
--
-- The parts and how they interact:
--
-- * crates/agbox-core holds the values that every other part exchanges. Core/Privacy has labels,
--   authorities and disclosure classes (privacy.rs); Core/Content `ContentRef::bounded` and `validate`
--   (content.rs); Core/Source `SourceRef`, `ByteRange` and `SourceObservation` (source.rs); Core/Activity
--   `ActivityEventV1` and `EventPayload` (activity.rs); Core/Work `WorkAssertion` and `WorkEdge`, and
--   Core/Contract `WorkContractRevision` (work.rs); Core/Base the limits (limits.rs). Where a module holds
--   several types of one file, the methods `validate` and `new` carry the type in their name, such as
--   `validate_payload` or `new_assertion`. Core/Strings and Core/Ordered are the operations of
--   Rust's strings and of `BTreeMap<String, V>` that the code calls.
-- * crates/agbox-ingest reads the files. Ingest/Queue is queue.rs: `KeyedQueue` coalesces signals about
--   sources by key, hands them out by priority and takes leases back; a state is a `KeyedQueue`, an
--   operation a function of the same name, and a history is a list of `Call`. Ingest/Record is record.rs:
--   `RecordScanner` cuts a growing file into the windows of complete records and `WindowReader` reads a
--   window again and compares its hash. Ingest/Batch is the `BatchBuilder` of coordinator.rs, which collects
--   records for the store and measures them, with `IngestionChunk::measured_semantic_bytes` of
--   crates/agbox-store/src/writer.rs, the measure that the store takes of the whole. A decoded record comes as its
--   contribution.
-- * crates/agbox-workgraph reduces committed events. Workgraph/Reducer is reducer.rs,
--   Workgraph/Correlate is correlate.rs, and Workgraph/Authority is authority.rs with the shapes of
--   proposals in semantic.rs. Workgraph/Contract is contract.rs: `ProvisionalContractBuilder::build` makes the
--   next revision of a contract from the reducer's facts. Contract/Facts reads the facts, Contract/Actions keeps what
--   they say of each action, Contract/Draft has the texts and the evidence, Contract/Status the status and
--   Contract/Build the builder. Workgraph/Intent is the reducer and the builder together.
-- * crates/agbox-adapters decodes the records of the agents. Adapters/Codex and Adapters/Claude are codex/state.rs and
--   claude/state.rs, the bounded states that the decoders keep between records: the operations have the
--   names of the methods and return the state, changed in part where they fail, with their result.
--   Adapters/Decoder has the errors and the `DecoderState` of adapter.rs.
-- * crates/agbox-cli/src/tui/app.rs is the state of the terminal: Cli/App has the state and what it shows,
--   Cli/App/Update `App::update`, by which a message gives a new state with an effect or an error, and
--   `App::retry_effect`; Cli/App/Delay and Cli/App/Retry are about the retries that it asks for. The refresh that the
--   loop of tui/mod.rs makes itself on the key `r` is not a part of this state.
--
-- How the code is modelled. Numbers are ℕ; where the code adds with a check or saturates, the bound of 64 or 16
-- bits is written out, and numbers are not bounded otherwise. A text is the list of its bytes, and so is an
-- identifier. Errors are values of `Result` or of a result type of the module. A `HashMap` and a `BTreeMap` whose
-- order nothing observes are association lists with one entry for each key; a set or a map whose order is
-- seen is a sorted list.
--
-- Parameters: the calls of the operating system and the hash in Ingest/Record, whose failures are
-- those that the scanner can meet; the length of a value's JSON text in Core/Contract and
-- Workgraph/Reducer, and the JSON writer and reader in Adapters, `none` where a value cannot be
-- written or read; and the hash, the JSON writer, the redaction and the random identifier that
-- Workgraph/Contract calls, in the record `Services`, and the hash and the lengths of JSON texts and times
-- (`Texts`) in Ingest/Batch.
--
-- Fuel: only the loop of `RecordScanner::scan_next` has it, one round more than there are bytes up to the
-- target, since each round that goes on takes a byte. All other loops recur on a list. The loops that
-- evict entries until a state fits recur on the queues that they empty, so they need none.
--
-- Not modelled: accessors, Debug output and serde; the scan of the redaction policy (privacy.rs); the
-- decoders of crates/agbox-adapters themselves, which walk values of the JSON library; the store, the
-- service, the rest of the command line, the rest of the coordinator, and the watcher, discovery and spool of
-- crates/agbox-ingest, which call SQLite, sockets, files and threads; the refinement of semantic.rs.
pub mod Adapters
pub mod Cli
pub mod Common
pub mod Core
pub mod Ingest
pub mod Workgraph
