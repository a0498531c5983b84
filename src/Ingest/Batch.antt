-- ===== src/Ingest/Batch.antt =====
-- crates/agbox-ingest/src/coordinator.rs: the batch that the coordinator builds for the store, and its measure, which
-- crates/agbox-store/src/writer.rs repeats. The lengths of the JSON texts and of a formatted time are
-- parameters, `none` where there is no text.
use agbox.Common.{
  ℕ, suc, ◌+◌, ◌-◌, ◌*◌, ◌^◌, Bool, true, false, not, ◌&&◌, ◌||◌, Option, none, some, List, [], ◌∷◌,
  ◌++◌, length, ltb, ◌==◌, if◌then◌else◌,
}
use agbox.Core.Base.{Text, Result, ok, err, ◌>>=◌, ◌>>◌, refuse, max_batch_semantic_bytes}
use agbox.Core.Strings.{bytes}
use agbox.Core.Privacy.{
  PrivacyLabel, restricted_local, private_local, derived_local, sync_eligible, DisclosureClass,
}
use agbox.Core.Content.{ContentRef}
use agbox.Core.Source.{SourceObservation}
use agbox.Core.Activity.{ActivityEventV1}
use agbox.Adapters.Decoder.{DecoderState}
use agbox.Workgraph.Correlate.{contains}
pub mod Builder
pub mod Sums
pub mod Measured
pub mod Kept
pub mod Finish
mod Tests

abbrev pub max_batch_bytes : ℕ
max_batch_bytes = max_batch_semantic_bytes

abbrev pub usize_max : ℕ
usize_max = 2 ^ 64 - 1

pub record CursorState : Type 0 where
  pub source_id : Text
  pub generation : ℕ
  pub offset : ℕ
  pub parser_state : Text

pub record EvidenceLink : Type 0 where
  pub event_id : Text
  pub observation_id : Text
  pub evidence_id : Text

pub data EvidenceOwner : Type 0 where
  event work : Text → EvidenceOwner

pub record EvidenceWrite : Type 0 where
  pub evidence_id : Text
  pub project_id : Text
  pub owner : EvidenceOwner
  pub content_hash : Text
  pub media_type : Text
  pub privacy : PrivacyLabel
  pub disclosure_class : DisclosureClass
  pub redacted_excerpt : Text
  pub expires_at : Option ℕ
  pub plaintext : Text

pub record ContentRefWrite : Type 0 where
  pub content_ref_id : Text
  pub project_id : Text
  pub content : ContentRef
  pub privacy : PrivacyLabel

pub record SchemaFingerprintUpdate : Type 0 where
  pub provider : Text
  pub format : Text
  pub fingerprint : Text
  pub observed_at : ℕ

pub record IngestionFault : Type 0 where
  pub fault_id : Text
  pub source_id : Text
  pub generation : ℕ
  pub byte_start : ℕ
  pub byte_end : ℕ
  pub class : Text
  pub bounded_detail : Text

pub record IngestionChunk : Type 0 where
  pub expected_cursor : CursorState
  pub next_cursor : CursorState
  pub observations : List SourceObservation
  pub events : List ActivityEventV1
  pub evidence : List EvidenceWrite
  pub evidence_links : List EvidenceLink
  pub content_refs : List ContentRefWrite
  pub fingerprints : List SchemaFingerprintUpdate
  pub faults : List IngestionFault

pub record Contribution : Type 0 where
  pub observation : SourceObservation
  pub events : List ActivityEventV1
  pub evidence : List EvidenceWrite
  pub evidence_links : List EvidenceLink
  pub content_refs : List ContentRefWrite
  pub fingerprint : Option SchemaFingerprintUpdate
  pub fault : Option IngestionFault
  pub next_cursor : CursorState
  pub next_state : DecoderState

-- `content_ids` is a set, whose order nothing observes.
pub record BatchBuilder : Type 0 where
  pub chunk : IngestionChunk
  pub state : DecoderState
  pub measured : ℕ
  pub record_count : ℕ
  pub content_ids : List Text

pub data BatchPush : Type 0 where
  accepted full_before_record : BatchPush

-- The errors that the builder meets: a text cannot be made, a sum overflows or differs, one record is too large.
pub data IngestError : Type 0 where
  store semantic_measurement_mismatch no_progress : IngestError

abbrev pub privacy_wire : PrivacyLabel → Text
privacy_wire restricted_local = bytes "restricted_local"
privacy_wire private_local = bytes "private_local"
privacy_wire derived_local = bytes "derived_local"
privacy_wire sync_eligible = bytes "sync_eligible"

abbrev pub disclosure_wire : DisclosureClass → Text
disclosure_wire DisclosureClass.human_intent = bytes "human_intent"
disclosure_wire DisclosureClass.agent_statement = bytes "agent_statement"
disclosure_wire DisclosureClass.observed_state = bytes "observed_state"
disclosure_wire DisclosureClass.tool_result = bytes "tool_result"
disclosure_wire DisclosureClass.reasoning = bytes "reasoning"
disclosure_wire DisclosureClass.system_instruction = bytes "system_instruction"
disclosure_wire DisclosureClass.developer_instruction = bytes "developer_instruction"
disclosure_wire DisclosureClass.derived_text = bytes "derived_text"

abbrev pub owner_kind : EvidenceOwner → Text
owner_kind (event id) = bytes "event"
owner_kind (work id) = bytes "work"

abbrev pub owner_id : EvidenceOwner → Text
owner_id (event id) = id
owner_id (work id) = id

-- The additions one by one, with the error of an overflow.
unfoldable pub add_lengths : IngestError → ℕ → List (Option ℕ) → Result IngestError ℕ
add_lengths overflow total [] = ok total
add_lengths overflow total (none ∷ lengths) = err store
add_lengths overflow total (some n ∷ lengths) =
    if ltb usize_max (total + n) then err overflow else add_lengths overflow (total + n) lengths

abbrev pub size : Text → Option ℕ
size text = some (length text)

-- The lengths that the JSON library and the formatter of times give.
pub record Texts : Type 0 where
  pub observation : SourceObservation → Option ℕ
  pub event_text : ActivityEventV1 → Option ℕ
  pub content : ContentRef → Option ℕ
  pub timestamp : ℕ → Option ℕ

abbrev pub flat : {A : Type 0} → (A → List (Option ℕ)) → List A → List (Option ℕ)
flat f [] = []
flat f (a ∷ entries) = f a ++ flat f entries

abbrev pub optional : {A : Type 0} → Option A → List A
optional none = []
optional (some a) = a ∷ []

abbrev pub link_lengths : EvidenceLink → List (Option ℕ)
link_lengths link = size link.event_id ∷ size link.observation_id ∷ size link.evidence_id ∷ []

abbrev pub fault_lengths : IngestionFault → List (Option ℕ)
fault_lengths fault =
    size fault.fault_id
    ∷ size fault.source_id
    ∷ size fault.class
    ∷ size fault.bounded_detail
    ∷ some (8 * 3)
    ∷ []

abbrev pub empty_chunk : CursorState → IngestionChunk
empty_chunk cursor = record {
  expected_cursor = cursor;
  next_cursor = cursor;
  observations = [];
  events = [];
  evidence = [];
  evidence_links = [];
  content_refs = [];
  fingerprints = [];
  faults = [];
}

module _ (texts : Texts) where
  abbrev pub observation_lengths : SourceObservation → List (Option ℕ)
  observation_lengths observation = texts.observation observation ∷ []

  abbrev pub event_lengths : ActivityEventV1 → List (Option ℕ)
  event_lengths e = texts.event_text e ∷ []

  abbrev pub expiry_lengths : Option ℕ → List (Option ℕ)
  expiry_lengths none = []
  expiry_lengths (some time) = texts.timestamp time ∷ []

  abbrev pub evidence_lengths : EvidenceWrite → List (Option ℕ)
  evidence_lengths item =
      (size item.evidence_id
        ∷ size item.project_id
        ∷ size (owner_kind item.owner)
        ∷ size (owner_id item.owner)
        ∷ size item.content_hash
        ∷ size item.media_type
        ∷ size (privacy_wire item.privacy)
        ∷ size (disclosure_wire item.disclosure_class)
        ∷ size item.redacted_excerpt
        ∷ some 1
        ∷ [])
      ++ (expiry_lengths item.expires_at ++ (size item.plaintext ∷ []))

  abbrev pub content_lengths : ContentRefWrite → List (Option ℕ)
  content_lengths item =
      size item.content_ref_id
      ∷ size item.project_id
      ∷ texts.content item.content
      ∷ size (privacy_wire item.privacy)
      ∷ []

  abbrev pub fingerprint_lengths : SchemaFingerprintUpdate → List (Option ℕ)
  fingerprint_lengths item =
      size item.provider
      ∷ size item.format
      ∷ size item.fingerprint
      ∷ texts.timestamp item.observed_at
      ∷ []

  -- `IngestionChunk::measured_semantic_bytes`.
  unfoldable pub measured_semantic_bytes : IngestionChunk → Result IngestError ℕ
  measured_semantic_bytes c = add_lengths store 0 (
      size c.expected_cursor.source_id
      ∷ size c.expected_cursor.parser_state
      ∷ size c.next_cursor.source_id
      ∷ size c.next_cursor.parser_state
      ∷ some (8 * 4)
      ∷ (flat observation_lengths c.observations
          ++ (flat event_lengths c.events
              ++ (flat evidence_lengths c.evidence
                  ++ (flat link_lengths c.evidence_links
                      ++ (flat content_lengths c.content_refs
                          ++ (flat fingerprint_lengths c.fingerprints
                              ++ flat fault_lengths c.faults)))))))

  -- `Contribution::semantic_bytes`, which starts with the observation.
  unfoldable pub semantic_bytes : Contribution → Result IngestError ℕ
  semantic_bytes c = add_lengths semantic_measurement_mismatch 0 (
      flat observation_lengths (c.observation ∷ [])
      ++ (flat event_lengths c.events
          ++ (flat evidence_lengths c.evidence
              ++ (flat link_lengths c.evidence_links
                  ++ (flat content_lengths c.content_refs
                      ++ (flat fingerprint_lengths (optional c.fingerprint)
                          ++ flat fault_lengths (optional c.fault)))))))

  unfoldable pub new : CursorState → DecoderState → Result IngestError BatchBuilder
  new expected_cursor state =
      let chunk : IngestionChunk = empty_chunk expected_cursor in
      measured_semantic_bytes chunk >>= λ measured. ok (record {
        chunk = chunk;
        state = state;
        measured = measured;
        record_count = 0;
        content_ids = [];
      })
