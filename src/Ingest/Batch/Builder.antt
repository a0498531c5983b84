-- ===== src/Ingest/Batch/Builder.antt =====
-- The operations of `BatchBuilder`. A decoded record comes as the contribution that is made of it. The hash of
-- a fault's identifier is a parameter.
use agbox.Common.{
  ℕ, suc, ◌+◌, ◌-◌, ◌*◌, Bool, not, ◌&&◌, ◌||◌, none, some, List, [], ◌∷◌, ◌++◌, length, ltb, ◌==◌,
  if◌then◌else◌, take,
}
use agbox.Core.Base.{Text, Result, ok, err, map_err, same_text, ◌>>=◌, ◌>>◌}
use agbox.Core.Strings.{bytes, le_bytes}
use agbox.Core.Source.{
  Provider, SourceObservation, DecodeStatus, SourceError, validate_range, validate_observation,
}
use agbox.Core.Source
use agbox.Workgraph.Correlate.{contains}
use agbox.Ingest.Batch.{
  CursorState, ContentRefWrite, IngestionFault, IngestionChunk, Contribution, BatchBuilder,
  BatchPush, accepted, full_before_record, IngestError, semantic_measurement_mismatch, no_progress,
  add_lengths, size, optional, Texts, measured_semantic_bytes, semantic_bytes, max_batch_bytes,
  usize_max,
}

unfoldable pub cursor_semantic_bytes : CursorState → Result IngestError ℕ
cursor_semantic_bytes cursor =
    add_lengths semantic_measurement_mismatch (length cursor.source_id)
      (size cursor.parser_state ∷ some (8 * 2) ∷ [])

-- `candidate_ids` are the identifiers seen so far.
abbrev pub retain_new : List Text → List Text → List ContentRefWrite → List ContentRefWrite
retain_new known candidate_ids [] = []
retain_new known candidate_ids (content ∷ contents) =
    let fresh = retain_new known (content.content_ref_id ∷ candidate_ids) contents in
    let rest = retain_new known candidate_ids contents in
    if not (contains content.content_ref_id known)
      && not (contains content.content_ref_id candidate_ids)
    then content ∷ fresh
    else rest

unfoldable pub retain_new_content_refs : BatchBuilder → Contribution → Contribution
retain_new_content_refs b c = record c { content_refs = retain_new b.content_ids [] c.content_refs }

-- The contents that are pushed, and the identifiers.
abbrev pub push_contents :
    List Text → List ContentRefWrite → List ContentRefWrite → List Text × List ContentRefWrite
push_contents ids contents [] = (ids, contents)
push_contents ids contents (content ∷ more) =
    let fresh = push_contents (content.content_ref_id ∷ ids) (contents ++ (content ∷ [])) more in
    let rest = push_contents ids contents more in
    if contains content.content_ref_id ids then rest else fresh

unfoldable pub accept : BatchBuilder → Contribution → ℕ → BatchBuilder
accept b c candidate =
    let pushed : List Text × List ContentRefWrite =
      push_contents b.content_ids b.chunk.content_refs c.content_refs in
    record {
      chunk = record b.chunk {
        observations = b.chunk.observations ++ (c.observation ∷ []);
        events = b.chunk.events ++ c.events;
        evidence = b.chunk.evidence ++ c.evidence;
        evidence_links = b.chunk.evidence_links ++ c.evidence_links;
        content_refs = pushed.1;
        fingerprints = b.chunk.fingerprints ++ optional c.fingerprint;
        faults = b.chunk.faults ++ optional c.fault;
        next_cursor = c.next_cursor;
      };
      state = c.next_state;
      measured = candidate;
      record_count = suc b.record_count;
      content_ids = pushed.0;
    }

abbrev pub candidate_over_limit : ℕ → Bool
candidate_over_limit candidate = ltb max_batch_bytes candidate

-- `checked_sub`, then the two `checked_add`.
abbrev pub replaced_bytes : ℕ → ℕ → ℕ → ℕ → Result IngestError ℕ
replaced_bytes measured old_next new_next added =
    if ltb measured old_next
      || (ltb usize_max (measured - old_next + new_next)
          || ltb usize_max (measured - old_next + new_next + added))
    then err semantic_measurement_mismatch
    else ok (measured - old_next + new_next + added)

abbrev pub finished_chunk : BatchBuilder → IngestionChunk
finished_chunk b = record b.chunk {
  next_cursor = record b.chunk.next_cursor { parser_state = b.state.bytes };
}

abbrev pub Pushed : Type 0
Pushed = Result IngestError (BatchBuilder × BatchPush)

abbrev pub oversized_status : DecodeStatus
oversized_status = DecodeStatus.oversized

abbrev pub malformed_status : DecodeStatus
malformed_status = DecodeStatus.malformed

abbrev pub refused : SourceError → IngestError
refused e = no_progress

abbrev pub decide_fault : BatchBuilder → Contribution → ℕ → Pushed
decide_fault b c candidate =
    if ltb max_batch_bytes candidate
    then (if b.record_count == 0 then err no_progress else ok (b, full_before_record))
    else ok (accept b c candidate, accepted)

module _ (texts : Texts) where
  unfoldable pub candidate_bytes : BatchBuilder → Contribution → Result IngestError ℕ
  unfolding cursor_semantic_bytes
  candidate_bytes b c = do
    old_next ← cursor_semantic_bytes b.chunk.next_cursor
    new_next ← cursor_semantic_bytes c.next_cursor
    added ← semantic_bytes texts c
    replaced_bytes b.measured old_next new_next added

  unfoldable pub finish : BatchBuilder → Result IngestError IngestionChunk
  finish b = measured_semantic_bytes texts (finished_chunk b) >>= λ authoritative.
      if authoritative == b.measured
      then ok (finished_chunk b)
      else err semantic_measurement_mismatch

module _ (hash : Text → Text) where
  unfoldable pub stable_fault_id : Text → ℕ → ℕ → ℕ → Text → Text
  stable_fault_id source_id generation start end class =
      bytes "fault_"
      ++ take 32 (
          hash (
            bytes "agbox.ingestion.fault.v1"
            ++ (source_id
                ++ (le_bytes 8 generation ++ (le_bytes 8 start ++ (le_bytes 8 end ++ class))))))

  abbrev pub fault_of : CursorState → ℕ → ℕ → Text → IngestionFault
  fault_of expected start end class = record {
    fault_id = stable_fault_id expected.source_id expected.generation start end class;
    source_id = expected.source_id;
    generation = expected.generation;
    byte_start = start;
    byte_end = end;
    class = class;
    bounded_detail = bytes "record rejected by bounded decoder";
  }

  -- The contribution that stands for a record that is too large.
  unfoldable pub oversized : BatchBuilder → Contribution → Contribution
  unfolding stable_fault_id
  oversized b c =
      let expected : CursorState = b.chunk.expected_cursor in
      let start : ℕ = c.observation.range.start in
      let end : ℕ = c.observation.range.end in
      record {
        observation = c.observation;
        events = [];
        evidence = [];
        evidence_links = [];
        content_refs = [];
        fingerprint = c.fingerprint;
        fault = some (fault_of expected start end (bytes "oversized"));
        next_cursor = record {
          source_id = expected.source_id;
          generation = expected.generation;
          offset = c.next_cursor.offset;
          parser_state = b.state.bytes;
        };
        next_state = b.state;
      }

  abbrev pub synthetic_observation :
      CursorState → ℕ → ℕ → Text → Text → ℕ → Provider → SourceObservation
  synthetic_observation cursor start end class format observed_at provider = record {
    observation_id = stable_fault_id cursor.source_id cursor.generation start end (bytes "obs");
    source = record {
      provider = provider;
      format = format;
      native_session_id = bytes "rejected-record";
      native_record_type = class;
      native_record_id = none;
      source_generation = cursor.generation;
      byte_offset = start;
      ordinal = none;
      record_hash = stable_fault_id cursor.source_id cursor.generation start end class;
      decoder_version = bytes "coordinator-v1";
    };
    range = record { start = start; end = end };
    observed_at = observed_at;
    status = if same_text class (bytes "oversized") then oversized_status else malformed_status;
    bounded_record = none;
    schema_fingerprint = bytes "rejected-record";
  }

  -- Of the context, the format and the time are read.
  unfoldable pub synthetic_fault_observation :
      CursorState → ℕ → ℕ → Text → Text → ℕ → Provider → Result IngestError SourceObservation
  unfolding stable_fault_id
  synthetic_fault_observation cursor start end class format observed_at provider =
      let observation = synthetic_observation cursor start end class format observed_at provider in
      do
        map_err refused (Source.validate observation.source)
        map_err refused (validate_range observation.range)
        map_err refused (validate_observation observation)
        ok observation

  -- The contribution that stands for a record that the decoder rejected.
  unfoldable pub fault_contribution :
      BatchBuilder → SourceObservation → ℕ → ℕ → ℕ → Text → Contribution
  unfolding stable_fault_id
  fault_contribution b observation start end next_offset class = record {
    observation = observation;
    events = [];
    evidence = [];
    evidence_links = [];
    content_refs = [];
    fingerprint = none;
    fault = some (fault_of b.chunk.expected_cursor start end class);
    next_cursor = record b.chunk.next_cursor { offset = next_offset };
    next_state = b.state;
  }

module _ (texts : Texts) (hash : Text → Text) where
  unfoldable pub try_push_oversized : BatchBuilder → Contribution → Pushed
  unfolding candidate_bytes
  try_push_oversized b c =
      let small = oversized hash b c in
      candidate_bytes texts b small >>= λ candidate.
      if candidate_over_limit candidate
      then err no_progress
      else ok (accept b small candidate, accepted)

  abbrev pub decide : BatchBuilder → Contribution → ℕ → Pushed
  decide b c candidate =
      if candidate_over_limit candidate && not (b.record_count == 0)
      then ok (b, full_before_record)
      else if candidate_over_limit candidate
      then try_push_oversized b c
      else ok (accept b c candidate, accepted)

  unfoldable pub try_push : BatchBuilder → Contribution → Pushed
  unfolding candidate_bytes try_push_oversized
  try_push b c =
      let contribution = retain_new_content_refs b c in
      candidate_bytes texts b contribution >>= decide b contribution

  unfoldable pub try_push_fault : BatchBuilder → ℕ → ℕ → ℕ → Text → Text → ℕ → Provider → Pushed
  unfolding candidate_bytes synthetic_fault_observation
  try_push_fault b start end next_offset class format observed_at provider = do
    observation ←
        synthetic_fault_observation hash b.chunk.expected_cursor start end class format observed_at
          provider
    candidate ←
        candidate_bytes texts b (fault_contribution hash b observation start end next_offset class)
    decide_fault b (fault_contribution hash b observation start end next_offset class) candidate
