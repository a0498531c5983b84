-- ===== src/Ingest/Batch/Tests.antt =====
-- A batch with one record.
use agbox.Common.{◌≡◌, ◌≤◌, ◌⊎◌, refl, none, some, [], ◌∷◌, ℕ_discrete}
use agbox.Core.Base.{Text, Text-discrete, ok}
use agbox.Core.Strings.{bytes}
use agbox.Core.Privacy.{derived_local, DisclosureClass}
use agbox.Core.Source.{known}
use agbox.Workgraph.Reducer.Tests.{source, id, content}
use agbox.Adapters.Decoder.{DecoderState}
use agbox.Ingest.Batch.{
  CursorState, ContentRefWrite, Contribution, BatchBuilder, accepted, Texts, new, empty_chunk,
  measured_semantic_bytes, add_lengths, max_batch_bytes, semantic_bytes,
}
use agbox.Ingest.Batch.Builder.{
  accept, candidate_bytes, cursor_semantic_bytes, try_push, finish, retain_new_content_refs,
}
use agbox.Ingest.Batch.Finish.{starts, pushes, Reached-finish}

-- Every text has ten bytes.
abbrev texts : Texts
texts = record {
  observation = λ o. some 10;
  event_text = λ e. some 10;
  content = λ c. some 10;
  timestamp = λ t. some 10;
}

abbrev same : Text → Text
same text = text

abbrev cursor : CursorState
cursor = record { source_id = bytes "s"; generation = 1; offset = 0; parser_state = [] }

abbrev nothing_yet : DecoderState
nothing_yet = record { bytes = [] }

abbrev start : BatchBuilder
start = record {
  chunk = empty_chunk cursor;
  state = nothing_yet;
  measured = 34;
  record_count = 0;
  content_ids = [];
}

abbrev stored : ContentRefWrite
stored = record {
  content_ref_id = bytes "c1";
  project_id = bytes "p";
  content = content DisclosureClass.agent_statement;
  privacy = derived_local;
}

-- The content comes twice and is kept once.
abbrev one : Contribution
one = record {
  observation = record {
    observation_id = id;
    source = source;
    range = record { start = 0; end = 5 };
    observed_at = 1;
    status = known;
    bounded_record = none;
    schema_fingerprint = id;
  };
  events = [];
  evidence = [];
  evidence_links = [];
  content_refs = stored ∷ stored ∷ [];
  fingerprint = none;
  fault = none;
  next_cursor = record cursor { offset = 6; parser_state = bytes "x" };
  next_state = record { bytes = bytes "x" };
}

abbrev pushed : BatchBuilder
pushed = accept start (retain_new_content_refs start one) 71

starts_at : new texts cursor nothing_yet ≡ ok start
unfolding new measured_semantic_bytes add_lengths
starts_at = refl

pushes_one : try_push texts same start one ≡ ok (pushed, accepted)
unfolding try_push candidate_bytes cursor_semantic_bytes semantic_bytes add_lengths accept
    retain_new_content_refs Text-discrete ℕ_discrete
pushes_one = refl

Reached-finish_example :
    (finish texts pushed ≡ ok pushed.chunk)
    × (measured_semantic_bytes texts pushed.chunk ≡ ok pushed.measured)
    × ((pushed.record_count ≡ 0) ⊎ (pushed.measured ≤ max_batch_bytes))
Reached-finish_example = Reached-finish texts same pushed (
    pushes start one pushed accepted (starts cursor nothing_yet start refl starts_at) refl
      pushes_one)
