-- ===== src/Core/Source.antt =====
-- crates/agbox-core/src/source.rs: where an event was read.
use agbox.Common.{ℕ, Option, none, some, ltb, length}
use Prim.Native.String.{String}
use agbox.Core.Base.{Text, Result, ok, ◌>>◌, refuse, map_err, max_inline_bytes}
use agbox.Core.Content.{ContentRef, ContentError}
use agbox.Core.Content

pub data Provider : Type 0 where
  claude codex : Provider

pub record ByteRange : Type 0 where
  pub start : ℕ
  pub end : ℕ

pub data SourceError : Type 0 where
  invalid_range : SourceError
  text_too_large : String → SourceError
  invalid_content : ContentError → SourceError

pub record SourceRef : Type 0 where
  pub provider : Provider
  pub format : Text
  pub native_session_id : Text
  pub native_record_type : Text
  pub native_record_id : Option Text
  pub source_generation : ℕ
  pub byte_offset : ℕ
  pub ordinal : Option ℕ
  pub record_hash : Text
  pub decoder_version : Text

unfoldable pub validate_source_text : String → Text → Result SourceError (Unit {0})
validate_source_text field value =
    refuse (ltb max_inline_bytes (length value)) (text_too_large field)

abbrev optional_source_text : String → Option Text → Result SourceError (Unit {0})
optional_source_text field none = ok tt
optional_source_text field (some value) = validate_source_text field value

unfoldable pub validate : SourceRef → Result SourceError (Unit {0})
unfolding validate_source_text
validate s = do
  validate_source_text "format" s.format
  validate_source_text "native_session_id" s.native_session_id
  validate_source_text "native_record_type" s.native_record_type
  optional_source_text "native_record_id" s.native_record_id
  validate_source_text "record_hash" s.record_hash
  validate_source_text "decoder_version" s.decoder_version

unfoldable pub validate_range : ByteRange → Result SourceError (Unit {0})
validate_range r = refuse (ltb r.end r.start) invalid_range

pub data DecodeStatus : Type 0 where
  known unknown_type malformed oversized : DecodeStatus

pub record SourceObservation : Type 0 where
  pub observation_id : Text
  pub source : SourceRef
  pub range : ByteRange
  pub observed_at : ℕ
  pub status : DecodeStatus
  pub bounded_record : Option ContentRef
  pub schema_fingerprint : Text

abbrev optional_content : Option ContentRef → Result SourceError (Unit {0})
optional_content none = ok tt
optional_content (some content) = map_err invalid_content (Content.validate content)

unfoldable pub validate_observation : SourceObservation → Result SourceError (Unit {0})
unfolding validate_source_text validate validate_range
validate_observation o = do
  validate_source_text "observation_id" o.observation_id
  validate_source_text "schema_fingerprint" o.schema_fingerprint
  validate o.source
  validate_range o.range
  optional_content o.bounded_record
