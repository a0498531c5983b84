-- ===== src/Core/Content.antt =====
-- crates/agbox-core/src/content.rs: a bounded reference to content, with an excerpt at most.
use agbox.Common.{
  ℕ, Bool, true, false, ◌||◌, ◌&&◌, not, Option, none, some, ltb, length, if◌then◌else◌, ◌==◌,
}
use mathlib.Core.Option
use agbox.Core.Base.{
  Text, Result, ok, err, ◌>>=◌, ◌>>◌, refuse, max_inline_bytes, max_preview_bytes,
}
use agbox.Core.Privacy.{DisclosureClass, RedactedText, is_transferable, same_class}
pub mod Bounded

pub data LocalLocator : Type 0 where
  evidence : Text → LocalLocator
  -- The source, its generation, and the range of bytes.
  source_range : Text → ℕ → ℕ → ℕ → LocalLocator

pub record ContentRef : Type 0 where
  pub hash : Text
  pub byte_length : ℕ
  pub media_type : Text
  pub local_locator : Option LocalLocator
  pub redacted_excerpt : Option Text
  pub truncated : Bool
  pub disclosure_class : DisclosureClass

pub data ContentError : Type 0 where
  metadata_too_large invalid_range preview_too_large excerpt_input_too_large invalid_truncation
        forbidden_disclosure disclosure_mismatch :
      ContentError

-- The range is out of order, or its source's name is too long.
abbrev pub invalid_locator : Option LocalLocator → Bool
invalid_locator none = false
invalid_locator (some (evidence _)) = false
invalid_locator (some (source_range source_id generation byte_start byte_end)) =
    ltb 128 (length source_id) || ltb byte_end byte_start

abbrev pub excerpt_too_large : Option Text → Bool
excerpt_too_large none = false
excerpt_too_large (some excerpt) = ltb max_preview_bytes (length excerpt)

abbrev pub excerpt_mismatch : DisclosureClass → Option RedactedText → Bool
excerpt_mismatch class none = false
excerpt_mismatch class (some excerpt) = not (same_class excerpt.disclosure_class class)

abbrev pub same_flag : Bool → Bool → Bool
same_flag true b = b
same_flag false b = not b

unfoldable pub validate : ContentRef → Result ContentError (Unit {0})
validate c = do
  refuse (ltb 128 (length c.hash) || ltb 128 (length c.media_type)) metadata_too_large
  refuse (excerpt_too_large c.redacted_excerpt) preview_too_large
  refuse (invalid_locator c.local_locator) invalid_range
  refuse (not (same_flag c.truncated (ltb max_inline_bytes c.byte_length))) invalid_truncation
  refuse (not (is_transferable c.disclosure_class)) forbidden_disclosure
  ok tt

-- The reference that `bounded` builds before it validates it.
abbrev pub content_of :
    Text → ℕ → Text → Option LocalLocator → DisclosureClass → Option RedactedText → ContentRef
content_of hash byte_length media_type local_locator disclosure_class redacted_excerpt = record {
  hash = hash;
  byte_length = byte_length;
  media_type = media_type;
  local_locator = local_locator;
  redacted_excerpt = Option.map (λ (r : RedactedText). r.value) redacted_excerpt;
  truncated = ltb max_inline_bytes byte_length;
  disclosure_class = disclosure_class;
}

unfoldable pub bounded :
    Text
    → ℕ
    → Text
    → Option LocalLocator
    → DisclosureClass
    → Option RedactedText
    → Result ContentError ContentRef
unfolding validate
bounded hash byte_length media_type local_locator disclosure_class redacted_excerpt =
    let content =
      content_of hash byte_length media_type local_locator disclosure_class redacted_excerpt in
    do
      refuse (ltb 128 (length hash) || ltb 128 (length media_type) || invalid_locator local_locator)
          (if invalid_locator local_locator then invalid_range else metadata_too_large)
      refuse (not (is_transferable disclosure_class)) forbidden_disclosure
      refuse (excerpt_mismatch disclosure_class redacted_excerpt) disclosure_mismatch
      validate content
      ok content
