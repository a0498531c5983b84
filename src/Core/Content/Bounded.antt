-- ===== src/Core/Content/Bounded.antt =====
-- What `ContentRef::bounded` accepts, and what it builds.
use agbox.Common.{
  ℕ, Bool, Option-cases, inl, inr, sym, ap, ltb, ◌≡◌, ◌≤◌, ◌↔◌, refl, true, false, Option, none,
  some, length, arith,
}
use mathlib.Core.Option
use agbox.Core.Base.{Text, Result, ok, max_inline_bytes, max_preview_bytes}
use agbox.Core.Privacy.{
  DisclosureClass, RedactedText, is_transferable, same_class-eq, same_class_self,
}
use agbox.Core.Content.{
  ContentError, same_flag, ContentRef, LocalLocator, evidence, source_range, bounded, validate,
  content_of, excerpt_mismatch, excerpt_too_large, invalid_locator,
}

abbrev RangeFits : Option LocalLocator → Type 0
RangeFits none = Unit
RangeFits (some (evidence _)) = Unit
RangeFits (some (source_range source_id generation byte_start byte_end)) =
    (length source_id ≤ 128) × (byte_start ≤ byte_end)

abbrev ExcerptFits : DisclosureClass → Option RedactedText → Type 0
ExcerptFits class none = Unit
ExcerptFits class (some excerpt) =
    (excerpt.disclosure_class ≡ class) × (length excerpt.value ≤ max_preview_bytes)

-- What may become a reference to content.
pub record Fits (hash media_type : Text) (locator : Option LocalLocator) (class : DisclosureClass)
    (excerpt : Option RedactedText) : Type 0 where
  pub hash_fits : length hash ≤ 128
  pub media_type_fits : length media_type ≤ 128
  pub range_fits : RangeFits locator
  pub transferable : is_transferable class ≡ true
  pub excerpt_fits : ExcerptFits class excerpt

abbrev value_of : Option RedactedText → Option Text
value_of = Option.map (λ (r : RedactedText). r.value)

ExcerptFits-tests :
    (class : DisclosureClass) (excerpt : Option RedactedText)
    → ExcerptFits class excerpt
      ↔ ((excerpt_mismatch class excerpt ≡ false) × (excerpt_too_large (value_of excerpt) ≡ false))
ExcerptFits-tests class none = (λ _. (refl, refl), λ _. tt)
ExcerptFits-tests class (some e) = (
  λ h. (ground (arith, same_class_self class), ground arith),
  λ h. (same_class-eq e.disclosure_class class (ground arith), ground arith),
)

RangeFits-test :
    (locator : Option LocalLocator) → RangeFits locator ↔ (invalid_locator locator ≡ false)
RangeFits-test none = (λ _. refl, λ _. tt)
RangeFits-test (some (evidence _)) = (λ _. refl, λ _. tt)
RangeFits-test (some (source_range s g a b)) =
    (λ h. ground arith, λ h. (ground arith, ground arith))

-- `bounded` succeeds exactly on texts of at most 128 bytes, a range in order, a class that may be
-- transferred and an excerpt of that class within the preview, and then holds its arguments,
-- marked as truncated exactly if the content is longer than what may stand inline.
pub bounded-eq-ok :
    (hash : Text) (byte_length : ℕ) (media_type : Text) (locator : Option LocalLocator)
    (class : DisclosureClass) (excerpt : Option RedactedText) (c : ContentRef)
    → (bounded hash byte_length media_type locator class excerpt ≡ ok c) ↔ (
        Fits hash media_type locator class excerpt
        × (c ≡ content_of hash byte_length media_type locator class excerpt))
unfolding bounded
bounded-eq-ok hash n media_type locator class excerpt c = (
  λ h. (
    record {
      hash_fits = ground arith;
      media_type_fits = ground arith;
      range_fits = (RangeFits-test locator).1 (ground arith);
      transferable = ground arith;
      excerpt_fits = (ExcerptFits-tests class excerpt).1 (ground arith, ground arith);
    },
    ground arith,
  ),
  λ (f, e). ground (
    arith,
    (RangeFits-test locator).0 f.range_fits,
    (ExcerptFits-tests class excerpt).0 f.excerpt_fits,
  ),
)

-- The excerpt of a reference as redacted text of the reference's class.
abbrev pub excerpt_of : ContentRef → Option RedactedText
excerpt_of c =
    Option.map
      (λ (value : Text). record {
        value = value;
        redactions = 0;
        disclosure_class = c.disclosure_class;
      })
      c.redacted_excerpt

-- `bounded` on the parts of a reference.
abbrev pub rebuilt : ContentRef → Result ContentError ContentRef
rebuilt c =
    bounded c.hash c.byte_length c.media_type c.local_locator c.disclosure_class (excerpt_of c)

excerpt_of-value : (c : ContentRef) → value_of (excerpt_of c) ≡ c.redacted_excerpt
excerpt_of-value c = elim (Option-cases c.redacted_excerpt) [
  | inl e ↦ ground arith
  | inr (x, e) ↦ ground arith
]

same_flag-eq : (a b : Bool) → (a ≡ b) ↔ (same_flag a b ≡ true)
same_flag-eq true b = (λ h. ground arith, λ h. ground arith)
same_flag-eq false b = (λ h. ground arith, λ h. ground arith)

excerpt_of-match : (c : ContentRef) → excerpt_mismatch c.disclosure_class (excerpt_of c) ≡ false
excerpt_of-match c = elim (Option-cases c.redacted_excerpt) [
  | inl e ↦ ground arith
  | inr (x, e) ↦ ground (arith, same_class_self c.disclosure_class)
]

content_of-eq :
    (c : ContentRef)
    → c.truncated ≡ ltb max_inline_bytes c.byte_length
    → c
      ≡ content_of c.hash c.byte_length c.media_type c.local_locator c.disclosure_class
          (excerpt_of c)
content_of-eq c e = rw (excerpt_of-value c) (rw (sym e) refl)

validate-Fits :
    (c : ContentRef)
    → (validate c ≡ ok tt) ↔ (
        Fits c.hash c.media_type c.local_locator c.disclosure_class (excerpt_of c)
        × (c.truncated ≡ ltb max_inline_bytes c.byte_length))
unfolding validate
validate-Fits c = (
  λ h. (
    record {
      hash_fits = ground arith;
      media_type_fits = ground arith;
      range_fits = (RangeFits-test c.local_locator).1 (ground arith);
      transferable = ground arith;
      excerpt_fits =
          (ExcerptFits-tests c.disclosure_class (excerpt_of c)).1
            (excerpt_of-match c, ground (arith, excerpt_of-value c));
    },
    (same_flag-eq c.truncated (ltb max_inline_bytes c.byte_length)).1 (ground arith),
  ),
  λ (f, e). ground (
    arith,
    (same_flag-eq c.truncated (ltb max_inline_bytes c.byte_length)).0 e,
    excerpt_of-value c,
    (RangeFits-test c.local_locator).0 f.range_fits,
    (ExcerptFits-tests c.disclosure_class (excerpt_of c)).0 f.excerpt_fits,
  ),
)

-- `validate`, which the store asks again before it writes, accepts a reference, wherever it comes
-- from, exactly if its parts fit and `bounded` on these parts builds that very reference.
pub validate-rebuilt :
    (c : ContentRef)
    → (validate c ≡ ok tt) ↔ (
        Fits c.hash c.media_type c.local_locator c.disclosure_class (excerpt_of c)
        × (rebuilt c ≡ ok c))
validate-rebuilt c =
    let built =
      bounded-eq-ok c.hash c.byte_length c.media_type c.local_locator c.disclosure_class
        (excerpt_of c) c in
    (
      λ h. (
        ((validate-Fits c).0 h).0,
        built.1 (((validate-Fits c).0 h).0, content_of-eq c ((validate-Fits c).0 h).1),
      ),
      λ (f, e). (validate-Fits c).1 (f, ap (λ (d : ContentRef). d.truncated) (built.0 e).1),
    )
