-- ===== src/Ingest/Queue/Key.antt =====
-- crates/agbox-ingest/src/queue.rs: `SourceKey`, the validated identity of a source generation.
-- A text is the list of its bytes.
use agbox.Common.{
  ℕ, ◌^◌, ◌-◌, Bool, false, ◌&&◌, ◌||◌, not, Option, none, some, List, [], ◌∷◌, if◌then◌else◌, leb,
  ltb, ◌==◌, length, all, ℕ_discrete,
}

pub record SourceKey : Type 0 where
  pub source_id : List ℕ
  pub generation : ℕ

unfoldable pub SourceKey-discrete : Discrete SourceKey
SourceKey-discrete = hlevel ℕ_discrete

pub data SourceKeyError : Type 0 where
  invalid_source_id invalid_generation : SourceKeyError

pub data KeyResult : Type 0 where
  ok : SourceKey → KeyResult
  err : SourceKeyError → KeyResult

-- The digits 0 to 9 and a to f.
abbrev pub is_lower_hex : ℕ → Bool
is_lower_hex b = (leb b'0' b && leb b b'9') || (leb b'a' b && leb b b'f')

-- The bytes of `source_`.
abbrev pub source_prefix : List ℕ
source_prefix = b's' ∷ b'o' ∷ b'u' ∷ b'r' ∷ b'c' ∷ b'e' ∷ b'_' ∷ []

-- `str::strip_prefix` on bytes.
unfoldable pub strip_prefix : List ℕ → List ℕ → Option (List ℕ)
strip_prefix [] text = some text
strip_prefix (p ∷ ps) [] = none
strip_prefix (p ∷ ps) (b ∷ bs) = let rest = strip_prefix ps bs in if p == b then rest else none

abbrev hex_digest : Option (List ℕ) → Bool
hex_digest none = false
hex_digest (some digest) = all is_lower_hex digest

unfoldable pub valid_source_id : List ℕ → Bool
unfolding strip_prefix
valid_source_id value = length value == 39 && hex_digest (strip_prefix source_prefix value)

abbrev pub i64_max : ℕ
i64_max = 2 ^ 63 - 1

unfoldable pub new_key : List ℕ → ℕ → KeyResult
unfolding valid_source_id
new_key source_id generation =
    if not (valid_source_id source_id)
    then err invalid_source_id
    else if generation == 0 || ltb i64_max generation
    then err invalid_generation
    else ok (record { source_id = source_id; generation = generation })
