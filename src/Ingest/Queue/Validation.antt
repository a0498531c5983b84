-- ===== src/Ingest/Queue/Validation.antt =====
-- Which source keys `SourceKey::new` accepts.
use agbox.Common.{
  ℕ, ◌≡◌, ◌≤◌, ◌<◌, ◌↔◌, inl, inr, refl, ap, true, Option, none, some, List, [], ◌∷◌, ◌++◌, arith,
  length, all, Bool-cases,
}
use agbox.Ingest.Queue.Key.{
  SourceKey, ok, new_key, valid_source_id, strip_prefix, source_prefix, is_lower_hex, i64_max,
}

pub strip_prefix-append : (p t : List ℕ) → strip_prefix p (p ++ t) ≡ some t
unfolding strip_prefix
strip_prefix-append [] t = refl
strip_prefix-append (a ∷ p) t = ground (arith, strip_prefix-append p t)

pub strip_prefix-eq-some : (p t d : List ℕ) → strip_prefix p t ≡ some d → t ≡ p ++ d
unfolding strip_prefix
strip_prefix-eq-some [] t d e = cc
strip_prefix-eq-some (a ∷ p) [] d e = cc
strip_prefix-eq-some (a ∷ p) (b ∷ t) d e = ground (arith, strip_prefix-eq-some p t d)

-- `source_` and 32 lower-case hexadecimal digits.
abbrev pub IsCanonical : List ℕ → Type 0
IsCanonical text =
    (digest : List ℕ) × (text ≡ source_prefix ++ digest)
    × (length digest ≡ 32)
    × (all is_lower_hex digest ≡ true)

pub valid_source_id-IsCanonical : (text : List ℕ) → (valid_source_id text ≡ true) ↔ IsCanonical text
unfolding valid_source_id
valid_source_id-IsCanonical text = (to (strip_prefix source_prefix text) refl, from)
  where
    to :
        (o : Option (List ℕ))
        → strip_prefix source_prefix text ≡ o
        → valid_source_id text ≡ true
        → IsCanonical text
    to none e h = ground arith
    to (some d) e h =
        let split : text ≡ source_prefix ++ d = strip_prefix-eq-some source_prefix text d e in
        (d, split, ground (arith, ap length split), ground arith)

    from : IsCanonical text → valid_source_id text ≡ true
    from (d, e, n, h) = rw e (ground (arith, strip_prefix-append source_prefix d))

-- A source key can be made from exactly the canonical identifiers and the generations from 1 to
-- the largest `i64`, and it then holds the two arguments.
pub new_key-eq-ok :
    (text : List ℕ) (generation : ℕ) (key : SourceKey)
    → (new_key text generation ≡ ok key) ↔ (
        IsCanonical text
        × (0 < generation)
        × (generation ≤ i64_max)
        × (key ≡ record { source_id = text; generation = generation }))
unfolding new_key
new_key-eq-ok text generation key = elim (Bool-cases (valid_source_id text)) [
  | inl good ↦ (
    λ h. ((valid_source_id-IsCanonical text).0 good, ground arith, ground arith, ground arith),
    λ (_, lo, hi, e). ground arith,
  )
  | inr bad ↦
      (λ h. absurd (ground arith), λ (c, _, _, _). cc ((valid_source_id-IsCanonical text).1 c))
]
