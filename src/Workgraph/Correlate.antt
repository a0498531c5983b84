-- ===== src/Workgraph/Correlate.antt =====
-- crates/agbox-workgraph/src/correlate.rs: whether new activity continues known work. The caller's
-- setters of one field and the bounds that other files keep on texts are not modelled.
use agbox.Common.{
  ℕ, ◌+◌, ◌*◌, ◌/◌, ◌^◌, ◌-◌, min, max, Bool, true, false, not, ◌&&◌, ◌||◌, Option, none, some,
  List, [], ◌∷◌, ◌++◌, length, take, ltb, leb, ◌==◌, if◌then◌else◌, any, drop,
}
use agbox.Core.Base.{Text, same_text, max_contract_evidence_refs}
use agbox.Core.Source.{Provider}
use agbox.Core.Strings.{text_less}
pub mod Decide
pub mod Scores
pub mod Hashes
pub mod Loops
pub mod Decisions
mod Tests

abbrev pub continue_threshold : ℕ
continue_threshold = 6_000

abbrev pub min_non_semantic_score : ℕ
min_non_semantic_score = 2_500

abbrev pub max_artifact_hashes : ℕ
max_artifact_hashes = 64

abbrev pub max_command_hashes : ℕ
max_command_hashes = 32

abbrev pub max_candidates : ℕ
max_candidates = 64

pub record CorrelationSignals : Type 0 where
  pub explicit_work_id : Bool
  pub explicit_continuation : Bool
  pub same_repository : Bool
  pub same_branch : Bool
  pub artifact_overlap_basis_points : ℕ
  pub command_overlap_basis_points : ℕ
  pub minutes_since_activity : ℕ
  pub semantic_similarity_basis_points : ℕ

pub record CorrelationScore : Type 0 where
  pub total : ℕ
  pub non_semantic : ℕ

abbrev pub u16_max : ℕ
u16_max = 65_535

abbrev pub usize_max : ℕ
usize_max = 2 ^ 64 - 1

abbrev pub saturating_add : ℕ → ℕ → ℕ
saturating_add a b = min u16_max (a + b)

-- `u16::try_from(n).unwrap_or(otherwise)`.
abbrev pub to_u16 : ℕ → ℕ → ℕ
to_u16 n otherwise = if ltb u16_max n then otherwise else n

abbrev pub weighted : ℕ → ℕ → ℕ
weighted points weight = to_u16 (min points 10_000 * weight / 10_000) weight

unfoldable pub score : CorrelationSignals → CorrelationScore
score s =
    let explicit = if s.explicit_work_id then 10_000 else 0 in
    let continuation = if s.explicit_continuation then 9_500 else 0 in
    let repository_branch =
      if s.same_repository && s.same_branch
      then 2_500
      else if s.same_repository
      then 1_500
      else 0 in
    let artifacts = weighted s.artifact_overlap_basis_points 2_500 in
    let commands = weighted s.command_overlap_basis_points 1_000 in
    let temporal = if leb s.minutes_since_activity 30 then 1_000 else 0 in
    let semantic = weighted s.semantic_similarity_basis_points 1_000 in
    let non_semantic =
      saturating_add
        (saturating_add
          (saturating_add (saturating_add (max explicit continuation) repository_branch) artifacts)
          commands)
        temporal in
    record {
      total = min 10_000 (saturating_add non_semantic semantic);
      non_semantic = non_semantic;
    }

pub record WorkCandidate : Type 0 where
  pub work_id : Text
  pub project_id : Text
  pub provider : Option Provider
  pub repository_hash : Option Text
  pub branch_hash : Option Text
  pub artifact_hashes : List Text
  pub command_hashes : List Text
  pub minutes_since_activity : ℕ
  pub semantic_similarity_basis_points : Option ℕ
  pub artifact_hashes_truncated : Bool
  pub command_hashes_truncated : Bool

pub record CorrelationTruncation : Type 0 where
  pub artifact_hashes : Bool
  pub command_hashes : Bool
  pub candidates : Bool

pub record CorrelationInput : Type 0 where
  pub project_id : Text
  pub provider : Provider
  pub evidence_refs : List Text
  pub explicit_work_id : Option Text
  pub continuation_work_id : Option Text
  pub repository_hash : Option Text
  pub branch_hash : Option Text
  pub artifact_hashes : List Text
  pub command_hashes : List Text
  pub semantic_similarity_basis_points : ℕ
  pub candidates : List WorkCandidate
  pub truncation : CorrelationTruncation

abbrev pub known_candidate : Text → List WorkCandidate → Bool
known_candidate work_id = any (λ (c : WorkCandidate). same_text c.work_id work_id)

-- `CorrelationInput::candidate`.
unfoldable pub add_candidate : CorrelationInput → WorkCandidate → CorrelationInput
add_candidate input candidate =
    if known_candidate candidate.work_id input.candidates
    then input
    else if length input.candidates == max_candidates
    then record input { truncation = record input.truncation { candidates = true } }
    else record input { candidates = input.candidates ++ (candidate ∷ []) }

pub record WorkAssociation : Type 0 where
  pub work_id : Text
  pub score : CorrelationScore
  pub evidence_refs : List Text
  pub proposal_only : Bool

pub data CorrelationDecision : Type 0 where
  create : CorrelationDecision
  continues : Text → WorkAssociation → CorrelationDecision

pub record CorrelationOutcome : Type 0 where
  pub decision : CorrelationDecision
  pub proposals : List WorkAssociation
  pub candidates_considered : ℕ
  pub truncation : CorrelationTruncation

-- `BTreeSet::insert` on a sorted list without repetition.
abbrev pub set_insert : Text → List Text → List Text
set_insert value [] = value ∷ []
set_insert value (v ∷ values) =
    let rest = set_insert value values in
    if same_text value v
    then v ∷ values
    else if text_less value v
    then value ∷ v ∷ values
    else v ∷ rest

abbrev pub set_of : List Text → List Text
set_of [] = []
set_of (v ∷ values) = set_insert v (set_of values)

abbrev pub contains : Text → List Text → Bool
contains value = any (same_text value)

abbrev pub pop_last : List Text → List Text
pop_last [] = []
pop_last (v ∷ []) = []
pop_last (v ∷ w ∷ values) = v ∷ pop_last (w ∷ values)

-- The loop of `bounded_unique`, with the set and whether it was cut.
unfoldable pub bounded_unique_loop : ℕ → List Text → Bool → List Text → List Text × Bool
bounded_unique_loop bound unique truncated [] = (unique, truncated)
bounded_unique_loop bound unique truncated (value ∷ values) =
    let grown = set_insert value unique in
    let over = ltb bound (length grown) in
    bounded_unique_loop bound (if over then pop_last grown else grown) (truncated || over) values

unfoldable pub bounded_unique : List Text → ℕ → List Text × Bool
bounded_unique values bound = bounded_unique_loop bound [] false values

abbrev pub intersection_count : List Text → List Text → ℕ
intersection_count [] right = 0
intersection_count (v ∷ left) right =
    let rest = intersection_count left right in if contains v right then 1 + rest else rest

-- `left` is a set.
unfoldable pub overlap_basis_points : List Text → List Text → ℕ → ℕ
overlap_basis_points left values bound =
    let right = set_of (take bound values) in
    let denominator = max (length left) (length right) in
    if denominator == 0
    then 0
    else to_u16 (min usize_max (intersection_count left right * 10_000) / denominator) 10_000

abbrev pub bounded_set : List Text → ℕ → List Text
bounded_set values bound = set_of (take bound values)
