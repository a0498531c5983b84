-- ===== src/Workgraph/Correlate/Tests.antt =====
-- A run that continues work for its artifacts.
use agbox.Common.{
  length, ◌+◌, ◌≡◌, ◌≤◌, ◌⊎◌, refl, true, false, Option, none, some, List, [], ◌∷◌, ℕ_discrete,
}
use agbox.Core.Base.{Text, Text-discrete}
use agbox.Core.Source.{codex}
use agbox.Core.Strings.{bytes}
use agbox.Workgraph.Correlate.{
  CorrelationSignals, score, WorkCandidate, CorrelationInput, CorrelationDecision, create,
  continues, overlap_basis_points, bounded_unique, bounded_unique_loop,
}
use agbox.Workgraph.Correlate.Decide.{
  correlate, association, signals, select_loop, score_loop, decide_scored, rank_verdict, outcome,
}
use agbox.Workgraph.Correlate.Scores.{score-bounds}
use agbox.Workgraph.Correlate.Hashes.{insert_all, bounded_unique-insert_all}
use agbox.Workgraph.Correlate.Decisions.{IsSoundOutcome, correlate-IsSound}

abbrev candidate : Text → List Text → WorkCandidate
candidate id artifacts = record {
  work_id = id;
  project_id = bytes "p";
  provider = none;
  repository_hash = some (bytes "r");
  branch_hash = some (bytes "b");
  artifact_hashes = artifacts;
  command_hashes = bytes "c" ∷ [];
  minutes_since_activity = 3;
  semantic_similarity_basis_points = none;
  artifact_hashes_truncated = false;
  command_hashes_truncated = false;
}

abbrev input : CorrelationInput
input = record {
  project_id = bytes "p";
  provider = codex;
  evidence_refs = bytes "e" ∷ [];
  explicit_work_id = none;
  continuation_work_id = none;
  repository_hash = some (bytes "r");
  branch_hash = some (bytes "b");
  artifact_hashes = bytes "x" ∷ bytes "y" ∷ [];
  command_hashes = bytes "c" ∷ [];
  semantic_similarity_basis_points = 0;
  candidates =
      candidate (bytes "v") (bytes "x" ∷ [])
      ∷ candidate (bytes "w") (bytes "y" ∷ bytes "x" ∷ [])
      ∷ [];
  truncation = record { artifact_hashes = false; command_hashes = false; candidates = false };
}

work_of : CorrelationDecision → Option Text
work_of create = none
work_of (continues work a) = some work

run : work_of (correlate input).decision ≡ some (bytes "w")
unfolding work_of correlate association signals select_loop score_loop decide_scored rank_verdict
    outcome score overlap_basis_points Text-discrete ℕ_discrete
run = refl

correlate-IsSound_example : IsSoundOutcome input (correlate input)
correlate-IsSound_example = correlate-IsSound input

abbrev strong : CorrelationSignals
strong = record {
  explicit_work_id = false;
  explicit_continuation = true;
  same_repository = true;
  same_branch = true;
  artifact_overlap_basis_points = 20_000;
  command_overlap_basis_points = 10_000;
  minutes_since_activity = 30;
  semantic_similarity_basis_points = 10_000;
}

score-bounds_example :
    ((score strong).total ≤ 10_000)
    × ((score strong).total ≤ (score strong).non_semantic + 1_000)
    × ((score strong).non_semantic ≤ 17_000)
    × ((false ≡ false) ⊎ ((score strong).total ≡ 10_000))
    × ((true ≡ false) ⊎ (9_500 ≤ (score strong).total))
score-bounds_example = score-bounds strong

abbrev hashes : List Text
hashes = bytes "z" ∷ bytes "x" ∷ bytes "y" ∷ bytes "x" ∷ []

least : (bounded_unique hashes 2).0 ≡ bytes "x" ∷ bytes "y" ∷ []
unfolding bounded_unique bounded_unique_loop Text-discrete ℕ_discrete
least = refl

bounded_unique-insert_all_example :
    (length (bounded_unique hashes 2).0 ≤ 2)
    × (((bounded_unique hashes 2).1 ≡ true) ⊎ ((bounded_unique hashes 2).0 ≡ insert_all [] hashes))
bounded_unique-insert_all_example = bounded_unique-insert_all hashes 2
