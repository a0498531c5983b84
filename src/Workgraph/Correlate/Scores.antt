-- ===== src/Workgraph/Correlate/Scores.antt =====
-- What a score can be.
use agbox.Common.{◌⊎◌, ℕ, ◌+◌, ◌≡◌, ◌≤◌, false, arith}
use agbox.Workgraph.Correlate.{CorrelationSignals, score, weighted}

weighted_le_2500 : (points : ℕ) → weighted points 2_500 ≤ 2_500
weighted_le_2500 points = ground arith

weighted_le_1000 : (points : ℕ) → weighted points 1_000 ≤ 1_000
weighted_le_1000 points = ground arith

-- A total is at most 10,000 and exceeds the part that is not semantic by at most 1,000, and nothing
-- saturates in that part. Work that is named explicitly has a total of 10,000, and continued work one
-- of at least 9,500.
pub score-bounds :
    (s : CorrelationSignals)
    → ((score s).total ≤ 10_000)
      × ((score s).total ≤ (score s).non_semantic + 1_000)
      × ((score s).non_semantic ≤ 17_000)
      × ((s.explicit_work_id ≡ false) ⊎ ((score s).total ≡ 10_000))
      × ((s.explicit_continuation ≡ false) ⊎ (9_500 ≤ (score s).total))
unfolding score
score-bounds s =
    let a = weighted_le_2500 s.artifact_overlap_basis_points in
    let c = weighted_le_1000 s.command_overlap_basis_points in
    let m = weighted_le_1000 s.semantic_similarity_basis_points in
    (ground arith, ground arith, ground arith, ground arith, ground arith)
