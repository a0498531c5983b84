-- ===== src/Workgraph/Correlate/Decide.antt =====
-- `Correlator::correlate`.
use agbox.Common.{
  ℕ, Bool, true, false, ◌&&◌, ◌||◌, Option, none, some, List, [], ◌∷◌, ◌++◌, map, length, take, ltb,
  leb, ◌==◌, if◌then◌else◌, any,
}
use agbox.Core.Base.{Text, same_text, max_contract_evidence_refs}
use agbox.Core.Strings.{text_less}
use agbox.Workgraph.Correlate.{
  CorrelationSignals, CorrelationScore, score, WorkCandidate, CorrelationTruncation,
  CorrelationInput, WorkAssociation, CorrelationDecision, create, continues, CorrelationOutcome,
  continue_threshold, min_non_semantic_score, max_artifact_hashes, max_command_hashes,
  max_candidates, overlap_basis_points, bounded_set, contains,
}

abbrev pub is_same : Option Text → Text → Bool
is_same none id = false
is_same (some wanted) id = same_text wanted id

abbrev pub same_repository : Option Text → Option Text → Bool
same_repository (some left) (some right) = same_text left right
same_repository none none = true
same_repository _ _ = false

abbrev pub same_branch : Option Text → Option Text → Bool
same_branch (some left) (some right) = same_text left right
same_branch _ _ = false

abbrev pub unwrap_or : Option ℕ → ℕ → ℕ
unwrap_or none n = n
unwrap_or (some m) n = m

unfoldable pub signals :
    CorrelationInput → WorkCandidate → List Text → List Text → CorrelationSignals
signals input candidate input_artifacts input_commands = record {
  explicit_work_id = is_same input.explicit_work_id candidate.work_id;
  explicit_continuation = is_same input.continuation_work_id candidate.work_id;
  same_repository = same_repository input.repository_hash candidate.repository_hash;
  same_branch =
      same_repository input.repository_hash candidate.repository_hash
      && same_branch input.branch_hash candidate.branch_hash;
  artifact_overlap_basis_points =
      overlap_basis_points input_artifacts candidate.artifact_hashes max_artifact_hashes;
  command_overlap_basis_points =
      overlap_basis_points input_commands candidate.command_hashes max_command_hashes;
  minutes_since_activity = candidate.minutes_since_activity;
  semantic_similarity_basis_points =
      unwrap_or candidate.semantic_similarity_basis_points input.semantic_similarity_basis_points;
}

-- A candidate with its score and whether its work is named explicitly.
pub record Scored : Type 0 where
  pub candidate : WorkCandidate
  pub score_of : CorrelationScore
  pub explicit : Bool

unfoldable pub association : CorrelationInput → Scored → Bool → WorkAssociation
association input s proposal_only = record {
  work_id = s.candidate.work_id;
  score = s.score_of;
  evidence_refs = take max_contract_evidence_refs input.evidence_refs;
  proposal_only = proposal_only;
}

-- The first loop: the candidates of distinct work, at most `max_candidates`, and whether one more
-- was left out.
unfoldable pub select_loop :
    List Text → List WorkCandidate → List WorkCandidate → List WorkCandidate × Bool
select_loop seen selected [] = (selected, false)
select_loop seen selected (candidate ∷ candidates) =
    let skipped = select_loop seen selected candidates in
    let taken = select_loop (candidate.work_id ∷ seen) (selected ++ (candidate ∷ [])) candidates in
    if contains candidate.work_id seen
    then skipped
    else if length selected == max_candidates
    then (selected, true)
    else taken

-- `filter` and `map`, with the flags that the map sets.
unfoldable pub score_loop :
    CorrelationInput → List Text → List Text → List WorkCandidate → List Scored
unfolding signals
score_loop input artifacts commands [] = []
score_loop input artifacts commands (c ∷ cs) =
    let rest = score_loop input artifacts commands cs in
    let s = signals input c artifacts commands in
    if same_text c.project_id input.project_id
    then record { candidate = c; score_of = score s; explicit = s.explicit_work_id } ∷ rest
    else rest

abbrev pub cut_artifacts : Scored → Bool
cut_artifacts s =
    s.candidate.artifact_hashes_truncated
    || ltb max_artifact_hashes (length s.candidate.artifact_hashes)

abbrev pub cut_commands : Scored → Bool
cut_commands s =
    s.candidate.command_hashes_truncated
    || ltb max_command_hashes (length s.candidate.command_hashes)

-- The order of `sort_by`: the higher total, then the higher part that is not semantic, then the identifier.
abbrev pub precedes : Scored → Scored → Bool
precedes l r =
    ltb r.score_of.total l.score_of.total
    || (r.score_of.total == l.score_of.total
        && (ltb r.score_of.non_semantic l.score_of.non_semantic
            || (r.score_of.non_semantic == l.score_of.non_semantic
                && text_less l.candidate.work_id r.candidate.work_id)))

abbrev pub sort_insert : Scored → List Scored → List Scored
sort_insert s [] = s ∷ []
sort_insert s (t ∷ ts) =
    let rest = sort_insert s ts in if precedes t s then t ∷ rest else s ∷ t ∷ ts

abbrev pub sort : List Scored → List Scored
sort [] = []
sort (s ∷ ss) = sort_insert s (sort ss)

abbrev pub find : (Scored → Bool) → List Scored → Option Scored
find p [] = none
find p (s ∷ ss) = let rest = find p ss in if p s then some s else rest

abbrev pub filter : (Scored → Bool) → List Scored → List Scored
filter p [] = []
filter p (s ∷ ss) = let rest = filter p ss in if p s then s ∷ rest else rest

abbrev pub take_while : (Scored → Bool) → List Scored → List Scored
take_while p [] = []
take_while p (s ∷ ss) = let rest = take_while p ss in if p s then s ∷ rest else []

abbrev pub is_explicit : Scored → Bool
is_explicit s = s.explicit

abbrev pub has_work : Text → Scored → Bool
has_work id s = same_text s.candidate.work_id id

abbrev pub qualifies : Scored → Bool
qualifies s =
    leb continue_threshold s.score_of.total && leb min_non_semantic_score s.score_of.non_semantic

abbrev pub same_score : CorrelationScore → Scored → Bool
same_score score s =
    s.score_of.total == score.total && s.score_of.non_semantic == score.non_semantic

-- The decision with the proposals.
abbrev pub Verdict : Type 0
Verdict = CorrelationDecision × List WorkAssociation

abbrev pub creates : Verdict
creates = (create, [])

abbrev pub continue_with : CorrelationInput → Scored → Verdict
continue_with input s = (continues s.candidate.work_id (association input s false), [])

abbrev pub found : CorrelationInput → Option Scored → Verdict
found input none = creates
found input (some s) = continue_with input s

abbrev pub propose : CorrelationInput → Scored → WorkAssociation
propose input s = association input s true

-- The candidates that qualify, best first.
unfoldable pub rank_verdict : CorrelationInput → List Scored → Verdict
unfolding association
rank_verdict input [] = creates
rank_verdict input (winner ∷ others) =
    let tied = take_while (same_score winner.score_of) (winner ∷ others) in
    if ltb 1 (length tied) then (create, map (propose input) tied) else continue_with input winner

abbrev pub by_continuation : CorrelationInput → List Scored → Option Text → Verdict
by_continuation input scored none = rank_verdict input (filter qualifies scored)
by_continuation input scored (some id) = found input (find (has_work id) scored)

abbrev pub without_explicit : CorrelationInput → List Scored → Option Text → Verdict
without_explicit input scored none = by_continuation input scored input.continuation_work_id
without_explicit input scored (some id) = creates

abbrev pub by_explicit : CorrelationInput → List Scored → Option Scored → Verdict
by_explicit input scored (some s) = continue_with input s
by_explicit input scored none = without_explicit input scored input.explicit_work_id

unfoldable pub decide_scored : CorrelationInput → List Scored → Verdict
unfolding rank_verdict association
decide_scored input scored = by_explicit input scored (find is_explicit scored)

unfoldable pub outcome : Verdict → ℕ → CorrelationTruncation → CorrelationOutcome
outcome (decision, proposals) considered truncation = record {
  decision = decision;
  proposals = proposals;
  candidates_considered = considered;
  truncation = truncation;
}

unfoldable pub correlate : CorrelationInput → CorrelationOutcome
unfolding select_loop score_loop decide_scored outcome
correlate input =
    let (selected, cut) = select_loop [] [] input.candidates in
    let truncation = record input.truncation { candidates = input.truncation.candidates || cut } in
    let scored =
      score_loop input (bounded_set input.artifact_hashes max_artifact_hashes)
        (bounded_set input.command_hashes max_command_hashes) selected in
    if length input.evidence_refs == 0
    then outcome creates (length selected) truncation
    else outcome (decide_scored input (sort scored)) (length selected) (record truncation {
      artifact_hashes = truncation.artifact_hashes || any cut_artifacts scored;
      command_hashes = truncation.command_hashes || any cut_commands scored;
    })
