-- ===== src/Workgraph/Correlate/Decisions.antt =====
-- When activity continues known work.
use agbox.Common.{
  ℕ, ◌≡◌, ◌≤◌, ◌⊎◌, inl, inr, refl, sym, subst, ap, ltb, ◌∙◌, Bool, true, false, Option, none, some,
  List, [], ◌∷◌, map, length, All, arith, Option-cases, ◌==◌, if◌then◌else◌,
}
use agbox.Core.Base.{Text}
use agbox.Workgraph.Correlate.{
  CorrelationScore, score, WorkCandidate, CorrelationInput, WorkAssociation, CorrelationDecision,
  create, continues, CorrelationOutcome, CorrelationTruncation, continue_threshold,
  min_non_semantic_score, max_artifact_hashes, max_command_hashes, max_candidates, bounded_set,
}
use agbox.Workgraph.Correlate.Decide.{
  is_same, Scored, association, select_loop, score_loop, sort, find, filter, take_while,
  is_explicit, has_work, qualifies, Verdict, creates, continue_with, found, propose, rank_verdict,
  by_continuation, without_explicit, by_explicit, decide_scored, outcome, correlate, same_score,
}
use agbox.Workgraph.Correlate.Loops.{
  score_in, Listed, IsScored, same_text-eq, select_loop-All, select_loop-length,
  score_loop-IsScored, sort-All, find-All, filter-All, Listed-map,
}

-- Why the work continues: it is named, or continued where no work is named, or its score is high
-- enough where neither is given.
abbrev pub Reason : CorrelationInput → Text → CorrelationScore → Type 0
Reason input work score =
    (input.explicit_work_id ≡ some work)
    ⊎ ((input.explicit_work_id ≡ none) × (input.continuation_work_id ≡ some work))
    ⊎ ((input.explicit_work_id ≡ none)
        × (input.continuation_work_id ≡ none)
        × (continue_threshold ≤ score.total)
        × (min_non_semantic_score ≤ score.non_semantic))

pub record IsBacked (input : CorrelationInput) (work : Text) (a : WorkAssociation) : Type 0 where
  pub candidate : WorkCandidate
  pub listed : Listed input.candidates candidate
  pub same_project : candidate.project_id ≡ input.project_id
  pub same_work : work ≡ candidate.work_id
  pub associated : a.work_id ≡ work
  pub scored : a.score ≡ score_in input candidate
  pub assigned : a.proposal_only ≡ false
  pub reason : Reason input work a.score

abbrev pub IsProposal : WorkAssociation → Type 0
IsProposal a = a.proposal_only ≡ true

-- Continued work is backed and stands alone; beside a new item there are proposals at most.
abbrev pub IsSound : CorrelationInput → CorrelationDecision → List WorkAssociation → Type 0
IsSound input create proposals = All IsProposal proposals
IsSound input (continues work a) proposals = IsBacked input work a × (proposals ≡ [])

abbrev IsSoundVerdict : CorrelationInput → Verdict → Type 0
IsSoundVerdict input (decision, proposals) = IsSound input decision proposals

continue_with-IsBacked :
    (input : CorrelationInput) (s : Scored)
    → IsScored input s
    → Reason input s.candidate.work_id s.score_of
    → IsSoundVerdict input (continue_with input s)
unfolding association
continue_with-IsBacked input s i r = (
  record {
    candidate = s.candidate;
    listed = i.listed;
    same_project = i.same_project;
    same_work = refl;
    associated = refl;
    scored = i.scored;
    assigned = refl;
    reason = r;
  },
  refl,
)

propose-IsProposal :
    (input : CorrelationInput) (ss : List Scored) → All IsProposal (map (propose input) ss)
unfolding association
propose-IsProposal input [] = tt
propose-IsProposal input (s ∷ ss) = (refl, propose-IsProposal input ss)

abbrev Qualified : CorrelationInput → Scored → Type 0
Qualified input s = IsScored input s × (qualifies s ≡ true)

if-IsSound :
    (input : CorrelationInput) (b : Bool) (v w : Verdict)
    → IsSoundVerdict input v
    → IsSoundVerdict input w
    → IsSoundVerdict input (if b then v else w)
if-IsSound input true v w p q = p
if-IsSound input false v w p q = q

rank_verdict-IsSound :
    (input : CorrelationInput) (ss : List Scored)
    → input.explicit_work_id ≡ none
    → input.continuation_work_id ≡ none
    → All (Qualified input) ss
    → IsSoundVerdict input (rank_verdict input ss)
unfolding rank_verdict
rank_verdict-IsSound input [] e c all = tt
rank_verdict-IsSound input (winner ∷ others) e c all =
    let tied = take_while (same_score winner.score_of) (winner ∷ others) in
    if-IsSound input (ltb 1 (length tied)) (create, map (propose input) tied)
      (continue_with input winner) (propose-IsProposal input tied)
      (continue_with-IsBacked input winner all.0.0
        (inr (inr (e, c, ground (arith, all.0.1), ground (arith, all.0.1)))))

by_continuation-IsSound :
    (input : CorrelationInput) (ss : List Scored) (o : Option Text)
    → input.explicit_work_id ≡ none
    → input.continuation_work_id ≡ o
    → All (IsScored input) ss
    → IsSoundVerdict input (by_continuation input ss o)
by_continuation-IsSound input ss none e c all =
    rank_verdict-IsSound input (filter qualifies ss) e c
      (filter-All (IsScored input) qualifies ss all)
by_continuation-IsSound input ss (some id) e c all = elim (Option-cases (find (has_work id) ss)) [
  | inl n ↦ subst (λ o. IsSoundVerdict input (found input o)) (sym n) tt
  | inr (s, n) ↦
      let (scored, has) = find-All (IsScored input) (has_work id) ss s all n in
      subst (λ o. IsSoundVerdict input (found input o)) (sym n)
        (continue_with-IsBacked input s scored
          (inr (inl (e, c ∙ ap some (sym (same_text-eq s.candidate.work_id id has))))))
]

without_explicit-IsSound :
    (input : CorrelationInput) (ss : List Scored) (o : Option Text)
    → input.explicit_work_id ≡ o
    → All (IsScored input) ss
    → IsSoundVerdict input (without_explicit input ss o)
without_explicit-IsSound input ss none e all =
    by_continuation-IsSound input ss input.continuation_work_id e refl all
without_explicit-IsSound input ss (some id) e all = tt

is_same-eq : (o : Option Text) (id : Text) → is_same o id ≡ true → o ≡ some id
is_same-eq none id h = ground arith
is_same-eq (some wanted) id h = ap some (same_text-eq wanted id h)

decide_scored-IsSound :
    (input : CorrelationInput) (ss : List Scored)
    → All (IsScored input) ss
    → IsSoundVerdict input (decide_scored input ss)
unfolding decide_scored
decide_scored-IsSound input ss all = elim (Option-cases (find is_explicit ss)) [
  | inl n ↦
      subst (λ o. IsSoundVerdict input (by_explicit input ss o)) (sym n)
        (without_explicit-IsSound input ss input.explicit_work_id refl all)
  | inr (s, n) ↦
      let (scored, hit) = find-All (IsScored input) is_explicit ss s all n in
      subst (λ o. IsSoundVerdict input (by_explicit input ss o)) (sym n)
        (continue_with-IsBacked input s scored
          (inl (is_same-eq input.explicit_work_id s.candidate.work_id (sym scored.named ∙ hit))))
]

abbrev pub IsSoundOutcome : CorrelationInput → CorrelationOutcome → Type 0
IsSoundOutcome input o =
    IsSound input o.decision o.proposals × (o.candidates_considered ≤ max_candidates)

outcome-IsSound :
    (input : CorrelationInput) (b : Bool) (v w : Verdict) (n : ℕ) (t u : CorrelationTruncation)
    → IsSoundVerdict input v
    → IsSoundVerdict input w
    → n ≤ max_candidates
    → IsSoundOutcome input (if b then outcome v n t else outcome w n u)
unfolding outcome
outcome-IsSound input true (d, ps) w n t u p q le = (p, le)
outcome-IsSound input false v (d, ps) n t u p q le = (q, le)

-- If `correlate` continues work, the work is a candidate of the input's project whose score the
-- association holds, as an assignment and without proposals; and it is the work that the input names
-- explicitly, or, where none is named, the continued one, or, where neither is given, work with
-- a total of at least 6,000, at least 2,500 of it not semantic. Beside a new item there
-- are proposals only. At most 64 candidates are considered.
pub correlate-IsSound : (input : CorrelationInput) → IsSoundOutcome input (correlate input)
unfolding correlate
correlate-IsSound input =
    let selected = (select_loop [] [] input.candidates).0 in
    let scored =
      score_loop input (bounded_set input.artifact_hashes max_artifact_hashes)
        (bounded_set input.command_hashes max_command_hashes) selected in
    let listed =
      select_loop-All (Listed input.candidates) [] [] input.candidates tt
        (Listed-map (Listed input.candidates) input.candidates (λ c l. l)) in
    outcome-IsSound input (length input.evidence_refs == 0) creates
      (decide_scored input (sort scored)) (length selected) _ _ tt
      (decide_scored-IsSound input (sort scored)
        (sort-All (IsScored input) scored (score_loop-IsScored input selected listed)))
      (select_loop-length [] [] input.candidates (omega arith))
