-- ===== src/Workgraph/Correlate/Loops.antt =====
-- What the loops of `Correlator::correlate` keep of the candidates.
use agbox.Common.{
  ◌≡◌, ◌≤◌, inl, inr, refl, subst, Bool, true, false, some, List, [], ◌∷◌, ◌++◌, length,
  length-append, All, All-append, Any, arith, Bool-cases, ◌==◌, if◌then◌else◌,
}
use agbox.Core.Base.{Text, same_text}
use agbox.Workgraph.Correlate.{
  CorrelationScore, score, WorkCandidate, CorrelationInput, max_artifact_hashes, max_command_hashes,
  max_candidates, bounded_set,
}
use agbox.Workgraph.Correlate.Decide.{
  is_same, signals, Scored, select_loop, score_loop, sort_insert, sort, find, filter,
}

abbrev pub score_in : CorrelationInput → WorkCandidate → CorrelationScore
score_in input c = score (
    signals input c (bounded_set input.artifact_hashes max_artifact_hashes)
      (bounded_set input.command_hashes max_command_hashes))

abbrev pub Listed : List WorkCandidate → WorkCandidate → Type 0
Listed candidates c = Any (λ d. d ≡ c) candidates

pub same_text-eq : (s t : Text) → same_text s t ≡ true → s ≡ t
same_text-eq s t h = ground arith

pub record IsScored (input : CorrelationInput) (s : Scored) : Type 0 where
  pub listed : Listed input.candidates s.candidate
  pub same_project : s.candidate.project_id ≡ input.project_id
  pub scored : s.score_of ≡ score_in input s.candidate
  pub named : s.explicit ≡ is_same input.explicit_work_id s.candidate.work_id

pub Listed-map :
    (P : WorkCandidate → Type 0) (candidates : List WorkCandidate)
    → ((c : WorkCandidate) → Listed candidates c → P c)
    → All P candidates
Listed-map P [] f = tt
Listed-map P (c ∷ cs) f = (f c (inl refl), Listed-map P cs (λ d l. f d (inr l)))

pub select_loop-All :
    (P : WorkCandidate → Type 0) (seen : List Text) (selected candidates : List WorkCandidate)
    → All P selected
    → All P candidates
    → All P (select_loop seen selected candidates).0
unfolding select_loop
select_loop-All P seen selected [] ps qs = ps
select_loop-All P seen selected (c ∷ cs) ps qs = ground (
  arith,
  select_loop-All P seen selected cs ps qs.1,
  select_loop-All P (c.work_id ∷ seen) (selected ++ (c ∷ [])) cs
      ((All-append P selected (c ∷ [])).1 (ps, (qs.0, tt))) qs.1,
)

pub select_loop-length :
    (seen : List Text) (selected candidates : List WorkCandidate)
    → length selected ≤ max_candidates
    → length (select_loop seen selected candidates).0 ≤ max_candidates
unfolding select_loop
select_loop-length seen selected [] le = le
select_loop-length seen selected (c ∷ cs) le =
    elim (Bool-cases (length selected == max_candidates)) [
      | inl e ↦ ground (arith, select_loop-length seen selected cs le)
      | inr e ↦ ground (
        arith,
        select_loop-length seen selected cs le,
        select_loop-length (c.work_id ∷ seen) (selected ++ (c ∷ [])) cs
            (ground (arith, length-append selected (c ∷ []))),
      )
    ]

if-All :
    (P : Scored → Type 0) (b : Bool) (s : Scored) (ss : List Scored)
    → (b ≡ true → P s)
    → All P ss
    → All P (if b then s ∷ ss else ss)
if-All P true s ss p ps = (p refl, ps)
if-All P false s ss p ps = ps

pub score_loop-IsScored :
    (input : CorrelationInput) (candidates : List WorkCandidate)
    → All (Listed input.candidates) candidates
    → All (IsScored input) (
        score_loop input
          (bounded_set input.artifact_hashes max_artifact_hashes)
          (bounded_set input.command_hashes max_command_hashes)
          candidates)
unfolding score_loop signals
score_loop-IsScored input [] all = tt
score_loop-IsScored input (c ∷ cs) all =
    if-All (IsScored input) (same_text c.project_id input.project_id)
      (record {
        candidate = c;
        score_of = score_in input c;
        explicit = is_same input.explicit_work_id c.work_id;
      })
      (score_loop input (bounded_set input.artifact_hashes max_artifact_hashes)
        (bounded_set input.command_hashes max_command_hashes) cs)
      (λ e. record {
        listed = all.0;
        same_project = same_text-eq c.project_id input.project_id e;
        scored = refl;
        named = refl;
      })
      (score_loop-IsScored input cs all.1)

module _ (P : Scored → Type 0) where
  sort_insert-All : (s : Scored) (ss : List Scored) → P s → All P ss → All P (sort_insert s ss)
  sort_insert-All s [] p ps = (p, tt)
  sort_insert-All s (t ∷ ts) p ps = ground (arith, sort_insert-All s ts p ps.1)

  pub sort-All : (ss : List Scored) → All P ss → All P (sort ss)
  sort-All [] ps = tt
  sort-All (s ∷ ss) ps = sort_insert-All s (sort ss) ps.0 (sort-All ss ps.1)

  pub find-All :
      (q : Scored → Bool) (ss : List Scored) (s : Scored)
      → All P ss
      → find q ss ≡ some s
      → P s × (q s ≡ true)
  find-All q [] s ps h = ground arith
  find-All q (t ∷ ts) s ps h = elim (Bool-cases (q t)) [
    | inl e ↦ let same : t ≡ s = ground arith in (subst P same ps.0, subst (λ x. q x ≡ true) same e)
    | inr e ↦ find-All q ts s ps.1 (ground arith)
  ]

  pub filter-All :
      (q : Scored → Bool) (ss : List Scored)
      → All P ss
      → All (λ s. P s × (q s ≡ true)) (filter q ss)
  filter-All q [] ps = tt
  filter-All q (s ∷ ss) ps = ground (arith, filter-All q ss ps.1)
