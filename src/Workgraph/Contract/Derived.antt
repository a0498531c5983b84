-- ===== src/Workgraph/Contract/Derived.antt =====
-- When the work is taken to be completed.
use agbox.Common.{
  ◌≡◌, ◌⊎◌, inl, inr, Bool, true, false, Option, none, some, List, [], ◌∷◌, All, Any, arith,
  Bool-cases, subst, sym, ap,
}
use agbox.Core.Base.{Text, ok}
use agbox.Core.Work.{WorkStatus}
use agbox.Workgraph.Reducer.{ReducedFact}
use agbox.Workgraph.Contract.{
  ProvisionalContract, ProvisionalContractBuilder, Services, MaterialDraft, ProjectionState,
  ActionProjection, ProjectedOutcome, filled,
}
use agbox.Workgraph.Contract.Facts.{explicit_abandonment}
use agbox.Workgraph.Contract.Draft.{normalize, bound_field_evidence, retain_field_evidence}
use agbox.Workgraph.Contract.Status.{
  evidence_where, outcomes_where, is_failed, is_success, derive_status, status_or_observed,
  add_outcome,
}
use agbox.Workgraph.Contract.Build.{Previous, build, conclude, previous_status}
use agbox.Workgraph.Contract.Grounded.{build-ok, IsRevision, retained_of}

abbrev pub Failed : Option ProjectedOutcome → Type 0
Failed none = ⊥
Failed (some outcome) = outcome.succeeded ≡ false

abbrev pub Succeeded : Option ProjectedOutcome → Type 0
Succeeded none = ⊥
Succeeded (some outcome) = outcome.succeeded ≡ true

add_outcome-Failed :
    (o : Option ProjectedOutcome) (rest : List Text)
    → filled (add_outcome is_failed o rest) ≡ false
    → (¬ Failed o) × (filled rest ≡ false)
add_outcome-Failed none rest h = (λ f. f, h)
add_outcome-Failed (some outcome) rest h = (λ f. absurd (ground arith), ground arith)

add_outcome-Succeeded :
    (o : Option ProjectedOutcome) (rest : List Text)
    → filled (add_outcome is_success o rest) ≡ true
    → Succeeded o ⊎ (filled rest ≡ true)
add_outcome-Succeeded none rest h = inr h
add_outcome-Succeeded (some outcome) rest h = elim (Bool-cases outcome.succeeded) [
  | inl e ↦ inl e
  | inr e ↦ inr (ground arith)
]

abbrev pub NoneFailed : List (Text × ActionProjection) → Type 0
NoneFailed actions =
    All (λ (entry : Text × ActionProjection). ¬ Failed entry.1.authoritative) actions

abbrev pub SomeSucceeded : List (Text × ActionProjection) → Type 0
SomeSucceeded actions =
    Any (λ (entry : Text × ActionProjection). Succeeded entry.1.authoritative) actions

outcomes_where-NoneFailed :
    (actions : List (Text × ActionProjection))
    → filled (outcomes_where is_failed actions) ≡ false
    → NoneFailed actions
unfolding outcomes_where
outcomes_where-NoneFailed [] h = tt
outcomes_where-NoneFailed ((key, action) ∷ actions) h =
    let (here, more) =
      add_outcome-Failed action.authoritative (outcomes_where is_failed actions) h in
    (here, outcomes_where-NoneFailed actions more)

outcomes_where-SomeSucceeded :
    (actions : List (Text × ActionProjection))
    → filled (outcomes_where is_success actions) ≡ true
    → SomeSucceeded actions
unfolding outcomes_where
outcomes_where-SomeSucceeded [] h = absurd (ground arith)
outcomes_where-SomeSucceeded ((key, action) ∷ actions) h =
    elim (add_outcome-Succeeded action.authoritative (outcomes_where is_success actions) h) [
      | inl here ↦ inl here
      | inr more ↦ inr (outcomes_where-SomeSucceeded actions more)
    ]

-- No fact says that the work is given up.
abbrev pub Pursued : List ReducedFact → Type 0
Pursued facts = All (λ (fact : ReducedFact). explicit_abandonment fact ≡ false) facts

evidence_where-Pursued :
    (facts : List ReducedFact)
    → filled (evidence_where explicit_abandonment facts) ≡ false
    → Pursued facts
evidence_where-Pursued [] h = tt
evidence_where-Pursued (fact ∷ facts) h = elim (Bool-cases (explicit_abandonment fact)) [
  | inl e ↦ absurd (ground arith)
  | inr e ↦ (e, evidence_where-Pursued facts (ground arith))
]

-- What a completed status rests on.
abbrev pub IsDone : ProjectionState → List ReducedFact → Option WorkStatus → Type 0
IsDone projection facts previous =
    Pursued facts
    × NoneFailed projection.actions
    × (projection.completion_reopened ≡ false)
    × (SomeSucceeded projection.actions ⊎ (previous ≡ some WorkStatus.completed))

status_or_observed-completed :
    (previous : Option WorkStatus)
    → status_or_observed previous ≡ WorkStatus.completed
    → previous ≡ some WorkStatus.completed
status_or_observed-completed none h = absurd (ground arith)
status_or_observed-completed (some status) h = ap some h

completed-IsDone :
    (projection : ProjectionState) (facts : List ReducedFact) (previous : Option WorkStatus)
    (changed : Bool)
    → (derive_status projection facts previous changed).0 ≡ WorkStatus.completed
    → IsDone projection facts previous
unfolding derive_status
completed-IsDone projection facts previous changed h =
    let abandoned = evidence_where explicit_abandonment facts in
    let failed = outcomes_where is_failed projection.actions in
    let done = outcomes_where is_success projection.actions in
    let reached : (filled abandoned ≡ false)
        × (filled failed ≡ false)
        × (projection.completion_reopened ≡ false)
        × ((filled done ≡ true) ⊎ (status_or_observed previous ≡ WorkStatus.completed)) =
      ground arith in
    (
      evidence_where-Pursued facts reached.0,
      outcomes_where-NoneFailed projection.actions reached.1,
      reached.2,
      elim reached.3 [
        | inl some_done ↦ inl (outcomes_where-SomeSucceeded projection.actions some_done)
        | inr kept ↦ inr (status_or_observed-completed previous kept)
      ],
    )

conclude-IsDone :
    (previous : Previous) (facts : List ReducedFact) (draft : MaterialDraft)
    → (conclude previous facts draft).status ≡ WorkStatus.completed
    → IsDone (conclude previous facts draft).projection_state facts (previous_status previous)
unfolding conclude normalize
conclude-IsDone previous facts draft h =
    completed-IsDone (conclude previous facts draft).projection_state facts
      (previous_status previous) _ h

revision-IsDone :
    (services : Services) (builder : ProvisionalContractBuilder) (previous : Previous)
    (fact : ReducedFact) (facts : List ReducedFact) (draft : MaterialDraft)
    (c : ProvisionalContract)
    → IsRevision services builder previous fact facts draft c
    → c.material.status ≡ WorkStatus.completed
    → IsDone c.material.projection_state (fact ∷ facts) (previous_status previous)
unfolding retain_field_evidence bound_field_evidence
revision-IsDone services builder previous fact facts draft c r e =
    let same : c.material ≡ (retained_of services builder previous fact facts draft).0 =
      ap (λ (x : ProvisionalContract). x.material) r.is_built in
    subst
      (λ (m : MaterialDraft). IsDone m.projection_state (fact ∷ facts) (previous_status previous))
      (sym same)
      (conclude-IsDone previous (fact ∷ facts) draft
        (subst (λ (m : MaterialDraft). m.status ≡ WorkStatus.completed) same e))

-- A new revision says that the work is completed only if no fact gives the work up, no action is
-- known to have failed, the work is not reopened, and some action is known to have succeeded or
-- the previous revision already said so.
pub build-IsDone :
    (services : Services) (builder : ProvisionalContractBuilder) (previous : Previous)
    (facts : List ReducedFact) (c : ProvisionalContract)
    → build services builder previous facts ≡ ok c
    → c.material.status ≡ WorkStatus.completed
    → (previous ≡ some c) ⊎ IsDone c.material.projection_state facts (previous_status previous)
unfolding build
build-IsDone services builder none [] c h e = absurd (ground arith)
build-IsDone services builder (some p) [] c h e = inl cc
build-IsDone services builder previous (fact ∷ facts) c h e =
    elim (build-ok services builder previous fact facts c h) [
      | inl known ↦ inl known
      | inr (draft, drafted, r) ↦
          inr (revision-IsDone services builder previous fact facts draft c r e)
    ]
