-- ===== src/Workgraph/Contract/Status.antt =====
-- The status of the work, from what its actions came to.
use agbox.Common.{
  ℕ, Bool, true, false, not, ◌&&◌, ◌||◌, Option, none, some, List, [], ◌∷◌, length, ◌==◌,
  if◌then◌else◌, take, ℕ_discrete,
}
use agbox.Core.Base.{Text, Text-discrete, max_batch_records}
use agbox.Core.Work.{WorkStatus}
use agbox.Workgraph.Correlate.{set_insert, contains}
use agbox.Workgraph.Reducer.{ReducedFact, evidence_id}
use agbox.Workgraph.Contract.Facts.{explicit_abandonment, active_work, evidence_of}
use agbox.Workgraph.Contract.{
  ActionProjection, ProjectedOutcome, ProjectionState, MaterialDraft, filled,
}

-- The evidence of the facts that pass the test.
abbrev pub evidence_where : (ReducedFact → Bool) → List ReducedFact → List Text
evidence_where p [] = []
evidence_where p (fact ∷ facts) =
    let rest = evidence_where p facts in if p fact then evidence_id fact ∷ rest else rest

abbrev pub add_outcome : (ProjectedOutcome → Bool) → Option ProjectedOutcome → List Text → List Text
add_outcome p none rest = rest
add_outcome p (some outcome) rest = if p outcome then outcome.evidence ∷ rest else rest

-- The evidence of the authoritative outcomes that pass the test.
unfoldable pub outcomes_where :
    (ProjectedOutcome → Bool) → List (Text × ActionProjection) → List Text
outcomes_where p [] = []
outcomes_where p ((key, action) ∷ actions) =
    add_outcome p action.authoritative (outcomes_where p actions)

abbrev pub is_failed : ProjectedOutcome → Bool
is_failed outcome = not outcome.succeeded

abbrev pub is_success : ProjectedOutcome → Bool
is_success outcome = outcome.succeeded

abbrev pub status_or_observed : Option WorkStatus → WorkStatus
status_or_observed none = WorkStatus.observed
status_or_observed (some status) = status

unfoldable pub derive_status :
    ProjectionState → List ReducedFact → Option WorkStatus → Bool → WorkStatus × List Text
unfolding outcomes_where
derive_status projection facts previous activity_changed =
    let abandonment = evidence_where explicit_abandonment facts in
    let failed = outcomes_where is_failed projection.actions in
    let completed = outcomes_where is_success projection.actions in
    let active = evidence_where active_work facts in
    if filled abandonment
    then (WorkStatus.abandoned, abandonment)
    else if filled failed
    then (WorkStatus.blocked, failed)
    else if projection.completion_reopened
    then (WorkStatus.active, evidence_of facts)
    else if filled completed
    then (WorkStatus.completed, completed)
    else if activity_changed && filled active
    then (WorkStatus.active, active)
    else (status_or_observed previous, evidence_of facts)

unfoldable pub has_failed_authority : ProjectionState → Bool
unfolding outcomes_where
has_failed_authority projection = filled (outcomes_where is_failed projection.actions)

abbrev pub watch : List Text → Bool → List Text → List Text × Bool
watch watermark new [] = (watermark, new)
watch watermark new (evidence ∷ more) =
    watch (set_insert evidence watermark) (new || not (contains evidence watermark)) more

-- The watermark is cut to its bound by taking the last ones away.
unfoldable pub observe_active_facts : ProjectionState → List ReducedFact → ProjectionState × Bool
observe_active_facts p facts =
    let (grown, new) = watch p.active_identity_watermark false (evidence_where active_work facts) in
    (
      record p {
        active_identity_watermark = take max_batch_records grown;
        active_identity_truncated =
            p.active_identity_truncated
            || not (length (take max_batch_records grown) == length grown);
      },
      new,
    )

-- What tells whether the activity changed.
abbrev pub ActivityProjection : Type 0
ActivityProjection = Option Text × Text × List Text × List Text × List Text

unfoldable pub ActivityProjection-discrete : Discrete ActivityProjection
ActivityProjection-discrete = hlevel Text-discrete

abbrev pub activity_projection : MaterialDraft → ActivityProjection
activity_projection d = (d.objective, d.summary, d.next_actions, d.constraints, d.artifacts)

abbrev pub differs : {A : Type 0} → Discrete A → A → A → Bool
differs discrete a b = elim (discrete a b) [ yes _ ↦ false | no _ ↦ true ]

abbrev pub outcome_fields : Option ProjectedOutcome → Option (Option Text × Bool × ℕ × Text)
outcome_fields none = none
outcome_fields (some o) = some (o.command, o.succeeded, o.observed_at, o.evidence)

abbrev pub AuthoritativeDigest : Type 0
AuthoritativeDigest = List (Text × Option (Option Text × Bool × ℕ × Text))

unfoldable pub AuthoritativeDigest-discrete : Discrete AuthoritativeDigest
AuthoritativeDigest-discrete = hlevel (Text-discrete, ℕ_discrete)

abbrev pub digest_of : List (Text × ActionProjection) → AuthoritativeDigest
digest_of [] = []
digest_of ((key, action) ∷ actions) = (key, outcome_fields action.authoritative) ∷ digest_of actions

unfoldable pub authoritative_digest : ProjectionState → AuthoritativeDigest
authoritative_digest projection = digest_of projection.actions
