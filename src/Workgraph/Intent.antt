-- ===== src/Workgraph/Intent.antt =====
-- crates/agbox-workgraph: from the slice of events that reducer.rs reduces to the objective of the contract that contract.rs
-- builds from the facts.
use agbox.Common.{
  ℕ, ◌≡◌, ◌≢◌, ◌⊎◌, refl, inl, inr, Bool, true, false, Option, none, some, List, [], ◌∷◌, ◌++◌, All,
  Any, arith, subst, sym, ap, ◌∙◌,
}
use agbox.Core.Base.{Text, Result, ok, err, ◌>>=◌, bind-ok, map_err_ok}
use agbox.Core.Privacy.{DisclosureClass}
use agbox.Core.Content.{ContentRef}
use agbox.Core.Activity.{ActivityEventV1}
use agbox.Workgraph.Reducer.{
  GraphMutation, CommittedEvent, ReducedFact, agent_run_started, agent_run_finished,
  session_context, artifact, action_requested_fact, action_finished_observed,
  eligible_verification_observed, verification, human_objective, human_constraint, agent_statement,
  nonempty,
}
use agbox.Workgraph.Reducer.Explains.{Explains, HumanSaid}
use agbox.Workgraph.Reducer.Provenance.{Cites, reduce-Cites}
use agbox.Workgraph.Reducer.Reduce.{reduce}
use agbox.Workgraph.Contract.{
  RedactionError, ProvisionalContract, ProvisionalContractBuilder, Services, MaterialDraft,
  ActionProjection, ProjectedText, ProjectedOutcome, from_previous,
}
use agbox.Workgraph.Contract.Actions.{
  Redact, safe_text, apply_action_facts, update_actions, project_action_fields, project_actions,
  project_action, project_request, project_command, project_outcome, bound_actions,
  clear_action_fields,
}
use agbox.Workgraph.Contract.Draft.{
  Candidate, candidate, candidates, latest, set_objective, set_constraints, set_summary,
  objective_candidate, constraint_candidate, statement_candidate, path_candidate, apply_text_facts,
  apply_artifact_facts, add_artifacts, add_artifact, normalize, bound_field_evidence,
  retain_field_evidence,
}
use agbox.Workgraph.Contract.Stored.{ok_eq}
use agbox.Workgraph.Contract.Build.{Previous, build, draft_of, conclude}
use agbox.Workgraph.Contract.Grounded.{build-ok, IsRevision, retained_of}
use agbox.Workgraph.Contract.Sources.{Gives, IsGiven, candidates-IsGiven, latest-All, some_eq}
mod Tests

-- The fact gives the objective.
abbrev pub Objective : Redact → Text → ReducedFact → Type 0
Objective redact text fact = Gives redact DisclosureClass.human_intent objective_candidate text fact

-- The objective is the one before, or a fact gives it.
abbrev pub Comes : Redact → List ReducedFact → MaterialDraft → MaterialDraft → Type 0
Comes redact facts d e =
    (e.objective ≡ d.objective)
    ⊎ ((text : Text) × (e.objective ≡ some text) × Any (Objective redact text) facts)

set_summary-objective :
    (o : Option Candidate) (d : MaterialDraft) → (set_summary o d).objective ≡ d.objective
set_summary-objective none d = refl
set_summary-objective (some c) d = refl

set_constraints-objective :
    (o : Option Candidate) (d : MaterialDraft) → (set_constraints o d).objective ≡ d.objective
set_constraints-objective none d = refl
set_constraints-objective (some c) d = refl

set_objective-Comes :
    (redact : Redact) (facts : List ReducedFact) (o : Option Candidate) (d : MaterialDraft)
    → ((c : Candidate) → o ≡ some c → Any (Objective redact c.text) facts)
    → Comes redact facts d (set_objective o d)
set_objective-Comes redact facts none d given = inl refl
set_objective-Comes redact facts (some c) d given = inr (c.text, refl, given c refl)

Comes-after :
    (redact : Redact) (facts : List ReducedFact) (d e f : MaterialDraft)
    → f.objective ≡ e.objective
    → Comes redact facts d e
    → Comes redact facts d f
Comes-after redact facts d e f same (inl h) = inl (same ∙ h)
Comes-after redact facts d e f same (inr (text, h, given)) = inr (text, same ∙ h, given)

apply_text_facts-Comes :
    (redact : Redact) (d e : MaterialDraft) (facts : List ReducedFact)
    → apply_text_facts redact d facts ≡ ok e
    → Comes redact facts d e
unfolding apply_text_facts
apply_text_facts-Comes redact d e facts h =
    let (objectives, o, h1) =
      bind-ok (candidates redact DisclosureClass.human_intent objective_candidate facts) _ e h in
    let (constraints, c, h2) =
      bind-ok (candidates redact DisclosureClass.human_intent constraint_candidate facts) _ e h1 in
    let (statements, s, h3) =
      bind-ok (candidates redact DisclosureClass.agent_statement statement_candidate facts) _ e
        h2 in
    let given =
      candidates-IsGiven redact DisclosureClass.human_intent objective_candidate facts objectives
        o in
    let changed = set_objective (latest objectives) d in
    subst (Comes redact facts d) (ok_eq _ e h3) (
      Comes-after redact facts d changed
        (set_summary (latest statements) (set_constraints (latest constraints) changed))
        (set_summary-objective (latest statements) (set_constraints (latest constraints) changed)
          ∙ set_constraints-objective (latest constraints) changed)
        (set_objective-Comes redact facts (latest objectives) d (λ c e.
          latest-All (IsGiven redact DisclosureClass.human_intent objective_candidate facts)
            objectives c given e)))

add_artifacts-objective :
    (d : MaterialDraft) (cs : List Candidate) → (add_artifacts d cs).objective ≡ d.objective
add_artifacts-objective d [] = refl
add_artifacts-objective d (c ∷ cs) = add_artifacts-objective (add_artifact d c) cs

apply_artifact_facts-objective :
    (redact : Redact) (d e : MaterialDraft) (facts : List ReducedFact)
    → apply_artifact_facts redact d facts ≡ ok e
    → e.objective ≡ d.objective
unfolding apply_artifact_facts
apply_artifact_facts-objective redact d e facts h =
    let (paths, p, f) =
      bind-ok (candidates redact DisclosureClass.observed_state path_candidate facts) _ e h in
    subst (λ (x : MaterialDraft). x.objective ≡ d.objective) (ok_eq _ e f)
      (add_artifacts-objective d paths)

project_request-objective :
    (finished : Bool) (request : Option ProjectedText) (d : MaterialDraft)
    → (project_request finished request d).objective ≡ d.objective
project_request-objective true request d = refl
project_request-objective false none d = refl
project_request-objective false (some request) d = refl

project_command-objective :
    (succeeded : Bool) (evidence : Text) (command : Option Text) (d : MaterialDraft)
    → (project_command succeeded evidence command d).objective ≡ d.objective
project_command-objective true evidence none d = refl
project_command-objective false evidence none d = refl
project_command-objective true evidence (some command) d = refl
project_command-objective false evidence (some command) d = refl

project_outcome-objective :
    (o : Option ProjectedOutcome) (d : MaterialDraft)
    → (project_outcome o d).objective ≡ d.objective
project_outcome-objective none d = refl
project_outcome-objective (some o) d = project_command-objective o.succeeded o.evidence o.command d

project_actions-objective :
    (actions : List (Text × ActionProjection)) (d : MaterialDraft)
    → (project_actions actions d).objective ≡ d.objective
unfolding project_actions
project_actions-objective [] d = refl
project_actions-objective ((key, action) ∷ actions) d =
    project_actions-objective actions (project_action action d)
    ∙ (project_outcome-objective action.authoritative
          (project_request action.finished action.request d)
        ∙ project_request-objective action.finished action.request d)

apply_action_facts-objective :
    (hash : Text → Text) (redact : Redact) (d e : MaterialDraft) (facts : List ReducedFact)
    → apply_action_facts hash redact d facts ≡ ok e
    → e.objective ≡ d.objective
unfolding apply_action_facts project_action_fields
apply_action_facts-objective hash redact d e facts h =
    let (p, u, f) = bind-ok (update_actions hash redact d.projection_state facts) _ e h in
    subst (λ (x : MaterialDraft). x.objective ≡ d.objective) (ok_eq _ e f)
      (project_actions-objective (bound_actions p).actions
        (clear_action_fields (record d { projection_state = bound_actions p })))

module _ (services : Services) where
  draft_of-Comes :
      (previous : Previous) (facts : List ReducedFact) (e : MaterialDraft)
      → draft_of services previous facts ≡ ok e
      → (redact : Redact) × (services.redact ≡ ok redact)
        × Comes redact facts (from_previous previous) e
  unfolding draft_of
  draft_of-Comes previous facts e h =
      let (redact, r, h1) = bind-ok services.redact _ e h in
      let (texts, t, h2) =
        bind-ok (apply_text_facts redact (from_previous previous) facts) _ e h1 in
      let (artifacts, a, h3) = bind-ok (apply_artifact_facts redact texts facts) _ e h2 in
      (
        redact,
        r,
        Comes-after redact facts (from_previous previous) texts e
            (apply_action_facts-objective services.hash redact artifacts e facts h3
              ∙ apply_artifact_facts-objective redact texts artifacts facts a)
            (apply_text_facts-Comes redact (from_previous previous) texts facts t),
      )

-- An event of the slice is a message of the human, disclosed as such, and the text is what the redaction
-- leaves of what it says.
abbrev pub Intends : Redact → List CommittedEvent → Text → Type 0
Intends redact slice text =
    (before : List CommittedEvent) × (c : CommittedEvent) × (after : List CommittedEvent) × (slice
      ≡ before ++ (c ∷ after))
    × (content : ContentRef) × HumanSaid c.event content
    × ((raw : Text) × (nonempty content.redacted_excerpt ≡ some raw)
        × (safe_text redact DisclosureClass.human_intent raw ≡ ok (some text)))

candidate-text :
    (o : Option Text) (time : ℕ) (evidence : Text) (raw : Candidate)
    → candidate o time evidence ≡ some raw
    → o ≡ some raw.text
candidate-text none time evidence raw h = absurd (ground arith)
candidate-text (some text) time evidence raw h =
    ap (λ (c : Candidate). some c.text) (some_eq _ raw h)

Objective-Intends :
    (redact : Redact) (slice : List CommittedEvent) (text : Text) (fact : ReducedFact)
    → Objective redact text fact
    → Cites slice fact
    → Intends redact slice text
Objective-Intends redact slice text (human_objective p hash o time evidence) (raw, e, safe)
      (before, c, after, split, x) =
    let (content, said, quotes) = x.1 in
    (
      before,
      c,
      after,
      split,
      content,
      said,
      (raw.text, sym quotes.1 ∙ candidate-text o time evidence raw e, safe),
    )
Objective-Intends redact slice text _ (raw, e, safe) cites = absurd (ground arith)

Any-Intends :
    (redact : Redact) (slice : List CommittedEvent) (text : Text) (facts : List ReducedFact)
    → Any (Objective redact text) facts
    → All (Cites slice) facts
    → Intends redact slice text
Any-Intends redact slice text [] given cites = absurd given
Any-Intends redact slice text (fact ∷ facts) (inl here) cites =
    Objective-Intends redact slice text fact here cites.0
Any-Intends redact slice text (fact ∷ facts) (inr more) cites =
    Any-Intends redact slice text facts more cites.1

revision-objective :
    (services : Services) (builder : ProvisionalContractBuilder) (previous : Previous)
    (fact : ReducedFact) (facts : List ReducedFact) (draft : MaterialDraft)
    (c : ProvisionalContract)
    → IsRevision services builder previous fact facts draft c
    → c.material.objective ≡ draft.objective
unfolding retain_field_evidence bound_field_evidence conclude normalize
revision-objective services builder previous fact facts draft c r =
    ap (λ (x : ProvisionalContract). x.material.objective) r.is_built

facts-Intends :
    (services : Services) (builder : ProvisionalContractBuilder) (previous : Previous)
    (slice : List CommittedEvent) (facts : List ReducedFact) (c : ProvisionalContract)
    → All (Cites slice) facts
    → build services builder previous facts ≡ ok c
    → (previous ≡ some c)
      ⊎ ((c.material.objective ≡ (from_previous previous).objective)
          ⊎ ((redact : Redact) × (text : Text) × (services.redact ≡ ok redact)
              × (c.material.objective ≡ some text)
              × Intends redact slice text))
unfolding build
facts-Intends services builder none slice [] c cites h = absurd (ground arith)
facts-Intends services builder (some p) slice [] c cites h = inl cc
facts-Intends services builder previous slice (fact ∷ facts) c cites h =
    elim (build-ok services builder previous fact facts c h) [
      | inl known ↦ inl known
      | inr (draft, drafted, r) ↦
          let (redact, e, comes) = draft_of-Comes services previous (fact ∷ facts) draft drafted in
          let same = revision-objective services builder previous fact facts draft c r in
          elim comes [
            | inl kept ↦ inr (inl (same ∙ kept))
            | inr (text, o, given) ↦ inr (
                inr (
                  redact,
                  text,
                  e,
                  same ∙ o,
                  Any-Intends redact slice text (fact ∷ facts) given cites,
                ))
          ]
    ]

-- When a slice of events is reduced and a contract is built from the facts, a new revision has the
-- objective of the previous one, or else an objective that is what the redaction leaves of a
-- message in the slice, by the human and disclosed as human intent. No agent and no tool sets it.
pub reduce-build-Intends :
    (serialized_length : ActivityEventV1 → Option ℕ) (services : Services)
    (builder : ProvisionalContractBuilder) (previous : Previous) (slice : List CommittedEvent)
    (m : GraphMutation) (c : ProvisionalContract)
    → reduce serialized_length slice ≡ ok m
    → build services builder previous m.facts ≡ ok c
    → (previous ≡ some c)
      ⊎ ((c.material.objective ≡ (from_previous previous).objective)
          ⊎ ((redact : Redact) × (text : Text) × (services.redact ≡ ok redact)
              × (c.material.objective ≡ some text)
              × Intends redact slice text))
reduce-build-Intends serialized_length services builder previous slice m c h k =
    facts-Intends services builder previous slice m.facts c
      (reduce-Cites serialized_length slice m h) k
