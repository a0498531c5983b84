-- ===== src/Workgraph/Contract/Draft.antt =====
-- The texts and the evidence of a draft. `sort` then `dedup` gives the sorted list without repetition, `set_of`.
use agbox.Common.{
  ℕ, Bool, true, false, not, ◌&&◌, ◌||◌, Option, none, some, List, [], ◌∷◌, ◌++◌, length, ◌==◌,
  if◌then◌else◌, take, all, is_some,
}
use agbox.Core.Base.{
  Text, Result, ok, ◌>>=◌, refuse, max_contract_evidence_refs, max_contract_items_per_field,
}
use agbox.Core.Privacy.{DisclosureClass}
use agbox.Workgraph.Correlate.{set_of, contains, bounded_unique}
use agbox.Workgraph.Reducer.{
  ReducedFact, artifact, human_objective, human_constraint, agent_statement,
}
use agbox.Workgraph.Contract.{
  RedactionError, ContractBuildError, missing_field_evidence, ContractField, FieldEvidence,
  MaterialDraft, all_fields, filled,
}
use agbox.Workgraph.Contract.Actions.{Redact, safe_text, later, set_field, cite}

pub record Candidate : Type 0 where
  pub text : Text
  pub observed_at : ℕ
  pub evidence : Text

abbrev pub candidate : Option Text → ℕ → Text → Option Candidate
candidate none observed_at evidence = none
candidate (some text) observed_at evidence =
    some (record { text = text; observed_at = observed_at; evidence = evidence })

abbrev pub objective_candidate : ReducedFact → Option Candidate
objective_candidate (human_objective _ _ text observed_at evidence) =
    candidate text observed_at evidence
objective_candidate _ = none

abbrev pub constraint_candidate : ReducedFact → Option Candidate
constraint_candidate (human_constraint _ _ text observed_at evidence) =
    candidate text observed_at evidence
constraint_candidate _ = none

abbrev pub statement_candidate : ReducedFact → Option Candidate
statement_candidate (agent_statement _ _ text observed_at evidence) =
    candidate text observed_at evidence
statement_candidate _ = none

abbrev pub path_candidate : ReducedFact → Option Candidate
path_candidate (artifact _ _ _ path _ _ observed_at evidence) = candidate path observed_at evidence
path_candidate _ = none

abbrev pub push_safe :
    Candidate
    → Option Text
    → Result RedactionError (List Candidate)
    → Result RedactionError (List Candidate)
push_safe c none rest = rest
push_safe c (some text) rest = rest >>= λ cs. ok (record c { text = text } ∷ cs)

abbrev pub push_candidate :
    Redact
    → DisclosureClass
    → Option Candidate
    → Result RedactionError (List Candidate)
    → Result RedactionError (List Candidate)
push_candidate redact class none rest = rest
push_candidate redact class (some c) rest =
    safe_text redact class c.text >>= λ text. push_safe c text rest

-- The candidates among the facts, with their texts made safe, or the first error.
unfoldable pub candidates :
    Redact
    → DisclosureClass
    → (ReducedFact → Option Candidate)
    → List ReducedFact
    → Result RedactionError (List Candidate)
candidates redact class select [] = ok []
candidates redact class select (fact ∷ facts) =
    let rest = candidates redact class select facts in
    push_candidate redact class (select fact) rest

-- `max_by`, which returns the last of equals.
abbrev pub later_of : Candidate → Option Candidate → Candidate
later_of c none = c
later_of c (some d) = if later c.observed_at c.evidence d.observed_at d.evidence then c else d

abbrev pub latest : List Candidate → Option Candidate
latest [] = none
latest (c ∷ cs) = some (later_of c (latest cs))

abbrev pub set_objective : Option Candidate → MaterialDraft → MaterialDraft
set_objective none d = d
set_objective (some c) d = record d {
  objective = some c.text;
  field_evidence = set_field ContractField.objective (some (c.evidence ∷ [])) d.field_evidence;
}

abbrev pub set_constraints : Option Candidate → MaterialDraft → MaterialDraft
set_constraints none d = d
set_constraints (some c) d = record d {
  constraints = c.text ∷ [];
  field_evidence = set_field ContractField.constraints (some (c.evidence ∷ [])) d.field_evidence;
}

abbrev pub set_summary : Option Candidate → MaterialDraft → MaterialDraft
set_summary none d = d
set_summary (some c) d = record d {
  summary = c.text;
  field_evidence = set_field ContractField.summary (some (c.evidence ∷ [])) d.field_evidence;
}

unfoldable pub apply_text_facts :
    Redact → MaterialDraft → List ReducedFact → Result RedactionError MaterialDraft
unfolding candidates
apply_text_facts redact d facts = do
  objectives ← candidates redact DisclosureClass.human_intent objective_candidate facts
  constraints ← candidates redact DisclosureClass.human_intent constraint_candidate facts
  statements ← candidates redact DisclosureClass.agent_statement statement_candidate facts
  ok (
      set_summary (latest statements)
        (set_constraints (latest constraints) (set_objective (latest objectives) d)))

abbrev pub add_artifact : MaterialDraft → Candidate → MaterialDraft
add_artifact d c = record d {
  artifacts = d.artifacts ++ (c.text ∷ []);
  field_evidence = cite ContractField.artifacts c.evidence d.field_evidence;
}

abbrev pub add_artifacts : MaterialDraft → List Candidate → MaterialDraft
add_artifacts d [] = d
add_artifacts d (c ∷ cs) = add_artifacts (add_artifact d c) cs

unfoldable pub apply_artifact_facts :
    Redact → MaterialDraft → List ReducedFact → Result RedactionError MaterialDraft
unfolding candidates
apply_artifact_facts redact d facts =
    candidates redact DisclosureClass.observed_state path_candidate facts >>= λ paths.
    ok (add_artifacts d paths)

unfoldable pub bounded_items : List Text → List Text
bounded_items values = take max_contract_items_per_field (set_of values)

abbrev pub nonempty_references : List Text → Option (List Text)
nonempty_references [] = none
nonempty_references (r ∷ references) = some (r ∷ references)

abbrev pub sorted_references : Option (List Text) → Option (List Text)
sorted_references none = none
sorted_references (some references) = nonempty_references (set_of references)

unfoldable pub normalize : MaterialDraft → MaterialDraft
unfolding bounded_items
normalize d = record d {
  completed_steps = bounded_items d.completed_steps;
  next_actions = bounded_items d.next_actions;
  blockers = bounded_items d.blockers;
  constraints = bounded_items d.constraints;
  completion_criteria = bounded_items d.completion_criteria;
  artifacts = bounded_items d.artifacts;
  verification = bounded_items d.verification;
  field_evidence = λ field. sorted_references (d.field_evidence field);
}

abbrev pub bounded_references : Option (List Text) → Option (List Text)
bounded_references none = none
bounded_references (some references) = some (take max_contract_evidence_refs (set_of references))

unfoldable pub bound_field_evidence : MaterialDraft → MaterialDraft
bound_field_evidence d = record d {
  field_evidence = λ field. bounded_references (d.field_evidence field);
}

unfoldable pub bounded_provenance : List Text → List Text × Bool
bounded_provenance evidence = bounded_unique evidence max_contract_evidence_refs

abbrev pub first_reference : Option (List Text) → List Text
first_reference none = []
first_reference (some []) = []
first_reference (some (r ∷ references)) = r ∷ []

abbrev pub any_references : Option (List Text) → List Text
any_references none = []
any_references (some references) = references

abbrev pub gather : (ContractField → List Text) → List ContractField → List Text
gather f [] = []
gather f (field ∷ fields) = f field ++ gather f fields

-- The loop that fills `retained` up to the bound.
unfoldable pub fill : List Text → List Text → List Text
fill retained [] = retained
fill retained (evidence ∷ remaining) =
    if length retained == max_contract_evidence_refs
    then retained
    else fill (if contains evidence retained then retained else retained ++ (evidence ∷ []))
        remaining

abbrev pub keep_known : List Text → List Text → List Text
keep_known known [] = []
keep_known known (r ∷ references) =
    let rest = keep_known known references in if contains r known then r ∷ rest else rest

abbrev pub known_references : List Text → Option (List Text) → Option (List Text)
known_references known none = none
known_references known (some references) = some (keep_known known references)

unfoldable pub retained_evidence : FieldEvidence → List Text → List Text
unfolding fill
retained_evidence evidence provenance = set_of (
    fill (set_of (gather (λ field. first_reference (evidence field)) all_fields))
      (set_of (gather (λ field. any_references (evidence field)) all_fields ++ provenance)))

-- The draft and the evidence that `retain_field_evidence` leaves and returns.
unfoldable pub retain_field_evidence : MaterialDraft → List Text → MaterialDraft × List Text
unfolding retained_evidence
retain_field_evidence d provenance =
    let retained = retained_evidence d.field_evidence provenance in
    (
      record d { field_evidence = λ field. known_references retained (d.field_evidence field) },
      retained,
    )

abbrev pub is_required : MaterialDraft → ContractField → Bool
is_required d ContractField.objective = is_some d.objective
is_required d ContractField.status = true
is_required d ContractField.summary = filled d.summary
is_required d ContractField.completed_steps = filled d.completed_steps
is_required d ContractField.next_actions = filled d.next_actions
is_required d ContractField.blockers = filled d.blockers
is_required d ContractField.constraints = filled d.constraints
is_required d ContractField.completion_criteria = filled d.completion_criteria
is_required d ContractField.artifacts = filled d.artifacts
is_required d ContractField.verification = filled d.verification

abbrev pub cites_known : List Text → Option (List Text) → Bool
cites_known known none = false
cites_known known (some references) = filled references && all (λ r. contains r known) references

abbrev pub field_is_cited : MaterialDraft → List Text → ContractField → Bool
field_is_cited d known field =
    not (is_required d field) || cites_known known (d.field_evidence field)

unfoldable pub validate_field_evidence :
    MaterialDraft → List Text → Result ContractBuildError (Unit {0})
validate_field_evidence d known =
    refuse (not (all (field_is_cited d known) all_fields)) missing_field_evidence
