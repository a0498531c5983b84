-- ===== src/Workgraph/Contract/Citations.antt =====
-- What the evidence of a new revision's fields is checked for.
use agbox.Common.{
  suc, ◌≡◌, ◌≢◌, ◌≤◌, refl, Bool, true, Option, none, some, List, [], ◌∷◌, ◌++◌, length,
  length-append, ◌==◌, if◌then◌else◌, all, All, arith, is_some, if_cases,
}
use agbox.Core.Base.{Text, ok, max_contract_evidence_refs}
use agbox.Workgraph.Correlate.{set_of, set_insert, contains}
use agbox.Workgraph.Contract.{
  ContractField, objective, status, summary, completed_steps, next_actions, blockers, constraints,
  completion_criteria, artifacts, verification, MaterialDraft, FieldEvidence, all_fields, filled,
  filled_option, is_filled, select,
}
use agbox.Workgraph.Contract.Draft.{
  is_required, field_is_cited, cites_known, validate_field_evidence, first_reference, gather, fill,
  retained_evidence, any_references,
}

-- The field has evidence, and all of it is known.
abbrev pub Cites : List Text → FieldEvidence → ContractField → Type 0
Cites known evidence field =
    (references : List Text) × (evidence field ≡ some references)
    × (references ≢ [])
    × (all (λ r. contains r known) references ≡ true)

cites_known-Cites :
    (known : List Text) (o : Option (List Text))
    → cites_known known o ≡ true
    → (references : List Text) × (o ≡ some references)
      × (references ≢ [])
      × (all (λ r. contains r known) references ≡ true)
cites_known-Cites known none h = absurd (ground arith)
cites_known-Cites known (some []) h = absurd (ground arith)
cites_known-Cites known (some (r ∷ references)) h = (r ∷ references, refl, λ e. cc, ground arith)

filled_option-is_some : (o : Option Text) → filled_option o ≡ true → is_some o ≡ true
filled_option-is_some none h = h
filled_option-is_some (some text) h = refl

required_of_filled :
    (d : MaterialDraft) (field : ContractField)
    → is_filled d field ≡ true
    → is_required d field ≡ true
required_of_filled d objective h = filled_option-is_some d.objective h
required_of_filled d status h = refl
required_of_filled d summary h = h
required_of_filled d completed_steps h = h
required_of_filled d next_actions h = h
required_of_filled d blockers h = h
required_of_filled d constraints h = h
required_of_filled d completion_criteria h = h
required_of_filled d artifacts h = h
required_of_filled d verification h = h

all-fields :
    (p : ContractField → Bool) → all p all_fields ≡ true → (field : ContractField) → p field ≡ true
all-fields p h objective = ground arith
all-fields p h status = ground arith
all-fields p h summary = ground arith
all-fields p h completed_steps = ground arith
all-fields p h next_actions = ground arith
all-fields p h blockers = ground arith
all-fields p h constraints = ground arith
all-fields p h completion_criteria = ground arith
all-fields p h artifacts = ground arith
all-fields p h verification = ground arith

pub select-All :
    (p : ContractField → Bool) (P : ContractField → Type 0) (fields : List ContractField)
    → ((field : ContractField) → p field ≡ true → P field)
    → All P (select p fields)
select-All p P [] h = tt
select-All p P (field ∷ fields) h =
    if_cases (All P) (p field) (field ∷ select p fields) (select p fields)
      (λ e. (h field e, select-All p P fields h)) (λ e. select-All p P fields h)

-- A required field of a draft that `validate_field_evidence` accepts has evidence, all of it known.
pub validate_field_evidence-Cites :
    (d : MaterialDraft) (known : List Text)
    → validate_field_evidence d known ≡ ok tt
    → (field : ContractField) → is_filled d field ≡ true
    → Cites known d.field_evidence field
unfolding validate_field_evidence
validate_field_evidence-Cites d known h field filled =
    let cited = all-fields (field_is_cited d known) (ground arith) field in
    let required = required_of_filled d field filled in
    cites_known-Cites known (d.field_evidence field) (ground arith)

length-set_insert-le :
    (value : Text) (values : List Text) → length (set_insert value values) ≤ suc (length values)
length-set_insert-le value [] = omega arith
length-set_insert-le value (v ∷ values) = ground (arith, length-set_insert-le value values)

length-set_of-le : (values : List Text) → length (set_of values) ≤ length values
length-set_of-le [] = omega arith
length-set_of-le (v ∷ values) =
    omega (arith, length-set_of-le values, length-set_insert-le v (set_of values))

length-first_reference-le : (o : Option (List Text)) → length (first_reference o) ≤ 1
length-first_reference-le none = omega arith
length-first_reference-le (some []) = omega arith
length-first_reference-le (some (r ∷ references)) = omega arith

length-gather-le :
    (f : ContractField → List Text) (fields : List ContractField)
    → ((field : ContractField) → length (f field) ≤ 1)
    → length (gather f fields) ≤ length fields
length-gather-le f [] h = omega arith
length-gather-le f (field ∷ fields) h =
    omega (arith, h field, length-gather-le f fields h, length-append (f field) (gather f fields))

length-fill-le :
    (retained remaining : List Text)
    → length retained ≤ max_contract_evidence_refs
    → length (fill retained remaining) ≤ max_contract_evidence_refs
unfolding fill
length-fill-le retained [] le = le
length-fill-le retained (evidence ∷ remaining) le =
    if_cases (λ (values : List Text). length values ≤ max_contract_evidence_refs)
      (length retained == max_contract_evidence_refs) retained
      (fill (if contains evidence retained then retained else retained ++ (evidence ∷ []))
        remaining)
      (λ e. le)
      (λ e.
        length-fill-le
          (if contains evidence retained then retained else retained ++ (evidence ∷ [])) remaining
          (if_cases (λ (values : List Text). length values ≤ max_contract_evidence_refs)
            (contains evidence retained) retained (retained ++ (evidence ∷ [])) (λ c. le)
            (λ c. ground (arith, length-append retained (evidence ∷ [])))))

-- At most as much evidence is retained as a contract may have.
pub length-retained_evidence-le :
    (evidence : FieldEvidence) (provenance : List Text)
    → length (retained_evidence evidence provenance) ≤ max_contract_evidence_refs
unfolding retained_evidence
length-retained_evidence-le evidence provenance =
    let firsts : List Text = gather (λ field. first_reference (evidence field)) all_fields in
    let others : List Text =
      set_of (gather (λ field. any_references (evidence field)) all_fields ++ provenance) in
    let few =
      length-gather-le (λ field. first_reference (evidence field)) all_fields
        (λ field. length-first_reference-le (evidence field)) in
    omega (
      arith,
      length-set_of-le (fill (set_of firsts) others),
      length-fill-le (set_of firsts) others (omega (arith, few, length-set_of-le firsts)),
    )
