-- ===== src/Core/Contract/Revisions.antt =====
-- Which drafts become a revision of a work contract.
use agbox.Common.{
  ℕ, ◌≡◌, ◌≤◌, ◌<◌, ◌↔◌, refl, true, Option, none, some, List, [], ◌∷◌, length, arith, all, All,
}
use Prim.Native.String.{String}
use agbox.Core.Base.{
  Text, ok, max_inline_bytes, max_contract_evidence_refs, max_contract_items_per_field,
  max_contract_source_runs, max_contract_serialized_bytes,
}
use agbox.Core.Privacy.{
  DisclosureClass, RedactedText, is_transferable, same_class-eq, same_class_self,
}
use agbox.Core.Contract.{
  WorkContractRevision, WorkContractRevisionDraft, validate_text_list, validate_texts,
  validate_text, validate_optional_text, objective_matches, validate_lists, validate_metadata,
  validate, validate_draft_disclosure, revision_of, draft_texts, class_is, new, validate_serialized,
}

abbrev pub IsShort : Text → Type 0
IsShort t = length t ≤ max_inline_bytes

abbrev pub IsShortList : List Text → Type 0
IsShortList ts = (length ts ≤ max_contract_items_per_field) × All IsShort ts

abbrev pub AllShort : Option Text → Type 0
AllShort none = Unit
AllShort (some t) = IsShort t

validate_optional_text-eq-ok :
    (o : Option Text) → (validate_optional_text "objective" o ≡ ok tt) ↔ AllShort o
unfolding validate_text
validate_optional_text-eq-ok none = (λ h. tt, λ h. refl)
validate_optional_text-eq-ok (some t) = (λ h. ground arith, λ h. ground arith)

validate_texts-eq-ok :
    (field : String) (ts : List Text) → (validate_texts field ts ≡ ok tt) ↔ All IsShort ts
unfolding validate_texts
validate_texts-eq-ok field [] = (λ h. tt, λ h. refl)
validate_texts-eq-ok field (t ∷ ts) = (
  λ h. (ground arith, (validate_texts-eq-ok field ts).0 (ground arith)),
  λ h. ground (arith, (validate_texts-eq-ok field ts).1 h.1),
)

validate_text_list-eq-ok :
    (field : String) (ts : List Text) → (validate_text_list field ts ≡ ok tt) ↔ IsShortList ts
unfolding validate_text_list
validate_text_list-eq-ok field ts = (
  λ h. (ground arith, (validate_texts-eq-ok field ts).0 (ground arith)),
  λ h. ground (arith, (validate_texts-eq-ok field ts).1 h.1),
)

pub record ListsFit (r : WorkContractRevision) : Type 0 where
  pub completed_steps : IsShortList r.completed_steps
  pub next_actions : IsShortList r.next_actions
  pub blockers : IsShortList r.blockers
  pub constraints : IsShortList r.constraints
  pub completion_criteria : IsShortList r.completion_criteria
  pub artifacts : IsShortList r.artifacts
  pub verification : IsShortList r.verification

validate_lists-eq-ok : (r : WorkContractRevision) → (validate_lists r ≡ ok tt) ↔ ListsFit r
unfolding validate_lists
validate_lists-eq-ok r = (
  λ h. record {
    completed_steps =
        (validate_text_list-eq-ok "completed_steps" r.completed_steps).0 (ground arith);
    next_actions = (validate_text_list-eq-ok "next_actions" r.next_actions).0 (ground arith);
    blockers = (validate_text_list-eq-ok "blockers" r.blockers).0 (ground arith);
    constraints = (validate_text_list-eq-ok "constraints" r.constraints).0 (ground arith);
    completion_criteria =
        (validate_text_list-eq-ok "completion_criteria" r.completion_criteria).0 (ground arith);
    artifacts = (validate_text_list-eq-ok "artifacts" r.artifacts).0 (ground arith);
    verification = (validate_text_list-eq-ok "verification" r.verification).0 (ground arith);
  },
  λ v. ground (
    arith,
    (validate_text_list-eq-ok "completed_steps" r.completed_steps).1 v.completed_steps,
    (validate_text_list-eq-ok "next_actions" r.next_actions).1 v.next_actions,
    (validate_text_list-eq-ok "blockers" r.blockers).1 v.blockers,
    (validate_text_list-eq-ok "constraints" r.constraints).1 v.constraints,
    (validate_text_list-eq-ok "completion_criteria" r.completion_criteria).1 v.completion_criteria,
    (validate_text_list-eq-ok "artifacts" r.artifacts).1 v.artifacts,
    (validate_text_list-eq-ok "verification" r.verification).1 v.verification,
  ),
)

pub record IsValid (serialized_length : WorkContractRevision → Option ℕ) (r : WorkContractRevision)
    : Type 0 where
  pub objective : AllShort r.objective
  pub summary : IsShort r.summary
  pub lists : ListsFit r
  pub extractor_version : IsShort r.extractor_version
  pub source_runs : length r.source_runs ≤ max_contract_source_runs
  pub evidence : 0 < length r.evidence_refs
  pub evidence_bound : length r.evidence_refs ≤ max_contract_evidence_refs
  pub confidence : r.confidence_basis_points ≤ 10_000
  pub transferable : is_transferable r.disclosure_class ≡ true
  pub serialized :
      (bytes : ℕ) × (serialized_length r ≡ some bytes) × (bytes ≤ max_contract_serialized_bytes)

serialized-eq-ok :
    (o : Option ℕ)
    → validate_serialized o ≡ ok tt
    → (bytes : ℕ) × (o ≡ some bytes) × (bytes ≤ max_contract_serialized_bytes)
serialized-eq-ok none h = cc
serialized-eq-ok (some n) h = (n, refl, ground arith)

-- A revision is valid exactly if its texts, its lists, its source runs, its evidence, its confidence and its
-- JSON text keep their bounds, it cites evidence and its class may be transferred.
pub validate-eq-ok :
    (serialized_length : WorkContractRevision → Option ℕ) (r : WorkContractRevision)
    → (validate serialized_length r ≡ ok tt) ↔ IsValid serialized_length r
unfolding validate validate_metadata validate_text
validate-eq-ok serialized_length r = (
  λ h. record {
    objective = (validate_optional_text-eq-ok r.objective).0 (ground arith);
    summary = ground arith;
    lists = (validate_lists-eq-ok r).0 (ground arith);
    extractor_version = ground arith;
    source_runs = ground arith;
    evidence = ground arith;
    evidence_bound = ground arith;
    confidence = ground arith;
    transferable = ground arith;
    serialized = serialized-eq-ok (serialized_length r) (ground arith);
  },
  λ v. ground (
    arith,
    (validate_optional_text-eq-ok r.objective).1 v.objective,
    (validate_lists-eq-ok r).1 v.lists,
  ),
)

abbrev pub HasClass : DisclosureClass → RedactedText → Type 0
HasClass class t = t.disclosure_class ≡ class

abbrev pub ObjectiveHasClass : DisclosureClass → Option RedactedText → Type 0
ObjectiveHasClass class none = Unit
ObjectiveHasClass class (some t) = HasClass class t

-- Every text of the draft was redacted under the class that the draft declares.
pub record IsOfOneClass (d : WorkContractRevisionDraft) : Type 0 where
  pub transferable : is_transferable d.disclosure_class ≡ true
  pub objective : ObjectiveHasClass d.disclosure_class d.objective
  pub summary : HasClass d.disclosure_class d.summary
  pub texts : All (HasClass d.disclosure_class) (draft_texts d)

class_is-all :
    (class : DisclosureClass) (ts : List RedactedText)
    → (all (class_is class) ts ≡ true) ↔ All (HasClass class) ts
class_is-all class [] = (λ h. tt, λ h. refl)
class_is-all class (t ∷ ts) = (
  λ h. (
    same_class-eq t.disclosure_class class (ground arith),
    (class_is-all class ts).0 (ground arith),
  ),
  λ h. ground (arith, (class_is-all class ts).1 h.1, same_class_self class),
)

objective_matches-class :
    (class : DisclosureClass) (o : Option RedactedText)
    → (objective_matches class o ≡ true) ↔ ObjectiveHasClass class o
objective_matches-class class none = (λ h. tt, λ h. refl)
objective_matches-class class (some t) =
    (λ h. same_class-eq t.disclosure_class class h, λ h. ground (arith, same_class_self class))

disclosure-eq-ok :
    (d : WorkContractRevisionDraft) → (validate_draft_disclosure d ≡ ok tt) ↔ IsOfOneClass d
unfolding validate_draft_disclosure
disclosure-eq-ok d = (
  λ h. record {
    transferable = ground arith;
    objective = (objective_matches-class d.disclosure_class d.objective).0 (ground arith);
    summary = same_class-eq d.summary.disclosure_class d.disclosure_class (ground arith);
    texts = (class_is-all d.disclosure_class (draft_texts d)).0 (ground arith);
  },
  λ v. ground (
    arith,
    (objective_matches-class d.disclosure_class d.objective).1 v.objective,
    (class_is-all d.disclosure_class (draft_texts d)).1 v.texts,
    same_class_self d.disclosure_class,
  ),
)

-- `WorkContractRevision::new` succeeds exactly on drafts all of whose texts were redacted under the draft's
-- own transferable class and whose revision keeps every bound; the revision then holds the texts of
-- the draft and its other fields unchanged.
pub new-eq-ok :
    (serialized_length : WorkContractRevision → Option ℕ) (d : WorkContractRevisionDraft)
    (r : WorkContractRevision)
    → (new serialized_length d ≡ ok r)
      ↔ (IsOfOneClass d × IsValid serialized_length (revision_of d) × (r ≡ revision_of d))
unfolding new
new-eq-ok serialized_length d r = (
  λ h. (
    (disclosure-eq-ok d).0 (ground arith),
    (validate-eq-ok serialized_length (revision_of d)).0 (ground arith),
    ground arith,
  ),
  λ (c, v, e).
      ground
        (arith, (disclosure-eq-ok d).1 c, (validate-eq-ok serialized_length (revision_of d)).1 v),
)
