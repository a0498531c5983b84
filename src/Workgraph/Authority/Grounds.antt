-- ===== src/Workgraph/Authority/Grounds.antt =====
-- What stands behind each assertion that the policy keeps.
use agbox.Common.{
  ◌≡◌, ap, ◌≤◌, ◌⊎◌, inl, inr, Bool, true, false, Option, none, some, List, [], ◌∷◌, All, Any, any,
  arith, refl, Bool-cases, Option-cases, subst,
}
use agbox.Common.Assoc.{lookup}
use agbox.Core.Base.{Text, Text-discrete, same_text}
use agbox.Core.Privacy.{Authority, authority_rank, DisclosureClass, same_class-eq}
use agbox.Core.Strings.{is_blank}
use agbox.Workgraph.Authority.{
  ProposedAssertion, SemanticPolicy, AuthorityEvidence, normalize_text, is_supported_field,
  is_instruction_field, allowed_for_field, effective_authority, matches_human_intent,
  disclosure_matches_authority, usable_authority, other_project, quotes, strongest, is_human_intent,
}

abbrev pub InScope : Option Text → Option Text → Type 0
InScope none project = Unit
InScope (some scope) project = project ≡ some scope

-- The cited evidence is known, of the policy's project, and disclosed as its authority asks.
pub record Usable (policy : SemanticPolicy) (authority : Authority) (id : Text) : Type 0 where
  pub evidence : AuthorityEvidence
  pub known : lookup Text-discrete id policy.evidence ≡ some evidence
  pub in_scope : InScope policy.project_id evidence.project_id
  pub disclosed : disclosure_matches_authority authority evidence.disclosure_class ≡ true
  pub authority_of : evidence.authority ≡ authority

-- A statement of the human that says the value, up to white space.
pub record Quoted (policy : SemanticPolicy) (said : Text) (id : Text) : Type 0 where
  pub evidence : AuthorityEvidence
  pub known : lookup Text-discrete id policy.evidence ≡ some evidence
  pub authority_of : evidence.authority ≡ Authority.human_intent
  pub disclosed : evidence.disclosure_class ≡ DisclosureClass.human_intent
  pub says : normalize_text evidence.excerpt ≡ said

abbrev pub AtMost : SemanticPolicy → Authority → Text → Type 0
AtMost policy authority id =
    (b : Authority) × Usable policy b id × (authority_rank b ≤ authority_rank authority)

pub record IsGrounded (policy : SemanticPolicy) (a : ProposedAssertion) : Type 0 where
  pub supported : is_supported_field a.field ≡ true
  pub allowed : allowed_for_field a.field a.authority ≡ true
  pub says_something : is_blank a.value ≡ false
  -- Every citation is usable, the strongest of them has the authority of the assertion.
  pub citations : All (AtMost policy a.authority) a.evidence_refs
  pub strongest : Any (Usable policy a.authority) a.evidence_refs
  pub quoted :
      (is_instruction_field a.field ≡ false)
      ⊎ Any (Quoted policy (normalize_text a.value)) a.evidence_refs

same_text-eq : (s t : Text) → same_text s t ≡ true → s ≡ t
same_text-eq s t h = ground arith

other_project-InScope :
    (scope project : Option Text) → other_project scope project ≡ false → InScope scope project
other_project-InScope none project h = tt
other_project-InScope (some s) none h = ground arith
other_project-InScope (some s) (some p) h = ap some (same_text-eq p s (ground arith))

usable-some :
    (policy : SemanticPolicy) (id : Text) (authority : Authority)
    → usable_authority policy (lookup Text-discrete id policy.evidence) ≡ some authority
    → Usable policy authority id
usable-some policy id authority h = elim (Option-cases (lookup Text-discrete id policy.evidence)) [
  | inl e ↦ ground arith
  | inr (x, e) ↦ record {
    evidence = x;
    known = e;
    in_scope = other_project-InScope policy.project_id x.project_id (ground arith);
    disclosed = ground arith;
    authority_of = ground arith;
  }
]

is_human_intent-eq : (a : Authority) → is_human_intent a ≡ true → a ≡ Authority.human_intent
is_human_intent-eq a h = ground arith

quotes-some :
    (policy : SemanticPolicy) (said id : Text)
    → quotes said (lookup Text-discrete id policy.evidence) ≡ true
    → Quoted policy said id
quotes-some policy said id h = elim (Option-cases (lookup Text-discrete id policy.evidence)) [
  | inl e ↦ ground arith
  | inr (x, e) ↦ record {
    evidence = x;
    known = e;
    authority_of = is_human_intent-eq x.authority (ground arith);
    disclosed = same_class-eq x.disclosure_class DisclosureClass.human_intent (ground arith);
    says = same_text-eq (normalize_text x.excerpt) said (ground arith);
  }
]

any-Any :
    {A : Type 0} (p : A → Bool) (P : A → Type 0) (f : (a : A) → p a ≡ true → P a) (xs : List A)
    → any p xs ≡ true
    → Any P xs
any-Any p P f [] h = ground arith
any-Any p P f (x ∷ xs) h = elim (Bool-cases (p x)) [
  | inl e ↦ inl (f x e)
  | inr e ↦ inr (any-Any p P f xs (ground arith))
]

AtMost-weaken :
    (policy : SemanticPolicy) (a b : Authority) (ids : List Text)
    → authority_rank a ≤ authority_rank b
    → All (AtMost policy a) ids
    → All (AtMost policy b) ids
AtMost-weaken policy a b [] le h = tt
AtMost-weaken policy a b (id ∷ ids) le ((c, u, at_most), rest) =
    ((c, u, omega arith), AtMost-weaken policy a b ids le rest)

strongest-cases :
    (x y : Option Authority) (a : Authority)
    → strongest x y ≡ some a
    → (b : Authority) × (c : Authority) × (x ≡ some b)
      × (y ≡ some c)
      × (authority_rank b ≤ authority_rank a)
      × (authority_rank c ≤ authority_rank a)
      × ((b ≡ a) ⊎ (c ≡ a))
strongest-cases none y a h = ground arith
strongest-cases (some b) none a h = ground arith
strongest-cases (some b) (some c) a h = (b, c, refl, refl, ground arith, ground arith, ground arith)

pub effective_authority-grounds :
    (policy : SemanticPolicy) (ids : List Text) (a : Authority)
    → effective_authority policy ids ≡ some a
    → All (AtMost policy a) ids × Any (Usable policy a) ids
unfolding effective_authority
effective_authority-grounds policy [] a h = ground arith
effective_authority-grounds policy (id ∷ []) a h =
    let u = usable-some policy id a h in (((a, u, omega arith), tt), inl u)
effective_authority-grounds policy (id ∷ next ∷ ids) a h =
    let (b, c, hb, hc, lb, lc, which) =
      strongest-cases (usable_authority policy (lookup Text-discrete id policy.evidence))
        (effective_authority policy (next ∷ ids)) a h in
    let (weaker, rest) = effective_authority-grounds policy (next ∷ ids) c hc in
    (
      ((b, usable-some policy id b hb, lb), AtMost-weaken policy c a (next ∷ ids) lc weaker),
      elim which [
        | inl e ↦ inl (subst (λ x. Usable policy x id) e (usable-some policy id b hb))
        | inr e ↦ inr (subst (λ x. Any (Usable policy x) (next ∷ ids)) e rest)
      ],
    )

pub matches_human_intent-Quoted :
    (policy : SemanticPolicy) (p : ProposedAssertion)
    → matches_human_intent policy p ≡ true
    → Any (Quoted policy (normalize_text p.value)) p.evidence_refs
unfolding matches_human_intent
matches_human_intent-Quoted policy p h =
    any-Any (λ id. quotes (normalize_text p.value) (lookup Text-discrete id policy.evidence))
      (Quoted policy (normalize_text p.value)) (quotes-some policy (normalize_text p.value))
      p.evidence_refs (ground arith)
