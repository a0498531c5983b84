-- ===== src/Workgraph/Authority/Kept.antt =====
-- What `SemanticPolicy::validate` returns is grounded in the evidence.
use agbox.Common.{
  ◌≡◌, inl, inr, some, List, [], ◌∷◌, map, All, arith, refl, Bool-cases, Option-cases, subst, sym,
}
use agbox.Core.Base.{Text, ok, Result-cases}
use agbox.Core.Ordered.{put-All}
use agbox.Workgraph.Authority.{
  ProposedAssertion, SemanticPolicy, normalize_field, is_instruction_field, effective_authority,
}
use agbox.Workgraph.Authority.Filter.{
  filtered, filter_with, filter_proposal, select, filter_loop, value, validate,
}
use agbox.Workgraph.Authority.Grounds.{
  IsGrounded, effective_authority-grounds, matches_human_intent-Quoted,
}

-- What the loop adds to its map.
pub filter_proposal-Grounded :
    (policy : SemanticPolicy) (p f : ProposedAssertion)
    → filter_proposal policy p ≡ some f
    → IsGrounded policy f
unfolding filter_proposal filter_with
filter_proposal-Grounded policy p f h =
    elim (Option-cases (effective_authority policy p.evidence_refs)) [
      | inl e ↦ ground arith
      | inr (a, e) ↦
          let same : filtered (normalize_field p.field) a p ≡ f = ground arith in
          let grounds = effective_authority-grounds policy p.evidence_refs a e in
          subst (IsGrounded policy) same record {
            supported = ground arith;
            allowed = ground arith;
            says_something = ground arith;
            citations = grounds.0;
            strongest = grounds.1;
            quoted = elim (Bool-cases (is_instruction_field (normalize_field p.field))) [
              | inl i ↦ inr (matches_human_intent-Quoted policy p (ground arith))
              | inr other ↦ inl other
            ];
          }
    ]

abbrev pub IsEntry : SemanticPolicy → Text × ProposedAssertion → Type 0
IsEntry policy (k, v) = (v.field ≡ k) × IsGrounded policy v

select-entries :
    (policy : SemanticPolicy) (p : ProposedAssertion) (m : List (Text × ProposedAssertion))
    → All (IsEntry policy) m
    → All (IsEntry policy) (select (filter_proposal policy p) m)
unfolding select
select-entries policy p m h = elim (Option-cases (filter_proposal policy p)) [
  | inl e ↦ ground arith
  | inr (f, e) ↦
      ground (
        arith,
        put-All (IsEntry policy) f.field f m (refl, filter_proposal-Grounded policy p f e) h,
      )
]

pub filter_loop-entries :
    (policy : SemanticPolicy) (m : List (Text × ProposedAssertion)) (ps : List ProposedAssertion)
    (r : List (Text × ProposedAssertion))
    → filter_loop policy m ps ≡ ok r
    → All (IsEntry policy) m
    → All (IsEntry policy) r
unfolding filter_loop
filter_loop-entries policy m [] r h all = ground arith
filter_loop-entries policy m (p ∷ ps) r h all =
    filter_loop-entries policy (select (filter_proposal policy p) m) ps r (ground arith)
      (select-entries policy p m all)

values-Grounded :
    (policy : SemanticPolicy) (m : List (Text × ProposedAssertion))
    → All (IsEntry policy) m
    → All (IsGrounded policy) (map value m)
values-Grounded policy [] h = tt
values-Grounded policy ((k, v) ∷ m) h = (h.0.1, values-Grounded policy m h.1)

pub validate-entries :
    (policy : SemanticPolicy) (ps r : List ProposedAssertion)
    → validate policy ps ≡ ok r
    → (m : List (Text × ProposedAssertion)) × (filter_loop policy [] ps ≡ ok m) × (r ≡ map value m)
unfolding validate
validate-entries policy ps r h = elim (Result-cases (filter_loop policy [] ps)) [
  | inl (m, e) ↦ (m, e, ground arith)
  | inr (x, e) ↦ ground arith
]

-- Every assertion that `validate` returns has a supported field and a value, cites only evidence that the
-- policy knows, of the policy's project and disclosed as its authority asks, and has the authority of
-- the strongest piece it cites, which its field admits; if its field is an instruction, it cites a
-- statement of the human that says the same up to white space.
pub validate-Grounded :
    (policy : SemanticPolicy) (ps r : List ProposedAssertion)
    → validate policy ps ≡ ok r
    → All (IsGrounded policy) r
validate-Grounded policy ps r h =
    let (m, loop, e) = validate-entries policy ps r h in
    subst (All (IsGrounded policy)) (sym e)
      (values-Grounded policy m (filter_loop-entries policy [] ps m loop tt))
