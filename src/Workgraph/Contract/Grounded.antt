-- ===== src/Workgraph/Contract/Grounded.antt =====
-- What a contract that `build` returns rests on.
use agbox.Common.{
  ℕ, suc, ◌^◌, ◌-◌, ◌≡◌, ◌≤◌, ◌⊎◌, refl, inl, inr, Bool, true, false, not, ◌||◌, none, some, List,
  [], ◌∷◌, ◌++◌, length, ltb, all, All, arith, subst, sym,
}
use agbox.Core.Base.{
  Text, same_text, Result, ok, refuse, map_err, bind-ok, if_ok, map_err_ok, refuse_ok,
  max_contract_evidence_refs, max_inline_bytes,
}
use agbox.Workgraph.Reducer.{ReducedFact}
use agbox.Workgraph.Contract.{
  MaterialDraft, ProvisionalContract, ProvisionalContractBuilder, ContractBuildError, Services,
  is_filled, non_empty_fields, listed_fields, redaction, extractor_version_too_large,
  mixed_projects,
}
use agbox.Workgraph.Contract.Facts.{fact_project, fact_set_digest, evidence_of}
use agbox.Workgraph.Contract.Draft.{
  validate_field_evidence, bounded_provenance, bound_field_evidence, retain_field_evidence,
}
use agbox.Workgraph.Contract.Build.{
  Previous, build, revise, draft_of, conclude, next_revision, contract_of, unless_same,
  unless_known, previous_evidence, previous_truncated, material_hash, is_of, other_project,
}
use agbox.Workgraph.Contract.Citations.{
  Cites, validate_field_evidence-Cites, select-All, length-retained_evidence-le,
}

-- Each field that says something has evidence, all of it among the contract's, which is bounded.
pub record IsGrounded (c : ProvisionalContract) : Type 0 where
  pub cited : All (Cites c.evidence_refs c.material.field_evidence) (non_empty_fields c)
  pub evidence_bounded : length c.evidence_refs ≤ max_contract_evidence_refs

-- The number of the revision that follows.
abbrev pub Follows : Previous → ProvisionalContract → Type 0
Follows none c = c.revision ≡ 1
Follows (some previous) c = (c.revision ≡ suc previous.revision) × (c.revision ≤ 2 ^ 64 - 1)

next_revision-Follows :
    (previous : Previous) (c : ProvisionalContract)
    → next_revision previous ≡ ok c.revision
    → Follows previous c
next_revision-Follows none c h = ground arith
next_revision-Follows (some contract) c h = (ground arith, ground arith)

both_false : (a b : Bool) → (not a || b) ≡ false → a ≡ true
both_false true b h = refl
both_false false b h = absurd (ground arith)

module _ (services : Services) (builder : ProvisionalContractBuilder) where
  -- The draft and the evidence that the last steps leave.
  abbrev pub retained_of :
      Previous → ReducedFact → List ReducedFact → MaterialDraft → MaterialDraft × List Text
  retained_of previous fact facts draft =
      retain_field_evidence (bound_field_evidence (conclude previous (fact ∷ facts) draft))
        (bounded_provenance (previous_evidence previous ++ evidence_of (fact ∷ facts))).0

  abbrev pub truncated_of : Previous → ReducedFact → List ReducedFact → Bool
  truncated_of previous fact facts =
      (bounded_provenance (previous_evidence previous ++ evidence_of (fact ∷ facts))).1
      || previous_truncated previous

  -- How a contract comes to be a new revision.
  pub record IsRevision (previous : Previous) (fact : ReducedFact) (facts : List ReducedFact)
      (draft : MaterialDraft) (c : ProvisionalContract) : Type 0 where
    pub hashed : Text
    pub revision : ℕ
    pub validated :
        validate_field_evidence
          (retained_of previous fact facts draft).0
          (retained_of previous fact facts draft).1
        ≡ ok tt
    pub hashes : material_hash services (retained_of previous fact facts draft).0 ≡ ok hashed
    pub follows : next_revision previous ≡ ok revision
    pub is_built :
        c
        ≡ contract_of services builder previous fact facts
            (retained_of previous fact facts draft)
            (truncated_of previous fact facts)
            hashed
            revision

  unless_same-ok :
      (hashed : Text) (previous : Previous)
      (revised : Result ContractBuildError ProvisionalContract) (c : ProvisionalContract)
      → unless_same services hashed previous revised ≡ ok c
      → (previous ≡ some c) ⊎ (revised ≡ ok c)
  unless_same-ok hashed none revised c h = inr h
  unless_same-ok hashed (some contract) revised c h =
      if_ok (same_text contract.material_content_hash hashed) contract revised c h

  unless_known-ok :
      (known : Text) (previous : Previous) (revised : Result ContractBuildError ProvisionalContract)
      (c : ProvisionalContract)
      → unless_known services known previous revised ≡ ok c
      → (previous ≡ some c) ⊎ (revised ≡ ok c)
  unless_known-ok known none revised c h = inr h
  unless_known-ok known (some contract) revised c h =
      if_ok (same_text contract.fact_set_digest known) contract revised c h

  revise-ok :
      (previous : Previous) (fact : ReducedFact) (facts : List ReducedFact) (draft : MaterialDraft)
      (c : ProvisionalContract)
      → revise services builder previous fact facts draft ≡ ok c
      → (previous ≡ some c) ⊎ IsRevision previous fact facts draft c
  unfolding revise
  revise-ok previous fact facts draft c h =
      let (u, v, h1) = bind-ok _ _ c h in
      let (hashed, e, h2) = bind-ok _ _ c h1 in
      elim (unless_same-ok hashed previous _ c h2) [
        | inl known ↦ inl known
        | inr revised ↦
            let (revision, r, h3) = bind-ok _ _ c revised in
            inr record {
              hashed = hashed;
              revision = revision;
              validated = v;
              hashes = e;
              follows = r;
              is_built = cc;
            }
      ]

  -- The draft that a new revision comes from.
  pub build-ok :
      (previous : Previous) (fact : ReducedFact) (facts : List ReducedFact)
      (c : ProvisionalContract)
      → build services builder previous (fact ∷ facts) ≡ ok c
      → (previous ≡ some c)
        ⊎ ((draft : MaterialDraft) × (draft_of services previous (fact ∷ facts) ≡ ok draft)
            × IsRevision previous fact facts draft c)
  unfolding build
  build-ok previous fact facts c h =
      let (u, short, h1) =
        bind-ok
          (refuse (ltb max_inline_bytes (length builder.extractor_version))
            extractor_version_too_large)
          _ c h in
      let (v, one, h2) =
        bind-ok
          (refuse
            (not (all (is_of (fact_project fact)) (fact ∷ facts))
              || other_project (fact_project fact) previous)
            mixed_projects)
          _ c h1 in
      elim (unless_known-ok (fact_set_digest services.hash (fact ∷ facts)) previous _ c h2) [
        | inl known ↦ inl known
        | inr revised ↦
            let (draft, drafted, h3) =
              bind-ok (map_err redaction (draft_of services previous (fact ∷ facts))) _ c revised in
            elim (revise-ok previous fact facts draft c h3) [
              | inl known ↦ inl known
              | inr revision ↦ inr (
                draft,
                map_err_ok redaction (draft_of services previous (fact ∷ facts)) draft drafted,
                revision,
              )
            ]
      ]

  -- What `build` asks of its input.
  pub build-accepts :
      (previous : Previous) (fact : ReducedFact) (facts : List ReducedFact)
      (c : ProvisionalContract)
      → build services builder previous (fact ∷ facts) ≡ ok c
      → (ltb max_inline_bytes (length builder.extractor_version) ≡ false)
        × (all (is_of (fact_project fact)) (fact ∷ facts) ≡ true)
  unfolding build
  build-accepts previous fact facts c h =
      let (u, short, h1) =
        bind-ok
          (refuse (ltb max_inline_bytes (length builder.extractor_version))
            extractor_version_too_large)
          _ c h in
      let (v, one, h2) =
        bind-ok
          (refuse
            (not (all (is_of (fact_project fact)) (fact ∷ facts))
              || other_project (fact_project fact) previous)
            mixed_projects)
          _ c h1 in
      (refuse_ok _ _ short, both_false _ _ (refuse_ok _ _ one))

  revision-IsGrounded :
      (previous : Previous) (fact : ReducedFact) (facts : List ReducedFact) (draft : MaterialDraft)
      (c : ProvisionalContract)
      → IsRevision previous fact facts draft c
      → IsGrounded c × Follows previous c
  unfolding non_empty_fields retain_field_evidence
  revision-IsGrounded previous fact facts draft c r =
      let d : MaterialDraft × List Text = retained_of previous fact facts draft in
      let built =
        contract_of services builder previous fact facts d (truncated_of previous fact facts)
          r.hashed r.revision in
      let good : IsGrounded built × Follows previous built = (
        record {
          cited =
              select-All (is_filled d.0) (Cites d.1 d.0.field_evidence) listed_fields
                (validate_field_evidence-Cites d.0 d.1 r.validated);
          evidence_bounded =
              length-retained_evidence-le
                (bound_field_evidence (conclude previous (fact ∷ facts) draft)).field_evidence
                (bounded_provenance (previous_evidence previous ++ evidence_of (fact ∷ facts))).0;
        },
        next_revision-Follows previous built r.follows,
      ) in
      subst (λ (x : ProvisionalContract). IsGrounded x × Follows previous x) (sym r.is_built) good

  -- If the previous contract, where there is one, is grounded, what `build` returns is: each field
  -- of it that says something cites evidence, all of it among the at most 128 pieces that the
  -- contract retains. It is the previous contract as it was, or a revision with the next number, the
  -- first one being 1, which is below 2 ^ 64.
  pub build-IsGrounded :
      (previous : Previous) (facts : List ReducedFact) (c : ProvisionalContract)
      → ((p : ProvisionalContract) → previous ≡ some p → IsGrounded p)
      → build services builder previous facts ≡ ok c
      → IsGrounded c × ((previous ≡ some c) ⊎ Follows previous c)
  unfolding build
  build-IsGrounded none [] c grounded h = absurd (ground arith)
  build-IsGrounded (some p) [] c grounded h = (grounded c cc, inl cc)
  build-IsGrounded previous (fact ∷ facts) c grounded h = elim (build-ok previous fact facts c h) [
    | inl known ↦ (grounded c known, inl known)
    | inr (draft, drafted, r) ↦
        let (g, f) = revision-IsGrounded previous fact facts draft c r in (g, inr f)
  ]
