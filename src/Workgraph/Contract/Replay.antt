-- ===== src/Workgraph/Contract/Replay.antt =====
-- Building again from the same facts.
use agbox.Common.{
  ◌≡◌, refl, inl, inr, true, false, some, List, [], ◌∷◌, length, ltb, all, arith, subst, ap,
}
use agbox.Core.Base.{Text, same_text, ok, max_inline_bytes}
use agbox.Workgraph.Reducer.{ReducedFact}
use agbox.Workgraph.Contract.{ProvisionalContract, ProvisionalContractBuilder, Services}
use agbox.Workgraph.Contract.Facts.{fact_project, fact_set_digest}
use agbox.Workgraph.Contract.Build.{Previous, build, is_of}
use agbox.Workgraph.Contract.Grounded.{build-ok, build-accepts}

same_text_self : (t : Text) → same_text t t ≡ true
same_text_self t = ground arith

module _ (services : Services) (builder : ProvisionalContractBuilder) where
  revised-again :
      (fact : ReducedFact) (facts : List ReducedFact) (c : ProvisionalContract)
      → ltb max_inline_bytes (length builder.extractor_version) ≡ false
      → all (is_of (fact_project fact)) (fact ∷ facts) ≡ true
      → c.project_id ≡ fact_project fact
      → c.fact_set_digest ≡ fact_set_digest services.hash (fact ∷ facts)
      → build services builder (some c) (fact ∷ facts) ≡ ok c
  unfolding build
  revised-again fact facts c short one project digest = rw (
    short,
    one,
    project,
    digest,
    same_text_self (fact_project fact),
    same_text_self (fact_set_digest services.hash (fact ∷ facts)),
  )

  -- Building is idempotent: from the contract that it returned and the same facts it returns that
  -- contract.
  pub build-again :
      (previous : Previous) (facts : List ReducedFact) (c : ProvisionalContract)
      → build services builder previous facts ≡ ok c
      → build services builder (some c) facts ≡ ok c
  unfolding build
  build-again previous [] c h = refl
  build-again previous (fact ∷ facts) c h =
      elim (build-ok services builder previous fact facts c h) [
        | inl known ↦
            subst (λ (p : Previous). build services builder p (fact ∷ facts) ≡ ok c) known h
        | inr (draft, drafted, r) ↦
            let (short, one) = build-accepts services builder previous fact facts c h in
            revised-again fact facts c short one
              (ap (λ (x : ProvisionalContract). x.project_id) r.is_built)
              (ap (λ (x : ProvisionalContract). x.fact_set_digest) r.is_built)
      ]
