-- ===== src/Workgraph/Contract/Sources.antt =====
-- Where the objective of a contract comes from.
use agbox.Common.{
  ◌≡◌, refl, inl, inr, Option, none, some, List, [], ◌∷◌, All, Any, arith, subst, if_cases,
}
use agbox.Core.Base.{Text, Result, ok, bind-ok}
use agbox.Core.Privacy.{DisclosureClass}
use agbox.Workgraph.Reducer.{ReducedFact}
use agbox.Workgraph.Contract.{RedactionError}
use agbox.Workgraph.Contract.Actions.{Redact, safe_text, later}
use agbox.Workgraph.Contract.Draft.{
  Candidate, candidates, push_candidate, push_safe, later_of, latest,
}
use agbox.Workgraph.Contract.Stored.{ok_eq}

module _ (redact : Redact) (class : DisclosureClass) (select : ReducedFact → Option Candidate) where
  -- The text is what was left of the text of the fact.
  abbrev pub Gives : Text → ReducedFact → Type 0
  Gives text fact =
      (raw : Candidate) × (select fact ≡ some raw)
      × (safe_text redact class raw.text ≡ ok (some text))

  abbrev pub IsGiven : List ReducedFact → Candidate → Type 0
  IsGiven facts c = Any (Gives c.text) facts

  weaken :
      (fact : ReducedFact) (facts : List ReducedFact) (cs : List Candidate)
      → All (IsGiven facts) cs
      → All (IsGiven (fact ∷ facts)) cs
  weaken fact facts [] all = tt
  weaken fact facts (c ∷ cs) all = (inr all.0, weaken fact facts cs all.1)

  push_safe-IsGiven :
      (fact : ReducedFact) (facts : List ReducedFact) (raw : Candidate) (text : Option Text)
      (rest : Result RedactionError (List Candidate)) (cs : List Candidate)
      → select fact ≡ some raw
      → safe_text redact class raw.text ≡ ok text
      → push_safe raw text rest ≡ ok cs
      → ((more : List Candidate) → rest ≡ ok more → All (IsGiven facts) more)
      → All (IsGiven (fact ∷ facts)) cs
  push_safe-IsGiven fact facts raw none rest cs e safe h given = weaken fact facts cs (given cs h)
  push_safe-IsGiven fact facts raw (some text) rest cs e safe h given =
      let (more, r, f) = bind-ok rest _ cs h in
      subst (All (IsGiven (fact ∷ facts))) (ok_eq _ cs f)
        (inl (raw, e, safe), weaken fact facts more (given more r))

  push_candidate-IsGiven :
      (fact : ReducedFact) (facts : List ReducedFact) (o : Option Candidate)
      (rest : Result RedactionError (List Candidate)) (cs : List Candidate)
      → select fact ≡ o
      → push_candidate redact class o rest ≡ ok cs
      → ((more : List Candidate) → rest ≡ ok more → All (IsGiven facts) more)
      → All (IsGiven (fact ∷ facts)) cs
  push_candidate-IsGiven fact facts none rest cs e h given = weaken fact facts cs (given cs h)
  push_candidate-IsGiven fact facts (some raw) rest cs e h given =
      let (text, safe, f) = bind-ok (safe_text redact class raw.text) _ cs h in
      push_safe-IsGiven fact facts raw text rest cs e safe f given

  pub candidates-IsGiven :
      (facts : List ReducedFact) (cs : List Candidate)
      → candidates redact class select facts ≡ ok cs
      → All (IsGiven facts) cs
  unfolding candidates
  candidates-IsGiven [] cs h = subst (All (IsGiven [])) (ok_eq [] cs h) tt
  candidates-IsGiven (fact ∷ facts) cs h =
      push_candidate-IsGiven fact facts (select fact) (candidates redact class select facts) cs refl
        h (candidates-IsGiven facts)

later_of-All :
    (P : Candidate → Type 0) (c : Candidate) (o : Option Candidate)
    → P c
    → ((d : Candidate) → o ≡ some d → P d)
    → P (later_of c o)
later_of-All P c none p q = p
later_of-All P c (some d) p q =
    if_cases P (later c.observed_at c.evidence d.observed_at d.evidence) c d (λ h. p)
      (λ h. q d refl)

pub some_eq : {A : Type 0} (a b : A) → some a ≡ some b → a ≡ b
some_eq a b h = cc

pub latest-All :
    (P : Candidate → Type 0) (cs : List Candidate) (c : Candidate)
    → All P cs
    → latest cs ≡ some c
    → P c
latest-All P [] c all h = absurd (ground arith)
latest-All P (d ∷ cs) c all h =
    subst P (some_eq _ c h) (later_of-All P d (latest cs) all.0 (λ x e. latest-All P cs x all.1 e))
