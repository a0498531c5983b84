-- ===== src/Workgraph/Authority/Strongest.antt =====
-- Which proposals `SemanticPolicy::validate` keeps, and when it fails.
use agbox.Common.{
  ℕ, ◌≡◌, ◌≤◌, inl, inr, true, Option, none, some, List, [], ◌∷◌, map, All, Any, arith, Bool-cases,
  Option-cases, subst, sym, length,
}
use agbox.Common.Assoc.{lookup}
use agbox.Core.Base.{Text, Text-discrete, ok, max_contract_evidence_refs}
use agbox.Core.Privacy.{authority_rank}
use agbox.Core.Strings.{text_less}
use agbox.Core.Ordered.{put-Ascending, Ascending, lookup-put}
use agbox.Workgraph.Authority.{ProposedAssertion, SemanticPolicy, max_assertion_value_bytes}
use agbox.Workgraph.Authority.Filter.{
  filter_proposal, select, filter_loop, value, validate, replaces,
}
use agbox.Workgraph.Authority.Kept.{IsEntry, filter_loop-entries, validate-entries}

-- An assertion of the field with at least the authority.
abbrev pub Represents : ProposedAssertion → ProposedAssertion → Type 0
Represents f a = (a.field ≡ f.field) × (authority_rank f.authority ≤ authority_rank a.authority)

-- The same for what the guards leave of a proposal, if anything.
abbrev pub IsRepresented : List ProposedAssertion → Option ProposedAssertion → Type 0
IsRepresented r none = Unit
IsRepresented r (some f) = Any (Represents f) r

abbrev pub Represented : SemanticPolicy → List ProposedAssertion → ProposedAssertion → Type 0
Represented policy r p = IsRepresented r (filter_proposal policy p)

-- The map has an assertion of at least this rank under the field.
abbrev Holds : ℕ → Text → List (Text × ProposedAssertion) → Type 0
Holds rank field m =
    (a : ProposedAssertion) × (lookup Text-discrete field m ≡ some a)
    × (rank ≤ authority_rank a.authority)

select-Holds :
    (o : Option ProposedAssertion) (rank : ℕ) (field : Text) (m : List (Text × ProposedAssertion))
    → Holds rank field m
    → Holds rank field (select o m)
unfolding select
select-Holds none rank field m h = h
select-Holds (some f) rank field m (a, e, le) =
    elim (Bool-cases (replaces f (lookup Text-discrete f.field m))) [
      | inl hit ↦ elim (Text-discrete f.field field) [
        | yes same ↦ (f, ground (arith, lookup-put field f.field f m), ground arith)
        | no other ↦ (a, ground (arith, lookup-put field f.field f m), le)
      ]
      | inr miss ↦ (a, ground arith, le)
    ]

select-new :
    (f : ProposedAssertion) (m : List (Text × ProposedAssertion))
    → Holds (authority_rank f.authority) f.field (select (some f) m)
unfolding select
select-new f m = elim (Option-cases (lookup Text-discrete f.field m)) [
  | inl e ↦ (f, ground (arith, lookup-put f.field f.field f m), omega arith)
  | inr (a, e) ↦ elim (Bool-cases (replaces f (some a))) [
    | inl hit ↦ (f, ground (arith, lookup-put f.field f.field f m), omega arith)
    | inr miss ↦ (a, ground arith, ground arith)
  ]
]

filter_loop-Holds :
    (policy : SemanticPolicy) (rank : ℕ) (field : Text) (m : List (Text × ProposedAssertion))
    (ps : List ProposedAssertion) (r : List (Text × ProposedAssertion))
    → filter_loop policy m ps ≡ ok r
    → Holds rank field m
    → Holds rank field r
unfolding filter_loop
filter_loop-Holds policy rank field m [] r e h = subst (Holds rank field) (ground arith) h
filter_loop-Holds policy rank field m (p ∷ ps) r e h =
    filter_loop-Holds policy rank field (select (filter_proposal policy p) m) ps r (ground arith)
      (select-Holds (filter_proposal policy p) rank field m h)

values-Any :
    (policy : SemanticPolicy) (f : ProposedAssertion) (m : List (Text × ProposedAssertion))
    → All (IsEntry policy) m
    → Holds (authority_rank f.authority) f.field m
    → Any (Represents f) (map value m)
values-Any policy f [] all (a, e, le) = ground arith
values-Any policy f ((k, v) ∷ m) all (a, e, le) = elim (Text-discrete k f.field) [
  | yes same ↦ inl (ground arith, ground arith)
  | no other ↦ inr (values-Any policy f m all.1 (a, ground arith, le))
]

filter_loop-Represented :
    (policy : SemanticPolicy) (m : List (Text × ProposedAssertion)) (ps : List ProposedAssertion)
    (r : List (Text × ProposedAssertion))
    → filter_loop policy m ps ≡ ok r
    → All (IsEntry policy) r
    → All (Represented policy (map value r)) ps
unfolding filter_loop
filter_loop-Represented policy m [] r e entries = tt
filter_loop-Represented policy m (p ∷ ps) r e entries = (
  elim (Option-cases (filter_proposal policy p)) [
    | inl e ↦ subst (IsRepresented (map value r)) (sym e) tt
    | inr (f, kept) ↦ subst (IsRepresented (map value r)) (sym kept) (
        values-Any policy f r entries (
          filter_loop-Holds policy (authority_rank f.authority) f.field
            (select (filter_proposal policy p) m) ps r (ground arith)
            (subst (λ o. Holds (authority_rank f.authority) f.field (select o m)) (sym kept)
              (select-new f m))))
  ],
  filter_loop-Represented policy (select (filter_proposal policy p) m) ps r (ground arith) entries,
)

filter_loop-Ascending :
    (policy : SemanticPolicy) (m : List (Text × ProposedAssertion)) (ps : List ProposedAssertion)
    (r : List (Text × ProposedAssertion))
    → filter_loop policy m ps ≡ ok r
    → Ascending m
    → Ascending r
unfolding filter_loop select
filter_loop-Ascending policy m [] r e a = ground arith
filter_loop-Ascending policy m (p ∷ ps) r e a =
    filter_loop-Ascending policy (select (filter_proposal policy p) m) ps r (ground arith)
      (elim (Option-cases (filter_proposal policy p)) [
        | inl none_kept ↦ ground arith
        | inr (f, kept) ↦ ground (arith, put-Ascending f.field f m a)
      ])

-- The fields of the assertions ascend.
abbrev pub FieldsAscend : List ProposedAssertion → Type 0
FieldsAscend [] = Unit
FieldsAscend (a ∷ []) = Unit
FieldsAscend (a ∷ b ∷ r) = (text_less a.field b.field ≡ true) × FieldsAscend (b ∷ r)

values-FieldsAscend :
    (policy : SemanticPolicy) (m : List (Text × ProposedAssertion))
    → All (IsEntry policy) m
    → Ascending m
    → FieldsAscend (map value m)
values-FieldsAscend policy [] all a = tt
values-FieldsAscend policy ((k, v) ∷ []) all a = tt
values-FieldsAscend policy ((k, v) ∷ (j, w) ∷ m) all a =
    (ground arith, values-FieldsAscend policy ((j, w) ∷ m) all.1 a.1)

-- `validate` returns at most one assertion for each field, in the order of the fields, and for each
-- proposal that passes its guards one of the same field with at least its authority.
pub validate-Represented :
    (policy : SemanticPolicy) (ps r : List ProposedAssertion)
    → validate policy ps ≡ ok r
    → FieldsAscend r × All (Represented policy r) ps
validate-Represented policy ps r h =
    let (m, loop, e) = validate-entries policy ps r h in
    let entries = filter_loop-entries policy [] ps m loop tt in
    subst (λ r. FieldsAscend r × All (Represented policy r) ps) (sym e)
      (
        values-FieldsAscend policy m entries (filter_loop-Ascending policy [] ps m loop tt),
        filter_loop-Represented policy [] ps m loop entries,
      )

-- The bounds on one proposal.
pub record IsBounded (p : ProposedAssertion) : Type 0 where
  pub value_fits : length p.value ≤ max_assertion_value_bytes
  pub confidence_fits : p.confidence_basis_points ≤ 10_000
  pub citations_fit : length p.evidence_refs ≤ max_contract_evidence_refs
