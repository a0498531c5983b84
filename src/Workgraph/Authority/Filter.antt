-- ===== src/Workgraph/Authority/Filter.antt =====
-- `SemanticPolicy::validate`: the loop that keeps, for each field, the proposal of the strongest
-- evidence.
use agbox.Common.{
  Bool, true, ◌&&◌, ◌||◌, not, Option, none, some, List, [], ◌∷◌, map, length, ltb, if◌then◌else◌,
}
use agbox.Common.Assoc.{lookup}
use agbox.Core.Base.{Text, Text-discrete, Result, ok, ◌>>=◌, ◌>>◌, refuse}
use agbox.Core.Privacy.{Authority, authority_rank}
use agbox.Core.Strings.{is_blank}
use agbox.Core.Ordered.{put}
use agbox.Workgraph.Authority.{
  ProposedAssertion, SemanticPolicy, SemanticError, invalid_proposal, validate_shape,
  normalize_field, is_supported_field, is_instruction_field, allowed_for_field, effective_authority,
  matches_human_intent, max_assertion_value_bytes,
}

-- The proposal with the field and the authority that the policy gives it.
abbrev pub filtered : Text → Authority → ProposedAssertion → ProposedAssertion
filtered field authority p = record {
  field = field;
  value = p.value;
  authority = authority;
  evidence_refs = p.evidence_refs;
  confidence_basis_points = p.confidence_basis_points;
}

unfoldable pub filter_with :
    SemanticPolicy → Text → ProposedAssertion → Option Authority → Option ProposedAssertion
filter_with policy field p none = none
filter_with policy field p (some authority) =
    if not (allowed_for_field field authority)
      || (is_instruction_field field && not (matches_human_intent policy p))
    then none
    else some (filtered field authority p)

-- The guards of the loop's body that pass over a proposal.
unfoldable pub filter_proposal : SemanticPolicy → ProposedAssertion → Option ProposedAssertion
unfolding filter_with
filter_proposal policy p =
    let field = normalize_field p.field in
    if not (is_supported_field field) || is_blank p.value
    then none
    else filter_with policy field p (effective_authority policy p.evidence_refs)

abbrev pub replaces : ProposedAssertion → Option ProposedAssertion → Bool
replaces p none = true
replaces p (some existing) = ltb (authority_rank existing.authority) (authority_rank p.authority)

unfoldable pub select :
    Option ProposedAssertion → List (Text × ProposedAssertion) → List (Text × ProposedAssertion)
select none selected = selected
select (some p) selected =
    if replaces p (lookup Text-discrete p.field selected) then put p.field p selected else selected

unfoldable pub filter_loop :
    SemanticPolicy
    → List (Text × ProposedAssertion)
    → List ProposedAssertion
    → Result SemanticError (List (Text × ProposedAssertion))
filter_loop policy selected [] = ok selected
filter_loop policy selected (p ∷ ps) =
    let rest = filter_loop policy (select (filter_proposal policy p) selected) ps in
    do
      refuse
          (ltb max_assertion_value_bytes (length p.value) || ltb 10_000 p.confidence_basis_points)
          invalid_proposal
      rest

abbrev pub value : Text × ProposedAssertion → ProposedAssertion
value (k, p) = p

unfoldable pub validate :
    SemanticPolicy → List ProposedAssertion → Result SemanticError (List ProposedAssertion)
validate policy proposals = do
  validate_shape proposals
  selected ← filter_loop policy [] proposals
  ok (map value selected)
