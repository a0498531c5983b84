-- ===== src/Workgraph/Authority.antt =====
-- crates/agbox-workgraph/src/authority.rs: which assertions of a model are kept, and the shapes of
-- proposals of crates/agbox-workgraph/src/semantic.rs.
use agbox.Common.{
  ℕ, ◌+◌, ◌*◌, Bool, true, false, ◌&&◌, ◌||◌, not, Option, none, some, List, [], ◌∷◌, map, length,
  ltb, leb, ◌==◌, if◌then◌else◌, any,
}
use agbox.Common.Assoc.{lookup, insert}
use agbox.Core.Base.{
  Text, Text-discrete, same_text, Result, ok, err, ◌>>=◌, ◌>>◌, refuse, max_contract_evidence_refs,
}
use agbox.Core.Privacy.{Authority, authority_rank, DisclosureClass, same_class}
use agbox.Core.Strings.{bytes, trim, to_ascii_lowercase, replace_byte, words_from, join, is_blank}
pub mod Filter
pub mod Grounds
pub mod Kept
pub mod Strongest
mod Tests

pub record ProposedAssertion : Type 0 where
  pub field : Text
  pub value : Text
  pub authority : Authority
  pub evidence_refs : List Text
  pub confidence_basis_points : ℕ

-- The variants that the filter returns.
pub data SemanticError : Type 0 where
  too_many_assertions invalid_proposal : SemanticError

abbrev pub max_assertions_per_run : ℕ
max_assertions_per_run = 64

abbrev pub max_assertion_value_bytes : ℕ
max_assertion_value_bytes = 8 * 1024

abbrev pub bad_shape : ProposedAssertion → Bool
bad_shape a =
    ltb max_assertion_value_bytes (length a.value)
    || ltb 10_000 a.confidence_basis_points
    || ltb max_contract_evidence_refs (length a.evidence_refs)

unfoldable pub validate_shape : List ProposedAssertion → Result SemanticError (Unit {0})
validate_shape assertions = do
  refuse (ltb max_assertions_per_run (length assertions)) too_many_assertions
  refuse (any bad_shape assertions) invalid_proposal

pub record AuthorityEvidence : Type 0 where
  pub evidence_id : Text
  pub event_id : Option Text
  pub project_id : Option Text
  pub authority : Authority
  pub disclosure_class : DisclosureClass
  pub excerpt : Text

pub record SemanticPolicy : Type 0 where
  pub evidence : List (Text × AuthorityEvidence)
  pub project_id : Option Text

abbrev pub collect_evidence :
    List (Text × AuthorityEvidence) → List AuthorityEvidence → List (Text × AuthorityEvidence)
collect_evidence evidence [] = evidence
collect_evidence evidence (item ∷ items) =
    collect_evidence (insert Text-discrete item.evidence_id item evidence) items

abbrev pub with_evidence : List AuthorityEvidence → SemanticPolicy
with_evidence items = record { evidence = collect_evidence [] items; project_id = none }

abbrev pub for_project : Text → List AuthorityEvidence → SemanticPolicy
for_project project items = record {
  evidence = (with_evidence items).evidence;
  project_id = some project;
}

unfoldable pub disclosure_matches_authority : Authority → DisclosureClass → Bool
disclosure_matches_authority Authority.human_intent DisclosureClass.human_intent = true
disclosure_matches_authority Authority.tool_result DisclosureClass.tool_result = true
disclosure_matches_authority Authority.observed_state DisclosureClass.observed_state = true
disclosure_matches_authority Authority.agent_statement DisclosureClass.agent_statement = true
disclosure_matches_authority Authority.model_inference DisclosureClass.derived_text = true
disclosure_matches_authority _ _ = false

unfoldable pub normalize_field : Text → Text
unfolding trim
normalize_field field = replace_byte b'-' b'_' (to_ascii_lowercase (trim field))

unfoldable pub normalize_text : Text → Text
unfolding words_from
normalize_text value = join (words_from 0 [] value)

abbrev pub one_of : List Text → Text → Bool
one_of names field = any (same_text field) names

-- The instruction fields that state what is wanted.
abbrev pub intent_fields : List Text
intent_fields =
    bytes "objective"
    ∷ bytes "constraint"
    ∷ bytes "constraints"
    ∷ bytes "completion_criteria"
    ∷ bytes "completion_criterion"
    ∷ []

abbrev pub action_fields : List Text
action_fields = bytes "next_action" ∷ bytes "next_actions" ∷ []

abbrev pub blocker_fields : List Text
blocker_fields = bytes "blocker" ∷ bytes "blockers" ∷ []

unfoldable pub is_supported_field : Text → Bool
is_supported_field field =
    one_of intent_fields field
    || same_text field (bytes "verification")
    || same_text field (bytes "summary")
    || one_of action_fields field
    || one_of blocker_fields field

unfoldable pub is_instruction_field : Text → Bool
is_instruction_field field = one_of intent_fields field || one_of action_fields field

abbrev pub is_human_intent : Authority → Bool
is_human_intent Authority.human_intent = true
is_human_intent _ = false

abbrev pub is_observed : Authority → Bool
is_observed Authority.tool_result = true
is_observed Authority.observed_state = true
is_observed _ = false

unfoldable pub allowed_for_field : Text → Authority → Bool
allowed_for_field field authority =
    if one_of intent_fields field
    then is_human_intent authority
    else if same_text field (bytes "verification")
    then is_observed authority
    else if same_text field (bytes "summary")
    then true
    else if one_of action_fields field || one_of blocker_fields field
    then is_human_intent authority
    else false

-- `project.is_some_and(|project| evidence.project_id != Some(project))`.
abbrev pub other_project : Option Text → Option Text → Bool
other_project none project = false
other_project (some _) none = true
other_project (some scope) (some project) = not (same_text project scope)

-- The authority of a cited piece of evidence, where the policy lets it count.
abbrev pub usable_authority : SemanticPolicy → Option AuthorityEvidence → Option Authority
usable_authority policy none = none
usable_authority policy (some e) =
    if other_project policy.project_id e.project_id
      || not (disclosure_matches_authority e.authority e.disclosure_class)
    then none
    else some e.authority

abbrev pub stronger : Authority → Authority → Authority
stronger a b = if leb (authority_rank a) (authority_rank b) then b else a

-- The strongest of the authorities, or nothing as soon as one is missing.
abbrev pub strongest : Option Authority → Option Authority → Option Authority
strongest none b = none
strongest (some a) none = none
strongest (some a) (some b) = some (stronger a b)

unfoldable pub effective_authority : SemanticPolicy → List Text → Option Authority
unfolding disclosure_matches_authority
effective_authority policy [] = none
effective_authority policy (id ∷ []) =
    usable_authority policy (lookup Text-discrete id policy.evidence)
effective_authority policy (id ∷ next ∷ ids) =
    let rest = effective_authority policy (next ∷ ids) in
    strongest (usable_authority policy (lookup Text-discrete id policy.evidence)) rest

-- Whether a piece of evidence is a statement of the human that says what is proposed.
abbrev pub quotes : Text → Option AuthorityEvidence → Bool
quotes proposed none = false
quotes proposed (some e) =
    is_human_intent e.authority
    && same_text (normalize_text e.excerpt) proposed
    && same_class e.disclosure_class DisclosureClass.human_intent

unfoldable pub matches_human_intent : SemanticPolicy → ProposedAssertion → Bool
unfolding normalize_text
matches_human_intent policy proposal =
    let proposed = normalize_text proposal.value in
    not (same_text proposed [])
    && any (λ id. quotes proposed (lookup Text-discrete id policy.evidence)) proposal.evidence_refs
