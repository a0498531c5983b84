-- ===== src/Workgraph/Authority/Tests.antt =====
-- Runs of the filter.
use agbox.Common.{◌≡◌, refl, none, some, List, [], ◌∷◌, All, ℕ_discrete}
use agbox.Core.Base.{Text, Text-discrete, ok}
use agbox.Core.Privacy.{Authority, DisclosureClass}
use agbox.Core.Strings.{
  bytes, trim, is_blank, trim_start, trim_end, trim_start_from, space_width, words_from,
}
use agbox.Core.Ordered.{put}
use agbox.Workgraph.Authority.{
  ProposedAssertion, SemanticPolicy, AuthorityEvidence, for_project, validate_shape,
  normalize_field, normalize_text, is_supported_field, is_instruction_field, allowed_for_field,
  effective_authority, matches_human_intent, disclosure_matches_authority,
}
use agbox.Workgraph.Authority.Filter.{
  filtered, filter_with, filter_proposal, select, filter_loop, validate,
}
use agbox.Workgraph.Authority.Grounds.{IsGrounded}
use agbox.Workgraph.Authority.Kept.{validate-Grounded}
use agbox.Workgraph.Authority.Strongest.{FieldsAscend, Represented, validate-Represented}

abbrev said : AuthorityEvidence
said = record {
  evidence_id = bytes "e1";
  event_id = none;
  project_id = some (bytes "p");
  authority = Authority.human_intent;
  disclosure_class = DisclosureClass.human_intent;
  excerpt = bytes "run  it";
}

abbrev guessed : AuthorityEvidence
guessed = record {
  evidence_id = bytes "e2";
  event_id = none;
  project_id = some (bytes "p");
  authority = Authority.model_inference;
  disclosure_class = DisclosureClass.derived_text;
  excerpt = bytes "x";
}

abbrev policy : SemanticPolicy
policy = for_project (bytes "p") (said ∷ guessed ∷ [])

abbrev proposal : Text → Text → Text → ProposedAssertion
proposal field value id = record {
  field = field;
  value = value;
  authority = Authority.model_inference;
  evidence_refs = id ∷ [];
  confidence_basis_points = 5;
}

-- An instruction that the human gave, one that a model made up, and a summary.
abbrev proposals : List ProposedAssertion
proposals =
    proposal (bytes " Objective") (bytes "run it ") (bytes "e1")
    ∷ proposal (bytes "next-action") (bytes "x") (bytes "e2")
    ∷ proposal (bytes "constraint") (bytes "y") (bytes "e1")
    ∷ proposal (bytes "summary") (bytes "x") (bytes "e2")
    ∷ []

abbrev kept : List ProposedAssertion
kept =
    filtered (bytes "objective") Authority.human_intent
      (proposal (bytes " Objective") (bytes "run it ") (bytes "e1"))
    ∷ filtered (bytes "summary") Authority.model_inference
        (proposal (bytes "summary") (bytes "x") (bytes "e2"))
    ∷ []

run : validate policy proposals ≡ ok kept
unfolding validate filter_loop select put filter_proposal filter_with validate_shape normalize_field
    normalize_text is_supported_field is_instruction_field allowed_for_field effective_authority
    matches_human_intent disclosure_matches_authority trim trim_end trim_start trim_start_from
    space_width words_from is_blank Text-discrete ℕ_discrete
run = refl

validate-Grounded_example : All (IsGrounded policy) kept
validate-Grounded_example = validate-Grounded policy proposals kept run

validate-Represented_example : FieldsAscend kept × All (Represented policy kept) proposals
validate-Represented_example = validate-Represented policy proposals kept run
