-- ===== src/Workgraph/Contract/Extends.antt =====
-- What a fact adds to the entry of its action, and what stays of the entry.
use agbox.Common.{
  ℕ, ◌≡◌, refl, Bool, true, false, Option, none, some, arith, subst, if_cases, ◌⊎◌, inl, inr,
}
use agbox.Core.Ordered.{text_less_trans, text_less_asym, text_less_irrefl}
use agbox.Core.Strings.{text_less}
use agbox.Core.Base.{Text, ok}
use agbox.Core.Privacy.{DisclosureClass}
use agbox.Workgraph.Reducer.{
  ReducedFact, action_requested_fact, action_finished_observed, eligible_verification_observed,
  verification,
}
use agbox.Workgraph.Contract.{ActionProjection, ProjectedOutcome, ProjectedText}
use agbox.Workgraph.Contract.Actions.{
  Redact, later, update_authoritative, update_request, replaces_outcome, replaces_request,
  outcome_at, finish_action, safe_text,
}

-- The outcome is no earlier than the time and the evidence.
abbrev pub Reaches : ℕ → Text → ActionProjection → Type 0
Reaches time evidence action =
    (o : ProjectedOutcome) × (action.authoritative ≡ some o)
    × (later time evidence o.observed_at o.evidence ≡ false)

later_trans :
    (a b c : ℕ) (s t u : Text)
    → later a s b t ≡ false
    → later c u b t ≡ true
    → later a s c u ≡ false
later_trans a b c s t u h k = ground (arith, text_less_trans u t s, text_less_asym t u)

later_irrefl : (a : ℕ) (s : Text) → later a s a s ≡ false
later_irrefl a s = ground (arith, text_less_irrefl s)

-- A request is recorded, with evidence that is not less.
abbrev pub Requested : Text → ActionProjection → Type 0
Requested evidence action =
    (r : ProjectedText) × (action.request ≡ some r) × (text_less r.evidence evidence ≡ false)

-- What the map shows of a fact: the action is finished, and its outcome is the fact's or a later one;
-- and where there is text for a request, one is recorded.
abbrev pub Shows : Redact → ReducedFact → ActionProjection → Type 0
Shows redact (action_requested_fact _ _ _ _ _ (some input) _ evidence) action =
    (safe_text redact DisclosureClass.observed_state input ≡ ok none) ⊎ Requested evidence action
Shows redact (action_finished_observed _ _ _ _ _ _) action = action.finished ≡ true
Shows redact (eligible_verification_observed _ _ _ _ time evidence) action =
    (action.finished ≡ true) × Reaches time evidence action
Shows redact (verification _ _ _ _ _ time evidence) action =
    (action.finished ≡ true) × Reaches time evidence action
Shows redact _ action = Unit

-- An action that has gone on.
pub record Extends (a b : ActionProjection) : Type 0 where
  pub finished_stays : a.finished ≡ true → b.finished ≡ true
  pub reaches_stays :
      (time : ℕ) (evidence : Text) → Reaches time evidence a → Reaches time evidence b
  pub request_stays : (evidence : Text) → Requested evidence a → Requested evidence b

pub Extends-refl : (a : ActionProjection) → Extends a a
Extends-refl a = record {
  finished_stays = λ h. h;
  reaches_stays = λ time evidence h. h;
  request_stays = λ evidence h. h;
}

pub Extends-Shows :
    (redact : Redact) (fact : ReducedFact) (a b : ActionProjection)
    → Extends a b
    → Shows redact fact a
    → Shows redact fact b
Extends-Shows redact (action_requested_fact _ _ _ _ _ (some input) _ evidence) a b x (inl h) = inl h
Extends-Shows redact (action_requested_fact _ _ _ _ _ (some input) _ evidence) a b x (inr h) =
    inr (x.request_stays evidence h)
Extends-Shows redact (action_finished_observed _ _ _ _ _ _) a b x h = x.finished_stays h
Extends-Shows redact (eligible_verification_observed _ _ _ _ time evidence) a b x h =
    (x.finished_stays h.0, x.reaches_stays time evidence h.1)
Extends-Shows redact (verification _ _ _ _ _ time evidence) a b x h =
    (x.finished_stays h.0, x.reaches_stays time evidence h.1)
Extends-Shows redact _ a b x h = tt

replaced-Reaches :
    (a : ActionProjection) (candidate : ProjectedOutcome)
    → replaces_outcome candidate a.authoritative ≡ true
    → Extends a (record a { authoritative = some candidate })
replaced-Reaches a candidate h = record {
  finished_stays = λ k. k;
  reaches_stays = λ time evidence (o, e, l). (
    candidate,
    refl,
    later_trans time o.observed_at candidate.observed_at evidence o.evidence candidate.evidence l
        (subst (λ (x : Option ProjectedOutcome). replaces_outcome candidate x ≡ true) e h),
  );
  request_stays = λ evidence k. k;
}

pub finish-Extends : (a : ActionProjection) → Extends a (finish_action a)
finish-Extends a = record {
  finished_stays = λ h. refl;
  reaches_stays = λ time evidence h. h;
  request_stays = λ evidence h. h;
}

pub Extends-trans : (a b c : ActionProjection) → Extends a b → Extends b c → Extends a c
Extends-trans a b c x y = record {
  finished_stays = λ h. y.finished_stays (x.finished_stays h);
  reaches_stays =
      λ time evidence h. y.reaches_stays time evidence (x.reaches_stays time evidence h);
  request_stays = λ evidence h. y.request_stays evidence (x.request_stays evidence h);
}

kept-Reaches :
    (o : Option ProjectedOutcome) (candidate : ProjectedOutcome)
    → replaces_outcome candidate o ≡ false
    → (r : ProjectedOutcome) × (o ≡ some r)
      × (later candidate.observed_at candidate.evidence r.observed_at r.evidence ≡ false)
kept-Reaches none candidate h = absurd (ground arith)
kept-Reaches (some r) candidate h = (r, refl, h)

-- The outcome is recorded unless a later one is, and nothing is lost.
update_authoritative-Reaches :
    (a : ActionProjection) (candidate : ProjectedOutcome)
    → Extends a (update_authoritative a candidate)
      × Reaches candidate.observed_at candidate.evidence (update_authoritative a candidate)
      × (a.finished ≡ true → (update_authoritative a candidate).finished ≡ true)
unfolding update_authoritative
update_authoritative-Reaches a candidate =
    if_cases
      (λ (b : ActionProjection).
        Extends a b
        × Reaches candidate.observed_at candidate.evidence b
        × (a.finished ≡ true → b.finished ≡ true))
      (replaces_outcome candidate a.authoritative) (record a { authoritative = some candidate }) a
      (λ h. (
        replaced-Reaches a candidate h,
        (candidate, refl, later_irrefl candidate.observed_at candidate.evidence),
        λ f. f,
      ))
      (λ h. (Extends-refl a, kept-Reaches a.authoritative candidate h, λ f. f))

-- A request whose evidence is greater keeps what was recorded.
replaces_request-stays :
    (o : Option ProjectedText) (evidence : Text) (r : ProjectedText) (known : Text)
    → replaces_request evidence o ≡ true
    → o ≡ some r
    → text_less r.evidence known ≡ false
    → text_less evidence known ≡ false
replaces_request-stays none evidence r known h e l = absurd (ground arith)
replaces_request-stays (some x) evidence r known h e l =
    ground (arith, text_less_trans evidence x.evidence known, text_less_asym x.evidence evidence)

kept-Requested :
    (o : Option ProjectedText) (evidence : Text)
    → replaces_request evidence o ≡ false
    → (r : ProjectedText) × (o ≡ some r) × (text_less r.evidence evidence ≡ false)
kept-Requested none evidence h = absurd (ground arith)
kept-Requested (some r) evidence h = (r, refl, h)

update_request-Extends :
    (a : ActionProjection) (evidence text : Text)
    → Extends a (update_request a evidence (some text))
      × Requested evidence (update_request a evidence (some text))
unfolding update_request
update_request-Extends a evidence text =
    if_cases (λ (b : ActionProjection). Extends a b × Requested evidence b)
      (replaces_request evidence a.request) _ a
      (λ h. (
        record {
          finished_stays = λ k. k;
          reaches_stays = λ time evidence k. k;
          request_stays =
              λ known (r, e, l). (_, refl, replaces_request-stays a.request evidence r known h e l);
        },
        (record { text = text; evidence = evidence }, refl, text_less_irrefl evidence),
      ))
      (λ h. (Extends-refl a, kept-Requested a.request evidence h))

pub request-Shows :
    (redact : Redact) (a : ActionProjection) (input evidence : Text) (text : Option Text)
    → safe_text redact DisclosureClass.observed_state input ≡ ok text
    → Extends a (update_request a evidence text)
      × ((safe_text redact DisclosureClass.observed_state input ≡ ok none)
          ⊎ Requested evidence (update_request a evidence text))
unfolding update_request
request-Shows redact a input evidence none safe = (Extends-refl a, inl safe)
request-Shows redact a input evidence (some text) safe =
    let (x, shows) = update_request-Extends a evidence text in (x, inr shows)

pub authoritative-Shows :
    (a : ActionProjection) (succeeded : Bool) (time : ℕ) (evidence : Text) (command : Option Text)
    → Extends a
        (update_authoritative (finish_action a) (outcome_at succeeded time evidence command))
      × (((update_authoritative
              (finish_action a)
              (outcome_at succeeded time evidence command)).finished
            ≡ true)
          × Reaches time evidence
              (update_authoritative (finish_action a) (outcome_at succeeded time evidence command)))
authoritative-Shows a succeeded time evidence command =
    let (x, r, f) =
      update_authoritative-Reaches (finish_action a) (outcome_at succeeded time evidence command) in
    (Extends-trans a (finish_action a) _ (finish-Extends a) x, (f refl, r))
