-- ===== src/Workgraph/Contract/Origins.antt =====
-- Where the entries of the actions' map come from.
use agbox.Common.{
  ℕ, ◌≡◌, ◌⊎◌, inl, inr, refl, Bool, true, Option, none, some, List, [], ◌∷◌, Any, arith, subst,
  sym, ap, if_cases, ◌∙◌,
}
use agbox.Core.Base.{Text, Text-discrete, ok, bind-ok}
use agbox.Core.Privacy.{DisclosureClass}
use agbox.Workgraph.Reducer.{
  ReducedFact, action_requested_fact, action_finished_observed, eligible_verification_observed,
  verification,
}
use agbox.Workgraph.Contract.{ProjectionState, ActionProjection, ProjectedOutcome, ProjectedText}
use agbox.Workgraph.Contract.Facts.{action_projection_key}
use agbox.Workgraph.Contract.Stored.{ok_eq, store-same, store-other}
use agbox.Workgraph.Contract.Actions.{
  Redact, updated, update_at, update_action_projection, update_actions, update_authoritative,
  update_request, replaces_outcome, replaces_request, action_at, entry_or_default, store,
  outcome_at, finish_action, safe_text, safe_optional_text,
}

-- The facts that report the end of an action.
abbrev pub Ends : Bool → ReducedFact → Type 0
Ends finished (action_finished_observed _ _ _ _ _ _) = finished ≡ true
Ends finished (eligible_verification_observed _ _ _ _ _ _) = finished ≡ true
Ends finished (verification _ _ _ _ _ _ _) = finished ≡ true
Ends finished _ = ⊥

-- An outcome with these parts.
abbrev pub Tells : Option ProjectedOutcome → Bool → ℕ → Text → Option Text → Type 0
Tells outcome succeeded time evidence command =
    (o : ProjectedOutcome) × (outcome ≡ some o)
    × (o.succeeded ≡ succeeded)
    × (o.observed_at ≡ time)
    × (o.evidence ≡ evidence)
    × (o.command ≡ command)

update_request_rest :
    (a : ActionProjection) (evidence : Text) (text : Option Text)
    → ((update_request a evidence text).finished ≡ a.finished)
      × ((update_request a evidence text).authoritative ≡ a.authoritative)
unfolding update_request
update_request_rest a evidence none = (refl, refl)
update_request_rest a evidence (some text) = (ground arith, ground arith)

update_authoritative_parts :
    (a : ActionProjection) (candidate : ProjectedOutcome)
    → ((update_authoritative a candidate).finished ≡ a.finished)
      × ((update_authoritative a candidate).request ≡ a.request)
      × (((update_authoritative a candidate).authoritative ≡ a.authoritative)
          ⊎ ((update_authoritative a candidate).authoritative ≡ some candidate))
unfolding update_authoritative
update_authoritative_parts a candidate = (
  ground arith,
  ground arith,
  if_cases
      (λ (b : ActionProjection).
        (b.authoritative ≡ a.authoritative) ⊎ (b.authoritative ≡ some candidate))
      (replaces_outcome candidate a.authoritative) (record a { authoritative = some candidate }) a
      (λ h. inr refl) (λ h. inl refl),
)

module _ (redact : Redact) where
  -- The outcome is what the fact says, with its command redacted.
  abbrev pub Gives : Option ProjectedOutcome → ReducedFact → Type 0
  Gives outcome (eligible_verification_observed _ _ _ succeeded time evidence) =
      Tells outcome succeeded time evidence none
  Gives outcome (verification _ _ _ command succeeded time evidence) =
      (text : Option Text) × (safe_optional_text redact DisclosureClass.tool_result command
        ≡ ok text)
      × Tells outcome succeeded time evidence text
  Gives outcome _ = ⊥

  -- The request is the input that the fact names, redacted.
  abbrev pub Asks : Option ProjectedText → ReducedFact → Type 0
  Asks request (action_requested_fact _ _ _ _ _ (some input) _ evidence) =
      (r : ProjectedText) × (request ≡ some r)
      × (r.evidence ≡ evidence)
      × (safe_text redact DisclosureClass.observed_state input ≡ ok (some r.text))
  Asks request _ = ⊥

  requested :
      (a : ActionProjection) (input evidence : Text) (text : Option Text)
      → safe_text redact DisclosureClass.observed_state input ≡ ok text
      → ((update_request a evidence text).request ≡ a.request)
        ⊎ ((r : ProjectedText) × ((update_request a evidence text).request ≡ some r)
            × (r.evidence ≡ evidence)
            × (safe_text redact DisclosureClass.observed_state input ≡ ok (some r.text)))
  unfolding update_request
  requested a input evidence none safe = inl refl
  requested a input evidence (some text) safe =
      if_cases
        (λ (b : ActionProjection).
          (b.request ≡ a.request)
          ⊎ ((r : ProjectedText) × (b.request ≡ some r)
              × (r.evidence ≡ evidence)
              × (safe_text redact DisclosureClass.observed_state input ≡ ok (some r.text))))
        (replaces_request evidence a.request)
        (record a { request = some (record { text = text; evidence = evidence }) }) a
        (λ h. inr (record { text = text; evidence = evidence }, refl, refl, safe)) (λ h. inl refl)

module _ (hash : Text → Text) (redact : Redact) where
  -- A part of an entry is as before, or one of the facts on the action says it.
  abbrev pub From :
      {X : Type 0}
      → (ActionProjection → X)
      → (X → ReducedFact → Type 0)
      → ProjectionState
      → ProjectionState
      → List ReducedFact
      → Text
      → Type 0
  From part Says p q facts key =
      (part (action_at key q) ≡ part (action_at key p))
      ⊎ Any
          (λ fact.
            (action_projection_key hash fact ≡ some key) × Says (part (action_at key q)) fact)
          facts

  -- Each part of the entry of a key has its origin.
  abbrev pub Originates : ProjectionState → ProjectionState → List ReducedFact → Text → Type 0
  Originates p q facts key =
      From (λ (a : ActionProjection). a.finished) Ends p q facts key
      × From (λ (a : ActionProjection). a.authoritative) (Gives redact) p q facts key
      × From (λ (a : ActionProjection). a.request) (Asks redact) p q facts key

  module _ {X : Type 0} (part : ActionProjection → X) (Says : X → ReducedFact → Type 0)
      (one : (a b : ActionProjection) (fact : ReducedFact)
        → updated hash redact a fact ≡ ok b
        → (part b ≡ part a) ⊎ Says (part b) fact) where
    written :
        (p q : ProjectionState) (a : ActionProjection) (fact : ReducedFact) (k : Text)
        → action_projection_key hash fact ≡ some k
        → action_at k q ≡ a
        → (part a ≡ part (action_at k p)) ⊎ Says (part a) fact
        → From part Says p q (fact ∷ []) k
    written p q a fact k e stored (inl s) = inl (ap part stored ∙ s)
    written p q a fact k e stored (inr s) =
        inr (inl (e, subst (λ x. Says (part x) fact) (sym stored) s))

    joined :
        (p r q : ProjectionState) (fact : ReducedFact) (facts : List ReducedFact) (key : Text)
        → From part Says p r (fact ∷ []) key
        → From part Says r q facts key
        → From part Says p q (fact ∷ facts) key
    joined p r q fact facts key (inl s) (inl t) = inl (t ∙ s)
    joined p r q fact facts key (inr (inl (e, s))) (inl t) =
        inr (inl (e, subst (λ x. Says x fact) (sym t) s))
    joined p r q fact facts key (inr (inr x)) (inl t) = absurd x
    joined p r q fact facts key here (inr t) = inr (inr t)

    step-From :
        (p q : ProjectionState) (fact : ReducedFact) (key : Text) (at : Option Text)
        → action_projection_key hash fact ≡ at
        → update_at hash redact at p fact ≡ ok q
        → From part Says p q (fact ∷ []) key
    step-From p q fact key none e h = inl (ap (λ r. part (action_at key r)) (sym (ok_eq p q h)))
    step-From p q fact key (some k) e h =
        let (a, u, f) = bind-ok (updated hash redact (action_at k p) fact) _ q h in
        let s = ok_eq (store k p a) q f in
        elim (Text-discrete k key) [
          | yes eq ↦ subst (From part Says p q (fact ∷ [])) eq (
              written p q a fact k e (ap (action_at k) (sym s) ∙ store-same k p a)
                (one (action_at k p) a fact u))
          | no n ↦ inl (
              ap (λ r. part (action_at key r)) (sym s)
              ∙ ap (λ x. part (entry_or_default x)) (store-other k key p a n))
        ]

    update_actions-From :
        (p q : ProjectionState) (facts : List ReducedFact) (key : Text)
        → update_actions hash redact p facts ≡ ok q
        → From part Says p q facts key
    unfolding update_actions update_action_projection
    update_actions-From p q [] key h = inl (ap (λ r. part (action_at key r)) (sym (ok_eq p q h)))
    update_actions-From p q (fact ∷ facts) key h =
        let (r, e, rest) = bind-ok (update_action_projection hash redact p fact) _ q h in
        let here = step-From p r fact key (action_projection_key hash fact) refl e in
        joined p r q fact facts key here (update_actions-From r q facts key rest)

  abbrev Changes : ActionProjection → ReducedFact → ActionProjection → Type 0
  Changes a fact b =
      ((b.finished ≡ a.finished) ⊎ Ends b.finished fact)
      × ((b.authoritative ≡ a.authoritative) ⊎ Gives redact b.authoritative fact)
      × ((b.request ≡ a.request) ⊎ Asks redact b.request fact)

  updated-Changes :
      (a b : ActionProjection) (fact : ReducedFact)
      → updated hash redact a fact ≡ ok b
      → Changes a fact b
  unfolding updated
  updated-Changes a b (action_requested_fact p s i n h (some input) t evidence) e =
      let (text, safe, f) = bind-ok (safe_text redact DisclosureClass.observed_state input) _ b e in
      let (fin, auth) = update_request_rest a evidence text in
      subst (Changes a (action_requested_fact p s i n h (some input) t evidence)) (ok_eq _ b f)
        (inl fin, inl auth, requested redact a input evidence text safe)
  updated-Changes a b (action_finished_observed p s i o t evidence) e =
      subst (Changes a (action_finished_observed p s i o t evidence)) (ok_eq _ b e)
        (inr refl, inl refl, inl refl)
  updated-Changes a b (eligible_verification_observed p s i succeeded time evidence) e =
      let (fin, req, auth) =
        update_authoritative_parts (finish_action a) (outcome_at succeeded time evidence none) in
      subst (Changes a (eligible_verification_observed p s i succeeded time evidence)) (ok_eq _ b e)
        (
          inr fin,
          elim auth [
            | inl same ↦ inl same
            | inr new ↦ inr (outcome_at succeeded time evidence none, new, refl, refl, refl, refl)
          ],
          inl req,
        )
  updated-Changes a b (verification p s i command succeeded time evidence) e =
      let (text, safe, f) =
        bind-ok (safe_optional_text redact DisclosureClass.tool_result command) _ b e in
      let (fin, req, auth) =
        update_authoritative_parts (finish_action a) (outcome_at succeeded time evidence text) in
      subst (Changes a (verification p s i command succeeded time evidence)) (ok_eq _ b f) (
        inr fin,
        elim auth [
          | inl same ↦ inl same
          | inr new ↦
              inr
                (text, safe, (outcome_at succeeded time evidence text, new, refl, refl, refl, refl))
        ],
        inl req,
      )
  updated-Changes a b fact e = (
    inl (ap (λ (x : ActionProjection). x.finished) (sym (ok_eq a b e))),
    inl (ap (λ (x : ActionProjection). x.authoritative) (sym (ok_eq a b e))),
    inl (ap (λ (x : ActionProjection). x.request) (sym (ok_eq a b e))),
  )

  -- Whatever the map says at the end, a fact says it, or it was said before.
  pub update_actions-Originates :
      (p q : ProjectionState) (facts : List ReducedFact) (key : Text)
      → update_actions hash redact p facts ≡ ok q
      → Originates p q facts key
  update_actions-Originates p q facts key h = (
    update_actions-From (λ (a : ActionProjection). a.finished) Ends
        (λ a b fact e. (updated-Changes a b fact e).0) p q facts key h,
    update_actions-From (λ (a : ActionProjection). a.authoritative) (Gives redact)
        (λ a b fact e. (updated-Changes a b fact e).1) p q facts key h,
    update_actions-From (λ (a : ActionProjection). a.request) (Asks redact)
        (λ a b fact e. (updated-Changes a b fact e).2) p q facts key h,
  )
