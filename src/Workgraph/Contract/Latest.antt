-- ===== src/Workgraph/Contract/Latest.antt =====
-- What the actions' map keeps of the facts.
use agbox.Common.{◌≡◌, refl, true, Option, none, some, List, [], ◌∷◌, All, subst, sym, ap, ◌⊎◌}
use agbox.Core.Base.{Text, Text-discrete, ok, bind-ok}
use agbox.Core.Privacy.{DisclosureClass}
use agbox.Workgraph.Reducer.{
  ReducedFact, action_requested_fact, action_finished_observed, eligible_verification_observed,
  verification,
}
use agbox.Workgraph.Contract.{ProjectionState, ActionProjection}
use agbox.Workgraph.Contract.Facts.{action_projection_key}
use agbox.Workgraph.Contract.Extends.{
  Reaches, Requested, Shows, Extends, Extends-refl, Extends-Shows, Extends-trans, finish-Extends,
  request-Shows, authoritative-Shows,
}
use agbox.Workgraph.Contract.Origins.{Originates, update_actions-Originates}
use agbox.Workgraph.Contract.Stored.{ok_eq, store-same, store-other}
use agbox.Workgraph.Contract.Actions.{
  Redact, updated, update_at, update_action_projection, update_actions, action_at, entry_or_default,
  store, safe_text, safe_optional_text,
}

abbrev pub ShowsAt : Redact → ProjectionState → Option Text → ReducedFact → Type 0
ShowsAt redact projection none fact = Unit
ShowsAt redact projection (some key) fact = Shows redact fact (action_at key projection)

abbrev pub Grows : ProjectionState → ProjectionState → Type 0
Grows p q = (key : Text) → Extends (action_at key p) (action_at key q)

store-Grows :
    (key : Text) (p : ProjectionState) (a : ActionProjection)
    → Extends (action_at key p) a
    → Grows p (store key p a)
store-Grows key p a x other = elim (Text-discrete key other) [
  | yes e ↦
      subst (λ (k : Text). Extends (action_at k p) (action_at k (store key p a))) e
        (subst (Extends (action_at key p)) (sym (store-same key p a)) x)
  | no n ↦
      subst (Extends (action_at other p)) (ap entry_or_default (sym (store-other key other p a n)))
        (Extends-refl (action_at other p))
]

ShowsAt-Grows :
    (redact : Redact) (key : Option Text) (p q : ProjectionState) (fact : ReducedFact)
    → Grows p q
    → ShowsAt redact p key fact
    → ShowsAt redact q key fact
ShowsAt-Grows redact none p q fact g h = tt
ShowsAt-Grows redact (some key) p q fact g h =
    Extends-Shows redact fact (action_at key p) (action_at key q) (g key) h

module _ (hash : Text → Text) (redact : Redact) where
  updated-Shows :
      (a b : ActionProjection) (fact : ReducedFact)
      → updated hash redact a fact ≡ ok b
      → Extends a b × Shows redact fact b
  unfolding updated
  updated-Shows a b (action_requested_fact p s i n h (some input) t evidence) e =
      let (text, safe, f) = bind-ok (safe_text redact DisclosureClass.observed_state input) _ b e in
      subst
        (λ (x : ActionProjection).
          Extends a x
          × ((safe_text redact DisclosureClass.observed_state input ≡ ok none)
              ⊎ Requested evidence x))
        (ok_eq _ b f) (request-Shows redact a input evidence text safe)
  updated-Shows a b (action_finished_observed p s i o t evidence) e =
      subst (λ (x : ActionProjection). Extends a x × (x.finished ≡ true)) (ok_eq _ b e)
        (finish-Extends a, refl)
  updated-Shows a b (eligible_verification_observed p s i succeeded time evidence) e =
      subst
        (λ (x : ActionProjection). Extends a x × ((x.finished ≡ true) × Reaches time evidence x))
        (ok_eq _ b e) (authoritative-Shows a succeeded time evidence none)
  updated-Shows a b (verification p s i command succeeded time evidence) e =
      let (text, safe, f) =
        bind-ok (safe_optional_text redact DisclosureClass.tool_result command) _ b e in
      subst
        (λ (x : ActionProjection). Extends a x × ((x.finished ≡ true) × Reaches time evidence x))
        (ok_eq _ b f) (authoritative-Shows a succeeded time evidence text)
  updated-Shows a b _ e = (subst (Extends a) (ok_eq a b e) (Extends-refl a), tt)

  -- The map shows what the fact says of its action.
  abbrev pub Records : ProjectionState → ReducedFact → Type 0
  Records projection fact = ShowsAt redact projection (action_projection_key hash fact) fact

  step-Records :
      (key : Option Text) (p q : ProjectionState) (fact : ReducedFact)
      → update_at hash redact key p fact ≡ ok q
      → Grows p q × ShowsAt redact q key fact
  step-Records none p q fact h =
      (subst (Grows p) (ok_eq p q h) (λ key. Extends-refl (action_at key p)), tt)
  step-Records (some key) p q fact h =
      let (a, u, e) = bind-ok (updated hash redact (action_at key p) fact) _ q h in
      let (x, shows) = updated-Shows (action_at key p) a fact u in
      subst (λ (r : ProjectionState). Grows p r × Shows redact fact (action_at key r)) (ok_eq _ q e)
        (store-Grows key p a x, subst (Shows redact fact) (sym (store-same key p a)) shows)

  update_actions-Shows :
      (p q : ProjectionState) (facts : List ReducedFact)
      → update_actions hash redact p facts ≡ ok q
      → Grows p q × All (Records q) facts
  unfolding update_actions update_action_projection
  update_actions-Shows p q [] h =
      (subst (Grows p) (ok_eq p q h) (λ key. Extends-refl (action_at key p)), tt)
  update_actions-Shows p q (fact ∷ facts) h =
      let (r, e, rest) = bind-ok (update_action_projection hash redact p fact) _ q h in
      let (grows, here) = step-Records (action_projection_key hash fact) p r fact e in
      let (later_grows, more) = update_actions-Shows r q facts rest in
      (
        λ key.
            Extends-trans (action_at key p) (action_at key r) (action_at key q) (grows key)
              (later_grows key),
        (ShowsAt-Grows redact (action_projection_key hash fact) r q fact later_grows here, more),
      )

  -- When all facts are taken up, the map shows each of them that reports on an action: the action is
  -- finished, its outcome is that of the fact or one that is not earlier, by the time and then by the
  -- evidence, and where a request has an input of which `safe_text` leaves something, a request is
  -- recorded whose evidence is not less. Whatever the map says of an action at the end, that it is
  -- finished, its outcome or its request, it said before, or one of the facts on that action says
  -- it: the success, the time, the evidence and the redacted command of the outcome are those of
  -- one verification, or of one observed verdict, which has no command, and the text and the evidence
  -- of the request are those of one request. What the
  -- map showed before it still shows.
  pub update_actions-Records :
      (p q : ProjectionState) (facts : List ReducedFact)
      → update_actions hash redact p facts ≡ ok q
      → Grows p q × All (Records q) facts × ((key : Text) → Originates hash redact p q facts key)
  update_actions-Records p q facts h =
      let (grows, shows) = update_actions-Shows p q facts h in
      (grows, shows, λ key. update_actions-Originates hash redact p q facts key h)
