-- ===== src/Workgraph/Contract/Fields.antt =====
-- What the fields of the actions are, said without the loop that fills them.
use agbox.Common.{
  ◌≡◌, refl, Bool, true, false, not, Option, none, some, List, [], ◌∷◌, ◌++◌, append-nil,
  append_assoc, sym, ap, ◌∙◌, subst,
}
use agbox.Core.Base.{Text, ok, bind-ok}
use agbox.Workgraph.Reducer.{ReducedFact}
use agbox.Workgraph.Contract.{
  ProjectionState, ActionProjection, ProjectedText, ProjectedOutcome, MaterialDraft,
}
use agbox.Workgraph.Contract.Stored.{ok_eq}
use agbox.Workgraph.Contract.Actions.{
  Redact, project_request, project_command, project_outcome, project_action, project_actions,
  project_action_fields, apply_action_facts, update_actions, bound_actions, clear_action_fields,
}

abbrev pub text_of : Option ProjectedText → List Text
text_of none = []
text_of (some request) = request.text ∷ []

-- The request of an action that is not finished.
abbrev pub pending_of : Bool → Option ProjectedText → List Text
pending_of true request = []
pending_of false request = text_of request

abbrev pub command_if : Bool → Option Text → List Text
command_if true (some command) = command ∷ []
command_if _ _ = []

-- The command of an outcome that passes the test.
abbrev pub command_of : (Bool → Bool) → Option ProjectedOutcome → List Text
command_of p none = []
command_of p (some outcome) = command_if (p outcome.succeeded) outcome.command

abbrev pub collect : (ActionProjection → List Text) → List (Text × ActionProjection) → List Text
collect f [] = []
collect f ((key, action) ∷ actions) = f action ++ collect f actions

abbrev pub pending : ActionProjection → List Text
pending action = pending_of action.finished action.request

abbrev pub commands : (Bool → Bool) → ActionProjection → List Text
commands p action = command_of p action.authoritative

-- The four fields of a draft are those of another, each followed by a list.
abbrev pub Adds :
    MaterialDraft → MaterialDraft → List Text → List Text → List Text → List Text → Type 0
Adds d e next completed failed ran =
    (e.next_actions ≡ d.next_actions ++ next)
    × (e.completed_steps ≡ d.completed_steps ++ completed)
    × (e.blockers ≡ d.blockers ++ failed)
    × (e.verification ≡ d.verification ++ ran)

abbrev pub any_result : Bool → Bool
any_result succeeded = true

abbrev pub is_true : Bool → Bool
is_true succeeded = succeeded

nothing : (xs : List Text) → xs ≡ xs ++ []
nothing xs = sym (append-nil xs)

project_request-Adds :
    (finished : Bool) (request : Option ProjectedText) (d : MaterialDraft)
    → Adds d (project_request finished request d) (pending_of finished request) [] [] []
project_request-Adds true request d =
    (nothing d.next_actions, nothing d.completed_steps, nothing d.blockers, nothing d.verification)
project_request-Adds false none d =
    (nothing d.next_actions, nothing d.completed_steps, nothing d.blockers, nothing d.verification)
project_request-Adds false (some request) d =
    (refl, nothing d.completed_steps, nothing d.blockers, nothing d.verification)

project_command-Adds :
    (succeeded : Bool) (evidence : Text) (command : Option Text) (d : MaterialDraft)
    → Adds d
        (project_command succeeded evidence command d)
        []
        (command_if succeeded command)
        (command_if (not succeeded) command)
        (command_if true command)
project_command-Adds true evidence none d =
    (nothing d.next_actions, nothing d.completed_steps, nothing d.blockers, nothing d.verification)
project_command-Adds false evidence none d =
    (nothing d.next_actions, nothing d.completed_steps, nothing d.blockers, nothing d.verification)
project_command-Adds true evidence (some command) d =
    (nothing d.next_actions, refl, nothing d.blockers, refl)
project_command-Adds false evidence (some command) d =
    (nothing d.next_actions, nothing d.completed_steps, refl, refl)

project_outcome-Adds :
    (o : Option ProjectedOutcome) (d : MaterialDraft)
    → Adds d
        (project_outcome o d)
        []
        (command_of is_true o)
        (command_of not o)
        (command_of any_result o)
project_outcome-Adds none d =
    (nothing d.next_actions, nothing d.completed_steps, nothing d.blockers, nothing d.verification)
project_outcome-Adds (some o) d = project_command-Adds o.succeeded o.evidence o.command d

joined : (a b c : List Text) (xs ys : List Text) → b ≡ a ++ xs → c ≡ b ++ ys → c ≡ a ++ (xs ++ ys)
joined a b c xs ys e f = f ∙ (ap (λ (x : List Text). x ++ ys) e ∙ append_assoc a xs ys)

Adds-trans :
    (a b c : MaterialDraft) (n s f v n' s' f' v' : List Text)
    → Adds a b n s f v
    → Adds b c n' s' f' v'
    → Adds a c (n ++ n') (s ++ s') (f ++ f') (v ++ v')
Adds-trans a b c n s f v n' s' f' v' (e0, e1, e2, e3) (h0, h1, h2, h3) = (
  joined a.next_actions b.next_actions c.next_actions n n' e0 h0,
  joined a.completed_steps b.completed_steps c.completed_steps s s' e1 h1,
  joined a.blockers b.blockers c.blockers f f' e2 h2,
  joined a.verification b.verification c.verification v v' e3 h3,
)

project_action-Adds :
    (action : ActionProjection) (d : MaterialDraft)
    → Adds d
        (project_action action d)
        (pending action)
        (commands is_true action)
        (commands not action)
        (commands any_result action)
project_action-Adds action d =
    subst
      (λ (next : List Text).
        Adds d (project_action action d) next (commands is_true action) (commands not action)
          (commands any_result action))
      (append-nil (pending action))
      (Adds-trans d (project_request action.finished action.request d) (project_action action d)
        (pending action) [] [] [] [] (commands is_true action) (commands not action)
        (commands any_result action) (project_request-Adds action.finished action.request d)
        (project_outcome-Adds action.authoritative
          (project_request action.finished action.request d)))

project_command-state :
    (succeeded : Bool) (evidence : Text) (command : Option Text) (d : MaterialDraft)
    → (project_command succeeded evidence command d).projection_state ≡ d.projection_state
project_command-state true evidence none d = refl
project_command-state false evidence none d = refl
project_command-state true evidence (some command) d = refl
project_command-state false evidence (some command) d = refl

project_actions-Adds :
    (actions : List (Text × ActionProjection)) (d : MaterialDraft)
    → Adds d
        (project_actions actions d)
        (collect pending actions)
        (collect (commands is_true) actions)
        (collect (commands not) actions)
        (collect (commands any_result) actions)
unfolding project_actions
project_actions-Adds [] d =
    (nothing d.next_actions, nothing d.completed_steps, nothing d.blockers, nothing d.verification)
project_actions-Adds ((key, action) ∷ actions) d =
    Adds-trans d (project_action action d) (project_actions actions (project_action action d))
      (pending action) (commands is_true action) (commands not action) (commands any_result action)
      (collect pending actions) (collect (commands is_true) actions)
      (collect (commands not) actions) (collect (commands any_result) actions)
      (project_action-Adds action d) (project_actions-Adds actions (project_action action d))

project_request-state :
    (finished : Bool) (request : Option ProjectedText) (d : MaterialDraft)
    → (project_request finished request d).projection_state ≡ d.projection_state
project_request-state true request d = refl
project_request-state false none d = refl
project_request-state false (some request) d = refl

project_outcome-state :
    (o : Option ProjectedOutcome) (d : MaterialDraft)
    → (project_outcome o d).projection_state ≡ d.projection_state
project_outcome-state none d = refl
project_outcome-state (some o) d = project_command-state o.succeeded o.evidence o.command d

project_actions-state :
    (actions : List (Text × ActionProjection)) (d : MaterialDraft)
    → (project_actions actions d).projection_state ≡ d.projection_state
unfolding project_actions
project_actions-state [] d = refl
project_actions-state ((key, action) ∷ actions) d =
    project_actions-state actions (project_action action d)
    ∙ (project_outcome-state action.authoritative (project_request action.finished action.request d)
        ∙ project_request-state action.finished action.request d)

-- What the fields of a draft say is what its actions say.
pub record ShowsActions (d : MaterialDraft) : Type 0 where
  pub next : d.next_actions ≡ collect pending d.projection_state.actions
  pub done : d.completed_steps ≡ collect (commands is_true) d.projection_state.actions
  pub blocked : d.blockers ≡ collect (commands not) d.projection_state.actions
  pub ran : d.verification ≡ collect (commands any_result) d.projection_state.actions

project_action_fields-ShowsActions :
    (d : MaterialDraft)
    → ShowsActions (project_action_fields d)
      × ((project_action_fields d).projection_state ≡ d.projection_state)
unfolding project_action_fields
project_action_fields-ShowsActions d =
    let cleared : MaterialDraft = clear_action_fields d in
    let actions = d.projection_state.actions in
    let (a, b, c, e) = project_actions-Adds actions cleared in
    let same = project_actions-state actions cleared in
    let kept = ap (λ (s : ProjectionState). s.actions) (sym same) in
    (
      record {
        next = a ∙ ap (collect pending) kept;
        done = b ∙ ap (collect (commands is_true)) kept;
        blocked = c ∙ ap (collect (commands not)) kept;
        ran = e ∙ ap (collect (commands any_result)) kept;
      },
      same,
    )

-- When the facts about actions are applied, the draft's next actions are the requests of the actions
-- that are not finished, its completed steps and its blockers are the commands of those that
-- succeeded and of those that failed, and its verification is the commands of both, each in the
-- order of the actions' keys; nothing else is in them. The actions are those that the facts leave,
-- cut to 128.
pub apply_action_facts-ShowsActions :
    (hash : Text → Text) (redact : Redact) (d e : MaterialDraft) (facts : List ReducedFact)
    → apply_action_facts hash redact d facts ≡ ok e
    → ShowsActions e
      × ((p : ProjectionState) × (update_actions hash redact d.projection_state facts ≡ ok p)
          × (e.projection_state ≡ bound_actions p))
unfolding apply_action_facts
apply_action_facts-ShowsActions hash redact d e facts h =
    let (p, u, f) = bind-ok (update_actions hash redact d.projection_state facts) _ e h in
    let (shows, state) =
      project_action_fields-ShowsActions (record d { projection_state = bound_actions p }) in
    subst
      (λ (x : MaterialDraft).
        ShowsActions x
        × ((p : ProjectionState) × (update_actions hash redact d.projection_state facts ≡ ok p)
            × (x.projection_state ≡ bound_actions p)))
      (ok_eq _ e f) (shows, (p, u, state))
