-- ===== src/Workgraph/Reducer/Provenance.antt =====
-- What the facts of a mutation say of the events that they cite.
use agbox.Common.{
  ℕ, ◌≡◌, refl, inl, inr, Bool, true, false, ◌&&◌, ◌||◌, ◌∙◌, Option, none, some, List, [], ◌∷◌,
  ◌++◌, append_assoc, append-nil, map, All, All-append, arith, Bool-cases, Option-cases, subst, sym,
  ap, if◌then◌else◌,
}
use agbox.Common.Assoc.{lookup, lookup-insert}
use agbox.Core.Base.{Text, ok, Result-cases}
use agbox.Core.Privacy.{DisclosureClass, same_class}
use agbox.Core.Activity.{
  ActivityEventV1, EventPayload, agent_started, agent_finished, session_context_changed,
  artifact_changed, action_requested, action_finished, message_created,
}
use agbox.Workgraph.Reducer.{
  CommittedEvent, ReducedFact, GraphMutation, ActionKey, ActionKey-discrete, action_key, Requests,
  nonempty, is_constraint_text, is_human, is_agent, authorized_result, fact_of, request_of, push,
  reduce_loop, empty_mutation, evidence_id,
}
use agbox.Workgraph.Reducer.Explains.{request_at, or_else, last_request, Explains, IsExplained}
use agbox.Workgraph.Reducer.Facts.{fact_of-IsExplained}
use agbox.Workgraph.Reducer.Reduce.{reduce, validate_slice}

-- The fact says what an event of the slice shows after the events before it.
abbrev pub Cites : List CommittedEvent → ReducedFact → Type 0
Cites slice fact =
    (before : List CommittedEvent) × (c : CommittedEvent) × (after : List CommittedEvent) × (slice
      ≡ before ++ (c ∷ after))
    × Explains before c.event fact

-- Whether an event becomes a fact.
abbrev pub reports : ActivityEventV1 → EventPayload → Bool
reports e (agent_started id) = true
reports e (agent_finished id outcome) = true
reports e (session_context_changed context branch_hash) = true
reports e (artifact_changed path operation content_hash) = true
reports e (action_requested id tool_name input) = true
reports e (action_finished id outcome output) = true
reports e (message_created content) =
    (is_human e.actor && same_class content.disclosure_class DisclosureClass.human_intent)
    || is_agent e.actor
reports e _ = false

abbrev pub evidence_of : List CommittedEvent → List Text
evidence_of [] = []
evidence_of (c ∷ events) =
    let rest = evidence_of events in
    if reports c.event c.event.payload then c.event.event_id ∷ rest else rest

last_request-append :
    (key : ActionKey) (before : List CommittedEvent) (c : CommittedEvent)
    → last_request key (before ++ (c ∷ []))
      ≡ or_else (request_at key c.event c.event.payload) (last_request key before)
last_request-append key [] c = ground arith
last_request-append key (b ∷ before) c = ground (arith, last_request-append key before c)

request_of-last :
    (key : ActionKey) (requests : Requests) (e : ActivityEventV1) (payload : EventPayload)
    → lookup ActionKey-discrete key (request_of e payload requests)
      ≡ or_else (request_at key e payload) (lookup ActionKey-discrete key requests)
request_of-last key requests e (action_requested id tool_name input) = ground (
  arith,
  lookup-insert ActionKey-discrete key (action_key e id) (nonempty input.redacted_excerpt) requests,
)
request_of-last key requests e _ = refl

push-All :
    (P : ReducedFact → Type 0) (o : Option ReducedFact) (facts : List ReducedFact)
    → All P facts
    → ((f : ReducedFact) → o ≡ some f → P f)
    → All P (push o facts)
push-All P none facts all new = all
push-All P (some f) facts all new = (All-append P facts (f ∷ [])).1 (all, (new f refl, tt))

-- The mutation behind the next event.
abbrev next_mutation : Requests → GraphMutation → CommittedEvent → GraphMutation
next_mutation requests m c = record {
  facts = push (fact_of requests c.event c.event.payload) m.facts;
  expected_event_seq = m.expected_event_seq;
  through_event_seq = some c.event_seq;
  through_event_id = some c.event.event_id;
}

reduce_loop-Cites :
    (slice : List CommittedEvent) (requests : Requests) (m : GraphMutation)
    (before events : List CommittedEvent)
    → slice ≡ before ++ events
    → ((key : ActionKey) → lookup ActionKey-discrete key requests ≡ last_request key before)
    → All (Cites slice) m.facts
    → All (Cites slice) (reduce_loop requests m events).facts
unfolding reduce_loop
reduce_loop-Cites slice requests m before [] split inv all = all
reduce_loop-Cites slice requests m before (c ∷ events) split inv all =
    reduce_loop-Cites slice (request_of c.event c.event.payload requests)
      (next_mutation requests m c) (before ++ (c ∷ [])) events
      (split ∙ sym (append_assoc before (c ∷ []) events))
      (λ key.
        request_of-last key requests c.event c.event.payload
        ∙ (ap (or_else (request_at key c.event c.event.payload)) (inv key)
            ∙ sym (last_request-append key before c)))
      (push-All (Cites slice) (fact_of requests c.event c.event.payload) m.facts all (λ f made. (
        before,
        c,
        events,
        split,
        subst (IsExplained before c.event) made
            (fact_of-IsExplained requests before c.event c.event.payload inv refl),
      )))

push-evidence :
    (o : Option ReducedFact) (facts : List ReducedFact)
    → map evidence_id (push o facts) ≡ map evidence_id facts ++ map evidence_id (push o [])
push-evidence none facts = sym (append-nil (map evidence_id facts))
push-evidence (some f) [] = refl
push-evidence (some f) (g ∷ facts) = ap (◌∷◌ (evidence_id g)) (push-evidence (some f) facts)

fact_of-evidence :
    (requests : Requests) (e : ActivityEventV1) (payload : EventPayload)
    → map evidence_id (push (fact_of requests e payload) [])
      ≡ (if reports e payload then e.event_id ∷ [] else [])
unfolding fact_of evidence_id
fact_of-evidence requests e (action_finished id outcome output) =
    elim (Bool-cases (authorized_result e output)) [
      | inl a ↦ elim (Option-cases (lookup ActionKey-discrete (action_key e id) requests)) [
        | inl n ↦ rw (a, n)
        | inr (o, n) ↦ rw (a, n)
      ]
      | inr a ↦ rw a
    ]
fact_of-evidence requests e (message_created content) =
    elim (Bool-cases
      (is_human e.actor && same_class content.disclosure_class DisclosureClass.human_intent)) [
        | inl a ↦ elim (Bool-cases (is_constraint_text (nonempty content.redacted_excerpt))) [
          | inl c ↦ rw (a, c)
          | inr c ↦ rw (a, c)
        ]
        | inr a ↦ elim (Bool-cases (is_agent e.actor)) [ inl b ↦ rw (a, b) | inr b ↦ rw (a, b) ]
      ]
fact_of-evidence requests e _ = refl

evidence_of-cons :
    (c : CommittedEvent) (events : List CommittedEvent)
    → evidence_of (c ∷ events)
      ≡ (if reports c.event c.event.payload then c.event.event_id ∷ [] else [])
        ++ evidence_of events
evidence_of-cons c events = elim (Bool-cases (reports c.event c.event.payload)) [
  | inl e ↦ rw e
  | inr e ↦ rw e
]

reduce_loop-evidence :
    (requests : Requests) (m : GraphMutation) (events : List CommittedEvent)
    → map evidence_id (reduce_loop requests m events).facts
      ≡ map evidence_id m.facts ++ evidence_of events
unfolding reduce_loop
reduce_loop-evidence requests m [] = sym (append-nil (map evidence_id m.facts))
reduce_loop-evidence requests m (c ∷ events) =
    let made = fact_of requests c.event c.event.payload in
    let step =
      reduce_loop-evidence (request_of c.event c.event.payload requests)
        (next_mutation requests m c) events in
    let old = map evidence_id m.facts in
    step
    ∙ (ap (λ ids. ids ++ evidence_of events)
          (push-evidence made m.facts
            ∙ ap (λ ids. old ++ ids) (fact_of-evidence requests c.event c.event.payload))
        ∙ (append_assoc old (if reports c.event c.event.payload then c.event.event_id ∷ [] else [])
              (evidence_of events)
            ∙ ap (λ ids. old ++ ids) (sym (evidence_of-cons c events))))

module _ (serialized_length : ActivityEventV1 → Option ℕ) where
  reduce-reduce_loop :
      (events : List CommittedEvent) (m : GraphMutation)
      → reduce serialized_length events ≡ ok m
      → reduce_loop [] (empty_mutation events) events ≡ m
  unfolding reduce
  reduce-reduce_loop events m h = elim (Result-cases (validate_slice serialized_length events)) [
    | inl (u, e) ↦ ground arith
    | inr (x, e) ↦ ground arith
  ]

  -- Every fact of a mutation says what an event of the slice shows: its evidence, project, session and
  -- time, and what its payload says. A verification is the result of an action by a tool, with an output
  -- that is a tool's if there is one, and has the command of the last request of the action before it
  -- in the slice; only where there is none the result stays an observation. An objective or a
  -- constraint is a message of the human that is disclosed as human intent.
  pub reduce-Cites :
      (events : List CommittedEvent) (m : GraphMutation)
      → reduce serialized_length events ≡ ok m
      → All (Cites events) m.facts
  reduce-Cites events m h =
      subst (λ m. All (Cites events) m.facts) (reduce-reduce_loop events m h)
        (reduce_loop-Cites events [] (empty_mutation events) [] events refl (λ key. refl) tt)

  -- The facts of a mutation cite, in their order and each once, exactly the events of the slice that report
  -- something: those on agents, contexts, artifacts and actions, the messages of the human
  -- that are disclosed as human intent, and the messages of agents.
  pub reduce-evidence :
      (events : List CommittedEvent) (m : GraphMutation)
      → reduce serialized_length events ≡ ok m
      → map evidence_id m.facts ≡ evidence_of events
  reduce-evidence events m h =
      subst (λ m. map evidence_id m.facts ≡ evidence_of events) (reduce-reduce_loop events m h)
        (reduce_loop-evidence [] (empty_mutation events) events)
