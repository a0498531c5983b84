-- ===== src/Workgraph/Reducer/Slice.antt =====
-- Which slices the reducer accepts, and how far the mutation reaches.
use agbox.Common.{
  ℕ, suc, ◌+◌, ◌-◌, ◌≡◌, ◌≤◌, ◌<◌, ◌↔◌, refl, Option, none, some, List, [], ◌∷◌, length, arith,
  subst, sym, ap, ◌∙◌, Option-cases, inl, inr,
}
use agbox.Core.Base.{Result, ok, err, max_batch_records, max_batch_semantic_bytes, map_err}
use agbox.Core.Activity.{ActivityEventV1}
use agbox.Core.Activity
use agbox.Workgraph.Reducer.{
  CommittedEvent, GraphMutation, Requests, reduce_loop, fact_of, request_of, push, empty_mutation,
}
use agbox.Workgraph.Reducer.Reduce.{validate_loop, validate_slice, reduce, u64_max, invalid}

-- The sequence numbers are `seq`, `seq + 1` and so on, in 64 bits, and every event is valid.
abbrev pub RunsFrom : ℕ → List CommittedEvent → Type 0
RunsFrom seq [] = Unit
RunsFrom seq (c ∷ events) =
    (c.event_seq ≡ seq)
    × (seq ≤ u64_max)
    × (Activity.validate c.event ≡ ok tt)
    × RunsFrom (suc seq) events

abbrev pub Contiguous : List CommittedEvent → Type 0
Contiguous [] = Unit
Contiguous (c ∷ events) =
    (0 < c.event_seq) × (Activity.validate c.event ≡ ok tt) × RunsFrom (suc c.event_seq) events

-- The mutation behind the first event.
abbrev first_mutation : CommittedEvent → List CommittedEvent → GraphMutation
first_mutation c events = record {
  facts = push (fact_of [] c.event c.event.payload) [];
  expected_event_seq = c.event_seq - 1;
  through_event_seq = some c.event_seq;
  through_event_id = some c.event.event_id;
}

module _ (serialized_length : ActivityEventV1 → Option ℕ) where
  -- Eight bytes for each number and the bytes of each event: `Measures events total`.
  abbrev pub Measures : List CommittedEvent → ℕ → Type 0
  Measures [] total = total ≡ 0
  Measures (c ∷ events) total =
      (bytes : ℕ) × (rest : ℕ) × (serialized_length c.event ≡ some bytes)
      × Measures events rest
      × (total ≡ 8 + bytes + rest)

  pub record IsSlice (events : List CommittedEvent) : Type 0 where
    pub bounded : length events ≤ max_batch_records
    pub contiguous : Contiguous events
    pub total : ℕ
    pub measured : Measures events total
    pub fits : total ≤ max_batch_semantic_bytes

  map_err-ok :
      (r : Result Activity.ActivityError (Unit {0})) → map_err invalid r ≡ ok tt → r ≡ ok tt
  map_err-ok (ok tt) h = refl
  map_err-ok (err e) h = ground arith

  abbrev Ordered : Option ℕ → ℕ → Type 0
  Ordered none seq = 0 < seq
  Ordered (some previous) seq = (seq ≡ suc previous) × (seq ≤ u64_max)

  -- The first turn of the loop.
  abbrev Turns : Option ℕ → ℕ → CommittedEvent → List CommittedEvent → Type 0
  Turns previous bytes c events =
      Ordered previous c.event_seq
      × (Activity.validate c.event ≡ ok tt)
      × ((n : ℕ) × (serialized_length c.event ≡ some n)
          × (bytes + 8 + n ≤ max_batch_semantic_bytes)
          × (validate_loop serialized_length (some c.event_seq) (bytes + 8 + n) events ≡ ok tt))

  validate_loop-Turns :
      (previous : Option ℕ) (bytes : ℕ) (c : CommittedEvent) (events : List CommittedEvent)
      → bytes ≤ max_batch_semantic_bytes
      → validate_loop serialized_length previous bytes (c ∷ events) ≡ ok tt
      → Turns previous bytes c events
  unfolding validate_loop
  validate_loop-Turns none bytes c events le h = elim (Option-cases (serialized_length c.event)) [
    | inl e ↦ ground arith
    | inr (n, e) ↦ (
      ground arith,
      map_err-ok (Activity.validate c.event) (ground arith),
      (n, e, ground arith, ground arith),
    )
  ]
  validate_loop-Turns (some p) bytes c events le h =
      elim (Option-cases (serialized_length c.event)) [
        | inl e ↦ ground arith
        | inr (n, e) ↦ (
          (ground arith, ground arith),
          map_err-ok (Activity.validate c.event) (ground arith),
          (n, e, ground arith, ground arith),
        )
      ]

  Turns-validate_loop :
      (previous : Option ℕ) (bytes : ℕ) (c : CommittedEvent) (events : List CommittedEvent)
      → Turns previous bytes c events
      → validate_loop serialized_length previous bytes (c ∷ events) ≡ ok tt
  unfolding validate_loop
  Turns-validate_loop none bytes c events (o, v, (n, e, fits, rest)) = ground arith
  Turns-validate_loop (some p) bytes c events (o, v, (n, e, fits, rest)) = ground arith

  validate_loop-ok :
      (previous bytes : ℕ) (events : List CommittedEvent)
      → bytes ≤ max_batch_semantic_bytes
      → validate_loop serialized_length (some previous) bytes events ≡ ok tt
      → RunsFrom (suc previous) events
        × ((total : ℕ) × Measures events total × (bytes + total ≤ max_batch_semantic_bytes))
  unfolding validate_loop
  validate_loop-ok previous bytes [] le h = (tt, (0, refl, omega arith))
  validate_loop-ok previous bytes (c ∷ events) le h =
      let (o, v, (n, e, fits, next)) = validate_loop-Turns (some previous) bytes c events le h in
      let (runs, (rest, measured, bound)) =
        validate_loop-ok c.event_seq (bytes + 8 + n) events fits next in
      (
        (o.0, omega (arith, o.0, o.1), v, subst (λ s. RunsFrom (suc s) events) o.0 runs),
        (8 + n + rest, (n, rest, e, measured, refl), omega (arith, bound)),
      )

  ok-validate_loop :
      (previous bytes total : ℕ) (events : List CommittedEvent)
      → RunsFrom (suc previous) events
      → Measures events total
      → bytes + total ≤ max_batch_semantic_bytes
      → validate_loop serialized_length (some previous) bytes events ≡ ok tt
  unfolding validate_loop
  ok-validate_loop previous bytes total [] runs m le = refl
  ok-validate_loop previous bytes total (c ∷ events) (o, u, v, runs) (n, rest, e, m, sum) le =
      Turns-validate_loop (some previous) bytes c events (
        (o, omega (arith, o, u)),
        v,
        (
          n,
          e,
          omega (arith, sum, le),
          ok-validate_loop c.event_seq (bytes + 8 + n) rest events
              (subst (λ s. RunsFrom (suc s) events) (sym o) runs) m (omega (arith, sum, le)),
        ),
      )

  validate_slice-ok :
      (events : List CommittedEvent)
      → validate_slice serialized_length events ≡ ok tt
      → IsSlice events
  unfolding validate_slice validate_loop
  validate_slice-ok [] h = record {
    bounded = ground arith;
    contiguous = tt;
    total = 0;
    measured = refl;
    fits = omega arith;
  }
  validate_slice-ok (c ∷ events) h =
      let (o, v, (n, e, fits, next)) =
        validate_loop-Turns none 0 c events (omega arith) (ground arith) in
      let (runs, (rest, measured, bound)) = validate_loop-ok c.event_seq (8 + n) events fits next in
      record {
        bounded = ground arith;
        contiguous = (o, v, runs);
        total = 8 + n + rest;
        measured = (n, rest, e, measured, refl);
        fits = omega (arith, bound);
      }

  ok-validate_slice :
      (events : List CommittedEvent)
      → IsSlice events
      → validate_slice serialized_length events ≡ ok tt
  unfolding validate_slice validate_loop
  ok-validate_slice [] s = refl
  ok-validate_slice (c ∷ events) s =
      let (n, rest, e, m, sum) = s.measured in
      let (o, v, runs) = s.contiguous in
      let turns = Turns-validate_loop none 0 c events (
        o,
        v,
        (
          n,
          e,
          omega (arith, sum, s.fits),
          ok-validate_loop c.event_seq (8 + n) rest events runs m (omega (arith, sum, s.fits)),
        ),
      ) in
      ground (arith, turns, s.bounded)

  -- `reduce` succeeds exactly on slices of at most 1,000 valid events with consecutive positive sequence
  -- numbers in 64 bits, whose JSON texts can be written and have, with eight bytes for each number, at
  -- most 4 MiB.
  pub reduce-succeeds :
      (events : List CommittedEvent)
      → ((m : GraphMutation) × (reduce serialized_length events ≡ ok m)) ↔ IsSlice events
  unfolding reduce
  reduce-succeeds events = (
    λ (m, h). validate_slice-ok events (ground arith),
    λ s.
        let valid = ok-validate_slice events s in
        (reduce_loop [] (empty_mutation events) events, ground arith),
  )

  reduce_loop-through :
      (requests : Requests) (m : GraphMutation) (seq : ℕ) (events : List CommittedEvent)
      → RunsFrom (suc seq) events
      → m.through_event_seq ≡ some seq
      → (reduce_loop requests m events).through_event_seq ≡ some (seq + length events)
  unfolding reduce_loop
  reduce_loop-through requests m seq [] runs h = ground arith
  reduce_loop-through requests m seq (c ∷ events) (o, u, v, runs) h = ground (
    arith,
    o,
    reduce_loop-through (request_of c.event c.event.payload requests)
        (record {
          facts = push (fact_of requests c.event c.event.payload) m.facts;
          expected_event_seq = m.expected_event_seq;
          through_event_seq = some c.event_seq;
          through_event_id = some c.event.event_id;
        })
        (suc seq) events runs (ap some o),
  )

  reduce_loop-expected :
      (requests : Requests) (m : GraphMutation) (events : List CommittedEvent)
      → (reduce_loop requests m events).expected_event_seq ≡ m.expected_event_seq
  unfolding reduce_loop
  reduce_loop-expected requests m [] = refl
  reduce_loop-expected requests m (c ∷ events) =
      reduce_loop-expected (request_of c.event c.event.payload requests)
        (record {
          facts = push (fact_of requests c.event c.event.payload) m.facts;
          expected_event_seq = m.expected_event_seq;
          through_event_seq = some c.event_seq;
          through_event_id = some c.event.event_id;
        })
        events

  -- The mutation of a slice with a first event expects the cursor just before it and moves the cursor on
  -- by the number of events.
  pub reduce-cursor :
      (c : CommittedEvent) (events : List CommittedEvent) (m : GraphMutation)
      → reduce serialized_length (c ∷ events) ≡ ok m
      → (suc m.expected_event_seq ≡ c.event_seq)
        × (m.through_event_seq ≡ some (m.expected_event_seq + length (c ∷ events)))
  unfolding reduce reduce_loop
  reduce-cursor c events m h =
      let (o, v, runs) = (validate_slice-ok (c ∷ events) (ground arith)).contiguous in
      let first = first_mutation c events in
      let same : reduce_loop (request_of c.event c.event.payload []) first events ≡ m =
        ground arith in
      let expected = reduce_loop-expected (request_of c.event c.event.payload []) first events in
      let through =
        reduce_loop-through (request_of c.event c.event.payload []) first c.event_seq events runs
          refl in
      subst
        (λ m.
          (suc m.expected_event_seq ≡ c.event_seq)
          × (m.through_event_seq ≡ some (m.expected_event_seq + length (c ∷ events))))
        same (omega (arith, o, expected), through ∙ ap some (omega (arith, o, expected)))
