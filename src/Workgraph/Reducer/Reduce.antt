-- ===== src/Workgraph/Reducer/Reduce.antt =====
-- `DeterministicReducer::reduce` and the validation of its slice.
use agbox.Common.{
  ℕ, ◌+◌, ◌-◌, ◌^◌, Bool, false, not, ◌||◌, Option, none, some, List, [], ◌∷◌, length, ltb, ◌==◌,
  if◌then◌else◌,
}
use agbox.Core.Base.{
  Result, ok, err, ◌>>=◌, ◌>>◌, refuse, map_err, max_batch_records, max_batch_semantic_bytes,
}
use agbox.Core.Activity.{ActivityEventV1}
use agbox.Core.Activity
use agbox.Workgraph.Reducer.{
  CommittedEvent, ReduceError, invalid_sequence, too_many_events, too_many_bytes, invalid_event,
  GraphMutation, reduce_loop, empty_mutation,
}

abbrev pub u64_max : ℕ
u64_max = 2 ^ 64 - 1

-- `checked_add` on a `u64` or a `usize`.
abbrev pub checked_add : ℕ → ℕ → Option ℕ
checked_add a b = if ltb u64_max (a + b) then none else some (a + b)

abbrev pub is_number : Option ℕ → ℕ → Bool
is_number none b = false
is_number (some a) b = a == b

abbrev pub out_of_order : Option ℕ → ℕ → Bool
out_of_order none seq = false
out_of_order (some previous) seq = not (is_number (checked_add previous 1) seq)

abbrev pub add_length : Option ℕ → Option ℕ → Result ReduceError ℕ
add_length none length = err too_many_bytes
add_length (some total) none = err too_many_bytes
add_length (some total) (some length) = elim (checked_add total length) [
  | none ↦ err too_many_bytes
  | some sum ↦ ok sum
]

abbrev pub invalid : {E : Type 0} → E → ReduceError
invalid e = invalid_event

module _ (serialized_length : ActivityEventV1 → Option ℕ) where
  unfoldable pub validate_loop : Option ℕ → ℕ → List CommittedEvent → Result ReduceError (Unit {0})
  validate_loop previous semantic_bytes [] = ok tt
  validate_loop previous semantic_bytes (c ∷ events) = do
    refuse (c.event_seq == 0 || out_of_order previous c.event_seq) invalid_sequence
    map_err invalid (Activity.validate c.event)
    total ← add_length (checked_add semantic_bytes 8) (serialized_length c.event)
    refuse (ltb max_batch_semantic_bytes total) too_many_bytes
    validate_loop (some c.event_seq) total events

  unfoldable pub validate_slice : List CommittedEvent → Result ReduceError (Unit {0})
  validate_slice events = do
    refuse (ltb max_batch_records (length events)) too_many_events
    validate_loop none 0 events

  unfoldable pub reduce : List CommittedEvent → Result ReduceError GraphMutation
  reduce events = do validate_slice events; ok (reduce_loop [] (empty_mutation events) events)
