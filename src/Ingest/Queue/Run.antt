-- ===== src/Ingest/Queue/Run.antt =====
-- The invariant over every call and every history of calls.
use agbox.Common.{
  ℕ, suc, ◌≡◌, inl, inr, none, some, List, [], ◌∷◌, arith, Bool, ◌||◌, ◌&&◌, ltb, Option-cases,
  Bool-cases, ◌==◌,
}
use agbox.Common.Assoc.{
  lookup-remove, remove-Unique, insert-Unique, length-remove_present, length-remove_absent,
  length-remove-le,
}
use agbox.Ingest.Queue.{
  KeyedQueue, QueueItem, WorkPriority, archive, active_catchup, live, find, lane, set_lane,
  drop_key, pop, lease_next, retain_lease, put, try_enqueue, push_new, push_pending,
  finish_lease_after_progress, cancel_lease, abandon_lease, Call, enqueues, pops, leases, finishes,
  cancels, abandons, step, run, new, len, total,
}
use agbox.Ingest.Queue.Key.{SourceKey, SourceKey-discrete}
use agbox.Ingest.Queue.Lane.{occurs}
use agbox.Ingest.Queue.Pop.{Pops, empty, front, pop-Pops}
use agbox.Ingest.Queue.Invariant.{
  Inv, due, new-Inv, push_pending-Inv, release-Inv, requeue-Inv, coalesce_pending-Inv,
  coalesce_in_flight-Inv,
}

try_enqueue-Inv :
    (q : KeyedQueue) (key : SourceKey) (t : ℕ) (p : WorkPriority)
    → Inv q
    → Inv (try_enqueue q key t p).0
unfolding try_enqueue push_new push_pending
try_enqueue-Inv q key t p v = elim (Option-cases (find key q.pending)) [
  | inr (i, e) ↦ rw (e, try_enqueue) (coalesce_pending-Inv q key t p i v e)
  | inl e ↦ elim (Option-cases (find key q.in_flight)) [
    | inr (i, f) ↦ rw (e, f, try_enqueue) (coalesce_in_flight-Inv q key t p i v f)
    | inl f ↦ elim (Bool-cases (len q == q.capacity)) [
      | inl at ↦ rw (e, f, at, try_enqueue) v
      | inr room ↦
          rw (e, f, room, try_enqueue)
            (push_pending-Inv q (record { key = key; target_offset = t; priority = p }) v e f
              (ground (arith, v.bounded)))
    ]
  ]
]

module _ (q : KeyedQueue) (p : WorkPriority) (k : SourceKey) (i : QueueItem) (rest : List SourceKey)
    (v : Inv q) (e : lane q.index p ≡ k ∷ rest) (f : find k q.pending ≡ some i) where
  popped : KeyedQueue
  popped = record q { pending = drop_key k q.pending; index = set_lane q.index p rest }

  popped-indexed :
      (j : SourceKey) (r : WorkPriority)
      → occurs j (lane popped.index r) ≡ due (find j popped.pending) r
  unfolding popped
  popped-indexed j r =
      elim p
          as (λ p.
            lane q.index p ≡ k ∷ rest
            → occurs j (lane (set_lane q.index p rest) r) ≡ due (find j (drop_key k q.pending)) r) [
              | archive ↦ λ e. ground (
                arith,
                v.indexed j r,
                v.indexed j archive,
                v.indexed k r,
                v.indexed k archive,
                lookup-remove SourceKey-discrete j k q.pending,
              )
              | active_catchup ↦ λ e. ground (
                arith,
                v.indexed j r,
                v.indexed j active_catchup,
                v.indexed k r,
                v.indexed k active_catchup,
                lookup-remove SourceKey-discrete j k q.pending,
              )
              | live ↦ λ e. ground (
                arith,
                v.indexed j r,
                v.indexed j live,
                v.indexed k r,
                v.indexed k live,
                lookup-remove SourceKey-discrete j k q.pending,
              )
            ]
        e

  total-pop : suc (total (set_lane q.index p rest)) ≡ total q.index
  total-pop =
      elim p
          as (λ p.
            lane q.index p ≡ k ∷ rest → suc (total (set_lane q.index p rest)) ≡ total q.index) [
              | archive ↦ λ e. ground arith
              | active_catchup ↦ λ e. ground arith
              | live ↦ λ e. ground arith
            ]
        e

  popped-Inv : Inv popped
  unfolding popped
  popped-Inv = record {
    indexed = popped-indexed;
    slots = omega (
      arith,
      v.slots,
      total-pop,
      length-remove_present SourceKey-discrete k i q.pending v.unique f,
    );
    named = λ j a h. ground (arith, v.named j a, lookup-remove SourceKey-discrete j k q.pending);
    leased_named = v.leased_named;
    apart = λ j. ground (arith, v.apart j, lookup-remove SourceKey-discrete j k q.pending);
    unique = remove-Unique SourceKey-discrete k q.pending v.unique;
    leased_unique = v.leased_unique;
    bounded = omega (arith, v.bounded, length-remove-le SourceKey-discrete k q.pending);
  }

  -- The item moves to the leases, where it keeps its place of the capacity.
  leased-Inv : Inv (record popped { in_flight = put i.key i q.in_flight })
  unfolding popped
  leased-Inv =
      let name : i.key ≡ k = v.named k i f in
      let away : find i.key q.in_flight ≡ none = ground (arith, v.apart i.key, name) in
      record {
        indexed = popped-indexed;
        slots = popped-Inv.slots;
        named = popped-Inv.named;
        leased_named = λ j a h.
            ground
              (arith, v.leased_named j a, lookup-remove SourceKey-discrete j i.key q.in_flight);
        apart = λ j. ground (
          arith,
          name,
          popped-Inv.apart j,
          lookup-remove SourceKey-discrete j k q.pending,
          lookup-remove SourceKey-discrete j i.key q.in_flight,
        );
        unique = popped-Inv.unique;
        leased_unique = insert-Unique SourceKey-discrete i.key i q.in_flight v.leased_unique;
        bounded = omega (
          arith,
          v.bounded,
          length-remove_present SourceKey-discrete k i q.pending v.unique f,
          length-remove_absent SourceKey-discrete i.key q.in_flight away,
        );
      }

pop-Inv : (q : KeyedQueue) → Inv q → Inv (pop q).0
pop-Inv q v = go (pop-Pops q v)
  where
    go : Pops q (pop q) → Inv (pop q).0
    go (empty e r) = rw r v
    go (front p k i rest e _ f _ r) = rw r (unfold popped in popped-Inv q p k i rest v e f)

lease_next-Inv : (q : KeyedQueue) → Inv q → Inv (lease_next q).0
unfolding lease_next retain_lease popped
lease_next-Inv q v = go (pop-Pops q v)
  where
    go : Pops q (pop q) → Inv (retain_lease (pop q)).0
    go (empty e r) = rw r v
    go (front p k i rest e _ f _ r) = rw r (leased-Inv q p k i rest v e f)

finish-Inv :
    (q : KeyedQueue) (key : SourceKey) (processed : ℕ) (force gap : Bool)
    → Inv q
    → Inv (finish_lease_after_progress q key processed force gap).0
unfolding finish_lease_after_progress
finish-Inv q key processed force gap v = elim (Option-cases (find key q.in_flight)) [
  | inl e ↦ rw (e, finish_lease_after_progress) v
  | inr (i, e) ↦ elim (Bool-cases (force || (gap && ltb processed i.target_offset))) [
    | inl t ↦ rw (e, t, finish_lease_after_progress) (requeue-Inv q key i v e)
    | inr t ↦ rw (e, t, finish_lease_after_progress) (release-Inv q key v)
  ]
]

cancel-Inv : (q : KeyedQueue) (key : SourceKey) → Inv q → Inv (cancel_lease q key).0
unfolding cancel_lease
cancel-Inv q key v = elim (Option-cases (find key q.in_flight)) [
  | inl e ↦ rw (e, cancel_lease) v
  | inr (i, e) ↦ rw (e, cancel_lease) (requeue-Inv q key i v e)
]

pub step-Inv : (q : KeyedQueue) (c : Call) → Inv q → Inv (step q c)
unfolding step abandon_lease
step-Inv q (enqueues key t p) v = try_enqueue-Inv q key t p v
step-Inv q pops v = pop-Inv q v
step-Inv q leases v = lease_next-Inv q v
step-Inv q (finishes key processed force gap) v = finish-Inv q key processed force gap v
step-Inv q (cancels key) v = cancel-Inv q key v
step-Inv q (abandons key) v = release-Inv q key v

run-Inv : (q : KeyedQueue) (cs : List Call) → Inv q → Inv (run q cs)
unfolding run
run-Inv q [] v = v
run-Inv q (c ∷ cs) v = run-Inv (step q c) cs (step-Inv q c v)

-- Every queue that a history of calls makes from a new one satisfies the invariant: each pending
-- key stands once, in the lane of its priority; no lane names any other key; no key is pending and
-- leased at once; pending and leased keys together stay within the capacity.
pub run-new-Inv : (capacity : ℕ) (cs : List Call) → Inv (run (new capacity) cs)
run-new-Inv capacity cs = run-Inv (new capacity) cs (new-Inv capacity)
