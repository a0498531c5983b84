-- ===== src/Ingest/Queue/Signals.antt =====
-- What becomes of a signal: the offset that a key is known to have to reach.
use agbox.Common.{
  ℕ, ◌≡◌, ◌≤◌, ◌<◌, ◌⊎◌, inl, inr, Option, none, some, ite, arith, max, Bool, false, ◌||◌, ◌&&◌,
  ltb, Option-cases, Bool-cases, ◌==◌,
}
use agbox.Common.Assoc.{lookup-remove}
use agbox.Ingest.Queue.{
  KeyedQueue, QueueItem, WorkPriority, find, pop, lease_next, retain_lease, try_enqueue, push_new,
  push_pending, coalesce_pending, coalesce_in_flight, ok, err, full, inserted, coalesced,
  finish_lease_after_progress, cancel_lease, abandon_lease, Call, enqueues, pops, leases, finishes,
  cancels, abandons, step, len,
}
use agbox.Ingest.Queue.Key.{SourceKey, SourceKey-discrete}
use agbox.Ingest.Queue.Pop.{Pops, empty, front, pop-Pops}
use agbox.Ingest.Queue.Invariant.{Inv}

abbrev target_of : Option QueueItem → Option QueueItem → Option ℕ
target_of (some i) _ = some i.target_offset
target_of none (some i) = some i.target_offset
target_of none none = none

-- The furthest offset signalled for a key that is pending or leased.
abbrev pub known : KeyedQueue → SourceKey → Option ℕ
known q k = target_of (find k q.pending) (find k q.in_flight)

-- The target after a signal for an offset.
abbrev pub raised : Option ℕ → ℕ → ℕ
raised none t = t
raised (some u) t = max u t

-- On a well-formed queue a signal for a new key is refused where the queue is full, and then nothing
-- changes. Any other signal, for a known key or with room for a new one, is accepted: it makes the
-- target of its key the larger of the old and the new one, and leaves the targets of all other
-- keys alone.
pub try_enqueue-known :
    (q : KeyedQueue) (key : SourceKey) (t : ℕ) (p : WorkPriority)
    → Inv q
    → ((known q key ≡ none)
        × (len q ≡ q.capacity)
        × (try_enqueue q key t p ≡ (q, err (full q.capacity))))
      ⊎ ((((u : ℕ) × (known q key ≡ some u)) ⊎ (len q < q.capacity))
          × ((k : SourceKey)
              → known (try_enqueue q key t p).0 k
                ≡ ite (SourceKey-discrete key k) (some (raised (known q key) t)) (known q k))
          × ((try_enqueue q key t p).1
              ≡ ok (elim (known q key) [ none ↦ inserted | some _ ↦ coalesced ])))
unfolding try_enqueue push_new coalesce_pending coalesce_in_flight
try_enqueue-known q key t p v = elim (Option-cases (find key q.pending)) [
  | inr (i, e) ↦ inr (
    inl (i.target_offset, ground arith),
    λ k. ground (arith, lookup-remove SourceKey-discrete k key q.pending),
    ground arith,
  )
  | inl e ↦ elim (Option-cases (find key q.in_flight)) [
    | inr (i, f) ↦ inr (
      inl (i.target_offset, ground arith),
      λ k. ground (arith, v.apart k, lookup-remove SourceKey-discrete k key q.in_flight),
      ground arith,
    )
    | inl f ↦ elim (Bool-cases (len q == q.capacity)) [
      | inl at ↦ inl (ground arith, ground arith, ground arith)
      | inr room ↦ inr (
        inr (ground (arith, v.bounded)),
        λ k. ground (arith, lookup-remove SourceKey-discrete k key q.pending),
        ground arith,
      )
    ]
  ]
]

-- The calls that end the queue's care for a key with target `t`.
abbrev pub Settles : KeyedQueue → SourceKey → ℕ → Call → Type 0
Settles q k t (enqueues _ _ _) = ⊥
Settles q k t pops = (i : QueueItem) × ((pop q).1 ≡ some i) × (i.key ≡ k) × (i.target_offset ≡ t)
Settles q k t leases = ⊥
Settles q k t (finishes key processed force gap) =
    (key ≡ k) × (force ≡ false) × ((gap ≡ false) ⊎ (t ≤ processed))
Settles q k t (cancels _) = ⊥
Settles q k t (abandons key) =
    (key ≡ k) × ((i : QueueItem) × (find k q.in_flight ≡ some i) × (i.target_offset ≡ t))

abbrev pub Kept : KeyedQueue → SourceKey → ℕ → Type 0
Kept q k t = (u : ℕ) × (known q k ≡ some u) × (t ≤ u)

module _ (q : KeyedQueue) (k : SourceKey) (t : ℕ) (v : Inv q) (e : known q k ≡ some t) where
  enqueue-Kept : (key : SourceKey) (s : ℕ) (p : WorkPriority) → Kept (try_enqueue q key s p).0 k t
  enqueue-Kept key s p = elim (try_enqueue-known q key s p v) [
    | inl (_, _, same) ↦ (t, rw same e, omega arith)
    | inr (_, all, _) ↦ elim (SourceKey-discrete key k) [
      | yes hit ↦ (max t s, ground (arith, all k), omega arith)
      | no miss ↦ (t, ground (arith, all k), omega arith)
    ]
  ]

  pop-Kept : Kept (pop q).0 k t ⊎ Settles q k t pops
  pop-Kept = go (pop-Pops q v)
    where
      go : Pops q (pop q) → Kept (pop q).0 k t ⊎ Settles q k t pops
      go (empty _ r) = inl (t, rw r e, omega arith)
      go (front p j i rest l _ f _ r) = elim (SourceKey-discrete j k) [
        | yes hit ↦ inr (i, ground arith, ground (arith, v.named j i f), ground arith)
        | no miss ↦
            inl (t, ground (arith, lookup-remove SourceKey-discrete k j q.pending), omega arith)
      ]

  lease-Kept : Kept (lease_next q).0 k t
  unfolding lease_next retain_lease
  lease-Kept = go (pop-Pops q v)
    where
      go : Pops q (pop q) → Kept (retain_lease (pop q)).0 k t
      go (empty _ r) = (t, rw r e, omega arith)
      go (front p j i rest l _ f _ r) = (
        t,
        rw r (
            ground (
              arith,
              v.named j i f,
              v.apart k,
              v.apart j,
              lookup-remove SourceKey-discrete k j q.pending,
              lookup-remove SourceKey-discrete k i.key q.in_flight,
            )),
        omega arith,
      )

  finish-Kept :
      (key : SourceKey) (processed : ℕ) (force gap : Bool)
      → Kept (finish_lease_after_progress q key processed force gap).0 k t
        ⊎ Settles q k t (finishes key processed force gap)
  unfolding finish_lease_after_progress push_pending
  finish-Kept key processed force gap = elim (Option-cases (find key q.in_flight)) [
    | inl f ↦ inl (t, ground arith, omega arith)
    | inr (i, f) ↦ elim (SourceKey-discrete key k) [
      | yes hit ↦ elim (Bool-cases (force || (gap && ltb processed i.target_offset))) [
        | inl more ↦ inl (t, ground (arith, v.apart k, v.leased_named key i f), omega arith)
        | inr done ↦ inr (ground (arith, v.apart k))
      ]
      | no miss ↦ inl (
        t,
        ground (
          arith,
          v.leased_named key i f,
          lookup-remove SourceKey-discrete k key q.in_flight,
          lookup-remove SourceKey-discrete k i.key q.pending,
        ),
        omega arith,
      )
    ]
  ]

  cancel-Kept : (key : SourceKey) → Kept (cancel_lease q key).0 k t
  unfolding cancel_lease push_pending
  cancel-Kept key = elim (Option-cases (find key q.in_flight)) [
    | inl f ↦ (t, ground arith, omega arith)
    | inr (i, f) ↦ (
      t,
      ground (
        arith,
        v.apart k,
        v.leased_named key i f,
        lookup-remove SourceKey-discrete k key q.in_flight,
        lookup-remove SourceKey-discrete k i.key q.pending,
      ),
      omega arith,
    )
  ]

  abandon-Kept : (key : SourceKey) → Kept (abandon_lease q key).0 k t ⊎ Settles q k t (abandons key)
  unfolding abandon_lease
  abandon-Kept key = elim (SourceKey-discrete key k) [
    | yes hit ↦ elim (Option-cases (find k q.in_flight)) [
      | inl f ↦
          inl (t, ground (arith, lookup-remove SourceKey-discrete k key q.in_flight), omega arith)
      | inr (i, f) ↦ inr (hit, (i, f, ground (arith, v.apart k)))
    ]
    | no miss ↦
        inl (t, ground (arith, lookup-remove SourceKey-discrete k key q.in_flight), omega arith)
  ]

-- No call loses a signal: after any call on a well-formed queue a key that had a target still has
-- one at least as large, unless the call popped the key with that very target, finished its lease
-- unforced at or beyond the target or with gaps disallowed, or abandoned its lease, which had that
-- target.
pub step-Kept :
    (q : KeyedQueue) (k : SourceKey) (t : ℕ) (c : Call)
    → Inv q
    → known q k ≡ some t
    → Kept (step q c) k t ⊎ Settles q k t c
unfolding step
step-Kept q k t (enqueues key s p) v e = inl (enqueue-Kept q k t v e key s p)
step-Kept q k t pops v e = pop-Kept q k t v e
step-Kept q k t leases v e = inl (lease-Kept q k t v e)
step-Kept q k t (finishes key processed force gap) v e =
    finish-Kept q k t v e key processed force gap
step-Kept q k t (cancels key) v e = inl (cancel-Kept q k t v e key)
step-Kept q k t (abandons key) v e = abandon-Kept q k t v e key
