-- ===== src/Ingest/Queue/Invariant.antt =====
-- What holds of a queue between two calls.
use agbox.Common.{
  ℕ, ◌≡◌, ◌+◌, ◌≤◌, ◌<◌, ◌⊎◌, inl, refl, Option, none, some, ite, [], ◌∷◌, count-append,
  length-append, length, arith, if◌then◌else◌,
}
use agbox.Common.Assoc.{
  Unique, lookup-insert, lookup-remove, insert-Unique, remove-Unique, length-remove_absent,
  length-remove_present, length-remove-le,
}
use agbox.Ingest.Queue.{
  KeyedQueue, QueueItem, WorkPriority, archive, active_catchup, live, same_priority, find, lane,
  len, index_len, new, push_pending, Lanes, push_back, total, release, coalesce_in_flight,
  coalesce_pending, remove_index_entry,
}
use agbox.Ingest.Queue.Key.{SourceKey, SourceKey-discrete}
use agbox.Ingest.Queue.Lane.{occurs, occurs-retain_ne, length-retain_ne}

-- How many places of a lane an item takes.
abbrev pub due : Option QueueItem → WorkPriority → ℕ
due none p = 0
due (some item) p = if same_priority item.priority p then 1 else 0

pub record Inv (q : KeyedQueue) : Type 0 where
  -- A pending key stands once, in the lane of its priority, and no other key stands in a lane.
  pub indexed :
      (k : SourceKey) (p : WorkPriority) → occurs k (lane q.index p) ≡ due (find k q.pending) p
  pub slots : index_len q ≡ length q.pending
  pub named : (k : SourceKey) (i : QueueItem) → find k q.pending ≡ some i → i.key ≡ k
  pub leased_named : (k : SourceKey) (i : QueueItem) → find k q.in_flight ≡ some i → i.key ≡ k
  pub apart : (k : SourceKey) → (find k q.pending ≡ none) ⊎ (find k q.in_flight ≡ none)
  pub unique : Unique SourceKey-discrete q.pending
  pub leased_unique : Unique SourceKey-discrete q.in_flight
  pub bounded : len q ≤ q.capacity

pub new-Inv : (c : ℕ) → Inv (new c)
unfolding new
new-Inv c = record {
  indexed = λ k p. ground arith;
  slots = omega arith;
  named = λ k i e. cc;
  leased_named = λ k i e. cc;
  apart = λ k. inl refl;
  unique = tt;
  leased_unique = tt;
  bounded = omega arith;
}

occurs-push_back :
    (k key : SourceKey) (p r : WorkPriority) (l : Lanes)
    → occurs k (lane (push_back l p key) r)
      ≡ occurs k (lane l r) + (if same_priority p r then ite (SourceKey-discrete key k) 1 0 else 0)
occurs-push_back k key archive r l =
    ground (arith, count-append SourceKey-discrete k l.archived (key ∷ []))
occurs-push_back k key active_catchup r l =
    ground (arith, count-append SourceKey-discrete k l.catching_up (key ∷ []))
occurs-push_back k key live r l =
    ground (arith, count-append SourceKey-discrete k l.lively (key ∷ []))

pub push_pending-Inv :
    (q : KeyedQueue) (i : QueueItem)
    → Inv q
    → find i.key q.pending ≡ none
    → find i.key q.in_flight ≡ none
    → len q < q.capacity
    → Inv (push_pending q i)
unfolding push_pending
push_pending-Inv q i v e f room = record {
  indexed = λ k p. ground (
    arith,
    v.indexed k p,
    occurs-push_back k i.key i.priority p q.index,
    lookup-insert SourceKey-discrete k i.key i q.pending,
  );
  slots = ground (
    arith,
    v.slots,
    length-append q.index.archived (i.key ∷ []),
    length-append q.index.catching_up (i.key ∷ []),
    length-append q.index.lively (i.key ∷ []),
    length-remove_absent SourceKey-discrete i.key q.pending e,
  );
  named =
      λ k j h. ground (arith, v.named k j, lookup-insert SourceKey-discrete k i.key i q.pending);
  leased_named = v.leased_named;
  apart = λ k. ground (arith, v.apart k, lookup-insert SourceKey-discrete k i.key i q.pending);
  unique = insert-Unique SourceKey-discrete i.key i q.pending v.unique;
  leased_unique = v.leased_unique;
  bounded = ground (arith, length-remove_absent SourceKey-discrete i.key q.pending e);
}

pub release-Inv : (q : KeyedQueue) (key : SourceKey) → Inv q → Inv (release q key)
release-Inv q key v = record {
  indexed = v.indexed;
  slots = v.slots;
  named = v.named;
  leased_named = λ k i h.
      ground (arith, v.leased_named k i, lookup-remove SourceKey-discrete k key q.in_flight);
  apart = λ k. ground (arith, v.apart k, lookup-remove SourceKey-discrete k key q.in_flight);
  unique = v.unique;
  leased_unique = remove-Unique SourceKey-discrete key q.in_flight v.leased_unique;
  bounded = omega (arith, v.bounded, length-remove-le SourceKey-discrete key q.in_flight);
}

-- A lease that is given back leaves room for one pending item.
pub requeue-Inv :
    (q : KeyedQueue) (key : SourceKey) (i : QueueItem)
    → Inv q
    → find key q.in_flight ≡ some i
    → Inv (push_pending (release q key) i)
requeue-Inv q key i v e =
    let name : i.key ≡ key = v.leased_named key i e in
    push_pending-Inv (release q key) i (release-Inv q key v) (ground (arith, v.apart i.key, name))
      (ground (arith, name, lookup-remove SourceKey-discrete i.key key q.in_flight))
      (omega (
        arith,
        v.bounded,
        length-remove_present SourceKey-discrete key i q.in_flight v.leased_unique e,
      ))

-- A lease is written over.
pub coalesce_in_flight-Inv :
    (q : KeyedQueue) (key : SourceKey) (t : ℕ) (p : WorkPriority) (i : QueueItem)
    → Inv q
    → find key q.in_flight ≡ some i
    → Inv (coalesce_in_flight q key t p i)
unfolding coalesce_in_flight
coalesce_in_flight-Inv q key t p i v e = record {
  indexed = v.indexed;
  slots = v.slots;
  named = v.named;
  leased_named = λ k j h. ground (
    arith,
    v.leased_named k j,
    v.leased_named key i e,
    lookup-remove SourceKey-discrete k key q.in_flight,
  );
  apart = λ k. ground (arith, v.apart k, lookup-remove SourceKey-discrete k key q.in_flight);
  unique = v.unique;
  leased_unique = ground (
    arith,
    remove-Unique SourceKey-discrete key q.in_flight v.leased_unique,
    lookup-remove SourceKey-discrete key key q.in_flight,
  );
  bounded = omega (
    arith,
    v.bounded,
    length-remove_present SourceKey-discrete key i q.in_flight v.leased_unique e,
  );
}

occurs-remove_index_entry :
    (k key : SourceKey) (p r : WorkPriority) (l : Lanes)
    → occurs k (lane (remove_index_entry l p key) r) ≡ (
        if same_priority p r
        then ite (SourceKey-discrete key k) 0 (occurs k (lane l r))
        else occurs k (lane l r))
occurs-remove_index_entry k key archive r l = ground (arith, occurs-retain_ne k key l.archived)
occurs-remove_index_entry k key active_catchup r l =
    ground (arith, occurs-retain_ne k key l.catching_up)
occurs-remove_index_entry k key live r l = ground (arith, occurs-retain_ne k key l.lively)

total-push_back :
    (l : Lanes) (p : WorkPriority) (key : SourceKey) → total (push_back l p key) ≡ total l + 1
total-push_back l archive key = omega (arith, length-append l.archived (key ∷ []))
total-push_back l active_catchup key = omega (arith, length-append l.catching_up (key ∷ []))
total-push_back l live key = omega (arith, length-append l.lively (key ∷ []))

total-remove_index_entry :
    (l : Lanes) (p : WorkPriority) (key : SourceKey)
    → total (remove_index_entry l p key) + occurs key (lane l p) ≡ total l
total-remove_index_entry l archive key = omega (arith, length-retain_ne key l.archived)
total-remove_index_entry l active_catchup key = omega (arith, length-retain_ne key l.catching_up)
total-remove_index_entry l live key = omega (arith, length-retain_ne key l.lively)

pub coalesce_pending-Inv :
    (q : KeyedQueue) (key : SourceKey) (t : ℕ) (p : WorkPriority) (i : QueueItem)
    → Inv q
    → find key q.pending ≡ some i
    → Inv (coalesce_pending q key t p i)
unfolding coalesce_pending
coalesce_pending-Inv q key t p i v e = record {
  indexed = λ k r. ground (
    arith,
    v.indexed k r,
    v.indexed key r,
    lookup-remove SourceKey-discrete k key q.pending,
    occurs-push_back k key p r (remove_index_entry q.index i.priority key),
    occurs-remove_index_entry k key i.priority r q.index,
  );
  slots = ground (
    arith,
    v.slots,
    v.indexed key i.priority,
    total-push_back (remove_index_entry q.index i.priority key) p key,
    total-remove_index_entry q.index i.priority key,
    length-remove_present SourceKey-discrete key i q.pending v.unique e,
  );
  named = λ k j h.
      ground
        (arith, v.named k j, v.named key i e, lookup-remove SourceKey-discrete k key q.pending);
  leased_named = ground (arith, v.leased_named);
  apart = λ k. ground (arith, v.apart k, lookup-remove SourceKey-discrete k key q.pending);
  unique = ground (
    arith,
    remove-Unique SourceKey-discrete key q.pending v.unique,
    lookup-remove SourceKey-discrete key key q.pending,
  );
  leased_unique = ground (arith, v.leased_unique);
  bounded =
      ground
        (arith, v.bounded, length-remove_present SourceKey-discrete key i q.pending v.unique e);
}
