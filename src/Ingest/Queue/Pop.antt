-- ===== src/Ingest/Queue/Pop.antt =====
-- Which item `pop` and `lease_next` take.
use agbox.Common.{
  nil_of_length, ◌≡◌, ◌≤◌, ◌<◌, ◌⊎◌, inl, inr, refl, Option, none, some, List, [], ◌∷◌, arith, ◌∙◌,
}
use agbox.Ingest.Queue.{
  KeyedQueue, QueueItem, WorkPriority, Pending, archive, active_catchup, live, rank, find, lane,
  set_lane, drop_key, pop_lane, pop_from, pop,
}
use agbox.Ingest.Queue.Key.{SourceKey}
use agbox.Ingest.Queue.Lane.{occurs}
use agbox.Ingest.Queue.Invariant.{Inv, due}

-- The search of a lane in which every entry is due stops at the first entry.
pop_lane-front :
    (p : WorkPriority) (m : Pending) (ks : List SourceKey)
    → ((k : SourceKey) → occurs k ks ≡ due (find k m) p)
    → ((ks ≡ []) × (pop_lane p m ks ≡ none))
      ⊎ ((k : SourceKey) × (i : QueueItem) × (rest : List SourceKey) × (ks ≡ k ∷ rest)
          × (find k m ≡ some i)
          × (i.priority ≡ p)
          × (pop_lane p m ks ≡ some (k, i, rest)))
unfolding pop_lane
pop_lane-front p m [] h = inl (refl, refl)
pop_lane-front p m (k ∷ ks) h =
    let (i, e, pr) = due_item p (find k m) (ground (arith, h k)) in
    inr (k, i, ks, refl, e, pr, ground arith)
  where
    due_item :
        (p : WorkPriority) (o : Option QueueItem)
        → 1 ≤ due o p
        → (i : QueueItem) × (o ≡ some i) × (i.priority ≡ p)
    due_item p none l = absurd (omega arith)
    due_item p (some i) l = (i, refl, ground arith)

-- What `pop` may do to a queue.
pub data Pops (q : KeyedQueue) (r : KeyedQueue × Option QueueItem) : Type 0 where
  empty : q.pending ≡ [] → r ≡ (q, none) → Pops q r
  front :
      (p : WorkPriority) (k : SourceKey) (i : QueueItem) (rest : List SourceKey)
      → lane q.index p ≡ k ∷ rest
      → ((higher : WorkPriority) → rank p < rank higher → lane q.index higher ≡ [])
      → find k q.pending ≡ some i
      → i.priority ≡ p
      → r ≡ (record q { pending = drop_key k q.pending; index = set_lane q.index p rest }, some i)
      → Pops q r

-- An empty lane is passed over, and nothing changes.
pop_from-skip :
    (p : WorkPriority) (ps : List WorkPriority) (q : KeyedQueue)
    → lane q.index p ≡ []
    → pop_from (p ∷ ps) q ≡ pop_from ps q
unfolding pop_from pop_lane
pop_from-skip archive ps q e = ground arith
pop_from-skip active_catchup ps q e = ground arith
pop_from-skip live ps q e = ground arith

pop_from-front :
    (p : WorkPriority) (ps : List WorkPriority) (q : KeyedQueue)
    → Inv q
    → (lane q.index p ≡ [])
      ⊎ ((k : SourceKey) × (i : QueueItem) × (rest : List SourceKey) × (lane q.index p ≡ k ∷ rest)
          × (find k q.pending ≡ some i)
          × (i.priority ≡ p)
          × (pop_from (p ∷ ps) q ≡ (
            record q { pending = drop_key k q.pending; index = set_lane q.index p rest },
            some i,
          )))
unfolding pop_from
pop_from-front p ps q v = elim (pop_lane-front p q.pending (lane q.index p) (λ k. v.indexed k p)) [
  | inl (e, _) ↦ inl e
  | inr (k, i, rest, e, f, pr, r) ↦ inr (k, i, rest, e, f, pr, rw (r, pop_from) refl)
]

pop_archive :
    (q : KeyedQueue)
    → Inv q
    → lane q.index live ≡ []
    → lane q.index active_catchup ≡ []
    → Pops q (pop_from (archive ∷ []) q)
pop_archive q v e1 e2 = elim (pop_from-front archive [] q v) [
  | inl e3 ↦
      empty (nil_of_length q.pending (ground (arith, v.slots)))
        (pop_from-skip archive [] q e3 ∙ unfold pop_from in refl)
  | inr (k, i, rest, e, f, pr, r) ↦ front archive k i rest e (λ p h. ground arith) f pr r
]

pop_catchup :
    (q : KeyedQueue)
    → Inv q
    → lane q.index live ≡ []
    → Pops q (pop_from (active_catchup ∷ archive ∷ []) q)
pop_catchup q v e1 = elim (pop_from-front active_catchup (archive ∷ []) q v) [
  | inl e2 ↦ rw (pop_from-skip active_catchup (archive ∷ []) q e2) (pop_archive q v e1 e2)
  | inr (k, i, rest, e, f, pr, r) ↦ front active_catchup k i rest e (λ p h. ground arith) f pr r
]

-- On a well-formed queue `pop` returns nothing exactly when nothing is pending, and otherwise takes
-- the oldest entry of the highest lane that is not empty, and changes nothing else.
pub pop-Pops : (q : KeyedQueue) → Inv q → Pops q (pop q)
unfolding pop
pop-Pops q v = elim (pop_from-front live (active_catchup ∷ archive ∷ []) q v) [
  | inl e1 ↦ rw (pop_from-skip live (active_catchup ∷ archive ∷ []) q e1) (pop_catchup q v e1)
  | inr (k, i, rest, e, f, pr, r) ↦ front live k i rest e (λ p h. ground arith) f pr r
]
