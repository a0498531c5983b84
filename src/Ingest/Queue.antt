-- ===== src/Ingest/Queue.antt =====
-- crates/agbox-ingest/src/queue.rs: the bounded, keyed queue of source work.
-- `HashMap` is an association list and `VecDeque` a list, its front first. Offsets are `u64` and
-- are only compared, so nothing here can overflow.
use agbox.Common.{
  ℕ, ◌+◌, max, Bool, true, false, ◌&&◌, ◌||◌, Option, none, some, List, [], ◌∷◌, ◌++◌,
  if◌then◌else◌, ite, ltb, ◌==◌, length, is_some,
}
use agbox.Common.Assoc.{lookup, insert, remove}
pub mod Key
pub mod Lane
pub mod Invariant
pub mod Pop
pub mod Run
pub mod Validation
mod Tests
pub mod Signals
use Key.{SourceKey, SourceKey-discrete}

pub data WorkPriority : Type 0 where
  archive active_catchup live : WorkPriority

-- The derived order of the variants, which is also the number of the lane.
abbrev pub rank : WorkPriority → ℕ
rank archive = 0
rank active_catchup = 1
rank live = 2

abbrev pub same_priority : WorkPriority → WorkPriority → Bool
same_priority a b = rank a == rank b

-- `Ord::max`.
abbrev pub max_priority : WorkPriority → WorkPriority → WorkPriority
max_priority a b = if ltb (rank b) (rank a) then a else b

pub record QueueItem : Type 0 where
  pub key : SourceKey
  pub target_offset : ℕ
  pub priority : WorkPriority

pub data EnqueueOutcome : Type 0 where
  inserted coalesced : EnqueueOutcome

pub data QueueError : Type 0 where
  full : ℕ → QueueError

pub data EnqueueResult : Type 0 where
  ok : EnqueueOutcome → EnqueueResult
  err : QueueError → EnqueueResult

abbrev pub Pending : Type 0
Pending = List (SourceKey × QueueItem)

-- The array of three lanes.
pub record Lanes : Type 0 where
  pub archived : List SourceKey
  pub catching_up : List SourceKey
  pub lively : List SourceKey

abbrev pub lane : Lanes → WorkPriority → List SourceKey
lane l archive = l.archived
lane l active_catchup = l.catching_up
lane l live = l.lively

abbrev pub set_lane : Lanes → WorkPriority → List SourceKey → Lanes
set_lane l archive ks = record l { archived = ks }
set_lane l active_catchup ks = record l { catching_up = ks }
set_lane l live ks = record l { lively = ks }

pub record KeyedQueue : Type 0 where
  pub capacity : ℕ
  pub pending : Pending
  pub in_flight : Pending
  pub index : Lanes

unfoldable pub new : ℕ → KeyedQueue
new capacity = record {
  capacity = capacity;
  pending = [];
  in_flight = [];
  index = record { archived = []; catching_up = []; lively = [] };
}

abbrev pub len : KeyedQueue → ℕ
len q = length q.pending + length q.in_flight

abbrev pub total : Lanes → ℕ
total l = length l.archived + length l.catching_up + length l.lively

abbrev pub index_len : KeyedQueue → ℕ
index_len q = total q.index

abbrev pub find : SourceKey → Pending → Option QueueItem
find = lookup SourceKey-discrete

abbrev pub put : SourceKey → QueueItem → Pending → Pending
put = insert SourceKey-discrete

abbrev pub drop_key : SourceKey → Pending → Pending
drop_key = remove SourceKey-discrete

-- `VecDeque::retain(|candidate| candidate != key)`.
abbrev pub retain_ne : SourceKey → List SourceKey → List SourceKey
retain_ne key [] = []
retain_ne key (k ∷ ks) =
    let rest = retain_ne key ks in ite (SourceKey-discrete k key) rest (k ∷ rest)

abbrev pub push_back : Lanes → WorkPriority → SourceKey → Lanes
push_back l p key = set_lane l p (lane l p ++ key ∷ [])

abbrev pub remove_index_entry : Lanes → WorkPriority → SourceKey → Lanes
remove_index_entry l p key = set_lane l p (retain_ne key (lane l p))

pub coalesce_pending : KeyedQueue → SourceKey → ℕ → WorkPriority → QueueItem → KeyedQueue
coalesce_pending q key target_offset priority item =
    let target = max item.target_offset target_offset in
    if ltb (rank item.priority) (rank priority)
    then record q {
      pending = put key (record item { target_offset = target; priority = priority }) q.pending;
      index = push_back (remove_index_entry q.index item.priority key) priority key;
    }
    else record q { pending = put key (record item { target_offset = target }) q.pending }

pub coalesce_in_flight : KeyedQueue → SourceKey → ℕ → WorkPriority → QueueItem → KeyedQueue
coalesce_in_flight q key target_offset priority item = record q {
  in_flight =
      put key
        (record item {
          target_offset = max item.target_offset target_offset;
          priority = max_priority item.priority priority;
        })
        q.in_flight;
}

pub push_new : KeyedQueue → SourceKey → ℕ → WorkPriority → KeyedQueue
push_new q key target_offset priority = record q {
  index = push_back q.index priority key;
  pending =
      put key (record { key = key; target_offset = target_offset; priority = priority }) q.pending;
}

unfoldable pub try_enqueue : KeyedQueue → SourceKey → ℕ → WorkPriority → KeyedQueue × EnqueueResult
unfolding coalesce_pending coalesce_in_flight push_new
try_enqueue q key target_offset priority = elim (find key q.pending) [
  | some item ↦ (coalesce_pending q key target_offset priority item, ok coalesced)
  | none ↦ elim (find key q.in_flight) [
    | some item ↦ (coalesce_in_flight q key target_offset priority item, ok coalesced)
    | none ↦
        if len q == q.capacity
        then (q, err (full q.capacity))
        else (push_new q key target_offset priority, ok inserted)
  ]
]

-- One lane of the search in `pop_pending`: entries that name no pending item of this priority are
-- dropped on the way. The result is the key with its item and the entries behind it.
unfoldable pub pop_lane :
    WorkPriority → Pending → List SourceKey → Option (SourceKey × QueueItem × List SourceKey)
pop_lane p m [] = none
pop_lane p m (k ∷ ks) = elim (find k m) [
  | none ↦ pop_lane p m ks
  | some item ↦ elim (same_priority item.priority p) [
    | true ↦ some (k, item, ks)
    | false ↦ pop_lane p m ks
  ]
]

-- `pop_pending`, over the priorities still to be searched.
pub pop_from : List WorkPriority → KeyedQueue → KeyedQueue × Option QueueItem
unfolding pop_lane
pop_from [] q = (q, none)
pop_from (p ∷ ps) q = elim (pop_lane p q.pending (lane q.index p)) [
  | none ↦ pop_from ps (record q { index = set_lane q.index p [] })
  | some (k, item, rest) ↦
      (record q { pending = drop_key k q.pending; index = set_lane q.index p rest }, some item)
]

unfoldable pub pop : KeyedQueue → KeyedQueue × Option QueueItem
unfolding pop_from
pop q = pop_from (live ∷ active_catchup ∷ archive ∷ []) q

pub retain_lease : KeyedQueue × Option QueueItem → KeyedQueue × Option QueueItem
retain_lease (q, none) = (q, none)
retain_lease (q, some item) = (record q { in_flight = put item.key item q.in_flight }, some item)

unfoldable pub lease_next : KeyedQueue → KeyedQueue × Option QueueItem
unfolding retain_lease
lease_next q = retain_lease (pop q)

unfoldable pub push_pending : KeyedQueue → QueueItem → KeyedQueue
push_pending q item = record q {
  index = push_back q.index item.priority item.key;
  pending = put item.key item q.pending;
}

-- `in_flight.remove(key)`.
abbrev pub release : KeyedQueue → SourceKey → KeyedQueue
release q key = record q { in_flight = drop_key key q.in_flight }

unfoldable pub finish_lease_after_progress :
    KeyedQueue → SourceKey → ℕ → Bool → Bool → KeyedQueue × Bool
unfolding push_pending
finish_lease_after_progress q key processed_offset force_requeue allow_target_gap =
    elim (find key q.in_flight) [
      | none ↦ (q, false)
      | some item ↦
          if force_requeue || (allow_target_gap && ltb processed_offset item.target_offset)
          then (push_pending (release q key) item, true)
          else (release q key, false)
    ]

unfoldable pub finish_lease : KeyedQueue → SourceKey → ℕ → Bool → KeyedQueue × Bool
unfolding finish_lease_after_progress
finish_lease q key processed_offset force_requeue =
    finish_lease_after_progress q key processed_offset force_requeue true

unfoldable pub cancel_lease : KeyedQueue → SourceKey → KeyedQueue × Bool
unfolding push_pending
cancel_lease q key = elim (find key q.in_flight) [
  | none ↦ (q, false)
  | some item ↦ (push_pending (release q key) item, true)
]

unfoldable pub abandon_lease : KeyedQueue → SourceKey → KeyedQueue × Bool
abandon_lease q key = (release q key, is_some (find key q.in_flight))

-- The calls that the owner of a queue makes.
pub data Call : Type 0 where
  enqueues : SourceKey → ℕ → WorkPriority → Call
  pops leases : Call
  finishes : SourceKey → ℕ → Bool → Bool → Call
  cancels abandons : SourceKey → Call

unfoldable pub step : KeyedQueue → Call → KeyedQueue
step q (enqueues key target priority) = (try_enqueue q key target priority).0
step q pops = (pop q).0
step q leases = (lease_next q).0
step q (finishes key processed force gap) =
    (finish_lease_after_progress q key processed force gap).0
step q (cancels key) = (cancel_lease q key).0
step q (abandons key) = (abandon_lease q key).0

unfoldable pub run : KeyedQueue → List Call → KeyedQueue
run q [] = q
run q (c ∷ cs) = run (step q c) cs
