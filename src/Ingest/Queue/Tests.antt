-- ===== src/Ingest/Queue/Tests.antt =====
-- The queue at concrete inputs.
use agbox.Common.{
  ℕ, ◌≡◌, ◌≤◌, ◌<◌, ◌⊎◌, refl, none, some, ite, List, [], ◌∷◌, true, false, ℕ_discrete, ◌↔◌, ◌++◌,
  replicate,
}
use agbox.Ingest.Queue.{
  KeyedQueue, archive, active_catchup, live, new, try_enqueue, pop, lease_next, Call, enqueues,
  leases, finishes, step, run, len, ok, err, full, inserted, coalesced,
}
use agbox.Ingest.Queue.Key.{
  SourceKey, SourceKey-discrete, new_key, i64_max, KeyResult, source_prefix,
}
use agbox.Ingest.Queue.Invariant.{Inv}
use agbox.Ingest.Queue.Pop.{Pops, pop-Pops}
use agbox.Ingest.Queue.Run.{run-new-Inv}
use agbox.Ingest.Queue.Signals.{known, raised, Settles, Kept, try_enqueue-known, step-Kept}
use agbox.Ingest.Queue.Validation.{IsCanonical, new_key-eq-ok}

abbrev alpha : SourceKey
alpha = record { source_id = 1 ∷ []; generation = 1 }

abbrev beta : SourceKey
beta = record { source_id = 2 ∷ []; generation = 1 }

abbrev history : List Call
history =
    enqueues alpha 10 archive
    ∷ enqueues beta 20 active_catchup
    ∷ leases
    ∷ enqueues beta 50 live
    ∷ enqueues alpha 5 live
    ∷ []

abbrev busy : KeyedQueue
busy = run (new 2) history

busy-known : known busy beta ≡ some 50
unfolding run step new try_enqueue lease_next pop SourceKey-discrete ℕ_discrete
busy-known = refl

run-new-Inv_example : Inv (run (new 2) history)
run-new-Inv_example = run-new-Inv 2 history

pop-Pops_example : Pops busy (pop busy)
pop-Pops_example = pop-Pops busy (run-new-Inv 2 history)

step-Kept_example :
    Kept (step busy (finishes beta 30 false true)) beta 50
    ⊎ Settles busy beta 50 (finishes beta 30 false true)
step-Kept_example =
    step-Kept busy beta 50 (finishes beta 30 false true) (run-new-Inv 2 history) busy-known

try_enqueue-known_example :
    ((known busy alpha ≡ none)
      × (len busy ≡ busy.capacity)
      × (try_enqueue busy alpha 70 archive ≡ (busy, err (full busy.capacity))))
    ⊎ ((((u : ℕ) × (known busy alpha ≡ some u)) ⊎ (len busy < busy.capacity))
        × ((k : SourceKey)
            → known (try_enqueue busy alpha 70 archive).0 k
              ≡ ite
                  (SourceKey-discrete alpha k)
                  (some (raised (known busy alpha) 70))
                  (known busy k))
        × ((try_enqueue busy alpha 70 archive).1
            ≡ ok (elim (known busy alpha) [ none ↦ inserted | some _ ↦ coalesced ])))
try_enqueue-known_example = try_enqueue-known busy alpha 70 archive (run-new-Inv 2 history)

-- `source_` and 32 zeros.
abbrev zeros : List ℕ
zeros = source_prefix ++ replicate 32 b'0'

abbrev zeros_key : SourceKey
zeros_key = record { source_id = zeros; generation = 1 }

new_key-eq-ok_example :
    (new_key zeros 1 ≡ KeyResult.ok zeros_key)
    ↔ (IsCanonical zeros × (0 < 1) × (1 ≤ i64_max) × (zeros_key ≡ zeros_key))
new_key-eq-ok_example = new_key-eq-ok zeros 1 zeros_key
