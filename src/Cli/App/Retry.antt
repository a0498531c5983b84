-- ===== src/Cli/App/Retry.antt =====
-- How often the terminal asks a daemon that does not answer: `App::retry_effect`, `retry_delay` and the
-- messages that change what they read.
use agbox.Common.{
  ℕ, min, ◌*◌, ◌^◌, ◌+◌, ◌≡◌, ◌≤◌, ◌<◌, inl, inr, refl, none, some, arith, Bool-cases, not, ◌||◌,
  List, [], ◌∷◌, length, All, ap, sym, true, ◌++◌, ◌↔◌,
}
use agbox.Cli.App.Delay.{retry_delay-eq, slower, shift, from_zero, retry_delay_counted}
use agbox.Cli.App.{App, refresh, retry_delay, waits, Message, connection_lost, connection_restored}
use agbox.Cli.App.Update.{retry_effect, update, submit}

-- What the retries of a terminal depend on: an update, or another call of `retry_effect`.
pub data Event (D : Type 0) : Type 0 where
  updates : ℕ → Message D → Event D
  retries_at : ℕ → Event D

-- No earlier than `now`, and the connection is not restored.
abbrev pub IsDown : {D : Type 0} → ℕ → Event D → Type 0
IsDown now (updates t connection_restored) = ⊥
IsDown now (updates t m) = now ≤ t
IsDown now (retries_at t) = now ≤ t

module _ {D : Type 0} where
  unfoldable pub after : App D → List (Event D) → App D
  after app [] = app
  after app (updates t m ∷ events) = after (update app t m).0 events
  after app (retries_at t ∷ events) = after (retry_effect app t).0 events

  -- The terminal waits at least until `due`, and delays no less than `delay` from now on.
  record Waits (app : App D) (delay due : ℕ) : Type 0 where
    deadline : ℕ
    set : app.retry_after ≡ some deadline
    late : due ≤ deadline
    slow : delay ≤ retry_delay app.retries

  kept-Waits :
      (a b : App D) (delay due : ℕ)
      → b.retry_after ≡ a.retry_after
      → b.retries ≡ a.retries
      → Waits a delay due
      → Waits b delay due
  kept-Waits a b delay due e f w = record {
    deadline = w.deadline;
    set = rw e w.set;
    late = w.late;
    slow = rw f w.slow;
  }

  retry-Waits :
      (app : App D) (now t delay : ℕ)
      → now ≤ t
      → Waits app delay (now + delay)
      → Waits (retry_effect app t).0 delay (now + delay)
  unfolding retry_effect
  retry-Waits app now t delay le w = elim (Bool-cases (not app.stale || waits app.retry_after t)) [
    | inl e ↦
        kept-Waits app (retry_effect app t).0 delay (now + delay) (ground arith) (ground arith) w
    | inr e ↦ record {
      deadline = t + retry_delay app.retries;
      set = ground arith;
      late = omega (arith, w.slow);
      slow = ground (arith, w.slow);
    }
  ]

  update-Waits :
      (app : App D) (now t delay : ℕ) (m : Message D)
      → IsDown now (updates t m)
      → Waits app delay (now + delay)
      → Waits (update app t m).0 delay (now + delay)
  unfolding update submit
  update-Waits app now t delay connection_restored down w = absurd down
  update-Waits app now t delay connection_lost down w = record {
    deadline = t + retry_delay (min (app.retries + 1) 255);
    set = refl;
    late = omega (arith, w.slow, slower app.retries);
    slow = omega (arith, w.slow, slower app.retries);
  }
  update-Waits app now t delay m down w =
      kept-Waits app (update app t m).0 delay (now + delay) (ground arith) (ground arith) w

  after-Waits :
      (app : App D) (now delay : ℕ) (events : List (Event D))
      → All (IsDown now) events
      → Waits app delay (now + delay)
      → Waits (after app events) delay (now + delay)
  unfolding after
  after-Waits app now delay [] down w = w
  after-Waits app now delay (updates t m ∷ events) (d, down) w =
      after-Waits (update app t m).0 now delay events down (update-Waits app now t delay m d w)
  after-Waits app now delay (retries_at t ∷ events) (d, down) w =
      after-Waits (retry_effect app t).0 now delay events down (retry-Waits app now t delay d w)

  asked-Waits :
      (app : App D) (now : ℕ)
      → (retry_effect app now).1 ≡ some refresh
      → Waits (retry_effect app now).0 (retry_delay app.retries) (now + retry_delay app.retries)
  unfolding retry_effect
  asked-Waits app now h = elim (Bool-cases (not app.stale || waits app.retry_after now)) [
    | inl e ↦ absurd (ground arith)
    | inr e ↦ record {
      deadline = now + retry_delay app.retries;
      set = ground arith;
      late = omega arith;
      slow = ground arith;
    }
  ]

  Waits-none :
      (app : App D) (delay due later : ℕ)
      → Waits app delay due
      → later < due
      → (retry_effect app later).1 ≡ none
  unfolding retry_effect
  Waits-none app delay due later w lt = ground (arith, w.set, w.late)

  -- When `retry_effect` has asked for a refresh, it asks for none before the delay is over, whatever
  -- updates and calls of it happen from then on, lost connections among them, as long as the
  -- connection is not restored.
  pub retry_effect-once :
      (app : App D) (now later : ℕ) (events : List (Event D))
      → (retry_effect app now).1 ≡ some refresh
      → All (IsDown now) events
      → later < now + retry_delay app.retries
      → (retry_effect (after (retry_effect app now).0 events) later).1 ≡ none
  retry_effect-once app now later events h down lt =
      Waits-none (after (retry_effect app now).0 events) (retry_delay app.retries)
        (now + retry_delay app.retries) later
        (after-Waits (retry_effect app now).0 now (retry_delay app.retries) events down
          (asked-Waits app now h))
        lt

  -- The connection is lost once more at each instant.
  abbrev pub losses : List ℕ → List (Event D)
  losses [] = []
  losses (t ∷ times) = updates t connection_lost ∷ losses times

  retries_after :
      (app : App D) (n t : ℕ) (times : List ℕ)
      → app.retries ≡ min n 255
      → ((after app (losses (times ++ (t ∷ [])))).stale ≡ true)
        × ((after app (losses (times ++ (t ∷ [])))).retry_after
            ≡ some (t + retry_delay (n + length times + 1)))
  unfolding after update
  retries_after app n t [] e =
      (refl, ap (λ (k : ℕ). some (t + k)) (retry_delay_counted app.retries n e))
  retries_after app n t (s ∷ times) e =
      let (stale, due) =
        retries_after (update app s connection_lost).0 (n + 1) t times (omega arith) in
      (stale, rw (shift n (length times)) due)

  due_at :
      (app : App D) (due now : ℕ)
      → app.stale ≡ true
      → app.retry_after ≡ some due
      → ((retry_effect app now).1 ≡ some refresh) ↔ (due ≤ now)
  unfolding retry_effect
  due_at app due now stale at = (λ h. ground arith, λ h. ground arith)

  -- From a terminal that has counted no failure, when the connection is lost at each of several instants,
  -- the last of them `t`, the next refresh is due half a second after `t`, doubled for each of
  -- the losses, but at most eight seconds after it, and is asked for then and not before.
  pub connection_lost-backs_off :
      (app : App D) (times : List ℕ) (t now : ℕ)
      → app.retries ≡ 0
      → ((retry_effect (after app (losses (times ++ (t ∷ [])))) now).1 ≡ some refresh)
        ↔ (t + min (500 * 2 ^ (length times + 1)) 8_000 ≤ now)
  connection_lost-backs_off app times t now e =
      let (stale, due) = retries_after app 0 t times (omega arith) in
      due_at (after app (losses (times ++ (t ∷ [])))) (t + _) now stale
        (rw (sym (retry_delay-eq (length times + 1))) (rw (sym (from_zero (length times))) due))
