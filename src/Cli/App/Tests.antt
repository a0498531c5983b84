-- ===== src/Cli/App/Tests.antt =====
-- Messages to a terminal with two items of work.
use agbox.Common.{
  length, min, ◌*◌, ◌^◌, ◌++◌, ◌↔◌, ℕ, ◌+◌, ◌≡◌, ◌≤◌, ◌<◌, refl, none, some, List, [], ◌∷◌, true,
  arith,
}
use agbox.Core.Base.{Text, ok}
use agbox.Core.Work.{WorkStatus, active, blocked}
use agbox.Core.Strings.{bytes}
use agbox.Cli.App.{
  App, connection_lost, go_back, WorkSummary, move_selection, open_selected, on, from_work,
  visible_work, refresh, retry_delay, load_work, selected_contract, contract,
}
use agbox.Cli.App.Update.{update, retry_effect}
use agbox.Cli.App.Screen.{IsScreen, from_work-IsScreen, update-IsScreen}
use agbox.Cli.App.Effects.{IsAllowed, update-IsAllowed}
use agbox.Cli.App.Retry.{
  Event, updates, retries_at, after, losses, connection_lost-backs_off, retry_effect-once,
}

abbrev item : Text → WorkStatus → WorkSummary
item id status = record {
  work_id = id;
  contract_id = id;
  revision = 1;
  status = status;
  objective = none;
  summary = id;
}

abbrev work : List WorkSummary
work = item (bytes "a") active ∷ item (bytes "b") blocked ∷ []

abbrev start : App ℕ
start = from_work work

abbrev moved_on : App ℕ
moved_on = (update start 0 (move_selection (on 5))).0

opens : (update moved_on 0 open_selected).1 ≡ ok (some (load_work (bytes "b")))
unfolding from_work update visible_work selected_contract
opens = refl

update-IsScreen_example : IsScreen (update start 0 (move_selection (on 5))).0
update-IsScreen_example = update-IsScreen start 0 (move_selection (on 5)) (from_work-IsScreen work)

update-IsAllowed_example : IsAllowed moved_on (update moved_on 0 open_selected).1
update-IsAllowed_example = update-IsAllowed moved_on 0 open_selected

abbrev times : List ℕ
times = 10 ∷ 20 ∷ []

connection_lost-backs_off_example :
    ((retry_effect (after start (losses (times ++ (30 ∷ [])))) 4_000).1 ≡ some refresh)
    ↔ (30 + min (500 * 2 ^ (length times + 1)) 8_000 ≤ 4_000)
unfolding from_work
connection_lost-backs_off_example = connection_lost-backs_off start times 30 4_000 refl

abbrev lost : App ℕ
lost = record {
  status = none;
  work = work;
  detail = none;
  selected = 1;
  focus = contract;
  editor = none;
  stale = true;
  retries = 2;
  retry_after = some 700;
  notice = none;
}

asks : (retry_effect lost 700).1 ≡ some refresh
unfolding retry_effect
asks = refl

in_time : 900 < 700 + retry_delay lost.retries
unfolding retry_delay
in_time = omega arith

abbrev trouble : List (Event ℕ)
trouble = updates 710 connection_lost ∷ retries_at 800 ∷ updates 810 go_back ∷ []

retry_effect-once_example : (retry_effect (after (retry_effect lost 700).0 trouble) 900).1 ≡ none
retry_effect-once_example =
    retry_effect-once lost 700 900 trouble asks (omega arith, (omega arith, (omega arith, tt)))
      in_time
