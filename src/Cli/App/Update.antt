-- ===== src/Cli/App/Update.antt =====
-- `App::update` and `App::retry_effect`.
use agbox.Common.{
  ℕ, ◌+◌, ◌-◌, min, true, false, not, ◌||◌, Option, none, some, List, [], ◌∷◌, ◌++◌, length, take,
  ltb, leb, ◌==◌, if◌then◌else◌, is_some,
}
use agbox.Core.Base.{Result, ok, err}
use agbox.Core.Strings.{bytes}
use agbox.Cli.App.{
  App, Message, select_status, clear_status, move_selection, open_selected, go_back,
  begin_correction, editor_character, editor_backspace, submit_editor, submit_correction,
  replace_work, replace_detail, connection_lost, connection_restored, notify, quits, AppError,
  no_selection, correction_too_large, Effect, refresh, load_work, correct_work, quit, WorkSummary,
  Chars, CorrectableField, objective, list, contract, visible_work, selected_contract, moved, waits,
  is_list, pop_character, byte_length, len_utf8, bound, retry_delay, max_work, max_editor_bytes,
  max_notice_bytes,
}

-- The new state, and an effect or an error.
abbrev pub Updated : Type 0 → Type 0
Updated D = App D × Result AppError (Option Effect)

module _ {D : Type 0} where
  abbrev pub quiet : App D → Updated D
  quiet app = (app, ok none)

  abbrev pub open_work : App D → Option WorkSummary → Updated D
  open_work app none = (app, err no_selection)
  open_work app (some w) = (record app { focus = contract }, ok (some (load_work w.work_id)))

  abbrev pub type_character : App D → ℕ → Option Chars → App D
  type_character app c none = app
  type_character app c (some editor) =
      if leb (byte_length editor + len_utf8 c) max_editor_bytes
      then record app { editor = some (editor ++ (c ∷ [])) }
      else app

  abbrev pub erase : App D → Option Chars → App D
  erase app none = app
  erase app (some editor) = record app { editor = some (pop_character editor) }

  abbrev pub correct : App D → CorrectableField → Chars → Option WorkSummary → Updated D
  correct app field value none = (app, err no_selection)
  correct app field value (some w) = (app, ok (some (correct_work w.work_id field value)))

  unfoldable pub submit : App D → CorrectableField → Chars → Updated D
  submit app field value =
      if byte_length value == 0 || ltb max_editor_bytes (byte_length value)
      then (app, err correction_too_large)
      else correct app field value (selected_contract app)

  abbrev pub submit_text : App D → Option Chars → Updated D
  submit_text app none = (app, err no_selection)
  submit_text app (some value) = submit (record app { editor = none }) objective value

  abbrev pub replaced : App D → List WorkSummary → App D
  replaced app work =
      let shown = record app { work = take max_work work; detail = none } in
      record shown { selected = min app.selected (length (visible_work shown) - 1) }

  unfoldable pub update : App D → ℕ → Message D → Updated D
  unfolding submit
  update app now (select_status status) = quiet (record app { status = some status; selected = 0 })
  update app now clear_status = quiet (record app { status = none; selected = 0 })
  update app now (move_selection delta) =
      let len = length (visible_work app) in
      quiet (if len == 0 then app else record app { selected = moved app.selected delta (len - 1) })
  update app now open_selected = open_work app (selected_contract app)
  update app now go_back = quiet (record app { editor = none; focus = list })
  update app now begin_correction =
      if is_list app.focus || not (is_some (selected_contract app))
      then (app, err no_selection)
      else quiet (record app { editor = some [] })
  update app now (editor_character c) = quiet (type_character app c app.editor)
  update app now editor_backspace = quiet (erase app app.editor)
  update app now submit_editor = submit_text app app.editor
  update app now (submit_correction field value) = submit app field value
  update app now (replace_work work) = quiet (replaced app work)
  update app now (replace_detail detail) = quiet (record app { detail = detail })
  update app now connection_lost =
      let retries = min (app.retries + 1) 255 in
      quiet (record app {
        stale = true;
        retries = retries;
        retry_after = some (now + retry_delay retries);
        notice = some (bytes "daemon unavailable; retaining the last verified view");
      })
  update app now connection_restored =
      quiet (record app { stale = false; retries = 0; retry_after = none; notice = none })
  update app now (notify message) =
      quiet (record app { notice = some (bound message max_notice_bytes) })
  update app now quits = (app, ok (some quit))

  unfoldable pub retry_effect : App D → ℕ → App D × Option Effect
  unfolding retry_delay
  retry_effect app now =
      if not app.stale || waits app.retry_after now
      then (app, none)
      else (record app { retry_after = some (now + retry_delay app.retries) }, some refresh)
