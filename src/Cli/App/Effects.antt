-- ===== src/Cli/App/Effects.antt =====
-- What the terminal asks of the daemon.
use agbox.Common.{
  ℕ, ◌≡◌, ◌≤◌, ◌<◌, ◌||◌, refl, Option, none, some, [], arith, if_cases, is_some, not, ltb, ◌==◌,
}
use agbox.Core.Base.{Text, Result, ok, err}
use agbox.Cli.App.{
  App, Message, open_selected, begin_correction, submit_editor, submit_correction, AppError,
  no_selection, correction_too_large, Effect, refresh, load_work, correct_work, quit, WorkSummary,
  Chars, CorrectableField, objective, selected_contract, is_list, byte_length, max_editor_bytes,
}
use agbox.Cli.App.Update.{update, submit, correct, open_work, submit_text, quiet, Updated}

module _ {D : Type 0} where
  -- The work is that of the row that is selected.
  abbrev pub IsSelected : App D → Text → Type 0
  IsSelected app id = (w : WorkSummary) × (selected_contract app ≡ some w) × (id ≡ w.work_id)

  abbrev pub IsAllowed : App D → Result AppError (Option Effect) → Type 0
  IsAllowed app (err e) = Unit
  IsAllowed app (ok none) = Unit
  IsAllowed app (ok (some refresh)) = Unit
  IsAllowed app (ok (some quit)) = Unit
  IsAllowed app (ok (some (load_work id))) = IsSelected app id
  IsAllowed app (ok (some (correct_work id field value))) =
      IsSelected app id × (0 < byte_length value) × (byte_length value ≤ max_editor_bytes)

  open_work-IsAllowed :
      (app : App D) (o : Option WorkSummary)
      → selected_contract app ≡ o
      → IsAllowed app (open_work app o).1
  open_work-IsAllowed app none h = tt
  open_work-IsAllowed app (some w) h = (w, h, refl)

  correct-IsAllowed :
      (app : App D) (field : CorrectableField) (value : Chars) (o : Option WorkSummary)
      → selected_contract app ≡ o
      → 0 < byte_length value
      → byte_length value ≤ max_editor_bytes
      → IsAllowed app (correct app field value o).1
  correct-IsAllowed app field value none h lo hi = tt
  correct-IsAllowed app field value (some w) h lo hi = ((w, h, refl), lo, hi)

  submit-IsAllowed :
      (app : App D) (field : CorrectableField) (value : Chars)
      → IsAllowed app (submit app field value).1
  unfolding submit
  submit-IsAllowed app field value =
      if_cases (λ (u : Updated D). IsAllowed app u.1)
        (byte_length value == 0 || ltb max_editor_bytes (byte_length value))
        (app, err correction_too_large) (correct app field value (selected_contract app)) (λ e. tt)
        (λ e.
          correct-IsAllowed app field value (selected_contract app) refl (ground arith)
            (ground arith))

  submit_text-IsAllowed : (app : App D) (o : Option Chars) → IsAllowed app (submit_text app o).1
  unfolding selected_contract
  submit_text-IsAllowed app none = tt
  submit_text-IsAllowed app (some value) =
      submit-IsAllowed (record app { editor = none }) objective value

  -- A message makes the terminal load or correct no work but that of the row that is selected and shown, and
  -- submit no correction that is empty or has more than 4,096 bytes.
  pub update-IsAllowed :
      (app : App D) (now : ℕ) (m : Message D) → IsAllowed app (update app now m).1
  unfolding update
  update-IsAllowed app now open_selected = open_work-IsAllowed app (selected_contract app) refl
  update-IsAllowed app now begin_correction =
      if_cases (λ (u : Updated D). IsAllowed app u.1)
        (is_list app.focus || not (is_some (selected_contract app))) (app, err no_selection)
        (quiet (record app { editor = some [] })) (λ e. tt) (λ e. tt)
  update-IsAllowed app now submit_editor = submit_text-IsAllowed app app.editor
  update-IsAllowed app now (submit_correction field value) = submit-IsAllowed app field value
  update-IsAllowed app now _ = tt
