-- ===== src/Cli/App/Screen.antt =====
-- What holds of every state of the terminal.
use agbox.Common.{
  ℕ, ◌+◌, ◌-◌, ◌≡◌, ◌≤◌, ◌<◌, ◌⊎◌, inl, inr, refl, Option, none, some, List, [], ◌∷◌, ◌++◌, length,
  length-take, take, min, arith, leb, ◌==◌, if_cases, is_some, not, ◌||◌, subst, sym,
}
use agbox.Core.Base.{err}
use agbox.Cli.App.{
  App, Message, select_status, clear_status, move_selection, open_selected, go_back,
  begin_correction, editor_character, editor_backspace, submit_editor, submit_correction,
  replace_work, replace_detail, connection_lost, connection_restored, notify, quits, WorkSummary,
  Chars, visible_work, selected_contract, on, back, Delta, moved, is_list, byte_length, len_utf8,
  from_work, max_work, max_editor_bytes, max_notice_bytes, CorrectableField, objective,
  no_selection,
}
use agbox.Cli.App.Widths.{byte_length-append, byte_length-pop_character-le, byte_length-bound-le}
use agbox.Cli.App.Update.{
  update, submit, correct, open_work, replaced, type_character, erase, submit_text, quiet, Updated,
}

abbrev pub EditorFits : Option Chars → Type 0
EditorFits none = Unit
EditorFits (some editor) = byte_length editor ≤ max_editor_bytes

abbrev pub NoticeFits : Option Chars → Type 0
NoticeFits none = Unit
NoticeFits (some notice) = byte_length notice ≤ max_notice_bytes + 3

-- What the texts and the counter keep.
abbrev pub TextsFit : Option Chars → Option Chars → ℕ → Type 0
TextsFit editor notice retries = EditorFits editor × NoticeFits notice × (retries ≤ 255)

moved-lt : (current : ℕ) (delta : Delta) (len : ℕ) → 0 < len → moved current delta (len - 1) < len
moved-lt current (on n) len h = ground arith
moved-lt current (back n) len h = ground arith

clamped : (selected len : ℕ) → (min selected (len - 1) < len) ⊎ (min selected (len - 1) ≡ 0)
clamped selected len = ground arith

module _ {D : Type 0} where
  abbrev pub IsShown : App D → Type 0
  IsShown app = (app.selected < length (visible_work app)) ⊎ (app.selected ≡ 0)

  -- The selection is a row that is shown, or the first of none.
  pub record IsScreen (app : App D) : Type 0 where
    pub work_fits : length app.work ≤ max_work
    pub selected_shown : IsShown app
    pub texts_fit : TextsFit app.editor app.notice app.retries

  pub from_work-IsScreen : (work : List WorkSummary) → IsScreen (from_work work)
  unfolding from_work
  from_work-IsScreen work = record {
    work_fits = length-take max_work work;
    selected_shown = inr refl;
    texts_fit = (tt, tt, omega arith);
  }

  move-IsScreen :
      (app : App D) (now : ℕ) (delta : Delta)
      → IsScreen app
      → IsScreen (update app now (move_selection delta)).0
  unfolding update visible_work
  move-IsScreen app now delta s =
      let len = length (visible_work app) in
      if_cases IsScreen (len == 0) app
        (record app { selected = moved app.selected delta (len - 1) }) (λ e. s)
        (λ e. record {
          work_fits = s.work_fits;
          selected_shown = inl (moved-lt app.selected delta len (ground arith));
          texts_fit = s.texts_fit;
        })

  type_character-IsScreen :
      (app : App D) (c : ℕ) (o : Option Chars)
      → app.editor ≡ o
      → IsScreen app
      → IsScreen (type_character app c o)
  unfolding visible_work
  type_character-IsScreen app c none e s = s
  type_character-IsScreen app c (some editor) e s =
      if_cases IsScreen (leb (byte_length editor + len_utf8 c) max_editor_bytes)
        (record app { editor = some (editor ++ (c ∷ [])) }) app
        (λ e. record {
          work_fits = s.work_fits;
          selected_shown = s.selected_shown;
          texts_fit =
              (ground (arith, byte_length-append editor (c ∷ [])), s.texts_fit.1, s.texts_fit.2);
        })
        (λ e. s)

  erase-IsScreen :
      (app : App D) (o : Option Chars) → app.editor ≡ o → IsScreen app → IsScreen (erase app o)
  unfolding visible_work
  erase-IsScreen app none e s = s
  erase-IsScreen app (some editor) e s =
      let old = subst EditorFits e s.texts_fit.0 in
      record {
        work_fits = s.work_fits;
        selected_shown = s.selected_shown;
        texts_fit =
            (omega (arith, byte_length-pop_character-le editor, old), s.texts_fit.1, s.texts_fit.2);
      }

  correct-state :
      (app : App D) (field : CorrectableField) (value : Chars) (o : Option WorkSummary)
      → (correct app field value o).0 ≡ app
  correct-state app field value none = refl
  correct-state app field value (some w) = refl

  submit-state :
      (app : App D) (field : CorrectableField) (value : Chars) → (submit app field value).0 ≡ app
  unfolding submit
  submit-state app field value =
      ground (arith, correct-state app field value (selected_contract app))

  open_work-IsScreen :
      (app : App D) (o : Option WorkSummary) → IsScreen app → IsScreen (open_work app o).0
  unfolding visible_work
  open_work-IsScreen app none s = s
  open_work-IsScreen app (some w) s = record {
    work_fits = s.work_fits;
    selected_shown = s.selected_shown;
    texts_fit = s.texts_fit;
  }

  replaced-IsScreen :
      (app : App D) (work : List WorkSummary) → IsScreen app → IsScreen (replaced app work)
  unfolding visible_work
  replaced-IsScreen app work s = record {
    work_fits = length-take max_work work;
    selected_shown =
        clamped app.selected
          (length (visible_work (record app { work = take max_work work; detail = none })));
    texts_fit = s.texts_fit;
  }

  editing-IsScreen : (app : App D) → IsScreen app → IsScreen (record app { editor = some [] })
  unfolding visible_work
  editing-IsScreen app s = record {
    work_fits = s.work_fits;
    selected_shown = s.selected_shown;
    texts_fit = (omega arith, s.texts_fit.1, s.texts_fit.2);
  }

  submit_text-IsScreen :
      (app : App D) (o : Option Chars) → IsScreen app → IsScreen (submit_text app o).0
  unfolding visible_work
  submit_text-IsScreen app none s = s
  submit_text-IsScreen app (some value) s =
      subst IsScreen (sym (submit-state (record app { editor = none }) objective value)) record {
        work_fits = s.work_fits;
        selected_shown = s.selected_shown;
        texts_fit = (tt, s.texts_fit.1, s.texts_fit.2);
      }

  -- Every message, with whatever comes of it, leaves at most 100 items of work, a selection that is a
  -- row shown or the first of none, an editor of at most 4,096 bytes, a notice of at most 243 bytes and at
  -- most 255 retries, if the state before had these.
  pub update-IsScreen :
      (app : App D) (now : ℕ) (m : Message D) → IsScreen app → IsScreen (update app now m).0
  unfolding update visible_work
  update-IsScreen app now (select_status status) s = record {
    work_fits = s.work_fits;
    selected_shown = inr refl;
    texts_fit = s.texts_fit;
  }
  update-IsScreen app now clear_status s = record {
    work_fits = s.work_fits;
    selected_shown = inr refl;
    texts_fit = s.texts_fit;
  }
  update-IsScreen app now (move_selection delta) s = move-IsScreen app now delta s
  update-IsScreen app now open_selected s = open_work-IsScreen app (selected_contract app) s
  update-IsScreen app now go_back s = record {
    work_fits = s.work_fits;
    selected_shown = s.selected_shown;
    texts_fit = (tt, s.texts_fit.1, s.texts_fit.2);
  }
  update-IsScreen app now begin_correction s =
      if_cases (λ (u : Updated D). IsScreen u.0)
        (is_list app.focus || not (is_some (selected_contract app))) (app, err no_selection)
        (quiet (record app { editor = some [] })) (λ e. s) (λ e. editing-IsScreen app s)
  update-IsScreen app now (editor_character c) s = type_character-IsScreen app c app.editor refl s
  update-IsScreen app now editor_backspace s = erase-IsScreen app app.editor refl s
  update-IsScreen app now submit_editor s = submit_text-IsScreen app app.editor s
  update-IsScreen app now (submit_correction field value) s =
      subst IsScreen (sym (submit-state app field value)) s
  update-IsScreen app now (replace_work work) s = replaced-IsScreen app work s
  update-IsScreen app now (replace_detail detail) s = record {
    work_fits = s.work_fits;
    selected_shown = s.selected_shown;
    texts_fit = s.texts_fit;
  }
  update-IsScreen app now connection_lost s = record {
    work_fits = s.work_fits;
    selected_shown = s.selected_shown;
    texts_fit = (s.texts_fit.0, ground arith, omega arith);
  }
  update-IsScreen app now connection_restored s = record {
    work_fits = s.work_fits;
    selected_shown = s.selected_shown;
    texts_fit = (s.texts_fit.0, tt, omega arith);
  }
  update-IsScreen app now (notify message) s = record {
    work_fits = s.work_fits;
    selected_shown = s.selected_shown;
    texts_fit = (s.texts_fit.0, byte_length-bound-le message, s.texts_fit.2);
  }
  update-IsScreen app now quits s = s
