-- ===== src/Cli/App.antt =====
-- crates/agbox-cli/src/tui/app.rs: the state of the terminal and its update by messages. A text of the editor
-- is the list of its characters; an instant is a number of milliseconds, and `Instant::now()` is an
-- argument. A detail is kept as it is, so its type is a parameter.
use agbox.Common.{
  ℕ, zero, suc, ◌+◌, ◌-◌, ◌*◌, ◌^◌, min, Bool, true, false, not, ◌&&◌, ◌||◌, Option, none, some,
  List, [], ◌∷◌, ◌++◌, length, take, ltb, leb, ◌==◌, if◌then◌else◌, is_some,
}
use agbox.Core.Base.{Text, Result, ok, err}
use agbox.Core.Work.{WorkStatus, observed, active, blocked, completed, abandoned}
mod Widths
pub mod Update
pub mod Screen
pub mod Effects
pub mod Delay
pub mod Retry
mod Tests

abbrev pub max_work : ℕ
max_work = 100

abbrev pub max_editor_bytes : ℕ
max_editor_bytes = 4_096

abbrev pub max_notice_bytes : ℕ
max_notice_bytes = 240

-- In milliseconds.
abbrev pub initial_retry : ℕ
initial_retry = 500

abbrev pub max_retry : ℕ
max_retry = 8_000

abbrev pub Chars : Type 0
Chars = List ℕ

abbrev pub len_utf8 : ℕ → ℕ
len_utf8 c = if ltb c 0x80 then 1 else if ltb c 0x800 then 2 else if ltb c 0x10000 then 3 else 4

abbrev pub byte_length : Chars → ℕ
byte_length [] = 0
byte_length (c ∷ cs) = len_utf8 c + byte_length cs

pub data Focus : Type 0 where
  list contract : Focus

pub data CorrectableField : Type 0 where
  objective summary next_action blocker constraint completion_criterion : CorrectableField

pub record WorkSummary : Type 0 where
  pub work_id : Text
  pub contract_id : Text
  pub revision : ℕ
  pub status : WorkStatus
  pub objective : Option Text
  pub summary : Text

pub data Effect : Type 0 where
  refresh : Effect
  load_work : Text → Effect
  correct_work : Text → CorrectableField → Chars → Effect
  quit : Effect

-- An `i8`: so many steps on or back.
pub data Delta : Type 0 where
  on back : ℕ → Delta

pub data Message (D : Type 0) : Type 0 where
  select_status : WorkStatus → Message D
  clear_status : Message D
  move_selection : Delta → Message D
  open_selected go_back begin_correction : Message D
  editor_character : ℕ → Message D
  editor_backspace submit_editor : Message D
  submit_correction : CorrectableField → Chars → Message D
  replace_work : List WorkSummary → Message D
  replace_detail : Option D → Message D
  connection_lost connection_restored : Message D
  notify : Chars → Message D
  quits : Message D

pub data AppError : Type 0 where
  no_selection correction_too_large : AppError

pub record App (D : Type 0) : Type 0 where
  pub status : Option WorkStatus
  pub work : List WorkSummary
  pub detail : Option D
  pub selected : ℕ
  pub focus : Focus
  pub editor : Option Chars
  pub stale : Bool
  pub retries : ℕ
  pub retry_after : Option ℕ
  pub notice : Option Chars

abbrev pub status_code : WorkStatus → ℕ
status_code observed = 0
status_code active = 1
status_code blocked = 2
status_code completed = 3
status_code abandoned = 4

abbrev pub shows : Option WorkStatus → WorkSummary → Bool
shows none w = true
shows (some status) w = status_code status == status_code w.status

abbrev pub filter_status : Option WorkStatus → List WorkSummary → List WorkSummary
filter_status status [] = []
filter_status status (w ∷ ws) =
    let rest = filter_status status ws in if shows status w then w ∷ rest else rest

-- `slice::get`.
abbrev pub get : List WorkSummary → ℕ → Option WorkSummary
get [] n = none
get (w ∷ ws) zero = some w
get (w ∷ ws) (suc n) = get ws n

abbrev pub is_list : Focus → Bool
is_list list = true
is_list contract = false

-- `String::pop`.
abbrev pub pop_character : Chars → Chars
pop_character [] = []
pop_character (c ∷ []) = []
pop_character (c ∷ d ∷ cs) = c ∷ pop_character (d ∷ cs)

-- The characters up to the last boundary within the limit.
abbrev pub prefix : ℕ → Chars → Chars
prefix limit [] = []
prefix limit (c ∷ cs) =
    let rest = prefix (limit - len_utf8 c) cs in if leb (len_utf8 c) limit then c ∷ rest else []

unfoldable pub bound : Chars → ℕ → Chars
bound value limit =
    if leb (byte_length value) limit then value else prefix limit value ++ (0x2026 ∷ [])

unfoldable pub retry_delay : ℕ → ℕ
retry_delay retries = min (initial_retry * 2 ^ min retries 4) max_retry

-- `(current + delta).clamp(0, last)`.
abbrev pub moved : ℕ → Delta → ℕ → ℕ
moved current (on n) last = min (current + n) last
moved current (back n) last = min (current - n) last

abbrev pub waits : Option ℕ → ℕ → Bool
waits none now = false
waits (some deadline) now = ltb now deadline

module _ {D : Type 0} where
  unfoldable pub visible_work : App D → List WorkSummary
  visible_work app = take max_work (filter_status app.status app.work)

  unfoldable pub selected_contract : App D → Option WorkSummary
  unfolding visible_work
  selected_contract app = get (visible_work app) app.selected

  unfoldable pub from_work : List WorkSummary → App D
  from_work work = record {
    status = none;
    work = take max_work work;
    detail = none;
    selected = 0;
    focus = list;
    editor = none;
    stale = false;
    retries = 0;
    retry_after = none;
    notice = none;
  }
