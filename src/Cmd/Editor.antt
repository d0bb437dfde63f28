-- ===== src/Cmd/Editor.antt =====
-- What the line editor of bootloader/src/cmd.c is for: a line, the last eight lines before it, and
-- the place that the arrow keys have reached among them.
pub mod Ring
pub mod Add
pub mod Complete
pub mod Step
pub mod Poll
use stm32mp257_test_board.Prelude.{
  ℕ, zero, suc, ◌+◌, ◌-◌, ◌%◌, ◌≤◌, ◌<◌, List, [], ◌∷◌, Option, none, some, length, get_or, take,
  ◌==◌, if◌then◌else◌, ◌≡◌,
}
use stm32mp257_test_board.Cmd.Shell.{Shell}
use stm32mp257_test_board.Cmd.Line.{Holds, IsLine, padded}

-- `past` holds the latest line first, and `cursor` counts from it. `mode` counts the bytes of an
-- escape sequence that were read.
pub record Editor : Type 0 where
  pub line : List ℕ
  pub past : List (List ℕ)
  pub cursor : Option ℕ
  pub mode : ℕ

-- The older line that an arrow up shows.
abbrev pub older : ℕ → Option ℕ → ℕ
older count none = 0
older count (some k) = if k + 1 == count then k else k + 1

pub show_older : Editor → Editor
show_older e =
    let k = older (length e.past) e.cursor in
    if length e.past == 0 then e else record e { line = get_or e.past k []; cursor = some k }

-- The newer line that an arrow down shows: behind the latest stands the empty line.
abbrev pub newer : Option ℕ → Editor → Editor
newer none e = e
newer (some zero) e = record e { line = []; cursor = none }
newer (some (suc k)) e = record e { line = get_or e.past k []; cursor = some k }

pub show_newer : Editor → Editor
show_newer e = newer e.cursor e

-- An entered line becomes the latest of eight, unless it is empty.
abbrev pub remember : List ℕ → Editor → Editor
remember [] e = e
remember (c ∷ cs) e = record e { past = take 8 ((c ∷ cs) ∷ e.past); cursor = none }

pub enter : Editor → Editor
enter e = remember e.line e

-- The place in the ring of the line that was entered `k` lines before the latest.
abbrev pub slot : ℕ → ℕ → ℕ
slot head k = (head + 7 - k) % 8

-- The ring holds the past lines, each padded.
pub record Keeps (ring : List (List ℕ)) (head count : ℕ) (past : List (List ℕ)) : Type 0 where
  pub slots : length ring ≡ 8
  pub sizes : (i : ℕ) → i < 8 → length (get_or ring i []) ≡ 32
  pub head_in : head < 8
  pub counted : count ≡ length past
  pub room : length past ≤ 8
  pub lines : (k : ℕ) → k < length past → IsLine (get_or past k [])
  pub stored : (k : ℕ) → k < length past → get_or ring (slot head k) [] ≡ padded (get_or past k [])

abbrev pub cursor_slot : ℕ → Option ℕ → Option ℕ
cursor_slot head none = none
cursor_slot head (some k) = some (slot head k)

abbrev pub CursorIn : ℕ → Option ℕ → Type 0
CursorIn count none = Unit
CursorIn count (some k) = k < count

-- The state of the command line stands for the editor.
pub record Repr (s : Shell) (e : Editor) : Type 0 where
  pub holds : Holds s e.line
  pub keeps : Keeps s.history s.history_head s.history_count e.past
  pub index : s.history_index ≡ cursor_slot s.history_head e.cursor
  pub cursor_in : CursorIn (length e.past) e.cursor
  pub esc : s.esc_state ≡ e.mode
