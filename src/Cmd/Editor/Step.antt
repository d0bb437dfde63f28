-- ===== src/Cmd/Editor/Step.antt =====
-- Every byte that `cmd_poll` of bootloader/src/cmd.c takes edits the line as the abstract editor
-- does.
use stm32mp257_test_board.Prelude.{
  ℕ, ◌<◌, List, [], ◌∷◌, ◌++◌, length, ◌==◌, ltb, leb, if◌then◌else◌, ◌≡◌, refl, sym, ap, ◌∙◌,
  arith, ◌&&◌, ◌||◌, Bool-cases, inl, inr,
}
use stm32mp257_test_board.Log.{
  Handler, cmd_pmic, cmd_ddr, cmd_sd, cmd_sdw, cmd_usb, cmd_load_sd, cmd_jump, cmd_boot,
}
use stm32mp257_test_board.Cmd.Shell.{Shell, Cmd, cmd_list, cmd_prompt}
use stm32mp257_test_board.Cmd.Dispatch.{cmd_help, help_lines, run_handler, execute_command}
use stm32mp257_test_board.Cmd.Keys.{erase_char, insert_char, edit}
use stm32mp257_test_board.Cmd.Line.{
  Holds, cmd_prompt-Holds, insert_char-Holds, erase_char-Holds, drop_last,
}
use stm32mp257_test_board.Cmd.Lookup.{Lookup, unknown, ambiguous, one, lookup}
use stm32mp257_test_board.Cmd.Execute.{obey, word, execute_command-obey}
use stm32mp257_test_board.Cmd.Editor.{
  Editor, Repr, Keeps, cursor_slot, enter, show_older, show_newer,
}
use stm32mp257_test_board.Cmd.Editor.Ring.{buf_size}
use stm32mp257_test_board.Cmd.Editor.Add.{history_add-Repr}
use stm32mp257_test_board.Cmd.Editor.Complete.{complete, log-Repr, cmd_tab_completion-Repr}

pub cmd_prompt-Repr :
    {s : Shell} {e : Editor} → Repr s e → Repr (cmd_prompt s) (record e { line = [] })
unfolding cmd_prompt
cmd_prompt-Repr {s} r = record {
  holds = cmd_prompt-Holds s (buf_size r.holds);
  keeps = r.keeps;
  index = r.index;
  cursor_in = r.cursor_in;
  esc = r.esc;
}

help_lines-Repr : (cs : List Cmd) {s : Shell} {e : Editor} → Repr s e → Repr (help_lines cs s) e
unfolding help_lines
help_lines-Repr [] r = r
help_lines-Repr (c ∷ cs) r = help_lines-Repr cs (log-Repr _ r)

cmd_help-Repr : {s : Shell} {e : Editor} → Repr s e → Repr (cmd_help s) e
unfolding cmd_help
cmd_help-Repr r = help_lines-Repr cmd_list (log-Repr _ r)

run_handler-Repr :
    (h : Handler) (argc : ℕ) (args : List ℕ) {s : Shell} {e : Editor}
    → Repr s e
    → Repr (run_handler h argc args s) e
unfolding run_handler
run_handler-Repr Handler.cmd_help argc args r = cmd_help-Repr r
run_handler-Repr cmd_pmic argc args r = log-Repr _ r
run_handler-Repr cmd_ddr argc args r = log-Repr _ r
run_handler-Repr cmd_sd argc args r = log-Repr _ r
run_handler-Repr cmd_sdw argc args r = log-Repr _ r
run_handler-Repr cmd_usb argc args r = log-Repr _ r
run_handler-Repr cmd_load_sd argc args r = log-Repr _ r
run_handler-Repr cmd_jump argc args r = log-Repr _ r
run_handler-Repr cmd_boot argc args r = log-Repr _ r

obey-Repr :
    (line : List ℕ) (l : Lookup) {s : Shell} {e : Editor}
    → Repr s e
    → Repr (obey line l s) (record e { line = [] })
unfolding obey
obey-Repr line unknown r = cmd_prompt-Repr (cmd_help-Repr (log-Repr _ r))
obey-Repr line ambiguous r = cmd_prompt-Repr (log-Repr _ r)
obey-Repr line (one c) r = cmd_prompt-Repr (run_handler-Repr c.handler _ _ r)

execute_command-Repr :
    (s : Shell) (e : Editor) → Repr s e → Repr (execute_command s) (record e { line = [] })
execute_command-Repr s e r = elim (Bool-cases (length e.line == 0)) [
  | inl p ↦ rw (execute_command-obey s e.line r.holds, p) (cmd_prompt-Repr r)
  | inr p ↦
      rw (execute_command-obey s e.line r.holds, p)
        (obey-Repr e.line (lookup (word e.line) cmd_list) r)
]

-- A byte outside an escape sequence.
unfoldable pub type_byte : ℕ → Editor → Editor
type_byte byte e =
    if byte == 13 || byte == 10
    then record (enter e) { line = [] }
    else if byte == 8 || byte == 0x7F
    then record e { line = drop_last e.line }
    else if leb 0x20 byte && leb byte 0x7E
    then record e { line = if ltb (length e.line) 31 then e.line ++ byte ∷ [] else e.line }
    else if byte == 9
    then complete e
    else if byte == 0x0C
    then record e { line = [] }
    else e

-- Escape, `[` and a third byte: A and B are the arrows up and down.
unfoldable pub step : ℕ → Editor → Editor
step byte e =
    if e.mode == 1
    then record e { mode = if byte == b'[' then 2 else 0 }
    else if e.mode == 2
    then record (if byte == b'A' then show_older e else if byte == b'B' then show_newer e else e) {
      mode = 0;
    }
    else if byte == 0x1B
    then record e { mode = 1 }
    else type_byte byte e

pub mode-Repr :
    {s : Shell} {e : Editor} (m : ℕ)
    → Repr s e
    → Repr (record s { esc_state = m }) (record e { mode = m })
mode-Repr m r = record {
  holds = record { buf = r.holds.buf; len = r.holds.len; line = r.holds.line };
  keeps = r.keeps;
  index = r.index;
  cursor_in = r.cursor_in;
  esc = refl;
}

-- An edit of the line alone.
edited-Repr :
    (s' s : Shell) (e : Editor)
    → Repr s e
    → {l : List ℕ} → Holds s' l
    → s.history ≡ s'.history
    → s.history_head ≡ s'.history_head
    → s.history_count ≡ s'.history_count
    → s.history_index ≡ s'.history_index
    → s.esc_state ≡ s'.esc_state
    → Repr s' (record e { line = l })
edited-Repr s' s e r h p q n i m = record {
  holds = h;
  keeps = keeps;
  index = sym i ∙ r.index ∙ ap (λ x. cursor_slot x e.cursor) q;
  cursor_in = r.cursor_in;
  esc = sym m ∙ r.esc;
}
  where
    keeps : Keeps s'.history s'.history_head s'.history_count e.past
    keeps = rw (← p, ← q, ← n) r.keeps

erase_char-Repr :
    (s : Shell) (e : Editor) → Repr s e → Repr (erase_char s) (record e { line = drop_last e.line })
unfolding erase_char
erase_char-Repr s e r = elim (Bool-cases (ltb 0 s.line_len)) [
  | inl p ↦
      rw p
        (edited-Repr _ s e r (rw p at (erase_char-Holds s e.line r.holds)) refl refl refl refl refl)
  | inr p ↦
      rw p
        (edited-Repr _ s e r (rw p at (erase_char-Holds s e.line r.holds)) refl refl refl refl refl)
]

insert_char-Repr :
    (byte : ℕ) (s : Shell) (e : Editor)
    → Repr s e
    → 0 < byte
    → Repr
        (insert_char byte s)
        (record e { line = if ltb (length e.line) 31 then e.line ++ byte ∷ [] else e.line })
unfolding insert_char
insert_char-Repr byte s e r h = elim (Bool-cases (ltb s.line_len 31)) [
  | inl p ↦ rw p (
      edited-Repr _ s e r (rw p at (insert_char-Holds s e.line byte r.holds h)) refl refl refl refl
        refl)
  | inr p ↦ rw p (
      edited-Repr _ s e r (rw p at (insert_char-Holds s e.line byte r.holds h)) refl refl refl refl
        refl)
]

-- The branches of `cmd_poll`.
pub edit-Repr :
    (byte : ℕ) (s : Shell) (e : Editor) → Repr s e → Repr (edit byte s) (type_byte byte e)
unfolding edit type_byte
edit-Repr byte s e r = elim (Bool-cases (byte == 13 || byte == 10)) [
  | inl p ↦ rw p (execute_command-Repr _ _ (history_add-Repr _ e (log-Repr _ r)))
  | inr p ↦ elim (Bool-cases (byte == 8 || byte == 0x7F)) [
    | inl q ↦ rw (p, q) (erase_char-Repr s e r)
    | inr q ↦ elim (Bool-cases (leb 0x20 byte && leb byte 0x7E)) [
      | inl t ↦ rw (p, q, t) (insert_char-Repr byte s e r (ground arith))
      | inr t ↦ elim (Bool-cases (byte == 9)) [
        | inl u ↦ rw (p, q, t, u) (cmd_tab_completion-Repr s e r)
        | inr u ↦ elim (Bool-cases (byte == 0x0C)) [
          | inl v ↦ rw (p, q, t, u, v) (cmd_prompt-Repr (log-Repr _ r))
          | inr v ↦ rw (p, q, t, u, v) (log-Repr _ r)
        ]
      ]
    ]
  ]
]
