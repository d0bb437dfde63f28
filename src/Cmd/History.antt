-- ===== src/Cmd/History.antt =====
-- The history of bootloader/src/cmd.c: a ring of the last eight lines and the place that the arrow
-- keys have reached in it.
use stm32mp257_test_board.Prelude.{
  ℕ, ◌+◌, ◌-◌, ◌%◌, [], Option, none, some, set, get_or, ◌==◌, ltb, if◌then◌else◌,
}
use stm32mp257_test_board.Cstring.{strncpy}
use stm32mp257_test_board.Cmd.Shell.{Shell, line_load, cmd_max_len, history_size, cstr}

-- The argument is `line_buf` itself.
unfoldable pub history_add : Shell → Shell
history_add s =
    let line = set s.line_buf s.line_len 0 in
    let place = get_or s.history s.history_head [] in
    if get_or line 0 0 == 0 then record s { line_buf = line } else record s {
      line_buf = line;
      history = set s.history s.history_head (set (strncpy place line cmd_max_len) 31 0);
      history_head = (s.history_head + 1) % history_size;
      history_count =
          if ltb s.history_count history_size then s.history_count + 1 else s.history_count;
      history_index = none;
    }

-- The index that `history_prev` moves to. Each difference is taken after 8 is added, as the
-- numbers do not go below 0.
unfoldable pub prev_index : Shell → ℕ
prev_index s = elim s.history_index [
  | none ↦ (s.history_head + history_size - 1) % history_size
  | some i ↦
      if i == (s.history_head + history_size - s.history_count) % history_size
      then i
      else (i + history_size - 1) % history_size
]

unfoldable pub history_prev : Shell → Shell
history_prev s =
    if s.history_count == 0
    then s
    else line_load (get_or s.history (prev_index s) [])
        (record s { history_index = some (prev_index s) })

-- `history_next`, by the index.
unfoldable pub next_from : Option ℕ → Shell → Shell
next_from none s = s
next_from (some i) s =
    let j = (i + 1) % history_size in
    if j == s.history_head
    then line_load (cstr "") (record s { history_index = none })
    else line_load (get_or s.history j []) (record s { history_index = some j })

unfoldable pub history_next : Shell → Shell
unfolding next_from
history_next s = next_from s.history_index s
