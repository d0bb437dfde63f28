-- ===== src/Cmd/Keys.antt =====
-- Bytes to edits: `try_handle_escape` and `cmd_poll` of bootloader/src/cmd.c.
use stm32mp257_test_board.Prelude.{
  ℕ, zero, suc, ◌+◌, ◌-◌, Bool, true, false, ◌&&◌, ◌||◌, [], ◌∷◌, set, ◌==◌, ltb, leb,
  if◌then◌else◌, bit_xor,
}
use stm32mp257_test_board.Log.{chr}
use stm32mp257_test_board.Console.{Console, console_rx_empty, console_rx_get, console_interrupted}
use stm32mp257_test_board.Cmd.Shell.{Shell, print, cmd_prompt, cmd_max_len}
use stm32mp257_test_board.Cmd.History.{history_add, history_prev, history_next}
use stm32mp257_test_board.Cmd.Dispatch.{execute_command, cmd_tab_completion}

-- Whether the byte belongs to an escape sequence, and the state behind it.
unfoldable pub try_handle_escape : ℕ → Shell → Bool × Shell
try_handle_escape byte s =
    if s.esc_state == 1
    then if byte == b'['
      then (true, record s { esc_state = 2 })
      else (true, record s { esc_state = 0 })
    else if s.esc_state == 2
    then if byte == b'A'
      then (true, record (history_prev s) { esc_state = 0 })
      else if byte == b'B'
      then (true, record (history_next s) { esc_state = 0 })
      else (true, record s { esc_state = 0 })
    else if byte == 0x1B
    then (true, record s { esc_state = 1 })
    else (false, s)

unfoldable pub erase_char : Shell → Shell
erase_char s =
    if ltb 0 s.line_len
    then print "\u{8} \u{8}" []
        (record s { line_len = s.line_len - 1; line_buf = set s.line_buf (s.line_len - 1) 0 })
    else s

unfoldable pub insert_char : ℕ → Shell → Shell
insert_char byte s =
    if ltb s.line_len (cmd_max_len - 1)
    then print "%c" (chr byte ∷ [])
        (record s { line_buf = set s.line_buf s.line_len byte; line_len = s.line_len + 1 })
    else s

-- The branches of `cmd_poll` for a byte that `try_handle_escape` leaves.
unfoldable pub edit : ℕ → Shell → Shell
edit byte s =
    if byte == 13 || byte == 10
    then execute_command (history_add (print "\r\n" [] s))
    else if byte == 8 || byte == 0x7F
    then erase_char s
    else if leb 0x20 byte && leb byte 0x7E
    then insert_char byte s
    else if byte == 9
    then cmd_tab_completion s
    else if byte == 0x0C
    then cmd_prompt (print "%c" (chr byte ∷ []) s)
    else print "^%c" (chr (bit_xor byte 0x40) ∷ []) s

-- The body of the loop of `cmd_poll`.
unfoldable pub handle_byte : ℕ → Shell → Shell
handle_byte byte s = let (done, s') = try_handle_escape byte s in if done then s' else edit byte s'

-- `while (!console_rx_empty())`, on fuel.
unfoldable pub drain : ℕ → Console → Shell → Console × Shell
drain zero c s = (c, s)
drain (suc n) c s = elim (console_rx_empty c) [
  | true ↦ (c, s)
  | false ↦ let (byte, c') = console_rx_get c in drain n c' (handle_byte byte s)
]

-- Nothing is pushed during the loop, so 64 rounds empty the ring.
unfoldable pub cmd_poll : Console → Shell → Console × Shell
cmd_poll c s =
    let (c', s') = drain 64 c s in
    let (interrupted, c'') = console_interrupted c' in
    if interrupted then (c'', cmd_prompt s') else (c'', s')
