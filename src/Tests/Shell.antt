-- ===== src/Tests/Shell.antt =====
-- The command line of bootloader/src/cmd.c and the console at concrete inputs.
use stm32mp257_test_board.Cstring.RoundTrip.{digits}
use stm32mp257_test_board.Cmd.Args.Number.{IsWord, parse_args_uint32-digits}
use stm32mp257_test_board.Prelude.{
  arith, ◌%◌, ◌^◌, List, codes, foldl, ◌++◌, [], ◌∷◌, true, false, if◌then◌else◌, ◌≡◌, refl, ◌==◌,
  length,
}
use stm32mp257_test_board.Cstring.{
  memset, strncpy, fill_nul, strlen, strncmp, strchr, strtoul, skip_blank, skip_plus, number_base,
  scan_digits, digit_of,
}
use stm32mp257_test_board.Log.{Event, call, printf, cmd_load_sd}
use stm32mp257_test_board.Cmd.Args.{
  parse_args_uint32, read_args, skip_word, skip_space, skip_prefix, skip_letters, is_name,
  my_isspace,
}
use stm32mp257_test_board.Console
use stm32mp257_test_board.Console.{Console, console_push, console_rx_empty, console_rx_get}
use stm32mp257_test_board.Console.Ring
use stm32mp257_test_board.Cmd.Shell.{
  line_load, line_erase, Shell, reset, cmd_init, cmd_list, cmd_prompt,
}
use stm32mp257_test_board.Cmd.History.{prev_index, history_add, history_prev}
use stm32mp257_test_board.Cmd.Dispatch.{
  find_cmd, word_length, dispatch, run_handler, execute_command, cmd_tab_completion,
}
use stm32mp257_test_board.Cmd.Keys.{try_handle_escape, edit, insert_char, handle_byte, cmd_poll}
use stm32mp257_test_board.Cmd.Lookup.{lookup}
use stm32mp257_test_board.Cmd.Execute.{word, obey, execute_command-obey}
use stm32mp257_test_board.Cmd.Editor.{Repr, enter}
use stm32mp257_test_board.Cmd.Editor.Add.{history_add-Repr}
use stm32mp257_test_board.Cmd.Editor.Complete.{complete, cmd_tab_completion-Repr}
use stm32mp257_test_board.Cmd.Editor.Step.{step}
use stm32mp257_test_board.Cmd.Editor.Poll.{
  handle_byte-Repr, steps, cmd_poll-Repr, blank, cmd_init-Repr,
}

-- `b` is typed and received.
abbrev typed : Shell
typed = handle_byte b'b' (cmd_init reset)

typed-Repr : Repr typed (step b'b' blank)
typed-Repr = handle_byte-Repr b'b' (cmd_init reset) blank cmd_init-Repr

abbrev received : Console
received = console_push (console_push Console.reset b'b') 13

received-IsValid : Ring.IsValid received
received-IsValid = Ring.push-IsValid 13 (Ring.push-IsValid b'b' Ring.reset-IsValid)

cmd_poll-Repr_example :
    Repr (cmd_poll received typed).1 (
      if received.interrupt_flag
      then record (steps (step b'b' blank) (Ring.contents received)) { line = [] }
      else steps (step b'b' blank) (Ring.contents received))
    × (console_rx_empty (cmd_poll received typed).0 ≡ true)
    × Ring.IsValid (cmd_poll received typed).0
cmd_poll-Repr_example = cmd_poll-Repr received typed (step b'b' blank) received-IsValid typed-Repr

handle_byte-Repr_example : Repr (handle_byte b'o' typed) (step b'o' (step b'b' blank))
handle_byte-Repr_example = handle_byte-Repr b'o' typed (step b'b' blank) typed-Repr

execute_command-obey_example : execute_command typed ≡ (
    if length (step b'b' blank).line == 0
    then cmd_prompt typed
    else obey (step b'b' blank).line (lookup (word (step b'b' blank).line) cmd_list) typed)
execute_command-obey_example = execute_command-obey typed (step b'b' blank).line typed-Repr.holds

entered-Repr : Repr (history_add typed) (enter (step b'b' blank))
entered-Repr = history_add-Repr typed (step b'b' blank) typed-Repr

cmd_tab_completion-Repr_example : Repr (cmd_tab_completion typed) (complete (step b'b' blank))
cmd_tab_completion-Repr_example = cmd_tab_completion-Repr typed (step b'b' blank) typed-Repr

push_refines_example :
    Ring.contents (console_push received b'x') ≡ Ring.enqueue (Ring.contents received) b'x'
push_refines_example = Ring.push_refines b'x' received-IsValid

received_waits : console_rx_empty received ≡ false
unfolding console_rx_empty console_push
received_waits = refl

get_refines_example :
    Ring.contents received ≡ (console_rx_get received).0 ∷ Ring.contents (console_rx_get received).1
get_refines_example = Ring.get_refines received-IsValid received_waits

-- The calls of handlers in a log.
abbrev handler_calls : List Event → List Event
handler_calls [] = []
handler_calls (call h n a b c ∷ es) = call h n a b c ∷ handler_calls es
handler_calls (printf f args ∷ es) = handler_calls es

-- `lo 5` and a carriage return call `load_sd` with the argument 5, and an arrow up and a carriage
-- return call it again.
load_sd_twice :
    handler_calls
      (foldl
        (λ s b. handle_byte b s)
        (cmd_init reset)
        (codes "lo 5" ++ 13 ∷ 27 ∷ b'[' ∷ b'A' ∷ 13 ∷ [])).log
    ≡ call cmd_load_sd 1 5 0 0 ∷ call cmd_load_sd 1 5 0 0 ∷ []
unfolding handle_byte try_handle_escape edit insert_char history_add history_prev prev_index
    line_load line_erase execute_command find_cmd word_length dispatch run_handler parse_args_uint32
    read_args skip_word skip_space skip_prefix skip_letters is_name my_isspace strtoul skip_blank
    skip_plus number_base scan_digits digit_of cmd_prompt cmd_init memset strncpy fill_nul strlen
    strncmp strchr
load_sd_twice = refl

load_sd-IsWord : IsWord (codes "load_sd")
unfolding my_isspace
load_sd-IsWord = (refl, (refl, (refl, (refl, (refl, (refl, (refl, tt)))))))

parse_args_uint32-digits_example :
    parse_args_uint32 (codes "load_sd" ++ (b' ' ∷ (digits 10 2049 2048 ++ 0 ∷ [])))
    ≡ (1, (2048 % 2 ^ 32) ∷ [])
parse_args_uint32-digits_example =
    parse_args_uint32-digits (codes "load_sd") [] 2048 load_sd-IsWord (omega arith) (omega arith)
