-- ===== src/Cmd/Dispatch.antt =====
-- From a finished or unfinished word to a command: `execute_command`, `cmd_tab_completion` and
-- `cmd_help` of bootloader/src/cmd.c. `log` holds the calls of the other handlers.
use stm32mp257_test_board.Prelude.{
  ℕ, zero, suc, true, false, ◌+◌, ◌-◌, List, [], ◌∷◌, ◌++◌, Option, none, some, set, get_or, ◌==◌,
  ltb, if◌then◌else◌, is_zero,
}
use stm32mp257_test_board.Cstring.{strlen, strncmp, strchr}
use stm32mp257_test_board.Log.{str, chr, num, call, Handler}
use stm32mp257_test_board.Cmd.Shell.{Cmd, Shell, cmd_list, print, cmd_prompt}
use stm32mp257_test_board.Cmd.Args.{parse_args_uint32}

unfoldable pub help_lines : List Cmd → Shell → Shell
help_lines [] s = s
help_lines (c ∷ cs) s = help_lines cs (
    print "\r\n" [] (
      print "    %s\r\n" (str c.summary ∷ [])
        (print "  %s %s\r\n" (str c.name ∷ str c.syntax ∷ []) s)))

unfoldable pub cmd_help : Shell → Shell
unfolding help_lines
cmd_help s = help_lines cmd_list (print "Available commands:\r\n\r\n" [] s)

-- The call through `match->handler`.
unfoldable pub run_handler : Handler → ℕ → List ℕ → Shell → Shell
run_handler Handler.cmd_help argc args s = cmd_help s
run_handler h argc args s = record s {
  log = s.log ++ call h argc (get_or args 0 0) (get_or args 1 0) (get_or args 2 0) ∷ [];
}

-- The search loop of `execute_command`, from the count and the match so far.
unfoldable pub find_cmd : List ℕ → ℕ → List Cmd → ℕ → Option Cmd → ℕ × Option Cmd
find_cmd line cmd_len [] found best = (found, best)
find_cmd line cmd_len (c ∷ cs) found best = elim (is_zero (strncmp line c.name cmd_len)) [
  | true ↦ elim (get_or c.name cmd_len 0 == 0) [
    | true ↦ (1, some c)
    | false ↦ find_cmd line cmd_len cs (found + 1) (some c)
  ]
  | false ↦ find_cmd line cmd_len cs found best
]

unfoldable pub word_length : List ℕ → ℕ → ℕ
word_length line len = elim (strchr line b' ') [ none ↦ len | some i ↦ i ]

-- What follows the search.
unfoldable pub dispatch : List ℕ → ℕ → ℕ → Option Cmd → Shell → Shell
dispatch line cmd_len found best s =
    if found == 0
    then cmd_prompt (cmd_help (print "Unknown command '%s'.\r\n" (str line ∷ []) s))
    else if ltb 1 found
    then cmd_prompt (print "Ambiguous command '%.*s'.\r\n" (num cmd_len ∷ str line ∷ []) s)
    else elim best [
      | none ↦ s
      | some c ↦
          let (argc, args) = parse_args_uint32 line in
          cmd_prompt (run_handler c.handler argc args s)
    ]

unfoldable pub execute_command : Shell → Shell
execute_command s =
    let line = set s.line_buf s.line_len 0 in
    let cmd_len = word_length line s.line_len in
    let (found, best) = find_cmd line cmd_len cmd_list 0 none in
    if s.line_len == 0
    then cmd_prompt s
    else dispatch line cmd_len found best (record s { line_buf = line })

-- The first loop of `cmd_tab_completion`: how many names the line begins, and the last of them.
unfoldable pub find_names : List ℕ → ℕ → List Cmd → ℕ → Option Cmd → ℕ × Option Cmd
find_names line len [] matches best = (matches, best)
find_names line len (c ∷ cs) matches best = elim (is_zero (strncmp line c.name len)) [
  | true ↦ find_names line len cs (matches + 1) (some c)
  | false ↦ find_names line len cs matches best
]

-- `while (line_len < len)`, for the rounds that are left.
unfoldable pub append_name : ℕ → List ℕ → Shell → Shell
append_name zero name s = s
append_name (suc n) name s =
    let c = get_or name s.line_len 0 in
    append_name n name (
      print "%c" (chr c ∷ [])
        (record s { line_buf = set s.line_buf s.line_len c; line_len = s.line_len + 1 }))

unfoldable pub list_names : List Cmd → Shell → Shell
list_names [] s = s
list_names (c ∷ cs) s = elim (is_zero (strncmp s.line_buf c.name s.line_len)) [
  | true ↦ list_names cs (print "%s  " (str c.name ∷ []) s)
  | false ↦ list_names cs s
]

unfoldable pub cmd_tab_completion : Shell → Shell
cmd_tab_completion s =
    let (matches, best) = find_names s.line_buf s.line_len cmd_list 0 none in
    if matches == 1
    then elim best [ none ↦ s | some c ↦ append_name (strlen c.name - s.line_len) c.name s ]
    else if ltb 1 matches
    then print "\r\n> %s" (str s.line_buf ∷ []) (list_names cmd_list (print "\r\n" [] s))
    else s
