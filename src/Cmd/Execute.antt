-- ===== src/Cmd/Execute.antt =====
-- What an entered line does: `execute_command` of bootloader/src/cmd.c against the look-up of the
-- line's first word.
use stm32mp257_test_board.Prelude.{
  ℕ, ◌-◌, List, [], ◌∷◌, ◌++◌, Option, none, some, length, ◌==◌, if◌then◌else◌, ◌≡◌, refl, sym, ap,
  ap₂, ◌∙◌, arith, append_assoc, replicate,
}
use stm32mp257_test_board.Cstring.{strchr}
use stm32mp257_test_board.Cstring.Copy.{IsText, index_of, strchr_lem}
use stm32mp257_test_board.Log.{str, num}
use stm32mp257_test_board.Cmd.Shell.{Shell, Cmd, cmd_list, cmd_prompt, print}
use stm32mp257_test_board.Cmd.Args.{parse_args_uint32}
use stm32mp257_test_board.Cmd.Dispatch.{
  find_cmd, word_length, dispatch, execute_command, run_handler, cmd_help,
}
use stm32mp257_test_board.Cmd.Line.{Holds, IsLine, padded, padded_split}
use stm32mp257_test_board.Cmd.Editor.Add.{terminated}
use stm32mp257_test_board.Cmd.Lookup.{
  Lookup, unknown, ambiguous, one, only, lookup, outcome, find_exact, candidates, find_cmd_loop,
  cmd_list-IsTable,
}

-- The line up to its first space, and what follows.
abbrev pub word : List ℕ → List ℕ
word [] = []
word (c ∷ cs) = if c == b' ' then [] else c ∷ word cs

abbrev behind : List ℕ → List ℕ
behind [] = []
behind (c ∷ cs) = if c == b' ' then c ∷ cs else behind cs

word-append-behind : (cs : List ℕ) → word cs ++ behind cs ≡ cs
word-append-behind [] = refl
word-append-behind (c ∷ cs) = ground (arith, word-append-behind cs)

IsText-word : (cs : List ℕ) → IsText cs → IsText (word cs)
IsText-word [] t = tt
IsText-word (c ∷ cs) t = ground (arith, IsText-word cs t.1)

abbrev or_length : ℕ → Option ℕ → ℕ
or_length n none = n
or_length n (some i) = i

index_of-word : (cs : List ℕ) → or_length (length cs) (index_of cs b' ') ≡ length (word cs)
index_of-word [] = refl
index_of-word (c ∷ cs) = ground (arith, index_of-word cs)

word_length_lem : (cs : List ℕ) → IsLine cs → word_length (padded cs) (length cs) ≡ length (word cs)
unfolding word_length
word_length_lem cs l = ground (
  arith,
  index_of-word cs,
  padded_split cs l.fits,
  ap (λ b. strchr b b' ') (padded_split cs l.fits)
      ∙ strchr_lem cs (replicate (31 - length cs) 0) b' ' l.text (omega arith) (omega arith),
)

-- The reaction to an entered line.
unfoldable pub obey : List ℕ → Lookup → Shell → Shell
obey line unknown s =
    cmd_prompt (cmd_help (print "Unknown command '%s'.\r\n" (str (padded line) ∷ []) s))
obey line ambiguous s =
    cmd_prompt
      (print "Ambiguous command '%.*s'.\r\n" (num (length (word line)) ∷ str (padded line) ∷ []) s)
obey line (one c) s =
    let (argc, args) = parse_args_uint32 (padded line) in
    cmd_prompt (run_handler c.handler argc args s)

dispatch-outcome :
    (line : List ℕ) (o : Option Cmd) (cs : List Cmd) (s : Shell)
    → dispatch (padded line) (length (word line)) (outcome o 0 none cs).0 (outcome o 0 none cs).1 s
      ≡ obey line (elim o [ some c ↦ one c | none ↦ only cs ]) s
unfolding dispatch obey
dispatch-outcome line (some c) cs s = refl
dispatch-outcome line none [] s = ground arith
dispatch-outcome line none (c ∷ []) s = ground arith
dispatch-outcome line none (c ∷ d ∷ cs) s = ground arith

-- `execute_command`, with the terminated line and its length as arguments.
run : Shell → Shell → List ℕ → ℕ → Shell
run s s' line len =
    let cmd_len = word_length line len in
    let (found, best) = find_cmd line cmd_len cmd_list 0 none in
    if len == 0 then cmd_prompt s else dispatch line cmd_len found best s'

found_lem :
    (line : List ℕ)
    → IsText line
    → find_cmd (padded line) (length (word line)) cmd_list 0 none
      ≡ outcome (find_exact (word line) cmd_list) 0 none (candidates (word line) cmd_list)
found_lem line t =
    ap (λ b. find_cmd b (length (word line)) cmd_list 0 none) split
    ∙ find_cmd_loop (word line) (behind line ++ replicate (32 - length line) 0) (IsText-word line t)
        cmd_list 0 none cmd_list-IsTable
  where
    split : padded line ≡ word line ++ (behind line ++ replicate (32 - length line) 0)
    split =
        ap (λ l. l ++ replicate (32 - length line) 0) (sym (word-append-behind line))
        ∙ append_assoc (word line) (behind line) (replicate (32 - length line) 0)

run-obey :
    (s : Shell) (line : List ℕ)
    → IsLine line
    → run s s (padded line) (length line)
      ≡ (if length line == 0 then cmd_prompt s else obey line (lookup (word line) cmd_list) s)
unfolding run lookup
run-obey s line l =
    rw (word_length_lem line l, found_lem line l.text)
      (ap (λ x. if length line == 0 then cmd_prompt s else x)
        (dispatch-outcome line (find_exact (word line) cmd_list) (candidates (word line) cmd_list)
          s))

-- Where the buffer holds a line, `execute_command` only prompts if the line is empty, and
-- otherwise does what looking up the line's first word in the command table says: an exact name
-- wins, else a prefix of a single name; an unknown or ambiguous word is reported, and the
-- handler found is called with the arguments that are read from the line.
pub execute_command-obey :
    (s : Shell) (line : List ℕ)
    → Holds s line
    → execute_command s
      ≡ (if length line == 0 then cmd_prompt s else obey line (lookup (word line) cmd_list) s)
unfolding execute_command run
execute_command-obey s line h =
    ap (λ b. run s (record s { line_buf = b }) b s.line_len) (terminated h)
    ∙ ap₂ (λ n b. run s (record s { line_buf = b }) (padded line) n) h.len (sym h.buf)
    ∙ run-obey s line h.line
