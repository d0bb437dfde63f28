-- ===== src/Cmd/Shell.antt =====
-- The static state of bootloader/src/cmd.c, the command table, and the functions that print the
-- prompt and replace the line.
use Prim.Native.String.{String}
use stm32mp257_test_board.Prelude.{ℕ, List, [], ◌∷◌, ◌++◌, Option, none, set, replicate, codes}
use stm32mp257_test_board.Cstring.{memset, strlen, strncpy}
use stm32mp257_test_board.Log.{
  Event, printf, Arg, str, Handler, cmd_help, cmd_pmic, cmd_ddr, cmd_sd, cmd_sdw, cmd_usb,
  cmd_load_sd, cmd_jump, cmd_boot,
}

abbrev pub cmd_max_len : ℕ
cmd_max_len = 32

abbrev pub history_size : ℕ
history_size = 8

-- A string constant: its bytes and the terminator.
abbrev pub cstr : String → List ℕ
cstr s = codes s ++ 0 ∷ []

-- `struct cmd` without `defaults` and `num_defaults`, which no code reads.
pub record Cmd : Type 0 where
  pub name : List ℕ
  pub syntax : List ℕ
  pub summary : List ℕ
  pub handler : Handler

abbrev entry : String → String → String → Handler → Cmd
entry n y m h = record { name = cstr n; syntax = cstr y; summary = cstr m; handler = h }

abbrev pub cmd_list : List Cmd
cmd_list =
    entry "help" "" "Display this help message" cmd_help
    ∷ entry "pmic" "" "Show STPMIC2 id and the state of every rail" cmd_pmic
    ∷ entry "ddr" "" "Initialise LPDDR4 (PLL2, controller, PHY training) and test it" cmd_ddr
    ∷ entry "sd" "" "Initialise the SD card and read the MBR" cmd_sd
    ∷ entry "sdw" "" "Test SD write on the last block (save/verify/restore)" cmd_sdw
    ∷ entry "usb" "" "Export the SD card as a USB mass-storage device" cmd_usb
    ∷ entry "load_sd" "[len_blocks [sd_block [dest_addr]]]"
        "Load blocks from SD into memory (default: kernel image)" cmd_load_sd
    ∷ entry "jump" "[target_addr]" "Call a loaded bare program (EL3)" cmd_jump
    ∷ entry "boot" "[kernel_blocks]" "Load Linux + dtb from SD staging and boot (EL2, PSCI at EL3)"
        cmd_boot
    ∷ []

-- `history_index` is `none` where the code has -1. `log` holds what the functions print and call.
pub record Shell : Type 0 where
  pub line_buf : List ℕ
  pub line_len : ℕ
  pub history : List (List ℕ)
  pub history_head : ℕ
  pub history_count : ℕ
  pub history_index : Option ℕ
  pub esc_state : ℕ
  pub log : List Event

-- The static initial values.
abbrev pub reset : Shell
reset = record {
  line_buf = replicate 32 0;
  line_len = 0;
  history = replicate 8 (replicate 32 0);
  history_head = 0;
  history_count = 0;
  history_index = none;
  esc_state = 0;
  log = [];
}

abbrev pub print : String → List Arg → Shell → Shell
print f args s = record s { log = s.log ++ printf f args ∷ [] }

unfoldable pub cmd_prompt : Shell → Shell
cmd_prompt s = print "> " [] (record s { line_len = 0; line_buf = memset s.line_buf 0 cmd_max_len })

unfoldable pub cmd_init : Shell → Shell
cmd_init s = cmd_prompt (print "\r\nSTM32MP257 bootloader\r\n" [] s)

unfoldable pub line_erase : Shell → Shell
line_erase s = cmd_prompt (print "\u{1b}[2K\u{1b}[0G" [] s)

unfoldable pub line_load : List ℕ → Shell → Shell
line_load src s =
    let s' = line_erase s in
    let buf = set (strncpy s'.line_buf src cmd_max_len) 31 0 in
    print "%s" (str buf ∷ []) (record s' { line_buf = buf; line_len = strlen buf })
