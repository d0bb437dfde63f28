-- ===== src/Log.antt =====
-- What the bootloader shows and calls, in order. `my_printf` belongs to the printf library that
-- bootloader/utils carries: a call of it is recorded with its format and arguments. A call of a
-- command's handler is recorded with the handler's name and its arguments.
use Prim.Native.String.{String}
use stm32mp257_test_board.Prelude.{ℕ, ℤ, List}

pub data Arg : Type 0 where
  str : List ℕ → Arg
  chr : ℕ → Arg
  num : ℕ → Arg
  int : ℤ → Arg

-- The handlers of `cmd_list`.
pub data Handler : Type 0 where
  cmd_help cmd_pmic cmd_ddr cmd_sd cmd_sdw cmd_usb cmd_load_sd cmd_jump cmd_boot : Handler

pub data Event : Type 0 where
  printf : String → List Arg → Event
  call : Handler → ℕ → ℕ → ℕ → ℕ → Event
