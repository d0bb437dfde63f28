-- ===== src/Console.antt =====
-- bootloader/src/console.c: the receive ring between the UART and the command line, with the flags
-- for Ctrl-C and for a key. `char` is a byte.
pub mod Ring
use stm32mp257_test_board.Prelude.{
  ℕ, ◌+◌, ◌%◌, Bool, true, false, List, [], ◌∷◌, ◌++◌, ◌==◌, if◌then◌else◌, set, get_or, replicate,
  not,
}
use stm32mp257_test_board.Log.{Event, printf}

abbrev rxbuf_size : ℕ
rxbuf_size = 64

pub record Console : Type 0 where
  pub rx_buf : List ℕ
  pub rx_head : ℕ
  pub rx_tail : ℕ
  pub interrupt_flag : Bool
  pub key_flag : Bool
  pub log : List Event

-- The static initial values.
abbrev pub reset : Console
reset = record {
  rx_buf = replicate 64 0;
  rx_head = 0;
  rx_tail = 0;
  interrupt_flag = false;
  key_flag = false;
  log = [];
}

unfoldable pub console_push : Console → ℕ → Console
console_push s c =
    let next = (s.rx_head + 1) % rxbuf_size in
    if c == 0
    then s
    else if c == 3
    then record s { interrupt_flag = true; log = s.log ++ printf "^C\r\n" [] ∷ [] }
    else if next == s.rx_tail
    then record s { key_flag = true }
    else record s { rx_buf = set s.rx_buf s.rx_head c; rx_head = next; key_flag = true }

unfoldable pub console_interrupted : Console → Bool × Console
console_interrupted s =
    if s.interrupt_flag then (true, record s { interrupt_flag = false }) else (false, s)

pub console_key_pressed : Console → Bool × Console
console_key_pressed s = if s.key_flag then (true, record s { key_flag = false }) else (false, s)

unfoldable pub console_rx_empty : Console → Bool
console_rx_empty s = s.rx_tail == s.rx_head

unfoldable pub console_rx_get : Console → ℕ × Console
console_rx_get s =
    (get_or s.rx_buf s.rx_tail 0, record s { rx_tail = (s.rx_tail + 1) % rxbuf_size })
