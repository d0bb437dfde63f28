-- ===== src/Tests/Serial.antt =====
-- bootloader/drivers/uart.c and baremetal/hello/src/main.c on a transmitter that has room after three looks.
use stm32mp257_test_board.Prelude.{
  ℕ, zero, suc, List, [], ◌∷◌, ◌++◌, codes, ◌==◌, if◌then◌else◌, refl, arith,
}
use stm32mp257_test_board.Io.{Mmio, Machine}
use stm32mp257_test_board.Uart.{usart_isr, usart_tdr, uart_puts}
use stm32mp257_test_board.Uart.Send.{Transmits, with_returns, Sent, uart_puts-Sent}
use stm32mp257_test_board.Hello.{greeting, greet}
use stm32mp257_test_board.Hello.Greets.{times, greet-Sent}

-- What was sent, and the looks until there is room.
pub record Line : Type 0 where
  taken : List ℕ
  wait : ℕ

abbrev status : ℕ → ℕ
status zero = 128
status (suc n) = 0

abbrev less : ℕ → ℕ
less zero = zero
less (suc n) = n

abbrev hw : Mmio
hw = record {
  World = Line;
  read = λ a w. if a == usart_isr then (status w.wait, record w { wait = less w.wait }) else (0, w);
  write = λ a v w. if a == usart_tdr then record w { taken = w.taken ++ v ∷ []; wait = 3 } else w;
  cntpct = λ w. (0, w);
  cntfrq = λ w. 64000000;
  set_cntfrq = λ f w. w;
}

abbrev uart : Transmits hw 3
uart = record {
  line = λ w. w.taken;
  busy = λ w. w.wait;
  full = λ w n e. rw e (refl, refl);
  room = λ w e. rw e (refl, refl);
  looked = λ w. refl;
  taken = λ w c e. (refl, omega arith);
}

abbrev quiet : Machine hw
quiet = record { world = record { taken = []; wait = 2 }; i2c_last_isr = 0; log = [] }

uart_puts-Sent_example :
    Sent uart quiet (with_returns (codes "ok\n")) (uart_puts 4 (codes "ok\n" ++ 0 ∷ []) quiet)
uart_puts-Sent_example =
    uart_puts-Sent uart 4 (codes "ok\n") [] quiet (omega arith) (ground arith) (omega arith)

greet-Sent_example : Sent uart quiet (times 2 greeting) (greet 4 2 quiet)
greet-Sent_example = greet-Sent uart 4 2 quiet (omega arith) (omega arith)
