-- ===== src/Hello.antt =====
-- baremetal/hello/src/main.c: a program without the bootloader that greets on the serial port. `REG(a)`
-- is a register access like those of `Io`; a wait without a count is on fuel, and false where it runs out.
pub mod Greets
use stm32mp257_test_board.Prelude.{
  ℕ, zero, suc, ◌+◌, ◌*◌, ◌%◌, ◌^◌, List, [], ◌∷◌, ◌++◌, codes, Bool, true, false, not, bit_and,
  bit_or, ◌==◌, if◌then◌else◌,
}
use stm32mp257_test_board.Io.{
  Mmio, Act, pure, or_return, ◌>>=◌, ◌>>◌, mmio_read_32, mmio_write_32, mmio_setbits_32,
  mmio_clrbits_32, mmio_clrsetbits_32, shl32,
}
use stm32mp257_test_board.Io.Wait.{poll}

abbrev pub usart2 : ℕ
usart2 = 0x400E0000

abbrev u_isr : ℕ
u_isr = usart2 + 0x1C

abbrev u_tdr : ℕ
u_tdr = usart2 + 0x28

abbrev rcc : ℕ
rcc = 0x44200000

abbrev rcc_usart2cfgr : ℕ
rcc_usart2cfgr = rcc + 0x780

abbrev gpioa : ℕ
gpioa = 0x44240000

abbrev pin : ℕ
pin = 4

-- Whether the bits of a mask are there.
abbrev shows : ℕ → ℕ → Bool
shows mask v = not (bit_and v mask == 0)

abbrev pub greeting : List ℕ
greeting = codes "Hello, world!\r\n"

module _ {hw : Mmio} where
  -- The pin and the kernel clock of the port.
  unfoldable pub route : Act hw (Unit {0})
  route = do
    mmio_setbits_32 (rcc + 0x52C) (shl32 1 1)
    mmio_clrsetbits_32 (gpioa + 0x00) (shl32 3 (pin * 2)) (shl32 2 (pin * 2))
    mmio_clrbits_32 (gpioa + 0x08) (shl32 3 (pin * 2))
    mmio_clrbits_32 (gpioa + 0x0C) (shl32 3 (pin * 2))
    mmio_clrsetbits_32 (gpioa + 0x20) (shl32 0xF (pin * 4)) (shl32 6 (pin * 4))
    mmio_write_32 (rcc + 0x1138) 0
    mmio_write_32 (rcc + 0x1244) 0x40
    mmio_write_32 (rcc + 0x1038) (bit_or 0x5 0x40)
    mmio_setbits_32 rcc_usart2cfgr (shl32 1 1)

  unfoldable pub configure : Act hw (Unit {0})
  configure = do
    mmio_clrbits_32 (usart2 + 0x00) 1
    mmio_setbits_32 (usart2 + 0x00) (bit_or (shl32 1 3) (shl32 1 29))
    mmio_clrbits_32 (usart2 + 0x04) (shl32 3 12)
    mmio_write_32 (usart2 + 0x0C) 556
    mmio_setbits_32 (usart2 + 0x00) 1

  unfoldable pub uart_init : ℕ → Act hw Bool
  unfolding route configure
  uart_init fuel = do
    mmio_setbits_32 rcc_usart2cfgr 1
    or_return (poll fuel (shows 1) rcc_usart2cfgr) false (do
      mmio_clrbits_32 rcc_usart2cfgr 1
      or_return (poll fuel (λ v. not (shows 1 v)) rcc_usart2cfgr) false
          (do route; configure; poll fuel (shows (shl32 1 21)) u_isr))

  unfoldable pub uart_putc : ℕ → ℕ → Act hw Bool
  uart_putc fuel c =
      or_return (poll fuel (shows (shl32 1 7)) u_isr) false
        (mmio_write_32 u_tdr (c % 2 ^ 8) >> pure true)

  unfoldable pub uart_puts : ℕ → List ℕ → Act hw Bool
  uart_puts fuel [] = pure true
  uart_puts fuel (c ∷ s) =
      if c == 0 then pure true else or_return (uart_putc fuel c) false (uart_puts fuel s)

  -- `n` turns of the loop of `main`; the delay loop touches nothing.
  unfoldable pub greet : ℕ → ℕ → Act hw Bool
  unfolding uart_puts
  greet fuel zero = pure true
  greet fuel (suc n) = or_return (uart_puts fuel (greeting ++ 0 ∷ [])) false (greet fuel n)

  unfoldable pub main_turns : ℕ → ℕ → Act hw Bool
  unfolding uart_init greet
  main_turns fuel n = or_return (uart_init fuel) false (greet fuel n)
