-- ===== src/Uart.antt =====
-- bootloader/drivers/uart.c: the console's serial port.
pub mod Send
use stm32mp257_test_board.Prelude.{
  ℕ, zero, suc, ◌+◌, ◌/◌, ◌%◌, ◌^◌, List, [], ◌∷◌, Bool, true, false, not, bit_and, bit_or, ◌==◌,
  if◌then◌else◌,
}
use stm32mp257_test_board.Io.{
  Mmio, Act, pure, or_return, ◌>>=◌, ◌>>◌, bit_mask, mmio_read_32, mmio_write_32,
}
use stm32mp257_test_board.Gpio.{gpio_bank, gpio_set_af}

abbrev pub usart2_base : ℕ
usart2_base = 0x400E0000

abbrev pub usart_isr : ℕ
usart_isr = usart2_base + 0x1C

abbrev pub usart_icr : ℕ
usart_icr = usart2_base + 0x20

abbrev pub usart_rdr : ℕ
usart_rdr = usart2_base + 0x24

abbrev pub usart_tdr : ℕ
usart_tdr = usart2_base + 0x28

-- `USART_ERR_FLAGS`
abbrev pub usart_err_flags : ℕ
usart_err_flags = 0xF

module _ {hw : Mmio} where
  unfoldable pub uart_init : Act hw (Unit {0})
  uart_init = do
    gpio_set_af (gpio_bank 0) 4 6
    gpio_set_af (gpio_bank 0) 8 8
    mmio_write_32 (usart2_base + 0x00) 0
    mmio_write_32 (usart2_base + 0x04) 0
    mmio_write_32 (usart2_base + 0x08) 0
    mmio_write_32 (usart2_base + 0x2C) 0
    mmio_write_32 (usart2_base + 0x0C) ((64000000 + 115200 / 2) / 115200)
    mmio_write_32 (usart2_base + 0x00)
        (bit_or (bit_or (bit_or (bit_mask 0) (bit_mask 3)) (bit_mask 2)) (bit_mask 29))
    mmio_write_32 usart_icr 0xFFFFFFFF

  -- The wait for room in the transmit register, on fuel: nothing is sent where the fuel runs out.
  unfoldable pub uart_putc : ℕ → ℕ → Act hw Bool
  uart_putc zero c = pure false
  uart_putc (suc fuel) c = do
    isr ← mmio_read_32 usart_isr
    elim (bit_and isr (bit_mask 7) == 0) [
      | true ↦ uart_putc fuel c
      | false ↦ mmio_write_32 usart_tdr (c % 2 ^ 8) >> pure true
    ]

  -- The bytes up to the NUL, with a carriage return before a line feed; `fuel` is for each byte.
  unfoldable pub uart_puts : ℕ → List ℕ → Act hw Bool
  uart_puts fuel [] = pure true
  uart_puts fuel (c ∷ s) =
      if c == 0
      then pure true
      else if c == 10
      then or_return (uart_putc fuel 13) false
          (or_return (uart_putc fuel c) false (uart_puts fuel s))
      else or_return (uart_putc fuel c) false (uart_puts fuel s)

  unfoldable pub uart_rx_ready : Act hw Bool
  uart_rx_ready = do
    isr ← mmio_read_32 usart_isr
    (if not (bit_and isr usart_err_flags == 0)
        then mmio_write_32 usart_icr usart_err_flags
        else pure tt)
    pure (not (bit_and isr (bit_mask 5) == 0))

  unfoldable pub uart_getc_raw : Act hw ℕ
  uart_getc_raw = do v ← mmio_read_32 usart_rdr; pure (bit_and v 0xFF)
