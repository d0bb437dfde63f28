-- ===== src/Cmd/Handlers.antt =====
-- The handlers `cmd_pmic`, `cmd_ddr` and `cmd_usb` of bootloader/src/cmd.c, on the machine.
use stm32mp257_test_board.Prelude.{
  ℕ, zero, suc, ◌*◌, ◌/◌, ◌%◌, ◌^◌, [], ◌∷◌, none, some, Bool, true, false,
}
use stm32mp257_test_board.Log.{num}
use stm32mp257_test_board.Io.{Mmio, Act, pure, ◌>>=◌, ◌>>◌, my_printf}
use stm32mp257_test_board.Uart.{uart_rx_ready, uart_getc_raw}
use stm32mp257_test_board.Pmic.{pmic_read, pmic_print_rails}
use stm32mp257_test_board.Rcc.Pll2.{rcc_pll2_dump}

-- The DDR driver and the USB device, with the counters of the latter; 0 as a Boolean.
pub record Devices (hw : Mmio) : Type 0 where
  pub ddr_get_size : Act hw ℕ
  pub ddr_init : Act hw Bool
  pub usb_msc_start : Act hw Bool
  pub usb_msc_poll : Act hw (Unit {0})
  pub msc_counts : Act hw (ℕ × ℕ × ℕ × ℕ)

module _ {hw : Mmio} where
  unfoldable pub pmic_error : Act hw (Unit {0})
  pmic_error = my_printf "PMIC: I2C error\r\n" []

  unfoldable pub cmd_pmic : Act hw (Unit {0})
  cmd_pmic = pmic_read 0 >>= λ id. elim id [
    | none ↦ pmic_error
    | some pid ↦ pmic_read 1 >>= λ version. elim version [
      | none ↦ pmic_error
      | some ver ↦
          my_printf "PMIC product_id=0x%02X version=0x%02X\r\n" (num pid ∷ num ver ∷ [])
          >> pmic_print_rails
    ]
  ]

  module _ (devices : Devices hw) where
    open devices use {ddr_get_size, ddr_init, usb_msc_start, usb_msc_poll, msc_counts}

    -- `done` before and after.
    unfoldable pub cmd_ddr : Bool → Act hw Bool
    cmd_ddr true = do
      size ← ddr_get_size
      my_printf "DDR already initialised (%u MB)\r\n" (num (size / (1024 * 1024) % 2 ^ 32) ∷ [])
      pure true
    cmd_ddr false = ddr_init >>= λ ok. elim ok [
      | true ↦ my_printf "DDR OK\r\n" [] >> pure true
      | false ↦ do my_printf "DDR FAILED\r\n" []; rcc_pll2_dump; pure false
    ]

    -- `while (!uart_rx_ready()) usb_msc_poll();`, on fuel: whether a key came.
    unfoldable pub poll_until_key : ℕ → Act hw Bool
    poll_until_key zero = pure false
    poll_until_key (suc fuel) = uart_rx_ready >>= λ ready. elim ready [
      | true ↦ pure true
      | false ↦ usb_msc_poll >> poll_until_key fuel
    ]

    unfoldable pub usb_stopped : Act hw (Unit {0})
    usb_stopped = do
      byte ← uart_getc_raw
      (rd, wr, setup, init) ← msc_counts
      my_printf "USB MSC stopped (rd %lu wr %lu blocks, setup %lu init %lu)\r\n"
          (num rd ∷ num wr ∷ num setup ∷ num init ∷ [])

    -- Whether the handler comes to its end within the fuel.
    unfoldable pub cmd_usb : ℕ → Act hw Bool
    cmd_usb fuel = usb_msc_start >>= λ ok. elim ok [
      | false ↦ my_printf "USB start FAILED\r\n" [] >> pure true
      | true ↦ do
        my_printf "USB MSC up; any key to stop\r\n" []
        key ← poll_until_key fuel
        elim key [ false ↦ pure false | true ↦ usb_stopped >> pure true ]
    ]
