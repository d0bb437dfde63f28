-- ===== src/I2c.antt =====
-- bootloader/drivers/i2c.c: the polled I2C master for the power-management chip.
use stm32mp257_test_board.Prelude.{
  ℕ, zero, suc, ◌+◌, ◌*◌, ◌%◌, ◌^◌, Option, none, some, Bool, true, false, not, bit_and, bit_or,
  ◌==◌, if◌then◌else◌,
}
use stm32mp257_test_board.Io.{
  Mmio, Act, pure, ◌>>=◌, ◌>>◌, or_return, for_from, bit_mask, shl32, mmio_read_32, mmio_write_32,
  mmio_setbits_32, mmio_clrbits_32,
}
use stm32mp257_test_board.Io.Wait.{poll}
use stm32mp257_test_board.Gpio.{gpio_bank, gpio_set_output_od, gpio_write, gpio_set_af_od}
pub mod Transfer
pub mod Device
pub mod Registers

abbrev pub i2c7_base : ℕ
i2c7_base = 0x40180000

abbrev pub i2c_cr1 : ℕ
i2c_cr1 = i2c7_base + 0x00

abbrev pub i2c_cr2 : ℕ
i2c_cr2 = i2c7_base + 0x04

abbrev pub i2c_isr : ℕ
i2c_isr = i2c7_base + 0x18

abbrev pub i2c_icr : ℕ
i2c_icr = i2c7_base + 0x1C

abbrev pub i2c_rxdr : ℕ
i2c_rxdr = i2c7_base + 0x24

abbrev pub i2c_txdr : ℕ
i2c_txdr = i2c7_base + 0x28

abbrev pub cr2_rd_wrn : ℕ
cr2_rd_wrn = bit_mask 10

abbrev pub cr2_start : ℕ
cr2_start = bit_mask 13

abbrev pub cr2_autoend : ℕ
cr2_autoend = bit_mask 25

abbrev pub isr_txis : ℕ
isr_txis = bit_mask 1

abbrev pub isr_rxne : ℕ
isr_rxne = bit_mask 2

abbrev pub isr_nackf : ℕ
isr_nackf = bit_mask 4

abbrev pub isr_stopf : ℕ
isr_stopf = bit_mask 5

abbrev pub isr_tc : ℕ
isr_tc = bit_mask 6

abbrev pub i2c_timingr_value : ℕ
i2c_timingr_value = 0x70422025

abbrev pub i2c_timeout : ℕ
i2c_timeout = 2000000

-- `I2C_PORT` and its pins.
abbrev pub i2c_port : ℕ
i2c_port = gpio_bank 3

abbrev pub i2c_scl : ℕ
i2c_scl = 15

abbrev pub i2c_sda : ℕ
i2c_sda = 14

-- `(dev << 1) | (n << 16)`.
abbrev pub transfer_of : ℕ → ℕ → ℕ
transfer_of dev n = bit_or (shl32 dev 1) (shl32 n 16)

module _ {hw : Mmio} where
  -- One clock pulse; the delays between touch no register.
  unfoldable pub clock_pulse : ℕ → Act hw (Unit {0})
  clock_pulse i = do gpio_write i2c_port i2c_scl 0; gpio_write i2c_port i2c_scl 1

  unfoldable pub i2c_init : Act hw (Unit {0})
  i2c_init = do
    gpio_set_output_od i2c_port i2c_sda
    gpio_set_output_od i2c_port i2c_scl
    gpio_write i2c_port i2c_sda 1
    gpio_write i2c_port i2c_scl 1
    for_from 9 0 clock_pulse
    gpio_write i2c_port i2c_sda 0
    gpio_write i2c_port i2c_sda 1
    gpio_set_af_od i2c_port i2c_scl 10
    gpio_set_af_od i2c_port i2c_sda 10
    mmio_clrbits_32 i2c_cr1 (bit_mask 0)
    mmio_write_32 (i2c7_base + 0x10) i2c_timingr_value
    mmio_setbits_32 i2c_cr1 (bit_mask 0)

  -- `i2c_last_isr = isr;`
  unfoldable pub set_last_isr : ℕ → Act hw (Unit {0})
  set_last_isr isr m = (tt, record m { i2c_last_isr = isr })

  -- The loop of `wait_flag` with `n` reads left: whether the flag came, and no NACK before it.
  unfoldable pub wait_flag_from : ℕ → ℕ → Act hw Bool
  wait_flag_from zero flag = pure false
  wait_flag_from (suc n) flag = do
    isr ← mmio_read_32 i2c_isr
    elim (bit_and isr isr_nackf == 0) [
      | false ↦ do set_last_isr isr; mmio_write_32 i2c_icr (bit_mask 4); pure false
      | true ↦ elim (bit_and isr flag == 0) [
        | false ↦ pure true
        | true ↦ elim (n == 0) [
          | true ↦ set_last_isr isr >> pure false
          | false ↦ wait_flag_from n flag
        ]
      ]
    ]

  unfoldable pub wait_flag : ℕ → Act hw Bool
  wait_flag flag = wait_flag_from i2c_timeout flag

  -- The stop is cleared whether or not it came.
  unfoldable pub wait_stop : Act hw (Unit {0})
  wait_stop = do
    seen ← poll i2c_timeout (λ isr. not (bit_and isr isr_stopf == 0)) i2c_isr
    mmio_write_32 i2c_icr (bit_mask 5)

  unfoldable pub read_value : Act hw (Option ℕ)
  read_value = do v ← mmio_read_32 i2c_rxdr; wait_stop; pure (some (bit_and v 0xFF))

  -- The byte that is stored at `val`, or nothing for -1.
  unfoldable pub i2c_read_reg : ℕ → ℕ → Act hw (Option ℕ)
  i2c_read_reg dev reg = do
    mmio_write_32 i2c_cr2 (bit_or (transfer_of dev 1) cr2_start)
    or_return (wait_flag isr_txis) none (do
      mmio_write_32 i2c_txdr reg
      or_return (wait_flag isr_tc) none (do
        mmio_write_32 i2c_cr2
            (bit_or (bit_or (bit_or (transfer_of dev 1) cr2_start) cr2_rd_wrn) cr2_autoend)
        or_return (wait_flag isr_rxne) none read_value))

  unfoldable pub i2c_write_reg : ℕ → ℕ → ℕ → Act hw Bool
  i2c_write_reg dev reg val = do
    mmio_write_32 i2c_cr2 (bit_or (bit_or (transfer_of dev 2) cr2_start) cr2_autoend)
    or_return (wait_flag isr_txis) false (do
      mmio_write_32 i2c_txdr reg
      or_return (wait_flag isr_txis) false (do mmio_write_32 i2c_txdr val; wait_stop; pure true))
