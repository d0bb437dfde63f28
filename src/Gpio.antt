-- ===== src/Gpio.antt =====
-- bootloader/drivers/gpio.c: the pins of a GPIO bank.
use stm32mp257_test_board.Prelude.{ℕ, ◌+◌, ◌*◌, ◌%◌, ◌^◌, Bool, bit_and, ltb, ◌==◌, if◌then◌else◌}
use stm32mp257_test_board.Io.{
  Mmio, Act, ◌>>◌, shl32, mmio_write_32, mmio_setbits_32, mmio_clrsetbits_32,
}
pub mod Pins

abbrev pub gpio_moder : ℕ
gpio_moder = 0x00

abbrev pub gpio_otyper : ℕ
gpio_otyper = 0x04

abbrev pub gpio_ospeedr : ℕ
gpio_ospeedr = 0x08

abbrev pub gpio_bsrr : ℕ
gpio_bsrr = 0x18

abbrev pub gpio_afrl : ℕ
gpio_afrl = 0x20

abbrev pub gpio_afrh : ℕ
gpio_afrh = 0x24

abbrev pub mode_output : ℕ
mode_output = 1

abbrev pub mode_alt : ℕ
mode_alt = 2

-- `GPIO_BANK(n)` of stm32mp25.h.
abbrev pub gpio_bank : ℕ → ℕ
gpio_bank n = 0x44240000 + n * 0x10000

module _ {hw : Mmio} where
  unfoldable pub gpio_set_output : ℕ → ℕ → Act hw (Unit {0})
  gpio_set_output base pin =
      mmio_clrsetbits_32 (base + gpio_moder) (shl32 3 (pin * 2)) (shl32 mode_output (pin * 2))

  unfoldable pub gpio_set_af : ℕ → ℕ → ℕ → Act hw (Unit {0})
  gpio_set_af base pin af =
      let afr = base + (if ltb pin 8 then gpio_afrl else gpio_afrh) in
      let shift = bit_and pin 7 * 4 in
      do
        mmio_clrsetbits_32 afr (shl32 0xF shift) (shl32 (bit_and af 0xF) shift)
        mmio_clrsetbits_32 (base + gpio_moder) (shl32 3 (pin * 2)) (shl32 mode_alt (pin * 2))

  unfoldable pub gpio_set_af_od : ℕ → ℕ → ℕ → Act hw (Unit {0})
  gpio_set_af_od base pin af = do
    mmio_setbits_32 (base + gpio_otyper) (shl32 1 pin)
    gpio_set_af base pin af

  unfoldable pub gpio_set_output_od : ℕ → ℕ → Act hw (Unit {0})
  gpio_set_output_od base pin = do
    mmio_setbits_32 (base + gpio_otyper) (shl32 1 pin)
    mmio_clrsetbits_32 (base + gpio_moder) (shl32 3 (pin * 2)) (shl32 mode_output (pin * 2))

  unfoldable pub gpio_set_speed : ℕ → ℕ → ℕ → Act hw (Unit {0})
  gpio_set_speed base pin speed =
      mmio_clrsetbits_32 (base + gpio_ospeedr) (shl32 3 (pin * 2))
        (shl32 (bit_and speed 3) (pin * 2))

  -- `val` is 0 or not.
  unfoldable pub gpio_write : ℕ → ℕ → ℕ → Act hw (Unit {0})
  gpio_write base pin val =
      mmio_write_32 (base + gpio_bsrr) (if val == 0 then shl32 1 (pin + 16) else shl32 1 pin)
