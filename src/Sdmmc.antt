-- ===== src/Sdmmc.antt =====
-- bootloader/drivers/sdmmc/sd_glue.c: the card's supply, clock and pins, and the calls of the MMC
-- driver that is carried from TF-A.
pub mod Supply
use stm32mp257_test_board.Prelude.{
  ℕ, zero, suc, ◌+◌, ◌*◌, ◌%◌, ◌^◌, List, [], ◌∷◌, Option, none, some, Bool, true, false, bit_and,
  ◌==◌, if◌then◌else◌,
}
use stm32mp257_test_board.Io.{
  Mmio, Act, pure, ◌>>=◌, ◌>>◌, bit_mask, mmio_read_32, mmio_setbits_32, mmio_clrbits_32,
}
use stm32mp257_test_board.Gpio.{gpio_bank, gpio_set_speed, gpio_set_af}
use stm32mp257_test_board.Timer.{timeout_init_us, timeout_elapsed}
use stm32mp257_test_board.Rcc.Clock.{rcc_sdmmc1_clk_init}

-- The MMC driver: the tests for 0 are Booleans, and a transfer gives the bytes that it has moved.
pub record Mmc (hw : Mmio) : Type 0 where
  pub stm32_sdmmc2_mmc_init : Act hw Bool
  pub stm32_sdmmc2_set_write_pending : Bool → Act hw (Unit {0})
  pub mmc_read_blocks : ℕ → ℕ → ℕ → Act hw ℕ
  pub mmc_write_blocks : ℕ → ℕ → ℕ → Act hw ℕ
  pub device_size : Act hw ℕ

abbrev pub pwr_cr8_addr : ℕ
pwr_cr8_addr = 0x4421001C

abbrev pub vddio1_vmen : ℕ
vddio1_vmen = bit_mask 0

abbrev pub vddio1_sv : ℕ
vddio1_sv = bit_mask 8

abbrev pub vddio1_rdy : ℕ
vddio1_rdy = bit_mask 16

abbrev pub sd_gpio : ℕ
sd_gpio = gpio_bank 4

abbrev pub sd_pins : List ℕ
sd_pins = 4 ∷ 5 ∷ 0 ∷ 1 ∷ 2 ∷ 3 ∷ []

module _ {hw : Mmio} where
  -- The loop of `vddio1_enable`, on fuel: ready, timed out, or nothing where the fuel runs out.
  unfoldable pub await_supply : ℕ → ℕ → Act hw (Option Bool)
  await_supply zero expire = pure none
  await_supply (suc fuel) expire = mmio_read_32 pwr_cr8_addr >>= λ v.
      elim (bit_and v vddio1_rdy == 0) [
        | false ↦ pure (some true)
        | true ↦ timeout_elapsed expire >>= λ late. elim late [
          | true ↦ pure (some false)
          | false ↦ await_supply fuel expire
        ]
      ]

  unfoldable pub conclude_supply : Option Bool → Act hw (Option Bool)
  conclude_supply none = pure none
  conclude_supply (some false) = mmio_clrbits_32 pwr_cr8_addr vddio1_vmen >> pure (some false)
  conclude_supply (some true) = do
    mmio_setbits_32 pwr_cr8_addr vddio1_sv
    mmio_clrbits_32 pwr_cr8_addr vddio1_vmen
    pure (some true)

  -- Whether 0 is returned, where the fuel is enough.
  unfoldable pub vddio1_enable : ℕ → Act hw (Option Bool)
  vddio1_enable fuel = mmio_read_32 pwr_cr8_addr >>= λ v. elim (bit_and v vddio1_sv == 0) [
    | false ↦ pure (some true)
    | true ↦ do
      mmio_setbits_32 pwr_cr8_addr vddio1_vmen
      expire ← timeout_init_us 10000
      ready ← await_supply fuel expire
      conclude_supply ready
  ]

  unfoldable pub set_pins : List ℕ → Act hw (Unit {0})
  set_pins [] = pure tt
  set_pins (pin ∷ pins) = do
    gpio_set_speed sd_gpio pin (if pin == 3 then 2 else 1)
    gpio_set_af sd_gpio pin 10
    set_pins pins

  module _ (mmc : Mmc hw) where
    open mmc use {
      stm32_sdmmc2_mmc_init, stm32_sdmmc2_set_write_pending, mmc_read_blocks, mmc_write_blocks,
      device_size,
    }

    unfoldable pub sd_init : ℕ → Act hw (Option Bool)
    sd_init fuel = vddio1_enable fuel >>= λ powered. elim powered [
      | none ↦ pure none
      | some on ↦ elim on [
        | false ↦ pure (some false)
        | true ↦ do
          rcc_sdmmc1_clk_init
          set_pins sd_pins
          ok ← stm32_sdmmc2_mmc_init
          pure (some ok)
      ]
    ]

    unfoldable pub sd_read : ℕ → ℕ → ℕ → Act hw Bool
    sd_read lba buf size = do done ← mmc_read_blocks lba buf size; pure (done == size)

    unfoldable pub sd_write : ℕ → ℕ → ℕ → Act hw Bool
    sd_write lba buf size = do
      stm32_sdmmc2_set_write_pending true
      done ← mmc_write_blocks lba buf size
      stm32_sdmmc2_set_write_pending false
      pure (done == size)

    unfoldable pub sd_size_bytes : Act hw ℕ
    sd_size_bytes = device_size
