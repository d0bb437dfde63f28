-- ===== src/Gic.antt =====
-- bootloader/drivers/gic.c: the interrupt controller is handed to the non-secure world.
use stm32mp257_test_board.Prelude.{ℕ, ◌+◌, ◌*◌, bit_and}
use stm32mp257_test_board.Io.{Mmio, Act, ◌>>=◌, ◌>>◌, for_from, mmio_read_32, mmio_write_32}

abbrev pub gicd_base : ℕ
gicd_base = 0x4AC10000

abbrev pub gicc_base : ℕ
gicc_base = 0x4AC20000

abbrev pub gicc_ctlr_secure_val : ℕ
gicc_ctlr_secure_val = 0x1E9

module _ {hw : Mmio} where
  -- The words of interrupt `32 * i` and the 31 behind it.
  unfoldable pub release_word : ℕ → Act hw (Unit {0})
  release_word i = do
    mmio_write_32 (gicd_base + 0x180 + 4 * i) 0xFFFFFFFF
    mmio_write_32 (gicd_base + 0x280 + 4 * i) 0xFFFFFFFF
    mmio_write_32 (gicd_base + 0x080 + 4 * i) 0xFFFFFFFF

  unfoldable pub gic_dist_init : Act hw (Unit {0})
  gic_dist_init = do
    typer ← mmio_read_32 (gicd_base + 0x004)
    mmio_write_32 (gicd_base + 0x000) 0
    for_from (bit_and typer 0x1F + 1) 0 release_word
    mmio_write_32 (gicd_base + 0x000) 3

  unfoldable pub gic_cpuif_init : Act hw (Unit {0})
  gic_cpuif_init = do
    mmio_write_32 (gicd_base + 0x080) 0xFFFFFFFF
    mmio_write_32 (gicc_base + 0x004) 0xFF
    mmio_write_32 (gicc_base + 0x000) gicc_ctlr_secure_val
