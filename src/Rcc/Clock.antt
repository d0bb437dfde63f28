-- ===== src/Rcc/Clock.antt =====
-- bootloader/drivers/rcc.c: the clocks that the boot sequence switches on.
use stm32mp257_test_board.Prelude.{◌+◌, true, false, ℤ, pos, negsuc}
use stm32mp257_test_board.Io.{
  Mmio, Act, pure, ◌>>=◌, ◌>>◌, mmio_read_32, mmio_setbits_32, mmio_clrbits_32,
}
use stm32mp257_test_board.Rcc.Registers.{
  rcc_base, rcc_cfgr_rst, rcc_cfgr_en, rcc_pll4cfgr1, pllrdy, is_clear,
}
use stm32mp257_test_board.Rcc.Flexgen.{flexgen_to_hsi, flexgen_to_pll4}

module _ {hw : Mmio} where
  unfoldable pub rcc_bus_clk_init : Act hw ℤ
  rcc_bus_clk_init = mmio_read_32 rcc_pll4cfgr1 >>= λ v. elim (is_clear pllrdy v) [
    | true ↦ pure (negsuc 0)
    | false ↦ flexgen_to_pll4 2 1 >> pure (pos 0)
  ]

  unfoldable pub rcc_sdmmc1_clk_init : Act hw (Unit {0})
  rcc_sdmmc1_clk_init = flexgen_to_hsi 51

  unfoldable pub rcc_clock_init : Act hw (Unit {0})
  rcc_clock_init = do
    flexgen_to_hsi 8
    flexgen_to_hsi 15
    mmio_setbits_32 (rcc_base + 0x780) rcc_cfgr_en
    mmio_setbits_32 (rcc_base + 0x52C) rcc_cfgr_en
    mmio_setbits_32 (rcc_base + 0x53C) rcc_cfgr_en
    mmio_setbits_32 (rcc_base + 0x538) rcc_cfgr_en
    mmio_setbits_32 (rcc_base + 0x548) rcc_cfgr_en
    mmio_setbits_32 (rcc_base + 0x7BC) rcc_cfgr_en
    mmio_setbits_32 (rcc_base + 0x7BC) rcc_cfgr_rst
    mmio_clrbits_32 (rcc_base + 0x7BC) rcc_cfgr_rst
