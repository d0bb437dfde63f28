-- ===== src/Rcc/Pll2.antt =====
-- bootloader/drivers/rcc.c: the PLL of the memory controller.
use stm32mp257_test_board.Prelude.{[], ◌∷◌, ℤ, pos, negsuc}
use stm32mp257_test_board.Log.{num}
use stm32mp257_test_board.Io.{
  Mmio, Act, pure, ◌>>=◌, ◌>>◌, or_return, bit_mask, shl32, mmio_read_32, mmio_setbits_32,
  mmio_clrbits_32, mmio_clrsetbits_32, my_printf,
}
use stm32mp257_test_board.Io.Wait.{poll}
use stm32mp257_test_board.Rcc.Registers.{
  rcc_ocensetr, rcc_ocrdyr, ocen_hseon, ocrdy_hserdy, rcc_muxselcfgr, rcc_pll2, pllen, pllrdy,
  ckrefst, div_timeout, is_set, is_clear,
}

module _ {hw : Mmio} where
  -- The dividers of PLL2, in integer mode.
  unfoldable pub pll2_dividers : Act hw (Unit {0})
  pll2_dividers = do
    mmio_clrbits_32 (rcc_pll2 0x08) 0x00FFFFFF
    mmio_clrbits_32 (rcc_pll2 0x0C) (bit_mask 8)
    mmio_clrbits_32 (rcc_pll2 0x08) (bit_mask 25)
    mmio_setbits_32 (rcc_pll2 0x08) (bit_mask 26)
    mmio_setbits_32 (rcc_pll2 0x00) (bit_mask 0)
    mmio_clrsetbits_32 (rcc_pll2 0x04) 0x0FFF0000 (shl32 30 16)
    mmio_clrsetbits_32 (rcc_pll2 0x04) 0x3F 1
    mmio_clrsetbits_32 (rcc_pll2 0x18) 0x7 1
    mmio_clrsetbits_32 (rcc_pll2 0x1C) 0x7 2
    mmio_clrbits_32 (rcc_pll2 0x0C) (bit_mask 10)
    mmio_setbits_32 (rcc_pll2 0x0C) (bit_mask 9)

  unfoldable pub rcc_pll2_init : Act hw ℤ
  rcc_pll2_init = do
    mmio_setbits_32 rcc_ocensetr ocen_hseon
    or_return (poll div_timeout (is_set ocrdy_hserdy) rcc_ocrdyr) (negsuc 0) (do
      mmio_clrbits_32 (rcc_pll2 0x00) pllen
      or_return (poll div_timeout (is_clear pllrdy) (rcc_pll2 0x00)) (negsuc 1) (do
        mmio_clrsetbits_32 rcc_muxselcfgr (shl32 3 24) (shl32 1 24)
        or_return (poll div_timeout (is_set ckrefst) (rcc_pll2 0x00)) (negsuc 2) (do
          pll2_dividers
          mmio_setbits_32 (rcc_pll2 0x00) pllen
          or_return (poll div_timeout (is_set pllrdy) (rcc_pll2 0x00)) (negsuc 3) (pure (pos 0)))))

  unfoldable pub rcc_pll2_dump : Act hw (Unit {0})
  rcc_pll2_dump = do
    a ← mmio_read_32 rcc_muxselcfgr
    b ← mmio_read_32 rcc_ocensetr
    c ← mmio_read_32 rcc_ocrdyr
    my_printf "RCC muxsel=%08X ocen=%08X ocrdy=%08X\r\n" (num a ∷ num b ∷ num c ∷ [])
    p1 ← mmio_read_32 (rcc_pll2 0x00)
    p2 ← mmio_read_32 (rcc_pll2 0x04)
    p3 ← mmio_read_32 (rcc_pll2 0x08)
    p4 ← mmio_read_32 (rcc_pll2 0x0C)
    p6 ← mmio_read_32 (rcc_pll2 0x18)
    p7 ← mmio_read_32 (rcc_pll2 0x1C)
    my_printf "PLL2 cfgr1=%08X cfgr2=%08X cfgr3=%08X cfgr4=%08X cfgr6=%08X cfgr7=%08X\r\n"
        (num p1 ∷ num p2 ∷ num p3 ∷ num p4 ∷ num p6 ∷ num p7 ∷ [])
