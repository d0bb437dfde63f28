-- ===== src/Rcc/Pll1.antt =====
-- bootloader/drivers/rcc.c: the PLL of the processor cores.
use stm32mp257_test_board.Prelude.{true, false, bit_and, ℤ, pos, negsuc}
use stm32mp257_test_board.Io.{
  Mmio, Act, pure, ◌>>=◌, ◌>>◌, or_return, bit_mask, shl32, mmio_read_32, mmio_setbits_32,
  mmio_clrbits_32, mmio_clrsetbits_32,
}
use stm32mp257_test_board.Io.Wait.{poll}
use stm32mp257_test_board.Rcc.Registers.{
  rcc_ocensetr, rcc_ocrdyr, ocen_hseon, ocrdy_hserdy, rcc_muxselcfgr, chgclkreq, pll_freq1,
  pll_freq2, pll_enable, div_timeout, is_set, is_clear,
}

module _ {hw : Mmio} where
  -- The cluster leaves the PLL for the bypass clock: 0, or the code of the wait that timed out.
  unfoldable pub to_bypass : Act hw ℤ
  to_bypass = do
    mmio_setbits_32 chgclkreq (bit_mask 0)
    or_return (poll div_timeout (is_set (bit_mask 1)) chgclkreq) (negsuc 2) (pure (pos 0))

  unfoldable pub leave_pll : Act hw ℤ
  leave_pll = mmio_read_32 chgclkreq >>= λ acked. elim (is_set (bit_mask 1) acked) [
    | true ↦ pure (pos 0)
    | false ↦ mmio_read_32 chgclkreq >>= λ v. elim (is_set (bit_mask 16) v) [
      | false ↦ to_bypass
      | true ↦
          mmio_clrbits_32 chgclkreq (bit_mask 16)
          >> or_return (poll div_timeout (is_clear (bit_mask 17)) chgclkreq) (negsuc 1) to_bypass
    ]
  ]

  unfoldable pub pll1_dividers : Act hw (Unit {0})
  pll1_dividers = do
    mmio_clrsetbits_32 rcc_muxselcfgr (shl32 3 20) (shl32 1 20)
    mmio_clrsetbits_32 pll_freq1 0x003F0000 (bit_and (shl32 1 16) 0x003F0000)
    mmio_clrsetbits_32 pll_freq1 0xFFF (bit_and 30 0xFFF)
    mmio_clrsetbits_32 pll_freq2 0x7 1
    mmio_clrsetbits_32 pll_freq2 0x38 (bit_and (shl32 1 3) 0x38)

  -- The rest of `rcc_a35_pll1_init`, on the bypass clock.
  unfoldable pub pll1_restart : Act hw ℤ
  pll1_restart = do
    mmio_clrbits_32 pll_enable (bit_mask 2)
    mmio_clrbits_32 pll_enable (bit_mask 0)
    or_return (poll div_timeout (is_clear (bit_mask 1)) pll_enable) (negsuc 5) (do
      pll1_dividers
      mmio_setbits_32 pll_enable (bit_mask 0)
      or_return (poll div_timeout (is_set (bit_mask 1)) pll_enable) (negsuc 3) (do
        mmio_setbits_32 pll_enable (bit_mask 2)
        mmio_clrbits_32 chgclkreq (bit_mask 0)
        or_return (poll div_timeout (is_clear (bit_mask 1)) chgclkreq) (negsuc 4) (pure (pos 0))))

  unfoldable pub rcc_a35_pll1_init : Act hw ℤ
  rcc_a35_pll1_init = do
    mmio_setbits_32 rcc_ocensetr ocen_hseon
    or_return (poll div_timeout (is_set ocrdy_hserdy) rcc_ocrdyr) (negsuc 0)
        (leave_pll >>= λ code. elim code [ pos n ↦ pll1_restart | negsuc n ↦ pure (negsuc n) ])
