-- ===== src/Rcc/Flexgen.antt =====
-- bootloader/drivers/rcc.c: the clock channels and their sources.
use stm32mp257_test_board.Prelude.{ℕ, zero, suc, Bool, true, false, bit_and, ◌==◌}
use stm32mp257_test_board.Io.{
  Mmio, Act, pure, ◌>>=◌, ◌>>◌, bit_mask, mmio_read_32, mmio_setbits_32, mmio_clrsetbits_32,
}
use stm32mp257_test_board.Io.Wait.{poll}
use stm32mp257_test_board.Rcc.Registers.{
  xbar_of, prediv_of, findiv_of, presr_of, finsr_of, xbar_sel_mask, xbar_en, xbar_sts, prediv_mask,
  findiv_mask, findiv_en, xbar_src_hsi_ker, xbar_src_pll4, div_timeout, is_clear,
}

module _ {hw : Mmio} where
  unfoldable pub wait_status_clear : ℕ → ℕ → Act hw (Unit {0})
  wait_status_clear sr bit = poll div_timeout (is_clear bit) sr >>= λ seen. pure tt

  -- The body of the loop of `flexgen_to_hsi` and `flexgen_to_pll4`, by source and final divider.
  unfoldable pub flexgen_pass : ℕ → ℕ → ℕ → Act hw (Unit {0})
  flexgen_pass source div channel =
      let bit = bit_mask (bit_and channel 31) in
      do
        wait_status_clear (presr_of channel) bit
        mmio_clrsetbits_32 (prediv_of channel) prediv_mask 0
        wait_status_clear (presr_of channel) bit
        wait_status_clear (finsr_of channel) bit
        mmio_clrsetbits_32 (findiv_of channel) findiv_mask div
        wait_status_clear (finsr_of channel) bit
        wait_status_clear (xbar_of channel) xbar_sts
        mmio_clrsetbits_32 (xbar_of channel) xbar_sel_mask source
        mmio_setbits_32 (xbar_of channel) xbar_en
        wait_status_clear (xbar_of channel) xbar_sts
        mmio_setbits_32 (findiv_of channel) findiv_en

  -- What the loop reads back: whether the channel is as it should be.
  unfoldable pub flexgen_settled : ℕ → ℕ → ℕ → Act hw Bool
  flexgen_settled source div channel = do
    p ← mmio_read_32 (prediv_of channel)
    elim (bit_and p prediv_mask == 0) [
      | false ↦ pure false
      | true ↦ mmio_read_32 (findiv_of channel) >>= λ f. elim (bit_and f findiv_mask == div) [
        | false ↦ pure false
        | true ↦ mmio_read_32 (xbar_of channel) >>= λ x. pure (bit_and x xbar_sel_mask == source)
      ]
    ]

  -- The loop with `retry` passes left.
  unfoldable pub flexgen_loop : ℕ → ℕ → ℕ → ℕ → Act hw (Unit {0})
  flexgen_loop zero source div channel = pure tt
  flexgen_loop (suc retry) source div channel = do
    flexgen_pass source div channel
    elim (retry == 0) [
      | true ↦ pure tt
      | false ↦ flexgen_settled source div channel >>= λ ok. elim ok [
        | true ↦ pure tt
        | false ↦ flexgen_loop retry source div channel
      ]
    ]

  unfoldable pub flexgen_to_hsi : ℕ → Act hw (Unit {0})
  flexgen_to_hsi channel = flexgen_loop 100 xbar_src_hsi_ker 0 channel

  unfoldable pub flexgen_to_pll4 : ℕ → ℕ → Act hw (Unit {0})
  flexgen_to_pll4 channel findiv_val = flexgen_loop 3 xbar_src_pll4 findiv_val channel
