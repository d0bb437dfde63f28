-- ===== src/Rcc/Faults.antt =====
-- An oscillator that does not start: the PLL routines give up and leave the PLLs as they are.
use stm32mp257_test_board.Prelude.{ℕ, ◌<◌, false, ◌≡◌, refl, negsuc}
use stm32mp257_test_board.Io.{Mmio, Machine, mmio_setbits_32}
use stm32mp257_test_board.Io.Wait.{after_reads, seen, poll_timeout}
use stm32mp257_test_board.Rcc.Registers.{
  rcc_ocensetr, rcc_ocrdyr, ocen_hseon, ocrdy_hserdy, div_timeout, is_set,
}
use stm32mp257_test_board.Rcc.Pll2.{rcc_pll2_init}
use stm32mp257_test_board.Rcc.Pll1.{rcc_a35_pll1_init}

module _ {hw : Mmio} where
  -- The machine once the oscillator is asked for.
  abbrev pub hse_asked : Machine hw → Machine hw
  hse_asked m = (mmio_setbits_32 rcc_ocensetr ocen_hseon m).1

  -- Where the external oscillator is not ready at any of 1000000 reads after it is switched
  -- on, `rcc_pll2_init` and `rcc_a35_pll1_init` both end with -1 after exactly these reads and
  -- touch no register of a PLL.
  pub rcc_pll2_init-timeout :
      (m : Machine hw)
      → ((j : ℕ) → j < div_timeout → is_set ocrdy_hserdy (seen j rcc_ocrdyr (hse_asked m)) ≡ false)
      → (rcc_pll2_init m ≡ (negsuc 0, after_reads div_timeout rcc_ocrdyr (hse_asked m)))
        × (rcc_a35_pll1_init m ≡ (negsuc 0, after_reads div_timeout rcc_ocrdyr (hse_asked m)))
  unfolding rcc_pll2_init rcc_a35_pll1_init
  rcc_pll2_init-timeout m never =
      let p = poll_timeout div_timeout rcc_ocrdyr (is_set ocrdy_hserdy) (hse_asked m) never in
      (rw p refl, rw p refl)
