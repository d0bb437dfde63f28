-- ===== src/Tests/Memory.antt =====
-- bootloader/drivers/ddr/src/ddr_init.c at a PLL that starts, and memory that fails or passes its tests.
use stm32mp257_test_board.Prelude.{
  ℕ, [], true, false, ◌↔◌, is_zero, bit_and, bit_or, ◌==◌, if◌then◌else◌, ◌≡◌, refl, arith,
}
use stm32mp257_test_board.Io.{
  Mmio, mmio_read_32, mmio_write_32, mmio_setbits_32, mmio_clrbits_32, mmio_clrsetbits_32,
}
use stm32mp257_test_board.Io.Wait.{poll}
use stm32mp257_test_board.Rcc.Registers.{rcc_pll2, pllen, pllrdy, ckrefst}
use stm32mp257_test_board.Rcc.Pll2.{pll2_dividers, rcc_pll2_init}
use stm32mp257_test_board.Boot.{Board, Boot, boot_ensure_hw}
use stm32mp257_test_board.Ddr.{Driver, Dram, config_size, ddr_init, ddr_get_size}
use stm32mp257_test_board.Ddr.Tested.{pll_started, driven, Passes, ddr_init-Passes}
use stm32mp257_test_board.Ddr.Retry.{with_ddr, boot_ensure_hw-untested}

-- The world is the first register of the PLL; all other registers are read as ones.
abbrev hw : Mmio
hw = record {
  World = ℕ;
  read = λ a w. (
    if a == rcc_pll2 0
        then bit_or w (if bit_and w pllen == 0 then ckrefst else bit_or ckrefst pllrdy)
        else 0xFFFFFFFF,
    w,
  );
  write = λ a v w. if a == rcc_pll2 0 then v else w;
  cntpct = λ w. (0, w);
  cntfrq = λ w. 64000000;
  set_cntfrq = λ f w. w;
}

-- Memory whose data bus gives `fault`.
abbrev memory : ℕ → Driver hw
memory fault = record {
  ddr_sub_system_clk_init = λ m. (tt, m);
  stm32mp2_ddr_init = λ m. (tt, m);
  stm32mp_ddr_test_data_bus = λ m. (fault, m);
  stm32mp_ddr_test_addr_bus = λ size m. (0, m);
  stm32mp_ddr_check_size = λ m. (config_size, m);
  ddr_read_sr_mode = λ m. (1, m);
  ddr_set_sr_mode = λ mode m. (tt, m);
}

abbrev reset : Dram hw
reset = record {
  machine = record { world = 0; i2c_last_isr = 0; log = [] };
  priv = record { ctl = 0; phy = 0; pwr = 0; rcc = 0; base = 0; size = 0 };
}

abbrev board : Board
board = record {
  hw = hw;
  ddr_get_size = λ w. 0;
  ddr_init = λ w. (w, true);
  sd_size_bytes = λ w. 4096;
  sd_init = λ w. (w, true);
  sd_read = λ w lba buf size. (w, true);
  word = λ w a. 0;
  call = λ w a. (0, w);
  cpuectlr = λ w. 0;
}

pll_starts : is_zero (pll_started (memory 0x80000000) reset).0 ≡ true
unfolding rcc_pll2_init pll2_dividers poll mmio_read_32 mmio_write_32 mmio_setbits_32
    mmio_clrbits_32 mmio_clrsetbits_32
pll_starts = refl

fails : ¬ (Passes (memory 0x80000000) (driven (memory 0x80000000) reset))
fails p = absurd (omega (arith, p.data_bus))

unset : ddr_get_size reset ≡ 0
unfolding ddr_get_size
unset = refl

abbrev stopped : Boot (with_ddr board (memory 0x80000000))
stopped = record { world = reset; i2c_last_isr = 0; log = [] }

ddr_init-Passes_example : (is_zero (ddr_init (memory 0) reset).0 ≡ true) ↔ (
    (is_zero (pll_started (memory 0) reset).0 ≡ true) × Passes (memory 0) (driven (memory 0) reset))
ddr_init-Passes_example = ddr_init-Passes (memory 0) reset

boot_ensure_hw-untested_example :
    let first = boot_ensure_hw (with_ddr board (memory 0x80000000)) stopped in
    (first.0 ≡ false)
    × (boot_ensure_hw (with_ddr board (memory 0x80000000)) first.1 ≡ (true, first.1))
boot_ensure_hw-untested_example =
    boot_ensure_hw-untested board (memory 0x80000000) stopped unset pll_starts fails
      (λ e. omega arith)
