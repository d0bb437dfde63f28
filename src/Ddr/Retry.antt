-- ===== src/Ddr/Retry.antt =====
-- What `boot_ensure_hw` of bootloader/src/boot.c makes of the size that `ddr_init` of
-- bootloader/drivers/ddr/src/ddr_init.c leaves, where the memory has failed a test.
use stm32mp257_test_board.Prelude.{
  ℕ, Bool, true, false, Bool-cases, inl, inr, ℤ, is_zero, ◌==◌, ◌≡◌, ◌≢◌, refl, ap, arith,
}
use stm32mp257_test_board.Io.{Mmio, mmio_read_32, mmio_write_32}
use stm32mp257_test_board.Boot.{Board, Boot, boot_ensure_hw, ensure_sd, say}
use stm32mp257_test_board.Ddr.{
  Driver, Dram, config_size, on_machine, init_from, ddr_init, ddr_get_size,
}
use stm32mp257_test_board.Ddr.Tested.{pll_started, driven, Passes, ddr_init-Passes}

-- The hardware with `ddr_priv` beside it.
abbrev with_priv : Mmio → Mmio
with_priv hw = record {
  World = Dram hw;
  read = λ a s. on_machine (mmio_read_32 a) s;
  write = λ a v s. (on_machine (mmio_write_32 a v) s).1;
  cntpct = λ s.
      let (t, w) = hw.cntpct s.machine.world in
      (t, record s { machine = record s.machine { world = w } });
  cntfrq = λ s. hw.cntfrq s.machine.world;
  set_cntfrq =
      λ f s. record s { machine = record s.machine { world = hw.set_cntfrq f s.machine.world } };
}

-- What boot.c runs on: the board with the memory's bring-up in place.
abbrev pub with_ddr : (b : Board) → Driver b.hw → Board
with_ddr b driver = record {
  hw = with_priv b.hw;
  ddr_get_size = λ s. ddr_get_size s;
  ddr_init = λ s. let (ret, s') = ddr_init driver s in (s', is_zero ret);
  sd_size_bytes = λ s. b.sd_size_bytes s.machine.world;
  sd_init = λ s.
      let (w, ok) = b.sd_init s.machine.world in
      (record s { machine = record s.machine { world = w } }, ok);
  sd_read = λ s lba buf size.
      let (w, ok) = b.sd_read s.machine.world lba buf size in
      (record s { machine = record s.machine { world = w } }, ok);
  word = λ s a. b.word s.machine.world a;
  call = λ s a.
      let (r, w) = b.call s.machine.world a in
      (r, record s { machine = record s.machine { world = w } });
  cpuectlr = λ s. b.cpuectlr s.machine.world;
}

module _ {hw : Mmio} (driver : Driver hw) where
  chosen :
      (b : Bool) (x y : ℤ × Dram hw)
      → b ≡ true
      → (elim b as (λ z. ℤ × Dram hw) [ true ↦ x | false ↦ y ]) ≡ x
  chosen true x y e = refl
  chosen false x y e = cc

  -- From the call of the driver on, the size is set, whatever the tests give.
  size_set :
      (s : Dram hw)
      → is_zero (pll_started driver s).0 ≡ true
      → ddr_get_size (ddr_init driver s).1 ≡ config_size
  unfolding ddr_get_size ddr_init init_from
  size_set s e = ap (λ r. ddr_get_size r.1) (chosen (is_zero (pll_started driver s).0) _ _ e)

  refused :
      (s : Dram hw) → ¬ (Passes driver (driven driver s)) → is_zero (ddr_init driver s).0 ≡ false
  refused s h = elim (Bool-cases (is_zero (ddr_init driver s).0)) [
    | inl e ↦ absurd (h ((ddr_init-Passes driver s).0 e).1)
    | inr e ↦ e
  ]

zero_test : (n : ℕ) → n ≢ 0 → (n == 0) ≡ false
zero_test n h = ground arith

-- With memory and card there, `boot_ensure_hw` has nothing to do.
ready :
    (board : Board) (s : Boot board)
    → (board.ddr_get_size s.world == 0) ≡ false
    → (board.sd_size_bytes s.world == 0) ≡ false
    → boot_ensure_hw board s ≡ (true, s)
unfolding boot_ensure_hw ensure_sd
ready board s e h = rw (e, h) refl

module _ (b : Board) (driver : Driver b.hw) where
  -- Where `ddr_get_size` is 0, the PLL of the memory starts, the memory fails one of its tests
  -- and the card is there: `boot_ensure_hw` fails, and called once more it succeeds and does
  -- nothing, since `ddr_init` has set the size before the tests.
  pub boot_ensure_hw-untested :
      (s : Boot (with_ddr b driver))
      → ddr_get_size s.world ≡ 0
      → is_zero (pll_started driver s.world).0 ≡ true
      → ¬ (Passes driver (driven driver s.world))
      → b.sd_size_bytes (ddr_init driver s.world).1.machine.world ≢ 0
      → let first = boot_ensure_hw (with_ddr b driver) s in
        (first.0 ≡ false) × (boot_ensure_hw (with_ddr b driver) first.1 ≡ (true, first.1))
  unfolding boot_ensure_hw ensure_sd say
  boot_ensure_hw-untested s unset pll fails card =
      let code : is_zero (ddr_init driver s.world).0 ≡ false = refused driver s.world fails in
      let size : (ddr_get_size (ddr_init driver s.world).1 == 0) ≡ false =
        ap (λ n. n == 0) (size_set driver s.world pll) in
      let present : (b.sd_size_bytes (ddr_init driver s.world).1.machine.world == 0) ≡ false =
        zero_test _ card in
      rw (unset, code) (refl, ready (with_ddr b driver) _ size present)
