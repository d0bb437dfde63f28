-- ===== src/Ddr/Tested.antt =====
-- `ddr_init` of bootloader/drivers/ddr/src/ddr_init.c succeeds on memory that passes its tests, and on no
-- other.
use stm32mp257_test_board.Prelude.{
  ℕ, ◌≤◌, Bool, true, false, not, ◌&&◌, ◌↔◌, ℤ, is_zero, ltb, ◌==◌, ◌≡◌, refl, sym, ap, ◌∙◌, arith,
}
use stm32mp257_test_board.Io.{Mmio, Machine, Act, ◌>>◌}
use stm32mp257_test_board.Rcc.Pll2.{rcc_pll2_init}
use stm32mp257_test_board.Ddr.{
  Driver, Dram, config_size, on_machine, prepare, settle, check_size, check_addr_bus, check_memory,
  init_from, ddr_init,
}

module _ {hw : Mmio} (driver : Driver hw) where
  open driver use {
    ddr_sub_system_clk_init, stm32mp2_ddr_init, stm32mp_ddr_test_data_bus,
    stm32mp_ddr_test_addr_bus, stm32mp_ddr_check_size,
  }

  -- The PLL's start, and the machine on which the memory is tested.
  abbrev pub pll_started : Dram hw → ℤ × Dram hw
  pll_started s = on_machine (ddr_sub_system_clk_init >> rcc_pll2_init) s

  abbrev pub driven : Dram hw → Machine hw
  driven s = (stm32mp2_ddr_init (prepare (pll_started s).1).machine).1

  -- What the tests of the memory give, in their order.
  pub record Passes (m : Machine hw) : Type 0 where
    pub data_bus : (stm32mp_ddr_test_data_bus m).0 ≡ 0
    pub addr_bus : (stm32mp_ddr_test_addr_bus config_size (stm32mp_ddr_test_data_bus m).1).0 ≡ 0
    pub size :
        config_size
        ≤ (stm32mp_ddr_check_size
            (stm32mp_ddr_test_addr_bus config_size (stm32mp_ddr_test_data_bus m).1).1).0

  both :
      (b : Bool) (f g : Act hw ℤ) (m : Machine hw)
      → is_zero (g m).0 ≡ false
      → is_zero ((elim b as (λ x. Act hw ℤ) [ true ↦ f | false ↦ g ]) m).0 ≡ (b && is_zero (f m).0)
  both true f g m e = refl
  both false f g m e = e

  neither :
      (b : Bool) (f g : Act hw ℤ) (m : Machine hw)
      → is_zero (f m).0 ≡ false
      → is_zero (g m).0 ≡ true
      → is_zero ((elim b as (λ x. Act hw ℤ) [ true ↦ f | false ↦ g ]) m).0 ≡ not b
  neither true f g m e h = e
  neither false f g m e h = h

  pick :
      (b : Bool) (x y : ℤ × Dram hw)
      → is_zero y.0 ≡ b
      → is_zero (elim b as (λ z. ℤ × Dram hw) [ true ↦ x | false ↦ y ]).0 ≡ (b && is_zero x.0)
  pick true x y e = refl
  pick false x y e = e

  settle-zero : (n : ℕ) (m : Machine hw) → is_zero (settle driver n m).0 ≡ true
  unfolding settle
  settle-zero n m = refl

  size-code :
      (m : Machine hw)
      → is_zero (check_size driver m).0 ≡ not (ltb (stm32mp_ddr_check_size m).0 config_size)
  unfolding check_size
  size-code m =
      neither (ltb (stm32mp_ddr_check_size m).0 config_size) _ _ _ refl
        (settle-zero (stm32mp_ddr_check_size m).0 (stm32mp_ddr_check_size m).1)

  addr-code :
      (m : Machine hw)
      → is_zero (check_addr_bus driver m).0 ≡ (
          ((stm32mp_ddr_test_addr_bus config_size m).0 == 0)
          && is_zero (check_size driver (stm32mp_ddr_test_addr_bus config_size m).1).0)
  unfolding check_addr_bus
  addr-code m = both ((stm32mp_ddr_test_addr_bus config_size m).0 == 0) _ _ _ refl

  data-code :
      (m : Machine hw)
      → is_zero (check_memory driver m).0 ≡ (
          ((stm32mp_ddr_test_data_bus m).0 == 0)
          && is_zero (check_addr_bus driver (stm32mp_ddr_test_data_bus m).1).0)
  unfolding check_memory
  data-code m = both ((stm32mp_ddr_test_data_bus m).0 == 0) _ _ _ refl

  all_three :
      (a b n k : ℕ)
      → (((a == 0) && ((b == 0) && not (ltb n k))) ≡ true) ↔ ((a ≡ 0) × (b ≡ 0) × (k ≤ n))
  all_three a b n k = ground arith

  check_memory-Passes : (m : Machine hw) → (is_zero (check_memory driver m).0 ≡ true) ↔ Passes m
  check_memory-Passes m =
      let m1 = (stm32mp_ddr_test_data_bus m).1 in
      let m2 = (stm32mp_ddr_test_addr_bus config_size m1).1 in
      let codes =
        data-code m
        ∙ ap (λ b. ((stm32mp_ddr_test_data_bus m).0 == 0) && b)
            (addr-code m1
              ∙ ap (λ b. ((stm32mp_ddr_test_addr_bus config_size m1).0 == 0) && b)
                  (size-code m2)) in
      let three =
        all_three (stm32mp_ddr_test_data_bus m).0 (stm32mp_ddr_test_addr_bus config_size m1).0
          (stm32mp_ddr_check_size m2).0 config_size in
      (
        λ h.
            let (a, b, n) = three.0 (sym codes ∙ h) in
            record { data_bus = a; addr_bus = b; size = n },
        λ p. codes ∙ three.1 (p.data_bus, p.addr_bus, p.size),
      )

  init-code :
      (s : Dram hw)
      → is_zero (ddr_init driver s).0
        ≡ (is_zero (pll_started s).0 && is_zero (check_memory driver (driven s)).0)
  unfolding ddr_init init_from
  init-code s = pick (is_zero (pll_started s).0) _ _ refl

  and_iff : (a b : Bool) → ((a && b) ≡ true) ↔ ((a ≡ true) × (b ≡ true))
  and_iff a b = ground arith

  -- `ddr_init` returns 0 exactly when the PLL of the memory starts and the memory behind the
  -- driver passes all three tests: no fault on the data bus, none on the address bus, and at
  -- least the configured size.
  pub ddr_init-Passes :
      (s : Dram hw)
      → (is_zero (ddr_init driver s).0 ≡ true)
        ↔ ((is_zero (pll_started s).0 ≡ true) × Passes (driven s))
  ddr_init-Passes s =
      let code = init-code s in
      let parts =
        and_iff (is_zero (pll_started s).0) (is_zero (check_memory driver (driven s)).0) in
      let tests = check_memory-Passes (driven s) in
      (
        λ h. let (a, b) = parts.0 (sym code ∙ h) in (a, tests.0 b),
        λ p. code ∙ parts.1 (p.0, tests.1 p.1),
      )
