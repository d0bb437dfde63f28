-- ===== src/Ddr.antt =====
-- bootloader/drivers/ddr/src/ddr_init.c: the bring-up of the memory, over the DDR driver and its tests,
-- which are carried from TF-A.
pub mod Tested
pub mod Retry
use stm32mp257_test_board.Prelude.{
  ℕ, ◌+◌, ◌*◌, ◌/◌, [], ◌∷◌, Bool, true, false, not, codes, ℤ, pos, negsuc, is_zero, ltb, ◌==◌,
}
use stm32mp257_test_board.Log.{str, num, int}
use stm32mp257_test_board.Io.{Mmio, Machine, Act, ◌>>=◌, ◌>>◌, bit_mask, mmio_write_32, my_printf}
use stm32mp257_test_board.Rcc.Pll2.{rcc_pll2_init}

-- The calls of the driver. Those that take the address of `ddr_priv` or `ddr_config` have no argument
-- here, since each is one static object, and they leave `info` of it alone.
pub record Driver (hw : Mmio) : Type 0 where
  pub ddr_sub_system_clk_init : Act hw (Unit {0})
  pub stm32mp2_ddr_init : Act hw (Unit {0})
  pub stm32mp_ddr_test_data_bus : Act hw ℕ
  pub stm32mp_ddr_test_addr_bus : ℕ → Act hw ℕ
  pub stm32mp_ddr_check_size : Act hw ℕ
  pub ddr_read_sr_mode : Act hw ℕ
  pub ddr_set_sr_mode : ℕ → Act hw (Unit {0})

-- What `ddr_init` writes of `ddr_priv`.
pub record Priv : Type 0 where
  pub ctl : ℕ
  pub phy : ℕ
  pub pwr : ℕ
  pub rcc : ℕ
  pub base : ℕ
  pub size : ℕ

-- The machine and `ddr_priv`.
pub record Dram (hw : Mmio) : Type 0 where
  pub machine : Machine hw
  pub priv : Priv

abbrev pub stm32mp_rcc_base : ℕ
stm32mp_rcc_base = 0x44200000

abbrev pub stm32mp_pwr_base : ℕ
stm32mp_pwr_base = 0x44210000

abbrev pub stm32mp_ddrctrl_base : ℕ
stm32mp_ddrctrl_base = 0x48040000

abbrev pub stm32mp_ddrphyc_base : ℕ
stm32mp_ddrphyc_base = 0x48C00000

abbrev pub stm32_ddrdbg_get_base : ℕ
stm32_ddrdbg_get_base = 0x48050000

-- The rails are up already.
abbrev pub stm32mp_board_ddr_power_init : ℕ → ℤ
stm32mp_board_ddr_power_init ddr_type = pos 0

abbrev stm32mp_ddr_base : ℕ
stm32mp_ddr_base = 0x80000000

abbrev risab_cr : ℕ
risab_cr = 0x42130000

-- `ddr_config.info.size`: `DDR_MEM_SIZE` of the board's parameter set.
abbrev pub config_size : ℕ
config_size = 0x100000000

module _ {hw : Mmio} where
  unfoldable pub ddr_get_size : Dram hw → ℕ
  ddr_get_size s = s.priv.size

  -- Only the machine takes part.
  abbrev pub on_machine : {A : Type 0} → Act hw A → Dram hw → A × Dram hw
  on_machine f s = let (a, m) = f s.machine in (a, record s { machine = m })

  -- `priv` once the clocks run, before the driver is called.
  unfoldable pub prepare : Dram hw → Dram hw
  prepare s = record s {
    machine = (mmio_write_32 risab_cr (bit_mask 31) s.machine).1;
    priv = record {
      ctl = stm32mp_ddrctrl_base;
      phy = stm32mp_ddrphyc_base;
      pwr = stm32mp_pwr_base;
      rcc = stm32mp_rcc_base;
      base = stm32mp_ddr_base;
      size = 0;
    };
  }

  module _ (driver : Driver hw) where
    open driver use {
      ddr_sub_system_clk_init, stm32mp2_ddr_init, stm32mp_ddr_test_data_bus,
      stm32mp_ddr_test_addr_bus, stm32mp_ddr_check_size, ddr_read_sr_mode, ddr_set_sr_mode,
    }

    -- The tests of the memory and what follows them.
    unfoldable pub settle : ℕ → Act hw ℤ
    settle retsize = do
      mode ← ddr_read_sr_mode
      ddr_set_sr_mode mode
      my_printf "DDR: %s, %lu MB\r\n"
          (str (codes "LPDDR4 1x32Gbits 1x32bits 1200MHz") ∷ num (retsize / (1024 * 1024)) ∷ [])
      λ m. (pos 0, m)

    unfoldable pub check_size : Act hw ℤ
    unfolding settle
    check_size = stm32mp_ddr_check_size >>= λ retsize. elim (ltb retsize config_size) [
      | false ↦ settle retsize
      | true ↦
          my_printf "DDR ERR: size check: 0x%lx < 0x%lx\r\n" (num retsize ∷ num config_size ∷ [])
          >> λ m. (negsuc 0, m)
    ]

    unfoldable pub check_addr_bus : Act hw ℤ
    unfolding check_size
    check_addr_bus = stm32mp_ddr_test_addr_bus config_size >>= λ uret. elim (uret == 0) [
      | true ↦ check_size
      | false ↦ my_printf "DDR ERR: addr bus test @ 0x%lx\r\n" (num uret ∷ []) >> λ m. (negsuc 0, m)
    ]

    unfoldable pub check_memory : Act hw ℤ
    unfolding check_addr_bus
    check_memory = stm32mp_ddr_test_data_bus >>= λ uret. elim (uret == 0) [
      | true ↦ check_addr_bus
      | false ↦ my_printf "DDR ERR: data bus test @ 0x%lx\r\n" (num uret ∷ []) >> λ m. (negsuc 0, m)
    ]

    -- Behind the PLL's start, with what it gave.
    unfoldable pub init_from : ℤ → Dram hw → ℤ × Dram hw
    unfolding prepare check_memory
    init_from ret s = elim (is_zero ret) [
      | false ↦ on_machine (my_printf "DDR ERR: PLL2: %d\r\n" (int ret ∷ []) >> λ m. (ret, m)) s
      | true ↦
          let (_, s') = on_machine stm32mp2_ddr_init (prepare s) in
          on_machine check_memory (record s' { priv = record s'.priv { size = config_size } })
    ]

    unfoldable pub ddr_init : Dram hw → ℤ × Dram hw
    unfolding init_from
    ddr_init s =
        let (ret, s') = on_machine (ddr_sub_system_clk_init >> rcc_pll2_init) s in init_from ret s'
