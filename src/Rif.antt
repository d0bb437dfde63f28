-- ===== src/Rif.antt =====
-- bootloader/drivers/rif.c: the firewall hands every resource over to the non-secure world.
use stm32mp257_test_board.Prelude.{
  ℕ, ◌+◌, ◌-◌, ◌*◌, ◌/◌, ◌%◌, ◌^◌, List, [], ◌∷◌, Bool, ◌||◌, ◌==◌, if◌then◌else◌, bit_and, get_or,
}
use stm32mp257_test_board.Io.{
  Mmio, Act, ◌>>=◌, ◌>>◌, bit_mask, not32, shl32, for_from, mmio_read_32, mmio_write_32,
  mmio_setbits_32, mmio_clrbits_32, mmio_clrsetbits_32,
}
use stm32mp257_test_board.Gpio.{gpio_bank}
pub mod Open
pub mod Phases

abbrev pub rifsc_base : ℕ
rifsc_base = 0x42080000

abbrev pub rcc_rif_base : ℕ
rcc_rif_base = 0x44200000

abbrev pub pwr_base : ℕ
pwr_base = 0x44210000

abbrev pub exti1_base : ℕ
exti1_base = 0x44220000

abbrev pub exti2_base : ℕ
exti2_base = 0x46230000

abbrev pub tamp_base : ℕ
tamp_base = 0x46010000

abbrev pub risaf4_base : ℕ
risaf4_base = 0x420D0000

-- `RIFSC_RISC_PER_CIDCFGR`, `EXTI_EN_CIDCFGR`, `GPIO_CIDCFGR` and `HPDMA_CCIDCFGR`
abbrev pub rifsc_cidcfgr : ℕ → ℕ
rifsc_cidcfgr i = rifsc_base + (0x100 + 8 * i)

abbrev pub exti_cidcfgr : ℕ → ℕ
exti_cidcfgr i = 0x180 + 4 * i

abbrev pub gpio_cidcfgr : ℕ → ℕ
gpio_cidcfgr p = 0x50 + 8 * p

abbrev pub hpdma_ccidcfgr : ℕ → ℕ
hpdma_ccidcfgr x = 0x54 + 0x80 * x

abbrev pub rimc_attr_val : List ℕ
rimc_attr_val =
    0x214 ∷ 0x200 ∷ 0x200 ∷ 0x000 ∷ 0x200 ∷ 0x200 ∷ 0x200 ∷ 0x200 ∷ 0x200 ∷ 0x200 ∷ 0x200 ∷ 0x204
    ∷ 0x204 ∷ 0x204 ∷ 0x200 ∷ 0x200 ∷ []

-- `struct gpio_bank_cfg`
pub record GpioBankCfg : Type 0 where
  pub base : ℕ
  pub rcc_cfgr : ℕ

abbrev cfg : ℕ → ℕ → GpioBankCfg
cfg base offset = record { base = base; rcc_cfgr = rcc_rif_base + offset }

abbrev pub hpdma_insts : List GpioBankCfg
hpdma_insts = cfg 0x40400000 0x55C ∷ cfg 0x40410000 0x560 ∷ cfg 0x40420000 0x564 ∷ []

abbrev pub gpio_banks : List GpioBankCfg
gpio_banks =
    cfg (gpio_bank 0) 0x52C
    ∷ cfg (gpio_bank 1) 0x530
    ∷ cfg (gpio_bank 2) 0x534
    ∷ cfg (gpio_bank 3) 0x538
    ∷ cfg (gpio_bank 4) 0x53C
    ∷ cfg (gpio_bank 5) 0x540
    ∷ cfg (gpio_bank 6) 0x544
    ∷ cfg (gpio_bank 7) 0x548
    ∷ cfg (gpio_bank 8) 0x54C
    ∷ cfg (gpio_bank 9) 0x550
    ∷ cfg (gpio_bank 10) 0x554
    ∷ cfg 0x46200000 0x558
    ∷ []

-- An entry of a table, by index.
abbrev pub entry : List GpioBankCfg → ℕ → GpioBankCfg
entry table i = get_or table i (cfg 0 0)

-- The address bits that RISAF4 compares, from its configuration word. A shift by more than the
-- width, which C leaves undefined, is modulo 32 here as on the processor.
abbrev pub amask_of : ℕ → ℕ
amask_of hwcfgr =
    let mlsb = bit_and (hwcfgr / 2 ^ 16) 0xFF in
    let mmsb = (mlsb + bit_and (hwcfgr / 2 ^ 24) 0xFF + (2 ^ 32 - 1)) % 2 ^ 32 in
    bit_and (0xFFFFFFFF / 2 ^ ((31 + 2 ^ 32 - mmsb) % 32))
      (not32 ((shl32 1 (mlsb % 32) + (2 ^ 32 - 1)) % 2 ^ 32))

module _ {hw : Mmio} where
  unfoldable pub risaf4_open_ddr_ns : Act hw (Unit {0})
  risaf4_open_ddr_ns = mmio_read_32 (risaf4_base + 0xFF0) >>= λ hwcfgr.
      let amask = amask_of hwcfgr in
      do
        mmio_clrbits_32 (risaf4_base + 0x40) (bit_mask 0)
        mmio_clrsetbits_32 (risaf4_base + 0x44) amask 0
        mmio_clrsetbits_32 (risaf4_base + 0x48) amask (bit_and 0xFFFFFFFF amask)
        mmio_clrsetbits_32 (risaf4_base + 0x4C) 0x00FF00FF 0x00030003
        mmio_clrsetbits_32 (risaf4_base + 0x40) 0x00FF8101 (bit_mask 0)

  -- The parts of `rif_handoff`, in its order.
  unfoldable pub open_rifsc : Act hw (Unit {0})
  open_rifsc = do
    for_from 128 0
        (λ i. mmio_write_32 (rifsc_cidcfgr i) (if (i == 97) || (i == 100) then 0x21 else 0))
    for_from 6 0 (λ i.
        let sec = if i == 3 then 0x12 else 0 in
        mmio_write_32 (rifsc_base + (0x10 + 4 * i)) sec
        >> mmio_write_32 (rifsc_base + (0x30 + 4 * i)) sec)
    for_from 16 0 (λ i. mmio_write_32 (rifsc_base + (0xC10 + 4 * i)) (get_or rimc_attr_val i 0))

  unfoldable pub open_rcc : Act hw (Unit {0})
  open_rcc = do
    for_from 114 0 (λ i. mmio_write_32 (rcc_rif_base + (0x30 + 8 * i)) 0)
    for_from 4 0 (λ i.
        mmio_write_32 (rcc_rif_base + (0x00 + 4 * i)) 0
        >> mmio_write_32 (rcc_rif_base + (0x10 + 4 * i)) 0)

  unfoldable pub open_pwr : Act hw (Unit {0})
  open_pwr = do
    for_from 7 0 (λ i. mmio_write_32 (pwr_base + (0x108 + 4 * i)) 0)
    for_from 6 1 (λ i. mmio_write_32 (pwr_base + (0x188 + 8 * (i - 1))) 0)
    mmio_write_32 (pwr_base + 0x100) 0
    mmio_write_32 (pwr_base + 0x104) 0
    mmio_write_32 (pwr_base + 0x180) 0
    mmio_write_32 (pwr_base + 0x184) 0

  unfoldable pub open_exti : Act hw (Unit {0})
  open_exti = do
    for_from 96 0 (λ i.
        mmio_write_32 (exti1_base + exti_cidcfgr i) 0
        >> mmio_write_32 (exti2_base + exti_cidcfgr i) 0)
    for_from 3 0 (λ i.
        mmio_write_32 (exti1_base + (0x14 + 0x20 * i)) 0
        >> mmio_write_32 (exti1_base + (0x18 + 0x20 * i)) 0
        >> mmio_write_32 (exti2_base + (0x14 + 0x20 * i)) 0
        >> mmio_write_32 (exti2_base + (0x18 + 0x20 * i)) 0)

  unfoldable pub open_bank : GpioBankCfg → Act hw (Unit {0})
  open_bank bank = do
    mmio_setbits_32 bank.rcc_cfgr (bit_mask 1)
    for_from 16 0 (λ p. mmio_write_32 (bank.base + gpio_cidcfgr p) 0)
    mmio_write_32 (bank.base + 0x30) 0
    mmio_write_32 (bank.base + 0x34) 0

  unfoldable pub open_hpdma : GpioBankCfg → Act hw (Unit {0})
  open_hpdma inst = do
    mmio_setbits_32 inst.rcc_cfgr (bit_mask 1)
    mmio_write_32 (inst.base + 0x00) 0
    mmio_write_32 (inst.base + 0x04) 0
    for_from 16 0 (λ p. mmio_write_32 (inst.base + hpdma_ccidcfgr p) 0x11)

  unfoldable pub open_tamp : Act hw (Unit {0})
  open_tamp = do
    for_from 4 0 (λ i. mmio_write_32 (tamp_base + (0x80 + 4 * i)) 0)
    mmio_write_32 (tamp_base + 0x20) 0x00600030
    mmio_write_32 (tamp_base + 0x24) 0
    mmio_write_32 (tamp_base + 0x70) 0x18
    mmio_write_32 (tamp_base + 0x74) 0x48
    mmio_write_32 (tamp_base + 0x78) 0x0078006C

  unfoldable pub rif_handoff : Act hw (Unit {0})
  rif_handoff = do
    open_rifsc
    open_rcc
    open_pwr
    open_exti
    for_from 12 0 (λ i. open_bank (entry gpio_banks i))
    for_from 3 0 (λ i. open_hpdma (entry hpdma_insts i))
    open_tamp
    risaf4_open_ddr_ns
