-- ===== src/Rif/Open.antt =====
-- After the hand-off: who owns the peripherals, the pins and the DMA channels.
use stm32mp257_test_board.Prelude.{
  ℕ, ◌+◌, ◌*◌, ◌≤◌, ◌<◌, Bool, true, ◌&&◌, ◌||◌, leb, ltb, ◌==◌, if◌then◌else◌, ◌≡◌, ◌⊎◌, refl,
  arith,
}
use stm32mp257_test_board.Io.{Mmio, Machine, ◌>>◌, for_from}
use stm32mp257_test_board.Io.Bits.{all_below, all_below_lem}
use stm32mp257_test_board.Io.Registers.{Keeps, reg}
use stm32mp257_test_board.Io.Holds.{
  Leaves, Holds, then-Holds, then-Leaves, after-Leaves, for_from-Holds, for_from-Leaves,
}
use stm32mp257_test_board.Rif.{
  rifsc_cidcfgr, gpio_cidcfgr, hpdma_ccidcfgr, hpdma_insts, gpio_banks, entry, risaf4_open_ddr_ns,
  open_rifsc, open_rcc, open_pwr, open_exti, open_bank, open_hpdma, open_tamp, rif_handoff,
}
use stm32mp257_test_board.Rif.Phases.{
  off, rcc-Holds, pwr-Holds, exti-Holds, tamp-Holds, risaf4-Holds, open_bank-Holds,
  open_hpdma-Holds, zero_bank, opens_bank, opens_hpdma, opens_rifsc,
}

-- Where the tables' addresses are.
abbrev bank_right : ℕ → Bool
bank_right k =
    let bank = entry gpio_banks k in
    (leb 0x44240000 bank.base && leb bank.base 0x442E0000 || bank.base == 0x46200000)
    && leb 0x44200000 bank.rcc_cfgr
    && ltb bank.rcc_cfgr 0x44210000

abbrev inst_right : ℕ → Bool
inst_right k =
    let inst = entry hpdma_insts k in
    (inst.base == 0x40400000 + 0x10000 * k)
    && leb 0x44200000 inst.rcc_cfgr
    && ltb inst.rcc_cfgr 0x44210000

bank_range :
    (k : ℕ)
    → k < 12
    → let bank = entry gpio_banks k in
      ((0x44240000 ≤ bank.base × bank.base ≤ 0x442E0000) ⊎ (bank.base ≡ 0x46200000))
      × (0x44200000 ≤ bank.rcc_cfgr)
      × (bank.rcc_cfgr < 0x44210000)
unfolding all_below
bank_range k h = ground (arith, all_below_lem 12 bank_right k refl h)

inst_range :
    (k : ℕ)
    → k < 3
    → let inst = entry hpdma_insts k in
      (inst.base ≡ 0x40400000 + 0x10000 * k)
      × (0x44200000 ≤ inst.rcc_cfgr)
      × (inst.rcc_cfgr < 0x44210000)
unfolding all_below
inst_range k h = ground (arith, all_below_lem 3 inst_right k refl h)

module _ {hw : Mmio} (keeps : Keeps hw) where
  -- The rest of the hand-off, after the banks.
  rest-Holds :
      (b v : ℕ)
      → (b < 0x40400000 ⊎ 0x40430000 ≤ b)
      → (b < 0x44200000 ⊎ 0x44210000 ≤ b)
      → off 0x4601 b ≡ true
      → off 0x420D b ≡ true
      → Holds keeps b v (
          for_from 3 0 (λ i. open_hpdma (entry hpdma_insts i)) >> (open_tamp >> risaf4_open_ddr_ns))
  rest-Holds b v h r t f =
      then-Holds
        (for_from-Holds 3 0 _ (λ j p q.
          open_hpdma-Holds (entry hpdma_insts j) (ground (arith, inst_range j q, h, r))
            (ground (arith, inst_range j q, h))))
        (then-Holds (tamp-Holds t) (risaf4-Holds f))

  pub ends_rifsc :
      (i : ℕ)
      → i < 128
      → Leaves keeps (rifsc_cidcfgr i) (if (i == 97) || (i == 100) then 0x21 else 0) rif_handoff
  unfolding rif_handoff
  ends_rifsc i hi = then-Leaves (opens_rifsc i hi) (
      then-Holds (rcc-Holds (ground arith)) (
        then-Holds (pwr-Holds (ground arith)) (
          then-Holds (exti-Holds (ground arith) (ground arith)) (
            then-Holds
              (for_from-Holds 12 0 _ (λ j p q.
                open_bank-Holds (entry gpio_banks j) (ground (arith, bank_range j q))
                  (ground (arith, bank_range j q))))
              (rest-Holds _ _ (ground arith) (ground arith) (ground arith) (ground arith))))))

  ends_bank :
      (k p : ℕ)
      → k < 12
      → p < 16
      → Leaves keeps ((entry gpio_banks k).base + gpio_cidcfgr p) 0 rif_handoff
  unfolding rif_handoff
  ends_bank k p hk hp = after-Leaves open_rifsc (
      after-Leaves open_rcc (
        after-Leaves open_pwr (
          after-Leaves open_exti (
            then-Leaves
              (for_from-Leaves 12 0 k _ (omega arith) (omega arith)
                (opens_bank (entry gpio_banks k) p hp)
                (λ j l q.
                  zero_bank (entry gpio_banks j) _
                    (ground (arith, bank_range j q, bank_range k hk))))
              (rest-Holds _ _ (ground (arith, bank_range k hk)) (ground (arith, bank_range k hk))
                (ground (arith, bank_range k hk)) (ground (arith, bank_range k hk)))))))

  ends_hpdma :
      (c p : ℕ)
      → c < 3
      → p < 16
      → Leaves keeps ((entry hpdma_insts c).base + hpdma_ccidcfgr p) 0x11 rif_handoff
  unfolding rif_handoff
  ends_hpdma c p hc hp = after-Leaves open_rifsc (
      after-Leaves open_rcc (
        after-Leaves open_pwr (
          after-Leaves open_exti (
            after-Leaves (for_from 12 0 (λ i. open_bank (entry gpio_banks i))) (
              then-Leaves
                (for_from-Leaves 3 0 c _ (omega arith) (omega arith)
                  (opens_hpdma (entry hpdma_insts c) p hp)
                  (λ j l q.
                    open_hpdma-Holds (entry hpdma_insts j)
                      (ground (arith, inst_range j q, inst_range c hc))
                      (ground (arith, inst_range j q, inst_range c hc))))
                (then-Holds (tamp-Holds (ground (arith, inst_range c hc)))
                  (risaf4-Holds (ground (arith, inst_range c hc)))))))))

  -- On configuration registers that keep what is written, `rif_handoff` leaves, behind all its
  -- writes, the filter of each of the 128 peripherals at 0, or at 0x21 for the peripherals 97
  -- and 100, the filter of each of the 16 pins of each of the 12 GPIO banks at 0, and the
  -- filter of each of the 16 channels of the 3 HPDMA instances at 0x11.
  pub rif_handoff-open :
      (i k p c : ℕ) (m : Machine hw)
      → i < 128
      → k < 12
      → p < 16
      → c < 3
      → let r = (rif_handoff m).1 in
        (reg keeps r (rifsc_cidcfgr i) ≡ (if (i == 97) || (i == 100) then 0x21 else 0))
        × (reg keeps r ((entry gpio_banks k).base + gpio_cidcfgr p) ≡ 0)
        × (reg keeps r ((entry hpdma_insts c).base + hpdma_ccidcfgr p) ≡ 0x11)
  rif_handoff-open i k p c m hi hk hp hc =
      ((ends_rifsc i hi).at_end m, (ends_bank k p hk hp).at_end m, (ends_hpdma c p hc hp).at_end m)
