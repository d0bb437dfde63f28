-- ===== src/Rif/Phases.antt =====
-- What each part of `rif_handoff` writes, and what it leaves alone.
use stm32mp257_test_board.Prelude.{
  ℕ, ◌+◌, ◌-◌, ◌*◌, ◌/◌, ◌≤◌, ◌<◌, Bool, true, false, ◌||◌, not, ◌==◌, if◌then◌else◌, ◌≡◌, ◌⊎◌, inl,
  inr, bit_and, arith,
}
use stm32mp257_test_board.Io.{Mmio, mmio_write_32, mmio_setbits_32}
use stm32mp257_test_board.Io.Registers.{Keeps}
use stm32mp257_test_board.Io.Holds.{
  Leaves, Holds, write-Holds, write-Leaves, same-Holds, setbits-Holds, clrbits-Holds,
  clrsetbits-Holds, read-Holds, then-Holds, then-Leaves, after-Leaves, for_from-Holds,
  for_from-Leaves,
}
use stm32mp257_test_board.Rif.{
  risaf4_base, rifsc_cidcfgr, gpio_cidcfgr, hpdma_ccidcfgr, GpioBankCfg, amask_of,
  risaf4_open_ddr_ns, open_rifsc, open_rcc, open_pwr, open_exti, open_bank, open_hpdma, open_tamp,
}

-- Whether `b` is outside a page of 64 KiB.
abbrev pub off : ℕ → ℕ → Bool
off page b = not (b / 65536 == page)

apart :
    (page offset b : ℕ) → off page b ≡ true → offset < 65536 → (b == page * 65536 + offset) ≡ false
apart page offset b h lt = ground arith

outside :
    (base size offset b : ℕ)
    → b < base ⊎ base + size ≤ b
    → offset < size
    → (b == base + offset) ≡ false
outside base size offset b (inl h) lt = ground arith
outside base size offset b (inr h) lt = ground arith

module _ {hw : Mmio} {keeps : Keeps hw} {b v : ℕ} where
  -- A write to a page that `b` is not on.
  elsewhere :
      (page offset x : ℕ)
      → off page b ≡ true
      → offset < 65536
      → Holds keeps b v (mmio_write_32 (page * 65536 + offset) x)
  elsewhere page offset x h lt = write-Holds _ x (apart page offset b h lt)

  pub rcc-Holds : off 0x4420 b ≡ true → Holds keeps b v open_rcc
  unfolding open_rcc
  rcc-Holds h =
      then-Holds
        (for_from-Holds 114 0 _ (λ j p q. elsewhere 0x4420 (0x30 + 8 * j) 0 h (omega arith)))
        (for_from-Holds 4 0 _ (λ j p q.
          then-Holds (elsewhere 0x4420 (0x00 + 4 * j) 0 h (omega arith))
            (elsewhere 0x4420 (0x10 + 4 * j) 0 h (omega arith))))

  pub pwr-Holds : off 0x4421 b ≡ true → Holds keeps b v open_pwr
  unfolding open_pwr
  pwr-Holds h =
      then-Holds
        (for_from-Holds 7 0 _ (λ j p q. elsewhere 0x4421 (0x108 + 4 * j) 0 h (omega arith)))
        (then-Holds
          (for_from-Holds 6 1 _ (λ j p q. elsewhere 0x4421 (0x188 + 8 * (j - 1)) 0 h (omega arith)))
          (then-Holds (elsewhere 0x4421 0x100 0 h (omega arith)) (
            then-Holds (elsewhere 0x4421 0x104 0 h (omega arith)) (
              then-Holds (elsewhere 0x4421 0x180 0 h (omega arith))
                (elsewhere 0x4421 0x184 0 h (omega arith))))))

  pub exti-Holds : off 0x4422 b ≡ true → off 0x4623 b ≡ true → Holds keeps b v open_exti
  unfolding open_exti
  exti-Holds h k =
      then-Holds
        (for_from-Holds 96 0 _ (λ j p q.
          then-Holds (elsewhere 0x4422 (0x180 + 4 * j) 0 h (omega arith))
            (elsewhere 0x4623 (0x180 + 4 * j) 0 k (omega arith))))
        (for_from-Holds 3 0 _ (λ j p q.
          then-Holds
            (then-Holds
              (then-Holds (elsewhere 0x4422 (0x14 + 0x20 * j) 0 h (omega arith))
                (elsewhere 0x4422 (0x18 + 0x20 * j) 0 h (omega arith)))
              (elsewhere 0x4623 (0x14 + 0x20 * j) 0 k (omega arith)))
            (elsewhere 0x4623 (0x18 + 0x20 * j) 0 k (omega arith))))

  pub tamp-Holds : off 0x4601 b ≡ true → Holds keeps b v open_tamp
  unfolding open_tamp
  tamp-Holds h =
      then-Holds (for_from-Holds 4 0 _ (λ j p q. elsewhere 0x4601 (0x80 + 4 * j) 0 h (omega arith)))
        (then-Holds (elsewhere 0x4601 0x20 0x00600030 h (omega arith)) (
          then-Holds (elsewhere 0x4601 0x24 0 h (omega arith)) (
            then-Holds (elsewhere 0x4601 0x70 0x18 h (omega arith)) (
              then-Holds (elsewhere 0x4601 0x74 0x48 h (omega arith))
                (elsewhere 0x4601 0x78 0x0078006C h (omega arith))))))

  pub risaf4-Holds : off 0x420D b ≡ true → Holds keeps b v risaf4_open_ddr_ns
  unfolding risaf4_open_ddr_ns
  risaf4-Holds h = read-Holds (risaf4_base + 0xFF0) _ (λ x.
      then-Holds (clrbits-Holds _ 1 (apart 0x420D 0x40 b h (omega arith))) (
        then-Holds (clrsetbits-Holds _ (amask_of x) 0 (apart 0x420D 0x44 b h (omega arith))) (
          then-Holds
            (clrsetbits-Holds _ (amask_of x) (bit_and 0xFFFFFFFF (amask_of x))
              (apart 0x420D 0x48 b h (omega arith)))
            (then-Holds
              (clrsetbits-Holds _ 0x00FF00FF 0x00030003 (apart 0x420D 0x4C b h (omega arith)))
              (clrsetbits-Holds _ 0x00FF8101 1 (apart 0x420D 0x40 b h (omega arith)))))))

  -- A bank whose registers are elsewhere, and one that gets 0 throughout.
  pub open_bank-Holds :
      (bank : GpioBankCfg)
      → (b == bank.rcc_cfgr) ≡ false
      → b < bank.base ⊎ bank.base + 0x400 ≤ b
      → Holds keeps b v (open_bank bank)
  unfolding open_bank
  open_bank-Holds bank h k = then-Holds (setbits-Holds _ 2 h) (
      then-Holds
        (for_from-Holds 16 0 _
          (λ j p q. write-Holds _ 0 (outside bank.base 0x400 _ b k (omega arith))))
        (then-Holds (write-Holds _ 0 (outside bank.base 0x400 0x30 b k (omega arith)))
          (write-Holds _ 0 (outside bank.base 0x400 0x34 b k (omega arith)))))

  pub open_hpdma-Holds :
      (inst : GpioBankCfg)
      → (b == inst.rcc_cfgr) ≡ false
      → b < inst.base ⊎ inst.base + 0x1000 ≤ b
      → Holds keeps b v (open_hpdma inst)
  unfolding open_hpdma
  open_hpdma-Holds inst h k = then-Holds (setbits-Holds _ 2 h) (
      then-Holds (write-Holds _ 0 (outside inst.base 0x1000 0x00 b k (omega arith))) (
        then-Holds (write-Holds _ 0 (outside inst.base 0x1000 0x04 b k (omega arith))) (
          for_from-Holds 16 0 _ (λ j p q.
            write-Holds _ 0x11 (outside inst.base 0x1000 (hpdma_ccidcfgr j) b k (omega arith))))))

module _ {hw : Mmio} {keeps : Keeps hw} where
  pub zero_bank :
      (bank : GpioBankCfg) (b : ℕ) → (b == bank.rcc_cfgr) ≡ false → Holds keeps b 0 (open_bank bank)
  unfolding open_bank
  zero_bank bank b h = then-Holds (setbits-Holds _ 2 h) (
      then-Holds (for_from-Holds 16 0 _ (λ j p q. same-Holds _))
        (then-Holds (same-Holds _) (same-Holds _)))

  pub opens_bank :
      (bank : GpioBankCfg) (p : ℕ)
      → p < 16
      → Leaves keeps (bank.base + gpio_cidcfgr p) 0 (open_bank bank)
  unfolding open_bank
  opens_bank bank p h = after-Leaves (mmio_setbits_32 bank.rcc_cfgr 2) (
      then-Leaves
        (for_from-Leaves 16 0 p _ (omega arith) (omega arith) write-Leaves (λ j p q. same-Holds _))
        (then-Holds (same-Holds _) (same-Holds _)))

  pub opens_hpdma :
      (inst : GpioBankCfg) (p : ℕ)
      → p < 16
      → Leaves keeps (inst.base + hpdma_ccidcfgr p) 0x11 (open_hpdma inst)
  unfolding open_hpdma
  opens_hpdma inst p h = after-Leaves (mmio_setbits_32 inst.rcc_cfgr 2) (
      after-Leaves (mmio_write_32 (inst.base + 0x00) 0) (
        after-Leaves (mmio_write_32 (inst.base + 0x04) 0) (
          for_from-Leaves 16 0 p _ (omega arith) (omega arith) write-Leaves
            (λ j p q. same-Holds _))))

  pub opens_rifsc :
      (i : ℕ)
      → i < 128
      → Leaves keeps (rifsc_cidcfgr i) (if (i == 97) || (i == 100) then 0x21 else 0) open_rifsc
  unfolding open_rifsc
  opens_rifsc i h =
      then-Leaves
        (for_from-Leaves 128 0 i _ (omega arith) (omega arith) write-Leaves
          (λ j p q. write-Holds _ _ (ground arith)))
        (then-Holds
          (for_from-Holds 6 0 _
            (λ j p q. then-Holds (write-Holds _ _ (ground arith)) (write-Holds _ _ (ground arith))))
          (for_from-Holds 16 0 _ (λ j p q. write-Holds _ _ (ground arith))))
