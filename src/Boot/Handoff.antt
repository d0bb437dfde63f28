-- ===== src/Boot/Handoff.antt =====
-- The kernel starts with both images in memory and the firewalls open.
use stm32mp257_test_board.Prelude.{ℕ, bit_and, ◌==◌, not, []}
use stm32mp257_test_board.Io.{Mmio}
use stm32mp257_test_board.Io.Closed.{
  Closed, Stays, pure-Stays, bind-Stays, then-Stays, for_from-Stays, cases-Stays, printf-Stays,
  read-Stays, write-Stays, setbits-Stays, clrbits-Stays, clrsetbits-Stays, poll-Stays,
}
use stm32mp257_test_board.Rif.{
  risaf4_open_ddr_ns, GpioBankCfg, open_rifsc, open_rcc, open_pwr, open_exti, open_bank, open_hpdma,
  open_tamp, rif_handoff,
}
use stm32mp257_test_board.Gic.{gic_dist_init, gic_cpuif_init, release_word}
use stm32mp257_test_board.Boot.Launch.{
  pwr_cr7_addr, vddio_sv, vddio_vmen, vddio_rdy, vddio2_enable, print_a35ssc,
}

module _ {hw : Mmio} {P : hw.World → Type 0} (closed : Closed hw P) where
  open_rifsc-Stays : Stays hw P open_rifsc
  unfolding open_rifsc
  open_rifsc-Stays = search (then-Stays, for_from-Stays, write-Stays closed) depth 10

  open_rcc-Stays : Stays hw P open_rcc
  unfolding open_rcc
  open_rcc-Stays = search (then-Stays, for_from-Stays, write-Stays closed) depth 10

  open_pwr-Stays : Stays hw P open_pwr
  unfolding open_pwr
  open_pwr-Stays = search (then-Stays, for_from-Stays, write-Stays closed) depth 10

  open_exti-Stays : Stays hw P open_exti
  unfolding open_exti
  open_exti-Stays = search (then-Stays, for_from-Stays, write-Stays closed) depth 10

  open_bank-Stays : (bank : GpioBankCfg) → Stays hw P (open_bank bank)
  unfolding open_bank
  open_bank-Stays bank =
      search (then-Stays, for_from-Stays, write-Stays closed, setbits-Stays closed) depth 10

  open_hpdma-Stays : (inst : GpioBankCfg) → Stays hw P (open_hpdma inst)
  unfolding open_hpdma
  open_hpdma-Stays inst =
      search (then-Stays, for_from-Stays, write-Stays closed, setbits-Stays closed) depth 10

  open_tamp-Stays : Stays hw P open_tamp
  unfolding open_tamp
  open_tamp-Stays = search (then-Stays, for_from-Stays, write-Stays closed) depth 10

  risaf4_open_ddr_ns-Stays : Stays hw P risaf4_open_ddr_ns
  unfolding risaf4_open_ddr_ns
  risaf4_open_ddr_ns-Stays =
      search
        (bind-Stays, then-Stays, read-Stays closed, clrbits-Stays closed, clrsetbits-Stays closed)
        depth 10

  pub rif_handoff-Stays : Stays hw P rif_handoff
  unfolding rif_handoff
  rif_handoff-Stays =
      search
        (
          then-Stays, for_from-Stays, open_rifsc-Stays, open_rcc-Stays, open_pwr-Stays,
          open_exti-Stays, open_bank-Stays, open_hpdma-Stays, open_tamp-Stays,
          risaf4_open_ddr_ns-Stays,
        )
        depth 10

  release_word-Stays : (i : ℕ) → Stays hw P (release_word i)
  unfolding release_word
  release_word-Stays i = search (then-Stays, write-Stays closed) depth 10

  pub gic_dist_init-Stays : Stays hw P gic_dist_init
  unfolding gic_dist_init
  gic_dist_init-Stays =
      search
        (
          bind-Stays,
          then-Stays,
          for_from-Stays,
          read-Stays closed,
          write-Stays closed,
          release_word-Stays,
        )
        depth 10

  pub gic_cpuif_init-Stays : Stays hw P gic_cpuif_init
  unfolding gic_cpuif_init
  gic_cpuif_init-Stays = search (then-Stays, write-Stays closed) depth 10

  pub print_a35ssc-Stays : Stays hw P print_a35ssc
  unfolding print_a35ssc
  print_a35ssc-Stays = search (bind-Stays, read-Stays closed, printf-Stays) depth 14

  pub vddio2_enable-Stays : Stays hw P vddio2_enable
  unfolding vddio2_enable
  vddio2_enable-Stays = bind-Stays (read-Stays closed pwr_cr7_addr) (λ v.
      cases-Stays (bit_and v vddio_sv == 0) (pure-Stays tt) (
        then-Stays (setbits-Stays closed pwr_cr7_addr vddio_vmen) (
          bind-Stays (poll-Stays closed 1000000 (λ v. not (bit_and v vddio_rdy == 0)) pwr_cr7_addr)
            (λ ready. cases-Stays ready (printf-Stays "boot: VDDIO2 not ready\r\n" []) (
              then-Stays (setbits-Stays closed pwr_cr7_addr vddio_sv)
                (clrbits-Stays closed pwr_cr7_addr vddio_vmen))))))
