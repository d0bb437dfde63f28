-- ===== src/Boot/Launch.antt =====
-- bootloader/src/boot.c: `jump`, and `boot`, which starts the kernel and does not come back.
use stm32mp257_test_board.Prelude.{
  ℕ, ◌+◌, ◌/◌, ◌%◌, ◌^◌, [], ◌∷◌, Option, none, some, true, false, not, bit_and, leb, ◌==◌,
  if◌then◌else◌,
}
use stm32mp257_test_board.Log.{num}
use stm32mp257_test_board.Io.{
  Mmio, Act, pure, ◌>>=◌, ◌>>◌, or_return, bit_mask, my_printf, mmio_read_32, mmio_setbits_32,
  mmio_clrbits_32,
}
use stm32mp257_test_board.Io.Wait.{poll}
use stm32mp257_test_board.Rif.{rif_handoff}
use stm32mp257_test_board.Gic.{gic_dist_init, gic_cpuif_init}
use stm32mp257_test_board.Boot.{
  Board, boot_ensure_hw, load_region, boot_kernel_lba, boot_kernel_blocks, boot_kernel_addr,
  boot_dtb_lba, boot_dtb_blocks, boot_dtb_addr,
}

abbrev pub pwr_cr7_addr : ℕ
pwr_cr7_addr = 0x44210000 + 0x18

abbrev pub vddio_vmen : ℕ
vddio_vmen = bit_mask 0

abbrev pub vddio_sv : ℕ
vddio_sv = bit_mask 8

abbrev pub vddio_rdy : ℕ
vddio_rdy = bit_mask 16

module _ {hw : Mmio} where
  unfoldable pub vddio2_enable : Act hw (Unit {0})
  vddio2_enable = do
    valid ← mmio_read_32 pwr_cr7_addr
    elim (bit_and valid vddio_sv == 0) [
      | false ↦ pure tt
      | true ↦ do
        mmio_setbits_32 pwr_cr7_addr vddio_vmen
        ready ← poll 1000000 (λ v. not (bit_and v vddio_rdy == 0)) pwr_cr7_addr
        elim ready [
          | false ↦ my_printf "boot: VDDIO2 not ready\r\n" []
          | true ↦ do mmio_setbits_32 pwr_cr7_addr vddio_sv; mmio_clrbits_32 pwr_cr7_addr vddio_vmen
        ]
    ]

  -- The arguments of one `my_printf`, in their order.
  unfoldable pub print_a35ssc : Act hw (Unit {0})
  print_a35ssc = do
    chg ← mmio_read_32 0x48800000
    f1 ← mmio_read_32 0x48800080
    f2 ← mmio_read_32 0x48800090
    en ← mmio_read_32 0x488000A0
    muxsel ← mmio_read_32 0x44201000
    my_printf "A35SSC chg=%08X f1=%08X f2=%08X en=%08X muxsel=%08X\r\n"
        (num chg ∷ num f1 ∷ num f2 ∷ num en ∷ num muxsel ∷ [])

module _ (board : Board) where
  open board use {hw, call, cpuectlr}

  -- The instruction cache is not part of the machine.
  unfoldable pub cmd_jump : ℕ → ℕ → ℕ → ℕ → Act hw (Unit {0})
  cmd_jump argc arg1 arg2 arg3 =
      let addr = if leb 1 argc then arg1 else boot_kernel_addr in
      do
        my_printf "jump: calling 0x%08X\r\n" (num addr ∷ [])
        ret ← λ m. let (ret, w) = call m.world addr in (ret, record m { world = w })
        my_printf "jump: returned 0x%08X%08X\r\n"
            (num (ret / 2 ^ 32 % 2 ^ 32) ∷ num (ret % 2 ^ 32) ∷ [])

  unfoldable pub print_cpuectlr : Act hw (Unit {0})
  print_cpuectlr = do
    v ← λ m. (cpuectlr m.world, m)
    my_printf "CPUECTLR=%08X%08X\r\n" (num (v / 2 ^ 32 % 2 ^ 32) ∷ num (v % 2 ^ 32) ∷ [])

  -- What `boot` does once both images are in memory, up to the call of `drop_to_el2`.
  unfoldable pub hand_over : Act hw (Unit {0})
  hand_over = do
    vddio2_enable
    my_printf "\r\nboot: Linux Image@0x%08X dtb@0x%08X (EL2, PSCI at EL3)\r\n"
        (num boot_kernel_addr ∷ num boot_dtb_addr ∷ [])
    print_cpuectlr
    print_a35ssc
    rif_handoff
    gic_dist_init
    gic_cpuif_init

  -- The arguments of `drop_to_el2`, where `boot` gets there.
  unfoldable pub cmd_boot : ℕ → ℕ → ℕ → ℕ → Act hw (Option (ℕ × ℕ))
  cmd_boot argc arg1 arg2 arg3 =
      let kernel_blocks = if leb 1 argc then arg1 else boot_kernel_blocks in
      or_return (boot_ensure_hw board) none (do
        my_printf "boot: loading kernel (%u blocks)" (num kernel_blocks ∷ [])
        or_return (load_region board kernel_blocks boot_kernel_lba boot_kernel_addr) none (do
          my_printf "\r\nboot: loading dtb" []
          or_return (load_region board boot_dtb_blocks boot_dtb_lba boot_dtb_addr) none
              (do hand_over; pure (some (boot_dtb_addr, boot_kernel_addr)))))
