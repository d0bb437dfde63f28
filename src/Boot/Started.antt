-- ===== src/Boot/Started.antt =====
-- The kernel starts with both images in memory and the firewalls open.
use Prim.Native.String.{String}
use stm32mp257_test_board.Prelude.{
  ℕ, ◌+◌, ◌*◌, ◌/◌, ◌%◌, ◌^◌, ◌≤◌, ◌<◌, List, [], ◌∷◌, some, Bool, true, ◌||◌, leb, ◌==◌,
  if◌then◌else◌, ◌≡◌, refl, ap, ◌∙◌, bit_and, arith,
}
use stm32mp257_test_board.Log.{Arg, num}
use stm32mp257_test_board.Io.{Mmio, Machine, Act, or_return, my_printf}
use stm32mp257_test_board.Io.Registers.{Keeps, reg}
use stm32mp257_test_board.Io.Holds.{
  Leaves, Holds, then-Leaves, after-Leaves, then-Holds, write-Holds, read-Holds, for_from-Holds,
}
use stm32mp257_test_board.Io.Closed.{Closed, Stays, bind-Stays, printf-Stays, then-Stays}
use stm32mp257_test_board.Rif.{rifsc_cidcfgr}
use stm32mp257_test_board.Rif.Open.{ends_rifsc}
use stm32mp257_test_board.Gic.{gic_dist_init, gic_cpuif_init, release_word}
use stm32mp257_test_board.Boot.{
  Board, Boot, sd_block_size, load_region, boot_ensure_hw, boot_kernel_lba, boot_kernel_blocks,
  boot_kernel_addr, boot_dtb_lba, boot_dtb_blocks, boot_dtb_addr,
}
use stm32mp257_test_board.Boot.Region.{Loads, load_region-loaded}
use stm32mp257_test_board.Boot.Launch.{
  vddio2_enable, print_cpuectlr, print_a35ssc, hand_over, cmd_boot,
}
use stm32mp257_test_board.Boot.Handoff.{
  vddio2_enable-Stays, print_a35ssc-Stays, rif_handoff-Stays, gic_dist_init-Stays,
  gic_cpuif_init-Stays,
}

or_return-true :
    {hw : Mmio} {A : Type 0} (test : Act hw Bool) (code : A) (rest : Act hw A) (m : Machine hw)
    → (test m).0 ≡ true
    → or_return test code rest m ≡ rest (test m).1
or_return-true test code rest m h = rw h refl

module _ {hw : Mmio} {keeps : Keeps hw} {v : ℕ} (b : ℕ) (low : b < 0x4AC10000) where
  release_word-Holds : (i : ℕ) → Holds keeps b v (release_word i)
  unfolding release_word
  release_word-Holds i =
      then-Holds (write-Holds _ _ (ground arith))
        (then-Holds (write-Holds _ _ (ground arith)) (write-Holds _ _ (ground arith)))

  gic_dist_init-Holds : Holds keeps b v gic_dist_init
  unfolding gic_dist_init
  gic_dist_init-Holds = read-Holds 0x4AC10004 _ (λ typer.
      then-Holds (write-Holds 0x4AC10000 0 (ground arith)) (
        then-Holds
          (for_from-Holds (bit_and typer 0x1F + 1) 0 release_word (λ j p q. release_word-Holds j))
          (write-Holds 0x4AC10000 3 (ground arith))))

  gic_cpuif_init-Holds : Holds keeps b v gic_cpuif_init
  unfolding gic_cpuif_init
  gic_cpuif_init-Holds =
      then-Holds (write-Holds _ _ (ground arith))
        (then-Holds (write-Holds _ _ (ground arith)) (write-Holds _ _ (ground arith)))

module _ (board : Board) where
  open board use {hw}

  after_printf :
      (s : String) (args : List Arg) (m : Boot board)
      → (my_printf {hw = hw} s args m).1.world ≡ m.world
  unfolding my_printf
  after_printf s args m = refl

  print_cpuectlr-Stays : {P : hw.World → Type 0} → Stays hw P (print_cpuectlr board)
  unfolding print_cpuectlr
  print_cpuectlr-Stays =
      bind-Stays {f = λ m. (board.cpuectlr m.world, m)} (record { after = λ m h. h })
        (λ v.
          printf-Stays "CPUECTLR=%08X%08X\r\n" (num (v / 2 ^ 32 % 2 ^ 32) ∷ num (v % 2 ^ 32) ∷ []))

  hand_over-Stays : {P : hw.World → Type 0} → Closed hw P → Stays hw P (hand_over board)
  unfolding hand_over
  hand_over-Stays closed = then-Stays (vddio2_enable-Stays closed) (
      then-Stays
        (printf-Stays "\r\nboot: Linux Image@0x%08X dtb@0x%08X (EL2, PSCI at EL3)\r\n"
          (num boot_kernel_addr ∷ num boot_dtb_addr ∷ []))
        (then-Stays print_cpuectlr-Stays (
          then-Stays (print_a35ssc-Stays closed) (
            then-Stays (rif_handoff-Stays closed)
              (then-Stays (gic_dist_init-Stays closed) (gic_cpuif_init-Stays closed))))))

  -- The states on the way.
  abbrev kernel_loaded : ℕ → Boot board → Bool × Boot board
  kernel_loaded n s =
      load_region board n boot_kernel_lba boot_kernel_addr
        (my_printf "boot: loading kernel (%u blocks)" (num n ∷ []) s).1

  abbrev dtb_loaded : Boot board → Bool × Boot board
  dtb_loaded s =
      load_region board boot_dtb_blocks boot_dtb_lba boot_dtb_addr
        (my_printf "\r\nboot: loading dtb" [] s).1

  cmd_boot-path :
      (argc arg1 arg2 arg3 : ℕ) (s s' : Boot board)
      → let n = if leb 1 argc then arg1 else boot_kernel_blocks in
        boot_ensure_hw board s ≡ (true, s')
        → (kernel_loaded n s').0 ≡ true
        → (dtb_loaded (kernel_loaded n s').1).0 ≡ true
        → cmd_boot board argc arg1 arg2 arg3 s ≡ (
          some (boot_dtb_addr, boot_kernel_addr),
          (hand_over board (dtb_loaded (kernel_loaded n s').1).1).1,
        )
  unfolding cmd_boot
  cmd_boot-path argc arg1 arg2 arg3 s s' ready k d = rw (cmd_boot, ready, k, d) refl

  hand_over-Leaves :
      (keeps : Keeps hw) (c : ℕ)
      → c < 128
      → Leaves keeps
          (rifsc_cidcfgr c)
          (if (c == 97) || (c == 100) then 0x21 else 0)
          (hand_over board)
  unfolding hand_over
  hand_over-Leaves keeps c h = after-Leaves vddio2_enable (
      after-Leaves
        (my_printf "\r\nboot: Linux Image@0x%08X dtb@0x%08X (EL2, PSCI at EL3)\r\n"
          (num boot_kernel_addr ∷ num boot_dtb_addr ∷ []))
        (after-Leaves (print_cpuectlr board) (
          after-Leaves print_a35ssc (
            then-Leaves (ends_rifsc keeps c h) (
              then-Holds (gic_dist_init-Holds _ (ground arith))
                (gic_cpuif_init-Holds _ (ground arith)))))))

  -- On a board whose card keeps what sd.h promises, whose configuration registers keep what is
  -- written and where no register access changes the memory: where `boot_ensure_hw` succeeds
  -- and leaves the state `s'`, the kernel is at most 65536 blocks and both images lie inside
  -- the card, `cmd_boot` gets to `drop_to_el2` with the addresses of the device tree and the
  -- kernel; then each block `i` of the kernel and `j` of the device tree, as the card held it
  -- in `s'`, stands at its place in memory, and the firewall register of each of the 128
  -- peripherals holds 0, or 0x21 for the peripherals 97 and 100.
  pub cmd_boot-started :
      (loads : Loads board) (keeps : Keeps hw)
      (apart : (a : ℕ) (x : List ℕ) → Closed hw (λ w. loads.mem w a ≡ x))
      (argc arg1 arg2 arg3 i j c : ℕ) (s s' : Boot board)
      → let n = if leb 1 argc then arg1 else boot_kernel_blocks in
        boot_ensure_hw board s ≡ (true, s')
        → n ≤ 65536
        → boot_kernel_lba + n ≤ loads.size
        → boot_dtb_lba + boot_dtb_blocks ≤ loads.size
        → i < n
        → j < boot_dtb_blocks
        → c < 128
        → let r = cmd_boot board argc arg1 arg2 arg3 s in
          (r.0 ≡ some (boot_dtb_addr, boot_kernel_addr))
          × (loads.mem r.1.world (boot_kernel_addr + i * sd_block_size)
              ≡ loads.block s'.world (boot_kernel_lba + i))
          × (loads.mem r.1.world (boot_dtb_addr + j * sd_block_size)
              ≡ loads.block s'.world (boot_dtb_lba + j))
          × (reg keeps r.1 (rifsc_cidcfgr c) ≡ (if (c == 97) || (c == 100) then 0x21 else 0))
  unfolding my_printf
  cmd_boot-started loads keeps apart argc arg1 arg2 arg3 i j c s s' ready h1 h2 h3 hi hj hc =
      let n = if leb 1 argc then arg1 else boot_kernel_blocks in
      let m1 = (my_printf "boot: loading kernel (%u blocks)" (num n ∷ []) s').1 in
      let k = kernel_loaded n s' in
      let m2 = (my_printf "\r\nboot: loading dtb" [] k.1).1 in
      let d = dtb_loaded k.1 in
      let kernel_at = boot_kernel_addr + i * sd_block_size in
      let dtb_at = boot_dtb_addr + j * sd_block_size in
      let a =
        load_region-loaded board loads n boot_kernel_lba boot_kernel_addr i 0 (boot_dtb_lba + j) m1
          h2 (omega arith) hi (omega arith) in
      let b =
        load_region-loaded board loads boot_dtb_blocks boot_dtb_lba boot_dtb_addr j kernel_at 0 m2
          h3 (omega arith) hj (omega arith) in
      let path = cmd_boot-path argc arg1 arg2 arg3 s s' ready a.0 b.0 in
      let ends = λ (x : ℕ) (y : List ℕ) (h : loads.mem d.1.world x ≡ y).
        (hand_over-Stays (apart x y)).after d.1 h in
      (
        ap (λ r. r.0) path,
        ap (λ r. loads.mem r.1.world kernel_at) path ∙ ends kernel_at _ (b.2 ∙ a.1),
        ap (λ r. loads.mem r.1.world dtb_at) path ∙ ends dtb_at _ (b.1 ∙ a.3),
        ap (λ r. reg keeps r.1 (rifsc_cidcfgr c)) path ∙ (hand_over-Leaves keeps c hc).at_end d.1,
      )
