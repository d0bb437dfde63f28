-- ===== src/Tests/Load.antt =====
-- bootloader/src/boot.c at concrete inputs, on a board whose memory is filled from the card.
use stm32mp257_test_board.Prelude.{
  ℕ, List, some, ◌+◌, ◌-◌, ◌*◌, ◌/◌, ◌^◌, [], ◌∷◌, true, ltb, leb, ◌==◌, ◌&&◌, if◌then◌else◌, ◌<◌,
  ap, ◌≡◌, refl, arith,
}
use stm32mp257_test_board.Io.{Mmio}
use stm32mp257_test_board.Io.Registers.{Keeps, reg}
use stm32mp257_test_board.Io.Closed.{Closed}
use stm32mp257_test_board.Rif.{rifsc_cidcfgr}
use stm32mp257_test_board.Boot.Launch.{cmd_boot}
use stm32mp257_test_board.Boot.Started.{cmd_boot-started}
use stm32mp257_test_board.Boot.{
  Board, Boot, load_region, sd_block_size, boot_ensure_hw, boot_kernel_lba, boot_kernel_addr,
  boot_dtb_lba, boot_dtb_addr,
}
use stm32mp257_test_board.Boot.Region.{Loads, load_region-loaded}

-- The memory, by address: a block `b` of the card is the number `b` at its first byte.
-- The memory and the registers.
abbrev hw : Mmio
hw = record {
  World = (ℕ → ℕ) × (ℕ → ℕ);
  read = λ a w. (w.1 a, w);
  write = λ a v w. (w.0, λ b. if b == a then v else w.1 b);
  cntpct = λ w. (0, w);
  cntfrq = λ w. 0;
  set_cntfrq = λ f w. w;
}

abbrev board : Board
board = record {
  hw = hw;
  ddr_get_size = λ w. 2 ^ 32;
  ddr_init = λ w. (w, true);
  sd_size_bytes = λ w. 2 ^ 32;
  sd_init = λ w. (w, true);
  sd_read = λ w lba dest len. (
    (λ a. if leb dest a && ltb a (dest + len) then lba + (a - dest) / 512 else w.0 a, w.1),
    true,
  );
  word = λ w a. w.0 a;
  call = λ w a. (0, w);
  cpuectlr = λ w. 0;
}

hit :
    (old lba dest cnt i : ℕ)
    → i < cnt
    → (if leb dest (dest + i * 512) && ltb (dest + i * 512) (dest + cnt * 512)
        then lba + (dest + i * 512 - dest) / 512
        else old)
      ≡ lba + i
hit old lba dest cnt i h = ground arith

miss :
    (old lba dest cnt a : ℕ)
    → a < dest
    → (if leb dest a && ltb a (dest + cnt * 512) then lba + (a - dest) / 512 else old) ≡ old
miss old lba dest cnt a h = ground arith

abbrev loads : Loads board
loads = record {
  size = 2 ^ 23;
  size_bound = omega arith;
  block = λ w i. i ∷ [];
  mem = λ w a. w.0 a ∷ [];
  reads = λ w lba dest cnt p q r. record {
    ok = refl;
    stored = λ i h k. ap (λ n. n ∷ []) (hit (w.0 (dest + i * 512)) lba dest cnt i k);
    below = λ a h. ap (λ n. n ∷ []) (miss (w.0 a) lba dest cnt a (omega arith));
    card = λ i. refl;
  };
}

abbrev start : Boot board
start = record { world = (λ a. 0, λ a. 0); i2c_last_isr = 0; log = [] }

load_region-loaded_example :
    let r = load_region board 5000 100 4096 start in
    (r.0 ≡ true)
    × (loads.mem r.1.world (4096 + 4999 * sd_block_size) ≡ loads.block start.world (100 + 4999))
    × (loads.mem r.1.world 3584 ≡ loads.mem start.world 3584)
    × (loads.block r.1.world 9 ≡ loads.block start.world 9)
load_region-loaded_example =
    load_region-loaded board loads 5000 100 4096 4999 3584 9 start (omega arith) (omega arith)
      (omega arith) (omega arith)

abbrev keeps : Keeps hw
keeps = record { at = λ w a. w.1 a; read-at = λ w a. refl; write-at = λ w a v b. refl }

apart : (a : ℕ) (x : List ℕ) → Closed hw (λ w. loads.mem w a ≡ x)
apart a x = record { by_read = λ b w h. h; by_write = λ b v w h. h }

cmd_boot-started_example :
    let r = cmd_boot board 1 5000 0 0 start in
    (r.0 ≡ some (boot_dtb_addr, boot_kernel_addr))
    × (loads.mem r.1.world (boot_kernel_addr + 4999 * sd_block_size)
        ≡ loads.block start.world (boot_kernel_lba + 4999))
    × (loads.mem r.1.world (boot_dtb_addr + 511 * sd_block_size)
        ≡ loads.block start.world (boot_dtb_lba + 511))
    × (reg keeps r.1 (rifsc_cidcfgr 100) ≡ 0x21)
unfolding boot_ensure_hw
cmd_boot-started_example =
    cmd_boot-started board loads keeps apart 1 5000 0 0 4999 511 100 start start refl (omega arith)
      (omega arith) (omega arith) (omega arith) (omega arith) (omega arith)
