-- ===== src/Boot.antt =====
-- bootloader/src/boot.c: what the commands `load_sd` and `jump` do before they leave the bootloader.
use stm32mp257_test_board.Prelude.{
  ℕ, zero, suc, ◌+◌, ◌-◌, ◌*◌, ◌/◌, ◌%◌, ◌^◌, List, [], ◌∷◌, ◌++◌, Bool, true, false, not, ltb, leb,
  ◌==◌, if◌then◌else◌,
}
use stm32mp257_test_board.Log.{Event, printf, num}
use stm32mp257_test_board.Io.{Mmio, Machine}
pub mod Region
pub mod Launch
pub mod Handoff
pub mod Started

-- The DDR driver, the SD card and the memory, which boot.c reaches through ddr.h, sd.h and pointers.
-- The tests of a call's result for 0 are Booleans.
pub record Board : Type 1 where
  pub hw : Mmio
  pub ddr_get_size : hw.World → ℕ
  pub ddr_init : hw.World → hw.World × Bool
  pub sd_size_bytes : hw.World → ℕ
  pub sd_init : hw.World → hw.World × Bool
  pub sd_read : hw.World → ℕ → ℕ → ℕ → hw.World × Bool
  pub word : hw.World → ℕ → ℕ
  -- The program at an address, with its result, and the register CPUECTLR of the core.
  pub call : hw.World → ℕ → ℕ × hw.World
  pub cpuectlr : hw.World → ℕ

abbrev load_chunk_blocks : ℕ
load_chunk_blocks = 2048

abbrev pub sd_block_size : ℕ
sd_block_size = 512

abbrev pub boot_kernel_lba : ℕ
boot_kernel_lba = 262144

abbrev pub boot_kernel_blocks : ℕ
boot_kernel_blocks = 49152

abbrev pub boot_kernel_addr : ℕ
boot_kernel_addr = 0x84000000

abbrev pub boot_dtb_lba : ℕ
boot_dtb_lba = 327680

abbrev pub boot_dtb_blocks : ℕ
boot_dtb_blocks = 512

abbrev pub boot_dtb_addr : ℕ
boot_dtb_addr = 0x86000000

-- The blocks of the next read.
unfoldable pub next_count : ℕ → ℕ
next_count left = if ltb load_chunk_blocks left then load_chunk_blocks else left

module _ (board : Board) where
  open board use {hw, ddr_get_size, ddr_init, sd_size_bytes, sd_init, sd_read, word}

  abbrev pub Boot : Type 0
  Boot = Machine hw

  unfoldable pub say : Event → Boot → Boot
  say e s = record s { log = s.log ++ e ∷ [] }

  -- The second half of `boot_ensure_hw`.
  unfoldable pub ensure_sd : Boot → Bool × Boot
  unfolding say
  ensure_sd s =
      if sd_size_bytes s.world == 0
      then (let (w, ok) = sd_init s.world in
          if ok
          then (true, record s { world = w })
          else (false, say (printf "SD init FAILED\r\n" []) (record s { world = w })))
      else (true, s)

  unfoldable pub boot_ensure_hw : Boot → Bool × Boot
  unfolding ensure_sd say
  boot_ensure_hw s =
      if ddr_get_size s.world == 0
      then (let (w, ok) = ddr_init s.world in
          let s' = record (say (printf "(ddr init...)\r\n" []) s) { world = w } in
          if ok then ensure_sd s' else (false, say (printf "DDR init FAILED\r\n" []) s'))
      else ensure_sd s

  -- The loop of `load_region`; every turn loads a block at least, so `n` turns are enough.
  unfoldable pub load_from : ℕ → ℕ → ℕ → ℕ → ℕ → Boot → Bool × Boot
  unfolding next_count say
  load_from zero n lba dest done s = (not (ltb done n), s)
  load_from (suc fuel) n lba dest done s =
      let cnt = next_count (n - done) in
      let (w, ok) =
        sd_read s.world ((lba + done) % 2 ^ 32) ((dest + done * sd_block_size) % 2 ^ 32)
          (cnt * sd_block_size) in
      let rest =
        load_from fuel n lba dest (done + cnt) (say (printf "." []) (record s { world = w })) in
      if not (ltb done n) then (true, s) else if ok then rest else (
        false,
        say (printf "\r\nload: read FAILED at block %u\r\n" (num ((lba + done) % 2 ^ 32) ∷ []))
            (record s { world = w }),
      )

  unfoldable pub load_region : ℕ → ℕ → ℕ → Boot → Bool × Boot
  unfolding load_from
  load_region n lba dest s = load_from n n lba dest 0 s

  -- The sum of `k` words from `p[i]` on, added to `sum`.
  unfoldable pub sum_words : hw.World → ℕ → ℕ → ℕ → ℕ → ℕ
  sum_words w p zero i sum = sum
  sum_words w p (suc k) i sum = sum_words w p k (i + 1) ((sum + word w (p + 4 * i)) % 2 ^ 32)

  unfoldable pub cmd_load_sd : ℕ → ℕ → ℕ → ℕ → Boot → Boot
  unfolding boot_ensure_hw load_region sum_words say
  cmd_load_sd argc arg1 arg2 arg3 s =
      let n = if leb 1 argc then arg1 else boot_kernel_blocks in
      let lba = if leb 2 argc then arg2 else boot_kernel_lba in
      let dest = if leb 3 argc then arg3 else boot_kernel_addr in
      let (ready, s1) = boot_ensure_hw s in
      let (loaded, s2) = load_region n lba dest s1 in
      let sum = sum_words s2.world dest (n * (sd_block_size / 4) % 2 ^ 32) 0 0 in
      if not ready
      then s1
      else if not loaded
      then s2
      else say
          (printf "\r\nloaded %u blocks from %u to 0x%08X sum 0x%08X\r\n"
            (num n ∷ num lba ∷ num dest ∷ num sum ∷ []))
          s2
