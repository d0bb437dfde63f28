-- ===== src/Timer.antt =====
-- bootloader/drivers/timer.c: delays and time-outs from the system counter.
use stm32mp257_test_board.Prelude.{ℕ, zero, suc, ◌+◌, ◌*◌, ◌/◌, ◌%◌, ◌^◌, Bool, true, false, ltb}
use stm32mp257_test_board.Io.{
  Mmio, Act, pure, ◌>>=◌, ◌>>◌, bit_mask, mmio_write_32, mmio_setbits_32, mmio_clrbits_32,
}
pub mod Delay

abbrev pub stgen_base : ℕ
stgen_base = 0x48080000

abbrev pub stgen_hz : ℕ
stgen_hz = 64000000

abbrev pub rcc_stgencfgr : ℕ
rcc_stgencfgr = 0x44200000 + 0x824

module _ {hw : Mmio} where
  unfoldable pub timer_init : Act hw (Unit {0})
  timer_init = do
    mmio_setbits_32 rcc_stgencfgr (bit_mask 1)
    mmio_clrbits_32 (stgen_base + 0x00) (bit_mask 0)
    mmio_write_32 (stgen_base + 0x08) 0
    mmio_write_32 (stgen_base + 0x0C) 0
    mmio_write_32 (stgen_base + 0x20) stgen_hz
    mmio_setbits_32 (stgen_base + 0x00) (bit_mask 0)
    λ m. (tt, record m { world = hw.set_cntfrq stgen_hz m.world })

  unfoldable pub read_cntpct : Act hw ℕ
  read_cntpct m = let (t, w) = hw.cntpct m.world in (t, record m { world = w })

  unfoldable pub timer_freq_hz : Act hw ℕ
  timer_freq_hz m = (hw.cntfrq m.world % 2 ^ 32, m)

  unfoldable pub timeout_init_us : ℕ → Act hw ℕ
  timeout_init_us us = do
    t ← read_cntpct
    f ← timer_freq_hz
    pure ((t + us * f % 2 ^ 64 / 1000000) % 2 ^ 64)

  unfoldable pub timeout_elapsed : ℕ → Act hw Bool
  timeout_elapsed expire = do t ← read_cntpct; pure (ltb expire t)

  -- The loop of `udelay`, on fuel: whether the time has elapsed.
  unfoldable pub delay_until : ℕ → ℕ → Act hw Bool
  delay_until zero expire = pure false
  delay_until (suc fuel) expire = do
    elapsed ← timeout_elapsed expire
    elim elapsed [ true ↦ pure true | false ↦ delay_until fuel expire ]

  unfoldable pub udelay : ℕ → ℕ → Act hw Bool
  udelay fuel us = do expire ← timeout_init_us us; delay_until fuel expire
