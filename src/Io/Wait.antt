-- ===== src/Io/Wait.antt =====
-- The bounded polling loops of bootloader/drivers and bootloader/src/boot.c.
use stm32mp257_test_board.Prelude.{ℕ, zero, suc, ◌<◌, Bool, true, false, ◌≡◌, refl, arith}
use stm32mp257_test_board.Io.{Mmio, Machine, Act, mmio_read_32}

module _ {hw : Mmio} where
  -- `while (!ready(mmio_read_32(addr))) if (--n == 0) ...;`: whether it was seen ready within `n`
  -- reads.
  unfoldable pub poll : ℕ → (ℕ → Bool) → ℕ → Act hw Bool
  poll zero ready addr m = (false, m)
  poll (suc n) ready addr m =
      let (v, m') = mmio_read_32 addr m in
      elim (ready v) [ true ↦ (true, m') | false ↦ poll n ready addr m' ]

  -- The machine after `k` reads of a register, and what the read after them gives.
  unfoldable pub after_reads : ℕ → ℕ → Machine hw → Machine hw
  after_reads zero addr m = m
  after_reads (suc k) addr m = after_reads k addr (mmio_read_32 addr m).1

  abbrev pub seen : ℕ → ℕ → Machine hw → ℕ
  seen k addr m = (mmio_read_32 addr (after_reads k addr m)).0

  -- A register that is ready at its read number `k` for the first time.
  pub poll_ready :
      (n k addr : ℕ) (ready : ℕ → Bool) (m : Machine hw)
      → k < n
      → ((j : ℕ) → j < k → ready (seen j addr m) ≡ false)
      → ready (seen k addr m) ≡ true
      → poll n ready addr m ≡ (true, after_reads (suc k) addr m)
  unfolding poll after_reads
  poll_ready zero k addr ready m lt before now = absurd (omega arith)
  poll_ready (suc n) zero addr ready m lt before now = rw (poll, now) refl
  poll_ready (suc n) (suc k) addr ready m lt before now =
      rw (poll, before 0 (omega arith))
        (poll_ready n k addr ready (mmio_read_32 addr m).1 (omega arith)
          (λ j h. before (suc j) (omega arith)) now)

  -- A register that is not ready for `n` reads.
  pub poll_timeout :
      (n addr : ℕ) (ready : ℕ → Bool) (m : Machine hw)
      → ((j : ℕ) → j < n → ready (seen j addr m) ≡ false)
      → poll n ready addr m ≡ (false, after_reads n addr m)
  unfolding poll after_reads
  poll_timeout zero addr ready m never = refl
  poll_timeout (suc n) addr ready m never =
      rw (poll, never 0 (omega arith))
        (poll_timeout n addr ready (mmio_read_32 addr m).1 (λ j h. never (suc j) (omega arith)))
