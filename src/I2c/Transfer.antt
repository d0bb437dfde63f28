-- ===== src/I2c/Transfer.antt =====
-- How a transfer fails: the device refuses a byte, or the flag does not come.
use stm32mp257_test_board.Prelude.{
  ℕ, zero, suc, ◌-◌, ◌<◌, Bool, true, false, bit_and, bit_or, ◌==◌, ◌≡◌, refl, ap₂, ◌∙◌, arith,
}
use stm32mp257_test_board.Io.{Mmio, Machine, Act, pure, ◌>>◌, mmio_read_32, mmio_write_32}
use stm32mp257_test_board.Io.Wait.{after_reads, seen}
use stm32mp257_test_board.I2c.{
  i2c_cr2, i2c_isr, i2c_icr, isr_nackf, isr_txis, i2c_timeout, cr2_start, cr2_autoend, transfer_of,
  set_last_isr, wait_flag_from, wait_flag, i2c_write_reg,
}

-- Neither a refusal nor the flag.
pub record Quiet (flag isr : ℕ) : Type 0 where
  pub accepted : (bit_and isr isr_nackf == 0) ≡ true
  pub pending : (bit_and isr flag == 0) ≡ true

suc_zero : (n : ℕ) → (suc n == 0) ≡ false
suc_zero n = ground arith

module _ {hw : Mmio} where
  -- The machine after the refusal at read number `j`, which is recorded and cleared.
  pub after_refusal : ℕ → Machine hw → Machine hw
  after_refusal j m =
      (mmio_write_32 i2c_icr isr_nackf
        (set_last_isr (seen j i2c_isr m) (after_reads (suc j) i2c_isr m)).1).1

  -- One turn of the loop, by the two tests.
  abbrev pub turn : Bool → Bool → ℕ → ℕ → ℕ → Act hw Bool
  turn quiet pending n flag isr = elim quiet [
    | false ↦ do set_last_isr isr; mmio_write_32 i2c_icr isr_nackf; pure false
    | true ↦ elim pending [
      | false ↦ pure true
      | true ↦ elim (n == 0) [
        | true ↦ set_last_isr isr >> pure false
        | false ↦ wait_flag_from n flag
      ]
    ]
  ]

  pub wait_turn :
      (n flag : ℕ) (quiet pending : Bool) (m : Machine hw)
      → (bit_and (seen 0 i2c_isr m) isr_nackf == 0) ≡ quiet
      → (bit_and (seen 0 i2c_isr m) flag == 0) ≡ pending
      → wait_flag_from (suc n) flag m
        ≡ turn quiet pending n flag (seen 0 i2c_isr m) (mmio_read_32 i2c_isr m).1
  unfolding wait_flag_from after_reads
  wait_turn n flag quiet pending m p q =
      ap₂ (λ a b. turn a b n flag (seen 0 i2c_isr m) (mmio_read_32 i2c_isr m).1) p q

  pub wait_on :
      (n flag : ℕ) (m : Machine hw)
      → Quiet flag (seen 0 i2c_isr m)
      → wait_flag_from (suc (suc n)) flag m ≡ wait_flag_from (suc n) flag (mmio_read_32 i2c_isr m).1
  wait_on n flag m quiet =
      wait_turn (suc n) flag true true m quiet.accepted quiet.pending ∙ rw (turn, suc_zero n) refl

  wait_flag_from-refused :
      (n j flag : ℕ) (m : Machine hw)
      → j < n
      → ((i : ℕ) → i < j → Quiet flag (seen i i2c_isr m))
      → (bit_and (seen j i2c_isr m) isr_nackf == 0) ≡ false
      → wait_flag_from n flag m ≡ (false, after_refusal j m)
  unfolding wait_flag_from after_reads after_refusal
  wait_flag_from-refused zero j flag m h before now = absurd (omega arith)
  wait_flag_from-refused (suc n) zero flag m h before now = wait_turn n flag false _ m now refl
  wait_flag_from-refused (suc zero) (suc j) flag m h before now = absurd (omega arith)
  wait_flag_from-refused (suc (suc n)) (suc j) flag m h before now =
      wait_on n flag m (before 0 (omega arith))
      ∙ (wait_flag_from-refused (suc n) j flag (mmio_read_32 i2c_isr m).1 (omega arith)
          (λ i lt. before (suc i) (omega arith)) now)

  wait_flag_from-timeout :
      (n flag : ℕ) (m : Machine hw)
      → ((i : ℕ) → i < suc n → Quiet flag (seen i i2c_isr m))
      → wait_flag_from (suc n) flag m
        ≡ (false, (set_last_isr (seen n i2c_isr m) (after_reads (suc n) i2c_isr m)).1)
  unfolding wait_flag_from after_reads
  wait_flag_from-timeout zero flag m before =
      wait_turn 0 flag true true m (before 0 (omega arith)).accepted
        (before 0 (omega arith)).pending
  wait_flag_from-timeout (suc n) flag m before =
      wait_on n flag m (before 0 (omega arith))
      ∙ (wait_flag_from-timeout n flag (mmio_read_32 i2c_isr m).1
          (λ i lt. before (suc i) (omega arith)))

  wait_flag_from-ready :
      (n j flag : ℕ) (m : Machine hw)
      → j < n
      → ((i : ℕ) → i < j → Quiet flag (seen i i2c_isr m))
      → (bit_and (seen j i2c_isr m) isr_nackf == 0) ≡ true
      → (bit_and (seen j i2c_isr m) flag == 0) ≡ false
      → wait_flag_from n flag m ≡ (true, after_reads (suc j) i2c_isr m)
  unfolding wait_flag_from after_reads
  wait_flag_from-ready zero j flag m h before now ready = absurd (omega arith)
  wait_flag_from-ready (suc n) zero flag m h before now ready =
      wait_turn n flag true false m now ready
  wait_flag_from-ready (suc zero) (suc j) flag m h before now ready = absurd (omega arith)
  wait_flag_from-ready (suc (suc n)) (suc j) flag m h before now ready =
      wait_on n flag m (before 0 (omega arith))
      ∙ (wait_flag_from-ready (suc n) j flag (mmio_read_32 i2c_isr m).1 (omega arith)
          (λ i lt. before (suc i) (omega arith)) now ready)

  -- The machine once a write of one register has started.
  abbrev pub write_started : ℕ → Machine hw → Machine hw
  write_started dev m =
      (mmio_write_32 i2c_cr2 (bit_or (bit_or (transfer_of dev 2) cr2_start) cr2_autoend) m).1

  -- Where the first `j` reads of the status register after the start show neither a refusal
  -- nor room for a byte, for `j` below 2000000, and the next shows a refusal, `i2c_write_reg`
  -- ends with -1 after these reads; it stores the refusing status in `i2c_last_isr`, clears
  -- the refusal and sends no byte.
  pub i2c_write_reg-refused :
      (dev reg val j : ℕ) (m : Machine hw)
      → j < i2c_timeout
      → ((i : ℕ) → i < j → Quiet isr_txis (seen i i2c_isr (write_started dev m)))
      → (bit_and (seen j i2c_isr (write_started dev m)) isr_nackf == 0) ≡ false
      → i2c_write_reg dev reg val m ≡ (false, after_refusal j (write_started dev m))
  unfolding i2c_write_reg wait_flag
  i2c_write_reg-refused dev reg val j m h before now =
      rw (wait_flag_from-refused i2c_timeout j isr_txis (write_started dev m) h before now) refl

  -- Where none of the first 2000000 reads of the status register after the start shows a
  -- refusal or room for a byte, `i2c_write_reg` ends with -1 after exactly these reads, stores
  -- the last status in `i2c_last_isr` and sends no byte.
  pub i2c_write_reg-timeout :
      (dev reg val : ℕ) (m : Machine hw)
      → ((i : ℕ) → i < i2c_timeout → Quiet isr_txis (seen i i2c_isr (write_started dev m)))
      → i2c_write_reg dev reg val m ≡ (
        false,
        (set_last_isr
            (seen (i2c_timeout - 1) i2c_isr (write_started dev m))
            (after_reads i2c_timeout i2c_isr (write_started dev m))).1,
      )
  unfolding i2c_write_reg wait_flag
  i2c_write_reg-timeout dev reg val m before =
      rw (wait_flag_from-timeout (i2c_timeout - 1) isr_txis (write_started dev m) before) refl
