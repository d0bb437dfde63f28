-- ===== src/Tests/Chip.antt =====
-- bootloader/drivers/pmic.c with a chip on the bus that answers at the second look.
use stm32mp257_test_board.Prelude.{
  ℕ, zero, suc, ◌%◌, ◌^◌, [], Bool, true, false, Bool-cases, inl, inr, bit_and, bit_or, ◌==◌,
  if◌then◌else◌, ◌≡◌, ◌≢◌, refl, arith,
}
use stm32mp257_test_board.Io.{Mmio, Machine}
use stm32mp257_test_board.Io.Bits.{all_below, all_below_lem}
use stm32mp257_test_board.I2c.{
  i2c_cr2, i2c_isr, i2c_txdr, isr_nackf, cr2_start, cr2_autoend, transfer_of,
}
use stm32mp257_test_board.I2c.Device.{
  Phase, idle, reading, read_at, fetching, writing, write_at, stopping, flag_of, Bus, Answers,
}
use stm32mp257_test_board.Pmic.{pmic_addr, pmic_init_rails}
use stm32mp257_test_board.Pmic.Voltages.{Powers, pmic_init_rails-Powers}

pub record Chip : Type 0 where
  step : Phase
  wait : ℕ
  mem : ℕ → ℕ

abbrev shown : ℕ → ℕ → ℕ
shown zero flag = flag
shown (suc n) flag = 0

abbrev less : ℕ → ℕ
less zero = zero
less (suc n) = n

abbrev byte : Phase → (ℕ → ℕ) → ℕ
byte idle m = 0
byte reading m = 0
byte (read_at r) m = 0
byte (fetching r) m = m r % 256
byte writing m = 0
byte (write_at r) m = 0
byte stopping m = 0

-- A write of the control register, by its value, and of the data register.
abbrev begun : Bool → Phase → Phase
begun writes idle = if writes then writing else reading
begun writes reading = reading
begun writes (read_at r) = fetching r
begun writes (fetching r) = fetching r
begun writes writing = writing
begun writes (write_at r) = write_at r
begun writes stopping = stopping

abbrev given : ℕ → Phase → Phase
given v idle = idle
given v reading = read_at v
given v (read_at r) = read_at r
given v (fetching r) = fetching r
given v writing = write_at v
given v (write_at r) = stopping
given v stopping = stopping

abbrev kept : ℕ → Phase → (ℕ → ℕ) → ℕ → ℕ
kept v idle m = m
kept v reading m = m
kept v (read_at r) m = m
kept v (fetching r) m = m
kept v writing m = m
kept v (write_at r) m = λ j. if j == r then v else m j
kept v stopping m = m

abbrev write_word : ℕ
write_word = bit_or (bit_or (transfer_of pmic_addr 2) cr2_start) cr2_autoend

abbrev hw : Mmio
hw = record {
  World = Chip;
  read = λ a w.
      if a == i2c_isr
      then (shown w.wait (flag_of w.step), record w { wait = less w.wait })
      else (byte w.step w.mem, record w { step = stopping; wait = 1 });
  write = λ a v w.
      if a == i2c_cr2
      then record w { step = begun (v == write_word) w.step; wait = 1 }
      else if a == i2c_txdr
      then record { step = given v w.step; wait = 1; mem = kept v w.step w.mem }
      else record w { step = idle; wait = 1 };
  cntpct = λ w. (0, w);
  cntfrq = λ w. 64000000;
  set_cntfrq = λ f w. w;
}

abbrev bus : Bus hw
bus = record { regs = λ w j. w.mem j % 2 ^ 8; phase = λ w. w.step; busy = λ w. w.wait }

no_refusal : (p : Phase) → (bit_and (flag_of p) isr_nackf == 0) ≡ true
no_refusal idle = refl
no_refusal reading = refl
no_refusal (read_at r) = refl
no_refusal (fetching r) = refl
no_refusal writing = refl
no_refusal (write_at r) = refl
no_refusal stopping = refl

flag_shown : (p : Phase) → p ≢ idle → (bit_and (flag_of p) (flag_of p) == 0) ≡ false
flag_shown idle u = absurd (u refl)
flag_shown reading u = refl
flag_shown (read_at r) u = refl
flag_shown (fetching r) u = refl
flag_shown writing u = refl
flag_shown (write_at r) u = refl
flag_shown stopping u = refl

bytes : all_below 256 (λ v. bit_and v 0xFF == v) ≡ true
unfolding all_below
bytes = refl

low : (v : ℕ) → bit_and (v % 256) 0xFF ≡ v % 256
low v = ground (arith, all_below_lem 256 (λ v. bit_and v 0xFF == v) (v % 256) bytes (omega arith))

no_flag : (p : Phase) → (bit_and 0 (flag_of p) == 0) ≡ true
no_flag idle = refl
no_flag reading = refl
no_flag (read_at r) = refl
no_flag (fetching r) = refl
no_flag writing = refl
no_flag (write_at r) = refl
no_flag stopping = refl

same :
    (r v : ℕ) (m : ℕ → ℕ) (j : ℕ)
    → (if j == r then v else m j) % 2 ^ 8 ≡ (if j == r then v % 2 ^ 8 else m j % 2 ^ 8)
same r v m j = elim (Bool-cases (j == r)) [ inl e ↦ rw e refl | inr e ↦ rw e refl ]

answers : Answers bus 1 pmic_addr
answers = record {
  still_busy =
      λ w n u e. rw e (record { accepted = refl; pending = no_flag w.step }, refl, refl, refl);
  ready = λ w u e. rw e (no_refusal w.step, flag_shown w.step u, refl, refl, refl);
  begin_read = λ w e. record { now = rw e refl; holds = refl; soon = omega arith };
  name_read = λ w r e b. record { now = rw e refl; holds = rw e refl; soon = omega arith };
  restart = λ w r e b. record { now = rw e refl; holds = refl; soon = omega arith };
  fetch =
      λ w r e b. (rw e (low (w.mem r)), record { now = refl; holds = refl; soon = omega arith });
  begin_write = λ w e. record { now = rw e refl; holds = refl; soon = omega arith };
  name_write = λ w r e b. record { now = rw e refl; holds = rw e refl; soon = omega arith };
  store = λ w r v e b. record {
    now = rw e refl;
    holds = rw e (λ i j. same r v w.mem j i);
    soon = omega arith;
  };
  stop = λ w e b. record { now = refl; holds = refl; soon = omega arith };
}

abbrev start : Machine hw
start = record {
  world = record { step = idle; wait = 0; mem = λ j. 0 };
  i2c_last_isr = 0;
  log = [];
}

pmic_init_rails-Powers_example :
    let r = pmic_init_rails start in
    (r.0 ≡ true) × (r.1.world.step ≡ idle) × Powers (λ j. 0) (bus.regs r.1.world)
pmic_init_rails-Powers_example =
    pmic_init_rails-Powers bus 1 answers (omega arith) start refl (omega arith) (λ j. omega arith)
