-- ===== src/I2c/Registers.antt =====
-- Reads and writes of bootloader/drivers/i2c.c on a device that answers.
use stm32mp257_test_board.Prelude.{
  ℕ, ◌%◌, ◌^◌, ◌<◌, Option, none, some, Bool, true, false, bit_or, ◌==◌, if◌then◌else◌, ◌≡◌, ◌≢◌,
  refl, sym, subst, ap, ◌∙◌, arith,
}
use stm32mp257_test_board.Io.{Mmio, Machine, Act, pure, or_return, mmio_read_32, mmio_write_32}
use stm32mp257_test_board.I2c.{
  i2c_cr2, i2c_txdr, i2c_rxdr, isr_txis, isr_tc, isr_rxne, i2c_timeout, cr2_start, cr2_autoend,
  cr2_rd_wrn, transfer_of, wait_flag, read_value, i2c_read_reg, i2c_write_reg,
}
use stm32mp257_test_board.I2c.Device.{
  Phase, idle, reading, read_at, fetching, writing, write_at, Bus, Next, Answers, Came,
  wait_flag-Came, wait_stop-Next, flag_of,
}

module _ {hw : Mmio} where
  or_return-done :
      {A : Type 0} (test : Act hw Bool) (code : A) (rest : Act hw A) (m : Machine hw)
      → (test m).0 ≡ true
      → or_return test code rest m ≡ rest (test m).1
  or_return-done test code rest m e = ap (λ ok. (if ok then rest else pure code) (test m).1) e

  -- The writes of the two calls.
  abbrev put : ℕ → ℕ → Machine hw → Machine hw
  put addr v m = (mmio_write_32 addr v m).1

module _ {hw : Mmio} (bus : Bus hw) (delay dev : ℕ) (answers : Answers bus delay dev)
    (few : delay < i2c_timeout) where
  open bus use {regs, phase, busy}

  -- A register was read, and the bus is free.
  pub record Read (m : Machine hw) (reg : ℕ) (r : Option ℕ × Machine hw) : Type 0 where
    pub value : r.0 ≡ some (regs m.world reg)
    pub next : Next bus delay idle (regs m.world) r.1.world

  -- A wait behind a step.
  after_step :
      (p : Phase) (f : ℕ → ℕ) (m : Machine hw)
      → p ≢ idle
      → Next bus delay p f m.world
      → Came bus delay m (wait_flag (flag_of p) m)
  after_step p f m u n = wait_flag-Came bus delay answers p m u n.now (omega (arith, n.soon, few))

  read_value-Read :
      (m : Machine hw) (reg : ℕ)
      → phase m.world ≡ fetching reg
      → busy m.world ≡ 0
      → Read m reg (read_value m)
  unfolding read_value mmio_read_32
  read_value-Read m reg a e =
      let (v, n) = answers.fetch m.world reg a e in
      let s =
        wait_stop-Next bus delay answers (record m { world = (hw.read i2c_rxdr m.world).1 }) n.now
          (omega (arith, n.soon, few)) in
      record {
        value = ap some v;
        next = record { now = s.now; holds = s.holds ∙ n.holds; soon = s.soon };
      }

  -- The bus behind a step and the wait for it: in phase `p`, with the registers as `f`.
  record At (p : Phase) (f : ℕ → ℕ) (m : Machine hw) : Type 0 where
    now : phase m.world ≡ p
    holds : regs m.world ≡ f
    free : busy m.world ≡ 0

  waited :
      (p : Phase) (f : ℕ → ℕ) (m : Machine hw)
      → p ≢ idle
      → Next bus delay p f m.world
      → ((wait_flag (flag_of p) m).0 ≡ true) × At p f (wait_flag (flag_of p) m).1
  waited p f m u n =
      let c = after_step p f m u n in
      (c.done, record { now = c.same_phase ∙ n.now; holds = c.same_regs ∙ n.holds; free = c.free })

  -- A step from where the bus is.
  along :
      (p : Phase) (f g : ℕ → ℕ) (w : hw.World) → g ≡ f → Next bus delay p g w → Next bus delay p f w
  along p f g w e n = record { now = n.now; holds = n.holds ∙ e; soon = n.soon }

  pub i2c_read_reg-Read :
      (m : Machine hw) (reg : ℕ) → phase m.world ≡ idle → Read m reg (i2c_read_reg dev reg m)
  unfolding i2c_read_reg mmio_write_32
  i2c_read_reg-Read m reg a =
      let f = regs m.world in
      let m1 = put i2c_cr2 (bit_or (transfer_of dev 1) cr2_start) m in
      let (ok1, s1) = waited reading f m1 (ground arith) (answers.begin_read m.world a) in
      let m2 = (wait_flag isr_txis m1).1 in
      let m3 = put i2c_txdr reg m2 in
      let (ok2, s2) = waited (read_at reg) f m3 (ground arith) (
        along (read_at reg) f (regs m2.world) m3.world s1.holds
          (answers.name_read m2.world reg s1.now s1.free)) in
      let m4 = (wait_flag isr_tc m3).1 in
      let m5 =
        put i2c_cr2 (bit_or (bit_or (bit_or (transfer_of dev 1) cr2_start) cr2_rd_wrn) cr2_autoend)
          m4 in
      let (ok3, s3) = waited (fetching reg) f m5 (ground arith) (
        along (fetching reg) f (regs m4.world) m5.world s2.holds
          (answers.restart m4.world reg s2.now s2.free)) in
      let m6 = (wait_flag isr_rxne m5).1 in
      let r = read_value-Read m6 reg s3.now s3.free in
      subst (Read m reg)
        (sym (
          or_return-done (wait_flag isr_txis) none _ m1 ok1
          ∙ or_return-done (wait_flag isr_tc) none _ m3 ok2
          ∙ or_return-done (wait_flag isr_rxne) none read_value m5 ok3))
        (record {
          value = r.value ∙ ap (λ g. some (g reg)) s3.holds;
          next = along idle f (regs m6.world) (read_value m6).1.world s3.holds r.next;
        })

  -- A register was written, and the bus is free.
  pub record Written (m : Machine hw) (reg v : ℕ) (r : Bool × Machine hw) : Type 0 where
    pub done : r.0 ≡ true
    pub next : Next bus delay idle (λ j. if j == reg then v % 2 ^ 8 else regs m.world j) r.1.world

  pub i2c_write_reg-Written :
      (m : Machine hw) (reg v : ℕ)
      → phase m.world ≡ idle
      → Written m reg v (i2c_write_reg dev reg v m)
  unfolding i2c_write_reg mmio_write_32
  i2c_write_reg-Written m reg v a =
      let f = regs m.world in
      let m1 = put i2c_cr2 (bit_or (bit_or (transfer_of dev 2) cr2_start) cr2_autoend) m in
      let (ok1, s1) = waited writing f m1 (ground arith) (answers.begin_write m.world a) in
      let m2 = (wait_flag isr_txis m1).1 in
      let m3 = put i2c_txdr reg m2 in
      let (ok2, s2) = waited (write_at reg) f m3 (ground arith) (
        along (write_at reg) f (regs m2.world) m3.world s1.holds
          (answers.name_write m2.world reg s1.now s1.free)) in
      let m4 = (wait_flag isr_txis m3).1 in
      let m5 = put i2c_txdr v m4 in
      let n = answers.store m4.world reg v s2.now s2.free in
      let s = wait_stop-Next bus delay answers m5 n.now (omega (arith, n.soon, few)) in
      subst (Written m reg v)
        (sym (
          or_return-done (wait_flag isr_txis) false _ m1 ok1
          ∙ or_return-done (wait_flag isr_txis) false _ m3 ok2))
        (record {
          done = refl;
          next = record {
            now = s.now;
            holds =
                s.holds ∙ n.holds ∙ ap (λ g (j : ℕ). if j == reg then v % 2 ^ 8 else g j) s2.holds;
            soon = s.soon;
          };
        })
