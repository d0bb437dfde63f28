-- ===== src/I2c/Device.antt =====
-- A device that answers on the bus of bootloader/drivers/i2c.c, as its controller shows it, and the waits
-- for it.
use stm32mp257_test_board.Prelude.{
  ℕ, zero, suc, ◌%◌, ◌^◌, ◌≤◌, ◌<◌, Bool, true, false, not, bit_and, bit_or, ◌==◌, if◌then◌else◌,
  ◌≡◌, ◌≢◌, refl, sym, subst, ap, ◌∙◌, arith,
}
use stm32mp257_test_board.Io.{Mmio, Machine, mmio_read_32, mmio_write_32, bit_mask}
use stm32mp257_test_board.Io.Wait.{poll, after_reads}
use stm32mp257_test_board.I2c.{
  i2c_cr2, i2c_isr, i2c_icr, i2c_txdr, i2c_rxdr, isr_nackf, isr_txis, isr_tc, isr_rxne, isr_stopf,
  i2c_timeout, cr2_start, cr2_autoend, cr2_rd_wrn, transfer_of, wait_flag_from, wait_flag,
  wait_stop,
}
use stm32mp257_test_board.I2c.Transfer.{Quiet, wait_turn, wait_on}

-- How far a transfer is: nothing, a read or a write that has addressed the device, one that has named
-- a register, the byte of a read, and the stop.
pub data Phase : Type 0 where
  idle : Phase
  reading : Phase
  read_at : ℕ → Phase
  fetching : ℕ → Phase
  writing : Phase
  write_at : ℕ → Phase
  stopping : Phase

-- The flag that shows that the next byte may follow, or that the stop is done; none where nothing is
-- under way.
abbrev pub flag_of : Phase → ℕ
flag_of idle = 0
flag_of reading = isr_txis
flag_of (read_at r) = isr_tc
flag_of (fetching r) = isr_rxne
flag_of writing = isr_txis
flag_of (write_at r) = isr_txis
flag_of stopping = isr_stopf

-- The registers of the device, the transfer, and how many more times the status shows nothing; `delay`
-- bounds that wait.
pub record Bus (hw : Mmio) : Type 0 where
  pub regs : hw.World → ℕ → ℕ
  pub phase : hw.World → Phase
  pub busy : hw.World → ℕ

module _ {hw : Mmio} (bus : Bus hw) (delay : ℕ) where
  open bus use {regs, phase, busy}

  -- The world behind an access, with the device's registers as `f`.
  pub record Next (p : Phase) (f : ℕ → ℕ) (w : hw.World) : Type 0 where
    pub now : phase w ≡ p
    pub holds : regs w ≡ f
    pub soon : busy w ≤ delay

  -- The device at the address `dev` accepts every byte; its registers hold bytes, and so do their
  -- numbers.
  pub record Answers (dev : ℕ) : Type 0 where
    pub still_busy :
        (w : hw.World) (n : ℕ)
        → phase w ≢ idle
        → busy w ≡ suc n
        → let (v, w') = hw.read i2c_isr w in
          Quiet (flag_of (phase w)) v × (phase w' ≡ phase w) × (regs w' ≡ regs w) × (busy w' ≡ n)
    pub ready :
        (w : hw.World)
        → phase w ≢ idle
        → busy w ≡ 0
        → let (v, w') = hw.read i2c_isr w in
          ((bit_and v isr_nackf == 0) ≡ true)
          × ((bit_and v (flag_of (phase w)) == 0) ≡ false)
          × (phase w' ≡ phase w)
          × (regs w' ≡ regs w)
          × (busy w' ≡ 0)
    pub begin_read :
        (w : hw.World)
        → phase w ≡ idle
        → Next reading (regs w) (hw.write i2c_cr2 (bit_or (transfer_of dev 1) cr2_start) w)
    pub name_read :
        (w : hw.World) (r : ℕ)
        → phase w ≡ reading
        → busy w ≡ 0
        → Next (read_at r) (regs w) (hw.write i2c_txdr r w)
    pub restart :
        (w : hw.World) (r : ℕ)
        → phase w ≡ read_at r
        → busy w ≡ 0
        → Next (fetching r) (regs w) (
            hw.write i2c_cr2
              (bit_or (bit_or (bit_or (transfer_of dev 1) cr2_start) cr2_rd_wrn) cr2_autoend)
              w)
    pub fetch :
        (w : hw.World) (r : ℕ)
        → phase w ≡ fetching r
        → busy w ≡ 0
        → (bit_and (hw.read i2c_rxdr w).0 0xFF ≡ regs w r)
          × Next stopping (regs w) (hw.read i2c_rxdr w).1
    pub begin_write :
        (w : hw.World)
        → phase w ≡ idle
        → Next writing
            (regs w)
            (hw.write i2c_cr2 (bit_or (bit_or (transfer_of dev 2) cr2_start) cr2_autoend) w)
    pub name_write :
        (w : hw.World) (r : ℕ)
        → phase w ≡ writing
        → busy w ≡ 0
        → Next (write_at r) (regs w) (hw.write i2c_txdr r w)
    pub store :
        (w : hw.World) (r v : ℕ)
        → phase w ≡ write_at r
        → busy w ≡ 0
        → Next stopping (λ j. if j == r then v % 2 ^ 8 else regs w j) (hw.write i2c_txdr v w)
    pub stop :
        (w : hw.World)
        → phase w ≡ stopping
        → busy w ≡ 0
        → Next idle (regs w) (hw.write i2c_icr (bit_mask 5) w)

  -- A wait that has come to its end.
  pub record Came (m : Machine hw) (r : Bool × Machine hw) : Type 0 where
    pub done : r.0 ≡ true
    pub same_phase : phase r.1.world ≡ phase m.world
    pub same_regs : regs r.1.world ≡ regs m.world
    pub free : busy r.1.world ≡ 0

  module _ {dev : ℕ} (answers : Answers dev) where
    open answers use {still_busy, ready}

    busy_at : {p q : Phase} → q ≡ p → p ≢ idle → q ≢ idle
    busy_at a u e = u (sym a ∙ e)

    stopping≢idle : stopping ≢ idle
    stopping≢idle = ground arith

    wait_from :
        (p : Phase) (n k : ℕ) (m : Machine hw)
        → p ≢ idle
        → phase m.world ≡ p
        → busy m.world ≡ k
        → k < n
        → Came m (wait_flag_from n (flag_of p) m)
    unfolding after_reads mmio_read_32
    wait_from p zero k m u a e h = absurd (omega arith)
    wait_from p (suc n) zero m u a e h =
        let (calm, shown, q, f, b) = ready m.world (busy_at a u) e in
        let shows =
          subst (λ t. (bit_and (hw.read i2c_isr m.world).0 (flag_of t) == 0) ≡ false) a shown in
        rw (wait_turn n (flag_of p) true false m calm shows)
          (record { done = refl; same_phase = q; same_regs = f; free = b })
    wait_from p (suc zero) (suc k) m u a e h = absurd (omega arith)
    wait_from p (suc (suc n)) (suc k) m u a e h =
        let (calm, q, f, b) = still_busy m.world k (busy_at a u) e in
        let m' : Machine hw = record m { world = (hw.read i2c_isr m.world).1 } in
        let c = wait_from p (suc n) k m' u (q ∙ a) b (omega arith) in
        let quiet = subst (λ t. Quiet (flag_of t) (hw.read i2c_isr m.world).0) a calm in
        rw (wait_on n (flag_of p) m quiet) (record {
          done = c.done;
          same_phase = c.same_phase ∙ q;
          same_regs = c.same_regs ∙ f;
          free = c.free;
        })

    pub wait_flag-Came :
        (p : Phase) (m : Machine hw)
        → p ≢ idle
        → phase m.world ≡ p
        → busy m.world < i2c_timeout
        → Came m (wait_flag (flag_of p) m)
    unfolding wait_flag
    wait_flag-Came p m u a h = wait_from p i2c_timeout (busy m.world) m u a refl h

    -- The same for the stop, which is polled without a look at refusals.
    abbrev stopped : ℕ → Bool
    stopped isr = not (bit_and isr isr_stopf == 0)

    abbrev polled : ℕ → Machine hw → Bool → Bool × Machine hw
    polled n m none_yet = elim (not none_yet) [
      | true ↦ (true, (mmio_read_32 i2c_isr m).1)
      | false ↦ poll n stopped i2c_isr (mmio_read_32 i2c_isr m).1
    ]

    poll-Came :
        (n k : ℕ) (m : Machine hw)
        → phase m.world ≡ stopping
        → busy m.world ≡ k
        → k < n
        → Came m (poll n stopped i2c_isr m)
    unfolding poll mmio_read_32
    poll-Came zero k m a e h = absurd (omega arith)
    poll-Came (suc n) zero m a e h =
        let (calm, shown, q, f, b) = ready m.world (busy_at a stopping≢idle) e in
        let shows =
          subst (λ t. (bit_and (hw.read i2c_isr m.world).0 (flag_of t) == 0) ≡ false) a shown in
        subst (Came m) (ap (polled n m) (sym shows))
          (record { done = refl; same_phase = q; same_regs = f; free = b })
    poll-Came (suc n) (suc k) m a e h =
        let (calm, q, f, b) = still_busy m.world k (busy_at a stopping≢idle) e in
        let m' : Machine hw = record m { world = (hw.read i2c_isr m.world).1 } in
        let c = poll-Came n k m' (q ∙ a) b (omega arith) in
        let quiet = subst (λ t. Quiet (flag_of t) (hw.read i2c_isr m.world).0) a calm in
        subst (Came m) (ap (polled n m) (sym quiet.pending)) (record {
          done = c.done;
          same_phase = c.same_phase ∙ q;
          same_regs = c.same_regs ∙ f;
          free = c.free;
        })

    pub wait_stop-Next :
        (m : Machine hw)
        → phase m.world ≡ stopping
        → busy m.world < i2c_timeout
        → Next idle (regs m.world) (wait_stop m).1.world
    unfolding wait_stop mmio_write_32
    wait_stop-Next m a h =
        let c = poll-Came i2c_timeout (busy m.world) m a refl h in
        let t = answers.stop _ (c.same_phase ∙ a) c.free in
        record { now = t.now; holds = t.holds ∙ c.same_regs; soon = t.soon }
