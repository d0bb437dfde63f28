-- ===== src/Timer/Delay.antt =====
-- A delay ends, and not early.
use stm32mp257_test_board.Prelude.{
  ℕ, zero, suc, ◌+◌, ◌-◌, ◌*◌, ◌/◌, ◌%◌, ◌^◌, ◌<◌, Bool, true, false, ltb, ltb→lt, ◌≡◌, refl, subst,
  arith,
}
use stm32mp257_test_board.Io.{Mmio, Machine, Act, pure}
use stm32mp257_test_board.Timer.{
  read_cntpct, timer_freq_hz, timeout_init_us, timeout_elapsed, delay_until, udelay,
}

-- A counter that is higher at each read.
pub record Rising (hw : Mmio) : Type 0 where
  pub time : hw.World → ℕ
  pub shows : (w : hw.World) → (hw.cntpct w).0 ≡ time w
  pub goes : (w : hw.World) → time w < time (hw.cntpct w).1

module _ {hw : Mmio} (rising : Rising hw) where
  open rising use {time, shows, goes}

  record Elapsed (expire : ℕ) (r : Bool × Machine hw) : Type 0 where
    done : r.0 ≡ true
    passed : expire < time r.1.world

  abbrev turn : Bool → ℕ → ℕ → Act hw Bool
  turn b fuel expire = elim b [ true ↦ pure true | false ↦ delay_until fuel expire ]

  delay_until-Elapsed :
      (fuel expire : ℕ) (m : Machine hw)
      → expire + 1 - time m.world < fuel
      → Elapsed expire (delay_until fuel expire m)
  unfolding delay_until timeout_elapsed read_cntpct
  delay_until-Elapsed zero expire m h = absurd (omega arith)
  delay_until-Elapsed (suc fuel) expire m h =
      let (t, w) = hw.cntpct m.world in
      let m' : Machine hw = record m { world = w } in
      (elim (ltb expire t) as (λ b. ltb expire t ≡ b → Elapsed expire (turn b fuel expire m')) [
        | true ↦ λ e. record {
          done = refl;
          passed = omega (arith, ltb→lt expire t e, shows m.world, goes m.world);
        }
        | false ↦
            λ e. delay_until-Elapsed fuel expire m' (ground (arith, e, shows m.world, goes m.world))
      ])
        refl

  expire_lem :
      (d t now : ℕ)
      → t ≡ now
      → d < 2 ^ 64
      → now + d / 1000000 < 2 ^ 64
      → (t + d % 2 ^ 64 / 1000000) % 2 ^ 64 ≡ now + d / 1000000
  expire_lem d t now e a b = omega arith

  -- On a counter that is higher at each read, and where neither the ticks times 1000000 nor
  -- the end reach 2 ^ 64, `udelay` ends within as many rounds as the delay has ticks, and one
  -- more, and when it ends the counter has passed its first value by more than these ticks.
  pub udelay-elapses :
      (fuel us : ℕ) (m : Machine hw)
      → let f = hw.cntfrq (hw.cntpct m.world).1 % 2 ^ 32 in
        us * f < 2 ^ 64
        → time m.world + us * f / 1000000 < 2 ^ 64
        → us * f / 1000000 < fuel
        → let r = udelay fuel us m in
          (r.0 ≡ true) × (time m.world + us * f / 1000000 < time r.1.world)
  unfolding udelay timeout_init_us read_cntpct timer_freq_hz
  udelay-elapses fuel us m a b c =
      let (t, w) = hw.cntpct m.world in
      let expire = (t + us * (hw.cntfrq w % 2 ^ 32) % 2 ^ 64 / 1000000) % 2 ^ 64 in
      let e = expire_lem (us * (hw.cntfrq w % 2 ^ 32)) t (time m.world) (shows m.world) a b in
      let r =
        delay_until-Elapsed fuel expire (record m { world = w })
          (omega (arith, e, goes m.world, c)) in
      (
        r.done,
        subst (λ x. x < time (delay_until fuel expire (record m { world = w })).1.world) e r.passed,
      )
