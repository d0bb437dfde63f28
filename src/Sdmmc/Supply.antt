-- ===== src/Sdmmc/Supply.antt =====
-- The wait for the supply of the card's pins ends, ready or not.
use stm32mp257_test_board.Prelude.{
  ℕ, zero, suc, ◌+◌, ◌-◌, ◌*◌, ◌/◌, ◌%◌, ◌^◌, ◌≤◌, ◌<◌, Option, none, some, Bool, true, false,
  Bool-cases, inl, inr, ltb, bit_and, ◌==◌, ◌≡◌, refl, ap, ◌∙◌, arith,
}
use stm32mp257_test_board.Io.{Mmio, Machine, Act, pure, ◌>>=◌, ◌>>◌, mmio_read_32, mmio_setbits_32}
use stm32mp257_test_board.Timer.{read_cntpct, timer_freq_hz, timeout_init_us, timeout_elapsed}
use stm32mp257_test_board.Timer.Delay.{Rising}
use stm32mp257_test_board.Sdmmc.{
  pwr_cr8_addr, vddio1_vmen, vddio1_sv, vddio1_rdy, await_supply, conclude_supply, vddio1_enable,
}

abbrev pub is_some : Option Bool → Bool
is_some none = false
is_some (some b) = true

-- A counter that no register access turns back.
pub record Onward {hw : Mmio} (rising : Rising hw) : Type 0 where
  pub by_read : (a : ℕ) (w : hw.World) → rising.time w ≤ rising.time (hw.read a w).1
  pub by_write : (a v : ℕ) (w : hw.World) → rising.time w ≤ rising.time (hw.write a v w)

module _ {hw : Mmio} (rising : Rising hw) (onward : Onward rising) where
  open rising use {time, shows, goes}

  -- The turns of the loop, by the two tests.
  abbrev on_late : Bool → ℕ → ℕ → Act hw (Option Bool)
  on_late late fuel expire = elim late [
    | true ↦ pure (some false)
    | false ↦ await_supply fuel expire
  ]

  abbrev on_busy : Bool → ℕ → ℕ → Act hw (Option Bool)
  on_busy busy fuel expire = elim busy [
    | false ↦ pure (some true)
    | true ↦ timeout_elapsed expire >>= λ late. on_late late fuel expire
  ]

  supply_turn :
      (fuel expire : ℕ) (busy : Bool) (m : Machine hw)
      → (bit_and (mmio_read_32 pwr_cr8_addr m).0 vddio1_rdy == 0) ≡ busy
      → await_supply (suc fuel) expire m ≡ on_busy busy fuel expire (mmio_read_32 pwr_cr8_addr m).1
  unfolding await_supply
  supply_turn fuel expire busy m h =
      ap (λ b. on_busy b fuel expire (mmio_read_32 pwr_cr8_addr m).1) h

  late_turn :
      (fuel expire : ℕ) (late : Bool) (m : Machine hw)
      → ltb expire (hw.cntpct m.world).0 ≡ late
      → on_busy true fuel expire m
        ≡ on_late late fuel expire (record m { world = (hw.cntpct m.world).1 })
  unfolding timeout_elapsed read_cntpct
  late_turn fuel expire late m h =
      ap (λ b. on_late b fuel expire (record m { world = (hw.cntpct m.world).1 })) h

  await_supply-ends :
      (fuel expire : ℕ) (m : Machine hw)
      → expire + 1 - time m.world < fuel
      → is_some (await_supply fuel expire m).0 ≡ true
  unfolding mmio_read_32
  await_supply-ends zero expire m h = absurd (omega arith)
  await_supply-ends (suc fuel) expire m h =
      let m1 = (mmio_read_32 pwr_cr8_addr m).1 in
      elim (Bool-cases (bit_and (mmio_read_32 pwr_cr8_addr m).0 vddio1_rdy == 0)) [
        | inr e ↦ rw (supply_turn fuel expire false m e) refl
        | inl e ↦
            rw (supply_turn fuel expire true m e)
              (elim (Bool-cases (ltb expire (hw.cntpct m1.world).0)) [
                | inl l ↦ rw (late_turn fuel expire true m1 l) refl
                | inr l ↦ rw (late_turn fuel expire false m1 l) (
                    await_supply-ends fuel expire (record m1 { world = (hw.cntpct m1.world).1 })
                      (ground (
                        arith,
                        l,
                        shows m1.world,
                        goes m1.world,
                        onward.by_read pwr_cr8_addr m.world,
                      )))
              ])
      ]

  conclude_supply-ends :
      (r : Option Bool) (m : Machine hw) → is_some r ≡ true → is_some (conclude_supply r m).0 ≡ true
  unfolding conclude_supply
  conclude_supply-ends none m h = h
  conclude_supply-ends (some false) m h = refl
  conclude_supply-ends (some true) m h = refl

  -- What `vddio1_enable` does where the supply is not valid yet.
  abbrev switched_on : ℕ → Act hw (Option Bool)
  switched_on fuel = timeout_init_us 10000 >>= λ expire.
      await_supply fuel expire >>= λ ready. conclude_supply ready

  switched_on-ends :
      (fuel : ℕ) (m : Machine hw) → 42949672 < fuel → is_some (switched_on fuel m).0 ≡ true
  unfolding timeout_init_us read_cntpct timer_freq_hz
  switched_on-ends fuel m h =
      let (t, w) = hw.cntpct m.world in
      let expire = (t + 10000 * (hw.cntfrq w % 2 ^ 32) % 2 ^ 64 / 1000000) % 2 ^ 64 in
      let m' : Machine hw = record m { world = w } in
      let r = await_supply fuel expire m' in
      conclude_supply-ends r.0 r.1 (
        await_supply-ends fuel expire m'
          (near t (hw.cntfrq w) (time m.world) (time w) fuel (shows m.world) (goes m.world) h))
    where
      near :
          (t f now later fuel : ℕ)
          → t ≡ now
          → now < later
          → 42949672 < fuel
          → (t + 10000 * (f % 2 ^ 32) % 2 ^ 64 / 1000000) % 2 ^ 64 + 1 - later < fuel
      near t f now later fuel e lt h = omega arith

  abbrev on_invalid : Bool → ℕ → Act hw (Option Bool)
  on_invalid invalid fuel = elim invalid [
    | false ↦ pure (some true)
    | true ↦ mmio_setbits_32 pwr_cr8_addr vddio1_vmen >> switched_on fuel
  ]

  -- On a counter that is higher at each read and that no register access turns back, the wait
  -- of `vddio1_enable` ends, ready or timed out, whatever the supply's register shows and at
  -- whatever frequency the counter runs: more than 42949672 rounds are enough.
  pub vddio1_enable-ends :
      (fuel : ℕ) (m : Machine hw) → 42949672 < fuel → is_some (vddio1_enable fuel m).0 ≡ true
  unfolding vddio1_enable
  vddio1_enable-ends fuel m h =
      let m1 = (mmio_read_32 pwr_cr8_addr m).1 in
      elim (Bool-cases (bit_and (mmio_read_32 pwr_cr8_addr m).0 vddio1_sv == 0)) [
        | inr e ↦ ap (λ b. is_some (on_invalid b fuel m1).0) e
        | inl e ↦
            ap (λ b. is_some (on_invalid b fuel m1).0) e
            ∙ switched_on-ends fuel (mmio_setbits_32 pwr_cr8_addr vddio1_vmen m1).1 h
      ]
