-- ===== src/Pmic/Powered.antt =====
-- The rails behind `pmic_init_rails` of bootloader/drivers/pmic.c, with a chip that answers on the bus.
use stm32mp257_test_board.Prelude.{
  Bool-cases, inl, inr, Option, ◌≤◌, ℕ, ◌+◌, ◌%◌, ◌^◌, ◌<◌, List, [], ◌∷◌, none, some, Bool, true,
  false, ◌==◌, if◌then◌else◌, ◌≡◌, refl, sym, subst, ap, ap₂, ◌∙◌,
}
use stm32mp257_test_board.Io.{Mmio, Machine, Act, pure, shl32}
use stm32mp257_test_board.I2c.{i2c_timeout, i2c_read_reg}
use stm32mp257_test_board.I2c.Device.{idle, Bus, Next, Answers}
use stm32mp257_test_board.I2c.Registers.{i2c_read_reg-Read, i2c_write_reg-Written}
use stm32mp257_test_board.Pmic.{
  pmic_addr, buck6_main_cr1, ldo3_main_cr, buck_volt_mask, ldo_volt_mask, rail_en, buck_low_idx,
  ldo_idx, Rail, rails, rail_en_cr, merged, pmic_read, pmic_write, pmic_update, enable_always_on,
  pmic_init_rails,
}

-- What the calls do to the registers of the chip.
abbrev pub updated : ℕ → ℕ → ℕ → (ℕ → ℕ) → ℕ → ℕ
updated reg val mask f j = if j == reg then merged (f reg) val mask % 2 ^ 8 else f j

abbrev pub enabled : List Rail → (ℕ → ℕ) → ℕ → ℕ
enabled [] f = f
enabled (r ∷ rs) f =
    if r.always_on then enabled rs (updated (rail_en_cr r) rail_en rail_en f) else enabled rs f

abbrev pub powered : (ℕ → ℕ) → ℕ → ℕ
powered f = updated (buck6_main_cr1 + 1) rail_en rail_en (
    updated ldo3_main_cr rail_en rail_en (
      updated buck6_main_cr1 (buck_low_idx 1100) buck_volt_mask
        (updated ldo3_main_cr (shl32 (ldo_idx 1800) 1 % 2 ^ 8) ldo_volt_mask (enabled rails f))))

module _ {hw : Mmio} (bus : Bus hw) (delay : ℕ) (answers : Answers bus delay pmic_addr)
    (few : delay < i2c_timeout) where
  open bus use {regs, phase, busy}

  -- A call that has succeeded and left `g` in the registers.
  pub record Done (g : ℕ → ℕ) (r : Bool × Machine hw) : Type 0 where
    pub ok : r.0 ≡ true
    pub next : Next bus delay idle g r.1.world

  -- `pmic_update` behind its read.
  abbrev stored : ℕ → ℕ → ℕ → Machine hw → Option ℕ → Bool × Machine hw
  stored reg val mask m old =
      (elim old as (λ x. Act hw Bool) [
        | none ↦ pure false
        | some v ↦ pmic_write reg (merged v val mask)
      ])
        m

  pmic_update-Done :
      (reg val mask : ℕ) (f : ℕ → ℕ) (m : Machine hw)
      → phase m.world ≡ idle
      → regs m.world ≡ f
      → Done (updated reg val mask f) (pmic_update reg val mask m)
  unfolding pmic_update pmic_read pmic_write
  pmic_update-Done reg val mask f m a e =
      let r = i2c_read_reg-Read bus delay pmic_addr answers few m reg a in
      let m2 = (i2c_read_reg pmic_addr reg m).1 in
      let v = merged (regs m.world reg) val mask in
      let w = i2c_write_reg-Written bus delay pmic_addr answers few m2 reg v r.next.now in
      subst (Done (updated reg val mask f)) (ap (stored reg val mask m2) (sym r.value)) (record {
        ok = w.done;
        next = record {
          now = w.next.now;
          holds =
              w.next.holds
              ∙ ap₂ (λ g h (j : ℕ). if j == reg then merged (g reg) val mask % 2 ^ 8 else h j) e
                  (r.next.holds ∙ e);
          soon = w.next.soon;
        };
      })

  enable_always_on-Done :
      (rs : List Rail) (f : ℕ → ℕ) (m : Machine hw)
      → phase m.world ≡ idle
      → regs m.world ≡ f
      → busy m.world ≤ delay
      → Done (enabled rs f) (enable_always_on rs true m)
  unfolding enable_always_on
  enable_always_on-Done [] f m a e h = record {
    ok = refl;
    next = record { now = a; holds = e; soon = h };
  }
  enable_always_on-Done (r ∷ rs) f m a e h = elim (Bool-cases r.always_on) [
    | inl k ↦
        let u = pmic_update-Done (rail_en_cr r) rail_en rail_en f m a e in
        let m1 = (pmic_update (rail_en_cr r) rail_en rail_en m).1 in
        rw k (
          subst
            (λ b.
              Done (enabled rs (updated (rail_en_cr r) rail_en rail_en f))
                (enable_always_on rs b m1))
            (sym u.ok)
            (enable_always_on-Done rs (updated (rail_en_cr r) rail_en rail_en f) m1 u.next.now
              u.next.holds u.next.soon))
    | inr k ↦ rw k (enable_always_on-Done rs f m a e h)
  ]

  -- One more call, where all before have succeeded.
  pub pmic_init_rails-Done :
      (m : Machine hw)
      → phase m.world ≡ idle
      → busy m.world ≤ delay
      → Done (powered (regs m.world)) (pmic_init_rails m)
  unfolding pmic_init_rails
  pmic_init_rails-Done m a h =
      let f0 = enabled rails (regs m.world) in
      let d0 = enable_always_on-Done rails (regs m.world) m a refl h in
      let m0 = (enable_always_on rails true m).1 in
      let f1 = updated ldo3_main_cr (shl32 (ldo_idx 1800) 1 % 2 ^ 8) ldo_volt_mask f0 in
      let d1 =
        pmic_update-Done ldo3_main_cr (shl32 (ldo_idx 1800) 1 % 2 ^ 8) ldo_volt_mask f0 m0
          d0.next.now d0.next.holds in
      let m1 = (pmic_update ldo3_main_cr (shl32 (ldo_idx 1800) 1 % 2 ^ 8) ldo_volt_mask m0).1 in
      let f2 = updated buck6_main_cr1 (buck_low_idx 1100) buck_volt_mask f1 in
      let d2 =
        pmic_update-Done buck6_main_cr1 (buck_low_idx 1100) buck_volt_mask f1 m1 d1.next.now
          d1.next.holds in
      let m2 = (pmic_update buck6_main_cr1 (buck_low_idx 1100) buck_volt_mask m1).1 in
      let f3 = updated ldo3_main_cr rail_en rail_en f2 in
      let d3 = pmic_update-Done ldo3_main_cr rail_en rail_en f2 m2 d2.next.now d2.next.holds in
      let m3 = (pmic_update ldo3_main_cr rail_en rail_en m2).1 in
      let d4 =
        pmic_update-Done (buck6_main_cr1 + 1) rail_en rail_en f3 m3 d3.next.now d3.next.holds in
      record { ok = rw (d0.ok, d1.ok, d2.ok, d3.ok, d4.ok) refl; next = d4.next }
