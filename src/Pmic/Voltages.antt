-- ===== src/Pmic/Voltages.antt =====
-- The voltages behind `pmic_init_rails` of bootloader/drivers/pmic.c.
use stm32mp257_test_board.Prelude.{
  All, ℕ, ◌%◌, ◌^◌, ◌≤◌, ◌<◌, List, [], ◌∷◌, Bool, true, ◌&&◌, ◌||◌, ◌==◌, if◌then◌else◌, ◌≡◌, refl,
  sym, subst, arith,
}
use stm32mp257_test_board.Io.{Mmio, Machine, shl32}
use stm32mp257_test_board.Io.Bits.{all_below, all_below_lem}
use stm32mp257_test_board.I2c.{i2c_timeout}
use stm32mp257_test_board.I2c.Device.{idle, Bus, Answers}
use stm32mp257_test_board.Pmic.{
  pmic_addr, buck6_main_cr1, ldo3_main_cr, buck_volt_mask, ldo_volt_mask, rail_en, buck_low_idx,
  ldo_idx, RailKind, Rail, rails, rail_en_cr, rail_mv, merged, pmic_init_rails,
}
use stm32mp257_test_board.Pmic.Powered.{powered, pmic_init_rails-Done}

-- `updated` on one byte.
abbrev to : ℕ → ℕ → ℕ → ℕ
to val mask v = merged v val mask % 2 ^ 8

abbrev to_on : ℕ → ℕ
to_on v = to rail_en rail_en v

abbrev to_1800 : ℕ → ℕ
to_1800 v = to (shl32 (ldo_idx 1800) 1 % 2 ^ 8) ldo_volt_mask v

abbrev to_1100 : ℕ → ℕ
to_1100 v = to (buck_low_idx 1100) buck_volt_mask v

-- What the merges do to a byte.
abbrev right : ℕ → Bool
right v =
    (to_on v % 2 == 1)
    && (rail_mv RailKind.rail_ldo 0 (to_on v) == rail_mv RailKind.rail_ldo 0 v)
    && (to_on (to_1800 v) % 2 == 1)
    && (rail_mv RailKind.rail_ldo 0 (to_on (to_1800 v)) == 1800)
    && (rail_mv RailKind.rail_buck 0 (to_1100 v) == 1100)

table : all_below 256 right ≡ true
unfolding all_below merged rail_mv
table = refl

record Right (v : ℕ) : Type 0 where
  on : to_on v % 2 ≡ 1
  kept : rail_mv RailKind.rail_ldo 0 (to_on v) ≡ rail_mv RailKind.rail_ldo 0 v
  ldo_on : to_on (to_1800 v) % 2 ≡ 1
  ldo : rail_mv RailKind.rail_ldo 0 (to_on (to_1800 v)) ≡ 1800
  buck : rail_mv RailKind.rail_buck 0 (to_1100 v) ≡ 1100

byte-Right : (v : ℕ) → v < 256 → Right v
byte-Right v h =
    let x = all_below_lem 256 right v table h in
    record {
      on = ground (arith, x);
      kept = ground (arith, x);
      ldo_on = ground (arith, x);
      ldo = ground (arith, x);
      buck = ground (arith, x);
    }

-- The rails that are always on, and those with the two of the memory.
abbrev pub fixed_rails : List Rail → List Rail
fixed_rails [] = []
fixed_rails (r ∷ rs) = if r.always_on then r ∷ fixed_rails rs else fixed_rails rs

abbrev pub on_rails : List Rail → List Rail
on_rails [] = []
on_rails (r ∷ rs) =
    if r.always_on || (r.cr == ldo3_main_cr) || (r.cr == buck6_main_cr1)
    then r ∷ on_rails rs
    else on_rails rs

-- The chip's registers before and after.
pub record Powers (f g : ℕ → ℕ) : Type 0 where
  pub on : All (λ r. g (rail_en_cr r) % 2 ≡ 1) (on_rails rails)
  pub vdd1_ddr : rail_mv RailKind.rail_ldo 0 (g ldo3_main_cr) ≡ 1800
  pub vdd2_ddr : rail_mv RailKind.rail_buck 0 (g buck6_main_cr1) ≡ 1100
  pub voltages :
      All
        (λ r. rail_mv r.kind r.fixed_mv (g r.cr) ≡ rail_mv r.kind r.fixed_mv (f r.cr))
        (fixed_rails rails)

fixed : (mv v w : ℕ) → rail_mv RailKind.rail_ldo_fixed mv v ≡ rail_mv RailKind.rail_ldo_fixed mv w
unfolding rail_mv
fixed mv v w = refl

powered-Powers : (f : ℕ → ℕ) → ((j : ℕ) → f j < 256) → Powers f (powered f)
powered-Powers f bytes = record {
  on = (
    on 33,
    (
      on 38,
      (
        on 43,
        (
          on 48,
          (
            on 53,
            (
              on 58,
              (
                on 63,
                (
                  on 76,
                  (
                    on 79,
                    ((byte-Right (f ldo3_main_cr) (bytes _)).ldo_on, (on 85, (on 94, (on 97, tt)))),
                  ),
                ),
              ),
            ),
          ),
        ),
      ),
    ),
  );
  vdd1_ddr = (byte-Right (f ldo3_main_cr) (bytes _)).ldo;
  vdd2_ddr = (byte-Right (f buck6_main_cr1) (bytes _)).buck;
  voltages = (
    refl,
    (
      refl,
      (
        refl,
        (
          refl,
          (refl, (refl, (fixed 1800 _ _, (kept 79, (fixed 3300 _ _, (kept 94, (kept 97, tt))))))),
        ),
      ),
    ),
  );
}
  where
    on : (j : ℕ) → to_on (f j) % 2 ≡ 1
    on j = (byte-Right (f j) (bytes j)).on

    kept : (j : ℕ) → rail_mv RailKind.rail_ldo 0 (to_on (f j)) ≡ rail_mv RailKind.rail_ldo 0 (f j)
    kept j = (byte-Right (f j) (bytes j)).kept

module _ {hw : Mmio} (bus : Bus hw) (delay : ℕ) (answers : Answers bus delay pmic_addr)
    (few : delay < i2c_timeout) where
  open bus use {regs, phase, busy}

  -- With a power-management chip that answers on the I2C bus as documented, whose registers
  -- hold bytes and whose status shows the next step within 2000000 reads, on a bus that is
  -- free: `pmic_init_rails` returns 0 and leaves the bus free; the enable bits of all rails
  -- that are always on and of the two rails of the memory are set, the two rails of the memory
  -- stand at 1800 and 1100 mV, and every rail that is always on keeps its voltage.
  pub pmic_init_rails-Powers :
      (m : Machine hw)
      → phase m.world ≡ idle
      → busy m.world ≤ delay
      → ((j : ℕ) → regs m.world j < 256)
      → let r = pmic_init_rails m in
        (r.0 ≡ true) × (phase r.1.world ≡ idle) × Powers (regs m.world) (regs r.1.world)
  pmic_init_rails-Powers m a h bytes =
      let d = pmic_init_rails-Done bus delay answers few m a h in
      (
        d.ok,
        d.next.now,
        subst (Powers (regs m.world)) (sym d.next.holds) (powered-Powers (regs m.world) bytes),
      )
