-- ===== src/Pmic/Rails.antt =====
-- The voltages of the rails.
use stm32mp257_test_board.Prelude.{
  ℕ, ◌+◌, ◌*◌, ◌/◌, ◌%◌, ◌^◌, ◌≤◌, ◌<◌, Bool, true, ◌&&◌, leb, ◌==◌, ◌≡◌, refl, arith,
}
use stm32mp257_test_board.Io.{shl32}
use stm32mp257_test_board.Io.Bits.{all_below, all_below_lem}
use stm32mp257_test_board.Pmic.{
  buck_volt_mask, ldo_volt_mask, buck_low_idx, ldo_idx, RailKind, rail_mv, merged,
}

-- Every register value, with every voltage of the two tables.
abbrev volts_right : ℕ → ℕ → Bool
volts_right v k =
    let buck = merged v (buck_low_idx (500 + 10 * k)) buck_volt_mask in
    (rail_mv RailKind.rail_buck 0 buck == 500 + 10 * k) && (buck / 128 == v / 128) && leb buck 255

abbrev ldo_right : ℕ → ℕ → Bool
ldo_right v k =
    let ldo = merged v (shl32 (ldo_idx (900 + 100 * k)) 1 % 2 ^ 8) ldo_volt_mask in
    (rail_mv RailKind.rail_ldo 0 ldo == 900 + 100 * k) && (ldo % 2 == v % 2) && (ldo / 64 == v / 64)

volts_table : all_below 256 (λ v. all_below 101 (λ k. volts_right v k)) ≡ true
unfolding all_below merged rail_mv
volts_table = refl

ldo_table : all_below 256 (λ v. all_below 32 (λ k. ldo_right v k)) ≡ true
unfolding all_below merged rail_mv
ldo_table = refl

-- Whatever byte a rail's register holds, merging the index of 500 to 1500 mV in steps of 10
-- under the buck mask, or of 900 to 4000 mV in steps of 100 under the LDO mask, gives a byte
-- that `pmic_print_rails` decodes to that voltage, and keeps the bits outside the mask.
pub rail_mv-merged :
    (v k l : ℕ)
    → v < 256
    → k ≤ 100
    → l ≤ 31
    → let buck = merged v (buck_low_idx (500 + 10 * k)) buck_volt_mask in
      let ldo = merged v (shl32 (ldo_idx (900 + 100 * l)) 1 % 2 ^ 8) ldo_volt_mask in
      (rail_mv RailKind.rail_buck 0 buck ≡ 500 + 10 * k)
      × (buck / 128 ≡ v / 128)
      × (rail_mv RailKind.rail_ldo 0 ldo ≡ 900 + 100 * l)
      × (ldo % 2 ≡ v % 2)
      × (ldo / 64 ≡ v / 64)
rail_mv-merged v k l a b c =
    let x =
      all_below_lem 101 (λ k. volts_right v k) k
        (all_below_lem 256 (λ v. all_below 101 (λ k. volts_right v k)) v volts_table a)
        (omega arith) in
    let y =
      all_below_lem 32 (λ k. ldo_right v k) l
        (all_below_lem 256 (λ v. all_below 32 (λ k. ldo_right v k)) v ldo_table a) (omega arith) in
    ground (arith, x, y)
