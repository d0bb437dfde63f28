-- ===== src/Pmic.antt =====
-- bootloader/drivers/pmic.c: the power rails of the STPMIC2, over its I2C registers.
use Prim.Native.String.{String}
use stm32mp257_test_board.Prelude.{
  ℕ, ◌+◌, ◌-◌, ◌*◌, ◌/◌, ◌%◌, ◌^◌, List, [], ◌∷◌, Option, none, some, Bool, true, false, not, ◌&&◌,
  bit_and, bit_or, ◌==◌, leb, if◌then◌else◌, codes,
}
use stm32mp257_test_board.Log.{str, num}
use stm32mp257_test_board.Io.{Mmio, Act, pure, ◌>>=◌, ◌>>◌, shl32, my_printf}
use stm32mp257_test_board.I2c.{i2c_read_reg, i2c_write_reg}
pub mod Rails
pub mod Powered
pub mod Voltages

abbrev pub pmic_addr : ℕ
pmic_addr = 0x33

abbrev pub buck6_main_cr1 : ℕ
buck6_main_cr1 = 0x39

abbrev pub ldo3_main_cr : ℕ
ldo3_main_cr = 0x52

abbrev pub buck_volt_mask : ℕ
buck_volt_mask = 0x7F

abbrev pub ldo_volt_mask : ℕ
ldo_volt_mask = 0x3E

abbrev pub rail_en : ℕ
rail_en = 0x01

-- `BUCK_LOW_IDX` and `LDO_IDX`.
abbrev pub buck_low_idx : ℕ → ℕ
buck_low_idx mv = (mv - 500) / 10 % 2 ^ 8

abbrev pub ldo_idx : ℕ → ℕ
ldo_idx mv = (mv - 900) / 100 % 2 ^ 8

pub data RailKind : Type 0 where
  rail_buck rail_ldo rail_ldo_fixed : RailKind

pub record Rail : Type 0 where
  pub name : List ℕ
  pub signal : List ℕ
  pub cr : ℕ
  pub kind : RailKind
  pub fixed_mv : ℕ
  pub always_on : Bool

abbrev rail : String → String → ℕ → RailKind → ℕ → Bool → Rail
rail n s c k mv on = record {
  name = codes n;
  signal = codes s;
  cr = c;
  kind = k;
  fixed_mv = mv;
  always_on = on;
}

abbrev pub rails : List Rail
rails =
    rail "buck1" "vddcpu" 0x20 rail_buck 0 true
    ∷ rail "buck2" "vddcore" 0x25 rail_buck 0 true
    ∷ rail "buck3" "vddgpu" 0x2A rail_buck 0 true
    ∷ rail "buck4" "vddio_pmic" 0x2F rail_buck 0 true
    ∷ rail "buck5" "v1v8" 0x34 rail_buck 0 true
    ∷ rail "buck6" "vdd2_ddr" buck6_main_cr1 rail_buck 0 false
    ∷ rail "buck7" "v3v3" 0x3E rail_buck 0 true
    ∷ rail "ldo1" "vdda1v8_aon" 0x4C rail_ldo_fixed 1800 true
    ∷ rail "ldo2" "vdd_emmc" 0x4F rail_ldo 0 true
    ∷ rail "ldo3" "vdd1_ddr" ldo3_main_cr rail_ldo 0 false
    ∷ rail "ldo4" "vdd3v3_usb" 0x55 rail_ldo_fixed 3300 true
    ∷ rail "ldo5" "v5v_hdmi" 0x58 rail_ldo 0 false
    ∷ rail "ldo7" "vdd_sdcard" 0x5E rail_ldo 0 true
    ∷ rail "ldo8" "vddio_sdcard" 0x61 rail_ldo 0 true
    ∷ []

-- The enable register of a rail.
abbrev pub en_cr_of : RailKind → ℕ → ℕ
en_cr_of rail_buck cr = (cr + 1) % 2 ^ 8
en_cr_of rail_ldo cr = cr
en_cr_of rail_ldo_fixed cr = cr

abbrev pub rail_en_cr : Rail → ℕ
rail_en_cr r = en_cr_of r.kind r.cr

-- The output that a register value stands for, in millivolts.
unfoldable pub rail_mv : RailKind → ℕ → ℕ → ℕ
rail_mv rail_buck fixed cr =
    let idx = bit_and cr buck_volt_mask in
    if leb idx 100 then 500 + 10 * idx else 1500 + 100 * (idx - 100)
rail_mv rail_ldo fixed cr = 900 + 100 * (bit_and cr ldo_volt_mask / 2)
rail_mv rail_ldo_fixed fixed cr = fixed

abbrev is_buck : RailKind → Bool
is_buck rail_buck = true
is_buck rail_ldo = false
is_buck rail_ldo_fixed = false

-- `(v & ~mask) | (val & mask)` on bytes.
unfoldable pub merged : ℕ → ℕ → ℕ → ℕ
merged v val mask = bit_or (bit_and v (2 ^ 8 - 1 - mask)) (bit_and val mask)

module _ {hw : Mmio} where
  unfoldable pub pmic_read : ℕ → Act hw (Option ℕ)
  pmic_read reg = i2c_read_reg pmic_addr reg

  unfoldable pub pmic_write : ℕ → ℕ → Act hw Bool
  pmic_write reg val = i2c_write_reg pmic_addr reg val

  -- Whether 0 is returned.
  unfoldable pub pmic_update : ℕ → ℕ → ℕ → Act hw Bool
  pmic_update reg val mask = do
    old ← pmic_read reg
    elim old [ none ↦ pure false | some v ↦ pmic_write reg (merged v val mask) ]

  -- The loop over the rails; an error is kept and the loop goes on.
  unfoldable pub enable_always_on : List Rail → Bool → Act hw Bool
  enable_always_on [] ok = pure ok
  enable_always_on (r ∷ rs) ok =
      if r.always_on
      then (pmic_update (rail_en_cr r) rail_en rail_en >>= λ done. enable_always_on rs (ok && done))
      else enable_always_on rs ok

  -- Whether `err` is 0 at the end.
  unfoldable pub pmic_init_rails : Act hw Bool
  pmic_init_rails = do
    a ← enable_always_on rails true
    b ← pmic_update ldo3_main_cr (shl32 (ldo_idx 1800) 1 % 2 ^ 8) ldo_volt_mask
    c ← pmic_update buck6_main_cr1 (buck_low_idx 1100) buck_volt_mask
    d ← pmic_update ldo3_main_cr rail_en rail_en
    e ← pmic_update (buck6_main_cr1 + 1) rail_en rail_en
    pure (a && b && c && d && e)

  unfoldable pub print_error : Rail → Act hw (Unit {0})
  print_error r = my_printf "%-6s %-13s I2C error\r\n" (str r.name ∷ str r.signal ∷ [])

  unfoldable pub print_values : Rail → ℕ → ℕ → Act hw (Unit {0})
  print_values r cr en = my_printf "%-6s %-13s %-3s %4u mV%s\r\n" (
      str r.name
      ∷ str r.signal
      ∷ str (if not (bit_and en rail_en == 0) then codes "on" else codes "off")
      ∷ num (rail_mv r.kind r.fixed_mv cr)
      ∷ str (if not (is_buck r.kind) && not (bit_and cr 0x40 == 0) then codes " (bypass)" else [])
      ∷ [])

  unfoldable pub print_rail : Rail → Act hw (Unit {0})
  print_rail r = do
    cr ← pmic_read r.cr
    elim cr [
      | none ↦ print_error r
      | some v ↦ pmic_read (rail_en_cr r) >>= λ en. elim en [
        | none ↦ print_error r
        | some e ↦ print_values r v e
      ]
    ]

  unfoldable pub print_rails : List Rail → Act hw (Unit {0})
  print_rails [] = pure tt
  print_rails (r ∷ rs) = do print_rail r; print_rails rs

  unfoldable pub pmic_print_rails : Act hw (Unit {0})
  pmic_print_rails = print_rails rails
