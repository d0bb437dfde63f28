-- ===== src/Tests/Hardware.antt =====
-- The drivers at concrete registers.
use stm32mp257_test_board.Prelude.{
  ℕ, suc, ◌+◌, ◌-◌, ◌/◌, ◌%◌, ◌^◌, ◌<◌, [], none, true, false, ◌==◌, if◌then◌else◌, ◌≡◌, refl,
  arith,
}
use stm32mp257_test_board.Io.{Mmio, Machine, mmio_read_32, shl32}
use stm32mp257_test_board.Io.Bits.{digit}
use stm32mp257_test_board.Io.Registers.{Keeps, reg}
use stm32mp257_test_board.Io.Wait.{after_reads, seen}
use stm32mp257_test_board.Card.{Sd}
use stm32mp257_test_board.Msc.State.{Msc}
use stm32mp257_test_board.Msc.Start.{Handles, UsbCore, card_ready, usb_msc_start}
use stm32mp257_test_board.Msc.Tagged.{Leaves, Starts, usb_msc_start-Starts}
use stm32mp257_test_board.Gpio.{gpio_moder, gpio_afrh, gpio_set_af, gpio_bank}
use stm32mp257_test_board.Gpio.Pins.{gpio_set_af-pins}
use stm32mp257_test_board.Rif.{
  rif_handoff, rifsc_cidcfgr, gpio_cidcfgr, hpdma_ccidcfgr, entry, gpio_banks, hpdma_insts,
}
use stm32mp257_test_board.Rif.Open.{rif_handoff-open}
use stm32mp257_test_board.Timer.{udelay}
use stm32mp257_test_board.Timer.Delay.{Rising, udelay-elapses}
use stm32mp257_test_board.I2c.{i2c_write_reg, i2c_timeout, i2c_isr, set_last_isr}
use stm32mp257_test_board.I2c.Transfer.{
  write_started, after_refusal, i2c_write_reg-refused, i2c_write_reg-timeout,
}
use stm32mp257_test_board.Sdmmc.{vddio1_enable}
use stm32mp257_test_board.Sdmmc.Supply.{Onward, is_some, vddio1_enable-ends}
use stm32mp257_test_board.Pmic.{
  rail_mv, RailKind, merged, buck_low_idx, buck_volt_mask, ldo_idx, ldo_volt_mask,
}
use stm32mp257_test_board.Pmic.Rails.{rail_mv-merged}

-- Registers that keep what is written, with a counter that stands.
abbrev memory : Mmio
memory = record {
  World = ℕ → ℕ;
  read = λ a w. (w a, w);
  write = λ a v w b. if b == a then v else w b;
  cntpct = λ w. (0, w);
  cntfrq = λ w. 64000000;
  set_cntfrq = λ f w. w;
}

abbrev keeps : Keeps memory
keeps = record { at = λ w a. w a; read-at = λ w a. refl; write-at = λ w a v b. refl }

abbrev zeros : Machine memory
zeros = record { world = λ a. 0; i2c_last_isr = 0; log = [] }

gpio_set_af-pins_example :
    let afr = gpio_bank 0 + gpio_afrh in
    let r = (gpio_set_af (gpio_bank 0) 8 8 zeros).1 in
    (digit 17 (reg keeps r (gpio_bank 0 + gpio_moder)) ≡ 1)
    × (digit 17 (reg keeps r afr) ≡ 0)
    × (reg keeps r 0 ≡ 0)
unfolding digit
gpio_set_af-pins_example =
    gpio_set_af-pins keeps (gpio_bank 0) 8 8 17 0 zeros (omega arith) (omega arith) (omega arith)
      refl refl

rif_handoff-open_example :
    let r = (rif_handoff zeros).1 in
    (reg keeps r (rifsc_cidcfgr 97) ≡ 0x21)
    × (reg keeps r ((entry gpio_banks 11).base + gpio_cidcfgr 15) ≡ 0)
    × (reg keeps r ((entry hpdma_insts 2).base + hpdma_ccidcfgr 15) ≡ 0x11)
rif_handoff-open_example =
    rif_handoff-open keeps 97 11 15 2 zeros (omega arith) (omega arith) (omega arith) (omega arith)

-- A counter that goes up by one at each read.
abbrev clock : Mmio
clock = record {
  World = ℕ;
  read = λ a w. (0, w);
  write = λ a v w. w;
  cntpct = λ w. (w, suc w);
  cntfrq = λ w. 64000000;
  set_cntfrq = λ f w. w;
}

abbrev rising : Rising clock
rising = record { time = λ w. w; shows = λ w. refl; goes = λ w. omega arith }

udelay-elapses_example :
    let r = udelay {hw = clock} 700 10 (record { world = 5; i2c_last_isr = 0; log = [] }) in
    (r.0 ≡ true) × (645 < r.1.world)
udelay-elapses_example =
    udelay-elapses rising 700 10 (record { world = 5; i2c_last_isr = 0; log = [] }) (omega arith)
      (omega arith) (omega arith)

-- A bus whose status register always shows the same.
abbrev bus : ℕ → Mmio
bus isr = record {
  World = Unit {0};
  read = λ a w. (isr, w);
  write = λ a v w. w;
  cntpct = λ w. (0, w);
  cntfrq = λ w. 0;
  set_cntfrq = λ f w. w;
}

abbrev bus_at : (isr : ℕ) → Machine (bus isr)
bus_at isr = record { world = tt; i2c_last_isr = 0; log = [] }

i2c_write_reg-refused_example :
    i2c_write_reg 0x33 0x20 1 (bus_at 16)
    ≡ (false, after_refusal 0 (write_started 0x33 (bus_at 16)))
unfolding mmio_read_32
i2c_write_reg-refused_example =
    i2c_write_reg-refused 0x33 0x20 1 0 (bus_at 16) (omega arith) (λ i h. absurd (omega arith)) refl

i2c_write_reg-timeout_example : i2c_write_reg 0x33 0x20 1 (bus_at 0) ≡ (
  false,
  (set_last_isr
      (seen (i2c_timeout - 1) i2c_isr (write_started 0x33 (bus_at 0)))
      (after_reads i2c_timeout i2c_isr (write_started 0x33 (bus_at 0)))).1,
)
unfolding mmio_read_32
i2c_write_reg-timeout_example =
    i2c_write_reg-timeout 0x33 0x20 1 (bus_at 0) (λ i h. record { accepted = refl; pending = refl })

rail_mv-merged_example :
    let buck = merged 0xB7 (buck_low_idx 1100) buck_volt_mask in
    let ldo = merged 0xB7 (shl32 (ldo_idx 1800) 1 % 2 ^ 8) ldo_volt_mask in
    (rail_mv RailKind.rail_buck 0 buck ≡ 1100)
    × (buck / 128 ≡ 1)
    × (rail_mv RailKind.rail_ldo 0 ldo ≡ 1800)
    × (ldo % 2 ≡ 1)
    × (ldo / 64 ≡ 2)
rail_mv-merged_example = rail_mv-merged 0xB7 60 9 (omega arith) (omega arith) (omega arith)

onward : Onward rising
onward = record { by_read = λ a w. omega arith; by_write = λ a v w. omega arith }

vddio1_enable-ends_example :
    is_some
      (vddio1_enable {hw = clock} 42949673 (record { world = 5; i2c_last_isr = 0; log = [] })).0
    ≡ true
vddio1_enable-ends_example =
    vddio1_enable-ends rising onward 42949673 (record { world = 5; i2c_last_isr = 0; log = [] })
      (omega arith)

-- A card that starts, and a USB core that leaves all registers alone.
abbrev sd : Sd
sd = record {
  Card = ℕ;
  sd_size_bytes = λ c. 0;
  sd_init = λ c. (c, true);
  sd_read = λ c lba len. (c, none);
  sd_write = λ c lba bytes. (c, true);
}

abbrev usb : UsbCore memory (Msc ℕ)
usb = record {
  Core = ℕ;
  sd_size_bytes = λ m. (0, m);
  sd_init = λ m. (true, m);
  usb_dwc3_init_driver = λ base h m. (h, m);
  register_platform = λ desc h m. (h, m);
  usb_core_start = λ h m. ((true, record h { core = suc h.core }), m);
  usb_core_handle_it = λ h m. (h, m);
}

abbrev handles : Handles ℕ (Msc ℕ)
handles = record {
  in_maxpacket = 0;
  out_maxpacket = 0;
  device_class = none;
  class_data = none;
  core = 0;
}

leaves : Leaves keeps sd usb
leaves = record { by_driver = λ a h m l. refl; by_platform = λ a h m l. refl }

card_starts : (card_ready {hw = memory} sd usb zeros).0 ≡ true
unfolding card_ready
card_starts = refl

usb_msc_start-Starts_example :
    Starts keeps sd usb
      (card_ready {hw = memory} sd usb zeros).1
      (usb_msc_start {hw = memory} sd usb handles zeros)
usb_msc_start-Starts_example = usb_msc_start-Starts keeps sd usb handles zeros leaves card_starts
