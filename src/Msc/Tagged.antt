-- ===== src/Msc/Tagged.antt =====
-- What the USB core finds when `usb_msc_start` of bootloader/drivers/usb/usb_msc.c starts it.
use stm32mp257_test_board.Prelude.{
  ℕ, ◌+◌, ◌<◌, arith, none, some, Bool, true, false, bit_or, ◌≡◌, refl, ap, ◌∙◌,
}
use stm32mp257_test_board.Io.{
  Mmio, Machine, Act, pure, ◌>>=◌, ◌>>◌, bit_mask, mmio_setbits_32, mmio_write_32,
}
use stm32mp257_test_board.Io.Registers.{Keeps, reg, reg-write, reg-setbits}
use stm32mp257_test_board.Card.{Sd}
use stm32mp257_test_board.Msc.State.{Msc}
use stm32mp257_test_board.Msc.Start.{
  Handles, UsbCore, msc_class, msc_desc, usb_max_ep0_size, usb_dwc3_base_addr, card_ready,
  tag_master, usb_msc_start,
}

module _ {hw : Mmio} (keeps : Keeps hw) (sd : Sd) (usb : UsbCore hw (Msc sd.Card)) where
  open usb use {Core, usb_dwc3_init_driver, register_platform, usb_core_start}

  -- The USB driver leaves the registers of the firewall alone.
  pub record Leaves : Type 0 where
    pub by_driver :
        (a : ℕ) (h : Handles Core (Msc sd.Card)) (m : Machine hw)
        → a < 0x1000
        → reg keeps (usb_dwc3_init_driver usb_dwc3_base_addr h m).1 (0x42080000 + a)
          ≡ reg keeps m (0x42080000 + a)
    pub by_platform :
        (a : ℕ) (h : Handles Core (Msc sd.Card)) (m : Machine hw)
        → a < 0x1000
        → reg keeps (register_platform msc_desc h m).1 (0x42080000 + a)
          ≡ reg keeps m (0x42080000 + a)

  -- The result is that of a start of the core with `handles`, on `machine`.
  pub record Starts (m : Machine hw) (r : (Bool × Handles Core (Msc sd.Card)) × Machine hw)
      : Type 0 where
    pub handles : Handles Core (Msc sd.Card)
    pub machine : Machine hw
    pub started : r ≡ usb_core_start handles machine
    pub class : handles.device_class ≡ some (msc_class sd)
    pub no_data : handles.class_data ≡ none
    pub secure : reg keeps machine 0x42080018 ≡ bit_or (reg keeps m 0x42080018) 4
    pub privileged : reg keeps machine 0x42080038 ≡ bit_or (reg keeps m 0x42080038) 4
    pub attributes : reg keeps machine 0x42080C20 ≡ 0x314

  module _ (m : Machine hw) where
    abbrev secured : Machine hw
    secured = (mmio_setbits_32 0x42080018 (bit_mask 2) m).1

    abbrev granted : Machine hw
    granted = (mmio_setbits_32 0x42080038 (bit_mask 2) secured).1

    tagged : Machine hw
    tagged = (mmio_write_32 0x42080C20 0x314 granted).1

    tagged-secure : reg keeps tagged 0x42080018 ≡ bit_or (reg keeps m 0x42080018) 4
    unfolding tagged
    tagged-secure =
        reg-write keeps 0x42080C20 0x314 0x42080018 granted
        ∙ reg-setbits keeps 0x42080038 (bit_mask 2) 0x42080018 secured
        ∙ reg-setbits keeps 0x42080018 (bit_mask 2) 0x42080018 m

    tagged-privileged : reg keeps tagged 0x42080038 ≡ bit_or (reg keeps m 0x42080038) 4
    unfolding tagged
    tagged-privileged =
        reg-write keeps 0x42080C20 0x314 0x42080038 granted
        ∙ reg-setbits keeps 0x42080038 (bit_mask 2) 0x42080038 secured
        ∙ ap (λ v. bit_or v 4) (reg-setbits keeps 0x42080018 (bit_mask 2) 0x42080038 m)

    tagged-attributes : reg keeps tagged 0x42080C20 ≡ 0x314
    unfolding tagged
    tagged-attributes = reg-write keeps 0x42080C20 0x314 0x42080C20 granted

  -- The handles that the core is started with, and the machine.
  first : Handles Core (Msc sd.Card) → Handles Core (Msc sd.Card)
  first h = record h { in_maxpacket = usb_max_ep0_size; out_maxpacket = usb_max_ep0_size }

  -- `usb_msc_start` by whether the card is ready.
  abbrev turn :
      Handles Core (Msc sd.Card)
      → Machine hw
      → Bool
      → (Bool × Handles Core (Msc sd.Card)) × Machine hw
  turn h m ok =
      (elim ok as (λ x. Act hw (Bool × Handles Core (Msc sd.Card))) [
        | false ↦ pure (false, h)
        | true ↦ do
          tag_master sd usb
          driven ←
              usb_dwc3_init_driver usb_dwc3_base_addr
                (record h { in_maxpacket = usb_max_ep0_size; out_maxpacket = usb_max_ep0_size })
          named ← register_platform msc_desc driven
          usb_core_start (record named { device_class = some (msc_class sd); class_data = none })
      ])
        m

  -- On configuration registers that keep what is written, with a USB driver that leaves the
  -- firewall's block of registers alone: where the card is ready, the result of
  -- `usb_msc_start` is that of starting the USB core with the mass-storage class as its class,
  -- on a machine on which the bus master of the USB controller has been made secure and
  -- privileged, every other bit of these two registers is as it was, and its attributes are
  -- 0x314.
  pub usb_msc_start-Starts :
      (h : Handles Core (Msc sd.Card)) (m : Machine hw)
      → Leaves
      → (card_ready sd usb m).0 ≡ true
      → Starts (card_ready sd usb m).1 (usb_msc_start sd usb h m)
  unfolding usb_msc_start tag_master tagged first
  usb_msc_start-Starts h m leaves ready =
      let m0 = (card_ready sd usb m).1 in
      let m1 = tagged m0 in
      let (driven, m2) = usb_dwc3_init_driver usb_dwc3_base_addr (first h) m1 in
      let (named, m3) = register_platform msc_desc driven m2 in
      record {
        handles = record named { device_class = some (msc_class sd); class_data = none };
        machine = m3;
        started = ap (turn h m0) ready;
        class = refl;
        no_data = refl;
        secure =
            leaves.by_platform 0x18 driven m2 (omega arith)
            ∙ leaves.by_driver 0x18 (first h) m1 (omega arith)
            ∙ tagged-secure m0;
        privileged =
            leaves.by_platform 0x38 driven m2 (omega arith)
            ∙ leaves.by_driver 0x38 (first h) m1 (omega arith)
            ∙ tagged-privileged m0;
        attributes =
            leaves.by_platform 0xC20 driven m2 (omega arith)
            ∙ leaves.by_driver 0xC20 (first h) m1 (omega arith)
            ∙ tagged-attributes m0;
      }
