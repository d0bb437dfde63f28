-- ===== src/Msc/Start.antt =====
-- The start of the USB device and its polling in bootloader/drivers/usb/usb_msc.c, over the USB core and the
-- DWC3 driver, which are carried from other projects.
use stm32mp257_test_board.Prelude.{ℕ, List, Option, none, some, Bool, true, false, ◌==◌}
use stm32mp257_test_board.Io.{
  Mmio, Act, pure, ◌>>=◌, ◌>>◌, bit_mask, mmio_setbits_32, mmio_write_32,
}
use stm32mp257_test_board.Card.{Sd}
use stm32mp257_test_board.Msc.State.{Msc}
use stm32mp257_test_board.Msc.Class.{msc_init, msc_setup, msc_data_in, msc_data_out}
use stm32mp257_test_board.Msc.Descriptors.{
  msc_get_device_desc, msc_get_lang_id_desc, msc_get_mfc_desc, msc_get_product_desc,
  msc_get_configuration_desc, msc_get_serial_desc, msc_get_interface_desc, msc_get_usr_desc,
  msc_get_config_desc, msc_get_qualifier_desc,
}

-- `struct usb_class`, whose functions give a code and the state; `data_out` takes the endpoint and the
-- count that was received there.
pub record UsbClass (State : Type 0) : Type 0 where
  pub init : ℕ → State → ℕ × State
  pub de_init : ℕ → State → ℕ × State
  pub setup : ℕ → ℕ → State → ℕ × State
  pub data_in : ℕ → State → ℕ × State
  pub data_out : ℕ → ℕ → State → ℕ × State

-- `struct usb_desc`: a getter gives a length and bytes; the strings are built in a buffer.
pub record UsbDesc : Type 0 where
  pub get_device_desc : ℕ × List ℕ
  pub get_lang_id_desc : ℕ × List ℕ
  pub get_manufacturer_desc : List ℕ → ℕ × List ℕ
  pub get_product_desc : List ℕ → ℕ × List ℕ
  pub get_configuration_desc : List ℕ → ℕ × List ℕ
  pub get_serial_desc : List ℕ → ℕ × List ℕ
  pub get_interface_desc : List ℕ → ℕ × List ℕ
  pub get_usr_desc : ℕ → List ℕ → ℕ × List ℕ
  pub get_config_desc : ℕ × List ℕ
  pub get_device_qualifier_desc : ℕ × List ℕ
  pub get_other_speed_config_desc : Option (ℕ × List ℕ)

abbrev pub msc_desc : UsbDesc
msc_desc = record {
  get_device_desc = msc_get_device_desc;
  get_lang_id_desc = msc_get_lang_id_desc;
  get_manufacturer_desc = msc_get_mfc_desc;
  get_product_desc = msc_get_product_desc;
  get_configuration_desc = msc_get_configuration_desc;
  get_serial_desc = msc_get_serial_desc;
  get_interface_desc = msc_get_interface_desc;
  get_usr_desc = msc_get_usr_desc;
  get_config_desc = msc_get_config_desc;
  get_device_qualifier_desc = msc_get_qualifier_desc;
  get_other_speed_config_desc = none;
}

unfoldable pub msc_de_init : {State : Type 0} → ℕ → State → ℕ × State
msc_de_init cfgidx s = (0, s)

abbrev pub msc_class : (sd : Sd) → UsbClass (Msc sd.Card)
msc_class sd = record {
  init = λ cfgidx s. (0, msc_init sd s);
  de_init = λ cfgidx s. msc_de_init cfgidx s;
  setup = λ bm_request b_request s. msc_setup sd bm_request b_request s;
  data_in = λ epnum s. (0, msc_data_in sd epnum s);
  data_out = λ epnum xfer_count s. (0, msc_data_out sd epnum xfer_count s);
}

-- What the code writes of `usb_core_handle` and `pcd_handle`, and what else the core keeps.
pub record Handles (Core State : Type 0) : Type 0 where
  pub in_maxpacket : ℕ
  pub out_maxpacket : ℕ
  pub device_class : Option (UsbClass State)
  pub class_data : Option State
  pub core : Core

-- The calls of the card, the USB core and the DWC3 driver; the tests of their codes are Booleans.
pub record UsbCore (hw : Mmio) (State : Type 0) : Type 1 where
  pub Core : Type 0
  pub sd_size_bytes : Act hw ℕ
  pub sd_init : Act hw Bool
  pub usb_dwc3_init_driver : ℕ → Handles Core State → Act hw (Handles Core State)
  pub register_platform : UsbDesc → Handles Core State → Act hw (Handles Core State)
  pub usb_core_start : Handles Core State → Act hw (Bool × Handles Core State)
  pub usb_core_handle_it : Handles Core State → Act hw (Handles Core State)

abbrev pub usb_max_ep0_size : ℕ
usb_max_ep0_size = 64

abbrev pub usb_dwc3_base_addr : ℕ
usb_dwc3_base_addr = 0x48300000

module _ {hw : Mmio} (sd : Sd) (usb : UsbCore hw (Msc sd.Card)) where
  open usb use {
    Core, sd_size_bytes, sd_init, usb_dwc3_init_driver, register_platform, usb_core_start,
    usb_core_handle_it,
  }

  -- `if (sd_size_bytes() == 0 && sd_init() != 0)`, whether the card is ready.
  unfoldable pub card_ready : Act hw Bool
  card_ready = sd_size_bytes >>= λ n. elim (n == 0) [ true ↦ sd_init | false ↦ pure true ]

  -- The bus master of the USB controller is made secure and privileged, in compartment 1.
  unfoldable pub tag_master : Act hw (Unit {0})
  tag_master = do
    mmio_setbits_32 0x42080018 (bit_mask 2)
    mmio_setbits_32 0x42080038 (bit_mask 2)
    mmio_write_32 0x42080C20 0x314

  -- Whether 0 is returned.
  unfoldable pub usb_msc_start :
      Handles Core (Msc sd.Card) → Act hw (Bool × Handles Core (Msc sd.Card))
  unfolding card_ready tag_master
  usb_msc_start h = card_ready >>= λ ready. elim ready [
    | false ↦ pure (false, h)
    | true ↦ do
      tag_master
      driven ←
          usb_dwc3_init_driver usb_dwc3_base_addr
            (record h { in_maxpacket = usb_max_ep0_size; out_maxpacket = usb_max_ep0_size })
      named ← register_platform msc_desc driven
      usb_core_start (record named { device_class = some (msc_class sd); class_data = none })
  ]

  unfoldable pub usb_msc_poll : Handles Core (Msc sd.Card) → Act hw (Handles Core (Msc sd.Card))
  usb_msc_poll h = usb_core_handle_it h
