-- ===== src/Msc/State.antt =====
-- The static state of bootloader/drivers/usb/usb_msc.c, and what it asks of the USB core, which is
-- carried from TF-A: the calls are recorded in order.
use stm32mp257_test_board.Prelude.{ℕ, ◌*◌, ◌/◌, ◌+◌, ◌-◌, ◌%◌, ◌^◌, List}

pub data Bot : Type 0 where
  idle data_in data_out csw_queued : Bot

-- `struct bot_cbw`: the command block wrapper.
pub record Cbw : Type 0 where
  pub signature : ℕ
  pub tag : ℕ
  pub data_length : ℕ
  pub flags : ℕ
  pub lun : ℕ
  pub cb_length : ℕ
  pub cb : List ℕ

-- `struct bot_csw`: the command status wrapper.
pub record Csw : Type 0 where
  pub signature : ℕ
  pub tag : ℕ
  pub data_residue : ℕ
  pub status : ℕ

-- The calls of the USB core: arming a receive into `cbw` or into `xfer_buf` with a length, sending
-- bytes of `xfer_buf` or the status wrapper, and what the control endpoint and `ep_open` do.
pub data Usb : Type 0 where
  receive_cbw : ℕ → Usb
  receive_xfer : ℕ → Usb
  send_xfer : List ℕ → Usb
  send_csw : Csw → Usb
  send_ep0 : ℕ → Usb
  ctl_error : Usb
  ep_open : ℕ → Usb

abbrev pub ep_in : ℕ
ep_in = 0x81

abbrev pub ep_out : ℕ
ep_out = 0x01

abbrev pub ep_num : ℕ
ep_num = 1

abbrev pub cbw_signature : ℕ
cbw_signature = 0x43425355

abbrev pub csw_signature : ℕ
csw_signature = 0x53425355

abbrev pub cbw_bytes : ℕ
cbw_bytes = 31

abbrev pub block_size : ℕ
block_size = 512

abbrev chunk_bytes : ℕ
chunk_bytes = 16 * 1024

-- `CHUNK_BYTES / BLOCK_SIZE`.
abbrev pub chunk_blocks : ℕ
chunk_blocks = chunk_bytes / block_size

-- `uint32_t` and `unsigned long` arithmetic.
abbrev pub add32 : ℕ → ℕ → ℕ
add32 a b = (a + b) % 2 ^ 32

abbrev pub sub32 : ℕ → ℕ → ℕ
sub32 a b = (a + 2 ^ 32 - b) % 2 ^ 32

abbrev pub add64 : ℕ → ℕ → ℕ
add64 a b = (a + b) % 2 ^ 64

-- `card` is the SD card behind `sd.h`, and `calls` what was asked of the USB core.
pub record Msc (Card : Type 0) : Type 0 where
  pub bot_state : Bot
  pub cbw : Cbw
  pub csw : Csw
  pub xfer_buf : List ℕ
  pub io_lba : ℕ
  pub io_blocks_left : ℕ
  pub io_chunk_blocks : ℕ
  pub sense_key : ℕ
  pub sense_asc : ℕ
  pub msc_read_count : ℕ
  pub msc_write_count : ℕ
  pub msc_setup_count : ℕ
  pub msc_init_count : ℕ
  pub card : Card
  pub calls : List Usb
