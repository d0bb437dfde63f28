-- ===== src/Msc/Class.antt =====
-- The callbacks that the USB core makes: `msc_class` of bootloader/drivers/usb/usb_msc.c.
use stm32mp257_test_board.Prelude.{
  ℕ, ◌*◌, List, [], ◌∷◌, ◌++◌, not, ◌&&◌, bit_and, ◌==◌, if◌then◌else◌, take,
}
use stm32mp257_test_board.Card.{Sd}
use stm32mp257_test_board.Msc.State.{
  Bot, idle, data_in, data_out, csw_queued, Cbw, ep_open, send_ep0, ctl_error, Msc, ep_in, ep_out,
  ep_num, cbw_signature, cbw_bytes, block_size, add32, sub32, add64,
}
use stm32mp257_test_board.Msc.Transfer.{
  msc_arm_cbw, msc_send_csw, msc_fail, msc_continue_read, msc_arm_write_chunk,
}
use stm32mp257_test_board.Msc.Scsi.{msc_cmd_dispatch}

module _ (sd : Sd) where
  open sd use {Card, sd_write}

  unfoldable pub msc_init : Msc Card → Msc Card
  msc_init s = msc_arm_cbw sd (record s {
    msc_init_count = add64 s.msc_init_count 1;
    calls = s.calls ++ ep_open ep_out ∷ ep_open ep_in ∷ [];
  })

  -- A control request, with the code that is returned.
  unfoldable pub msc_setup : ℕ → ℕ → Msc Card → ℕ × Msc Card
  msc_setup bm_request b_request s =
      let s' = record s { msc_setup_count = add64 s.msc_setup_count 1 } in
      let is_class = bit_and bm_request 0x60 == 0x20 in
      if is_class && b_request == 0xFE
      then (0, record s' { calls = s'.calls ++ send_ep0 0 ∷ [] })
      else if is_class && b_request == 0xFF
      then (0, msc_arm_cbw sd s')
      else (1, record s' { calls = s'.calls ++ ctl_error ∷ [] })

  -- A packet was sent, by the state.
  unfoldable pub sent : Bot → Msc Card → Msc Card
  sent data_in s =
      if not (s.io_blocks_left == 0) then msc_continue_read sd s else msc_send_csw sd 0 s
  sent csw_queued s = msc_arm_cbw sd s
  sent _ s = s

  unfoldable pub msc_data_in : ℕ → Msc Card → Msc Card
  unfolding sent
  msc_data_in epnum s = if not (epnum == ep_num) then s else sent s.bot_state s

  -- What follows a write that succeeded.
  unfoldable pub wrote_chunk : Msc Card → Msc Card
  wrote_chunk s =
      let s' = record s {
        io_lba = add32 s.io_lba s.io_chunk_blocks;
        io_blocks_left = sub32 s.io_blocks_left s.io_chunk_blocks;
        msc_write_count = add64 s.msc_write_count s.io_chunk_blocks;
      } in
      if not (s'.io_blocks_left == 0) then msc_arm_write_chunk sd s' else msc_send_csw sd 0 s'

  -- A packet was received, by the state; `xfer_count` is the count of the endpoint.
  unfoldable pub received : Bot → ℕ → Msc Card → Msc Card
  unfolding wrote_chunk
  received idle xfer_count s =
      if xfer_count == cbw_bytes && s.cbw.signature == cbw_signature
      then msc_cmd_dispatch sd s
      else msc_fail sd 0x05 0x24 s
  received data_out xfer_count s =
      let (card, ok) =
        sd_write s.card s.io_lba (take (s.io_chunk_blocks * block_size) s.xfer_buf) in
      if ok
      then wrote_chunk (record s { card = card })
      else msc_fail sd 0x04 0x03 (record s { card = card })
  received _ xfer_count s = s

  unfoldable pub msc_data_out : ℕ → ℕ → Msc Card → Msc Card
  unfolding received
  msc_data_out epnum xfer_count s =
      if not (epnum == ep_num) then s else received s.bot_state xfer_count s

  -- The controller stores what the host sent where the last receive was armed, and makes the call.
  unfoldable pub host_cbw : Cbw → ℕ → Msc Card → Msc Card
  host_cbw wrapper xfer_count s = msc_data_out ep_num xfer_count (record s { cbw = wrapper })

  unfoldable pub host_chunk : List ℕ → ℕ → Msc Card → Msc Card
  host_chunk buf xfer_count s = msc_data_out ep_num xfer_count (record s { xfer_buf = buf })
