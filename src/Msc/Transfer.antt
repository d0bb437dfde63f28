-- ===== src/Msc/Transfer.antt =====
-- The steps of a transfer in bootloader/drivers/usb/usb_msc.c.
use stm32mp257_test_board.Prelude.{
  ℕ, ◌*◌, List, [], ◌∷◌, ◌++◌, Option, none, some, take, length, ltb, if◌then◌else◌,
}
use stm32mp257_test_board.Cstring.{memcpy}
use stm32mp257_test_board.Card.{Sd}
use stm32mp257_test_board.Msc.State.{
  idle, data_in, data_out, csw_queued, Csw, receive_cbw, receive_xfer, send_xfer, send_csw, Msc,
  csw_signature, cbw_bytes, block_size, chunk_blocks, add32, sub32, add64,
}

-- The blocks of the next chunk.
unfoldable pub next_chunk : ℕ → ℕ
next_chunk left = if ltb chunk_blocks left then chunk_blocks else left

module _ (sd : Sd) where
  open sd use {Card, sd_read}

  unfoldable pub msc_arm_cbw : Msc Card → Msc Card
  msc_arm_cbw s = record s { bot_state = idle; calls = s.calls ++ receive_cbw cbw_bytes ∷ [] }

  unfoldable pub msc_send_csw : ℕ → Msc Card → Msc Card
  msc_send_csw status s =
      let wrapper : Csw = record {
        signature = csw_signature;
        tag = s.cbw.tag;
        data_residue = 0;
        status = status;
      } in
      record s { csw = wrapper; bot_state = csw_queued; calls = s.calls ++ send_csw wrapper ∷ [] }

  unfoldable pub msc_fail : ℕ → ℕ → Msc Card → Msc Card
  unfolding msc_send_csw
  msc_fail key asc s = msc_send_csw 1 (record s { sense_key = key; sense_asc = asc })

  unfoldable pub msc_send_data : List ℕ → Msc Card → Msc Card
  msc_send_data bytes s =
      let len = if ltb s.cbw.data_length (length bytes) then s.cbw.data_length else length bytes in
      let buf = memcpy s.xfer_buf bytes len in
      record s {
        xfer_buf = buf;
        bot_state = data_in;
        io_blocks_left = 0;
        calls = s.calls ++ send_xfer (take len buf) ∷ [];
      }

  -- What follows a read of `blocks` blocks that succeeded.
  unfoldable pub send_chunk : ℕ → List ℕ → Msc Card → Msc Card
  send_chunk blocks bytes s = record s {
    xfer_buf = memcpy s.xfer_buf bytes (blocks * block_size);
    io_lba = add32 s.io_lba blocks;
    io_blocks_left = sub32 s.io_blocks_left blocks;
    io_chunk_blocks = blocks;
    msc_read_count = add64 s.msc_read_count blocks;
    bot_state = data_in;
    calls =
        s.calls
        ++ send_xfer (take (blocks * block_size) (memcpy s.xfer_buf bytes (blocks * block_size)))
          ∷ [];
  }

  -- `msc_continue_read` by what the read gave.
  unfoldable pub after_read : ℕ → Card → Option (List ℕ) → Msc Card → Msc Card
  unfolding send_chunk msc_fail
  after_read blocks card none s = msc_fail 0x04 0x11 (record s { card = card })
  after_read blocks card (some bytes) s = send_chunk blocks bytes (record s { card = card })

  unfoldable pub msc_continue_read : Msc Card → Msc Card
  unfolding next_chunk after_read
  msc_continue_read s =
      let blocks = next_chunk s.io_blocks_left in
      let (card, bytes) = sd_read s.card s.io_lba (blocks * block_size) in
      after_read blocks card bytes s

  unfoldable pub msc_arm_write_chunk : Msc Card → Msc Card
  unfolding next_chunk
  msc_arm_write_chunk s =
      let blocks = next_chunk s.io_blocks_left in
      record s {
        io_chunk_blocks = blocks;
        bot_state = data_out;
        calls = s.calls ++ receive_xfer (blocks * block_size) ∷ [];
      }
