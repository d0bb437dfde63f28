-- ===== src/Msc/Scsi.antt =====
-- The SCSI commands: `msc_cmd_dispatch` of bootloader/drivers/usb/usb_msc.c.
use stm32mp257_test_board.Prelude.{
  ℕ, ◌+◌, ◌*◌, ◌/◌, ◌%◌, ◌^◌, List, [], ◌∷◌, ◌++◌, Bool, ◌||◌, bit_or, get_or, set, replicate,
  codes, ltb, ◌==◌, if◌then◌else◌,
}
use stm32mp257_test_board.Card.{Sd}
use stm32mp257_test_board.Msc.State.{Msc, block_size, sub32}
use stm32mp257_test_board.Msc.Transfer.{
  msc_send_csw, msc_fail, msc_send_data, msc_continue_read, msc_arm_write_chunk,
}

-- The four bytes of a 32-bit number, the highest first.
unfoldable pub be32 : ℕ → List ℕ
be32 n = (n / 2 ^ 24 % 2 ^ 8) ∷ (n / 2 ^ 16 % 2 ^ 8) ∷ (n / 2 ^ 8 % 2 ^ 8) ∷ (n % 2 ^ 8) ∷ []

-- The block address and the count of READ(10) and WRITE(10).
unfoldable pub cdb_lba : List ℕ → ℕ
cdb_lba cb =
    bit_or
      (bit_or (bit_or (get_or cb 2 0 * 2 ^ 24) (get_or cb 3 0 * 2 ^ 16)) (get_or cb 4 0 * 2 ^ 8))
      (get_or cb 5 0)

unfoldable pub cdb_count : List ℕ → ℕ
cdb_count cb = bit_or (get_or cb 7 0 * 2 ^ 8) (get_or cb 8 0)

abbrev pub inq : List ℕ
inq = 0x00 ∷ 0x80 ∷ 0x02 ∷ 0x02 ∷ 31 ∷ 0 ∷ 0 ∷ 0 ∷ codes "STM32MP2FSBL SD card    1.0 "

abbrev pub sense6 : List ℕ
sense6 = 3 ∷ 0 ∷ 0 ∷ 0 ∷ []

-- `sns`: a fixed-format reply with the sense key and code.
unfoldable pub sense_reply : ℕ → ℕ → List ℕ
sense_reply key asc = set (set (set (set (replicate 18 0) 0 0x70) 2 key) 7 10) 12 asc

module _ (sd : Sd) where
  open sd use {Card, sd_size_bytes}

  -- `sd_size_bytes() / BLOCK_SIZE`.
  unfoldable pub card_blocks : Msc Card → ℕ
  card_blocks s = sd_size_bytes s.card / block_size

  unfoldable pub read_capacity : Msc Card → List ℕ
  unfolding card_blocks
  read_capacity s =
      be32 (sub32 (card_blocks s % 2 ^ 32) 1) ++ (0 ∷ 0 ∷ (block_size / 2 ^ 8 % 2 ^ 8) ∷ 0 ∷ [])

  unfoldable pub read_format : Msc Card → List ℕ
  unfolding card_blocks
  read_format s =
      (0 ∷ 0 ∷ 0 ∷ 8 ∷ [])
      ++ (be32 (card_blocks s % 2 ^ 32) ++ (0x02 ∷ 0 ∷ (block_size / 2 ^ 8 % 2 ^ 8) ∷ 0 ∷ []))

  unfoldable pub request_sense : Msc Card → Msc Card
  request_sense s =
      msc_send_data sd (sense_reply s.sense_key s.sense_asc)
        (record s { sense_key = 0; sense_asc = 0 })

  -- READ(10) and WRITE(10).
  unfoldable pub start_io : Bool → Msc Card → Msc Card
  unfolding card_blocks
  start_io reading s =
      let lba = cdb_lba s.cbw.cb in
      let cnt = cdb_count s.cbw.cb in
      let s' = record s { io_lba = lba; io_blocks_left = cnt } in
      if cnt == 0
      then msc_send_csw sd 0 s
      else if ltb (card_blocks s) (lba + cnt)
      then msc_fail sd 0x05 0x21 s
      else if reading
      then msc_continue_read sd s'
      else msc_arm_write_chunk sd s'

  unfoldable pub msc_cmd_dispatch : Msc Card → Msc Card
  unfolding request_sense start_io
  msc_cmd_dispatch s =
      let op = get_or s.cbw.cb 0 0 in
      if op == 0x00 || op == 0x1B || op == 0x1E
      then msc_send_csw sd 0 s
      else if op == 0x12
      then msc_send_data sd inq s
      else if op == 0x25
      then msc_send_data sd (read_capacity s) s
      else if op == 0x23
      then msc_send_data sd (read_format s) s
      else if op == 0x1A
      then msc_send_data sd sense6 s
      else if op == 0x03
      then request_sense s
      else if op == 0x28 || op == 0x2A
      then start_io (op == 0x28) s
      else msc_fail sd 0x05 0x20 s
