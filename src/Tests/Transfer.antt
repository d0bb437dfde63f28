-- ===== src/Tests/Transfer.antt =====
-- bootloader/drivers/usb/usb_msc.c at concrete inputs, over a card of a thousand blocks.
use stm32mp257_test_board.Prelude.{
  take, codes, ◌++◌, ℕ, ◌*◌, ◌/◌, ◌%◌, ◌+◌, ◌≤◌, ◌≤◌, ◌<◌, List, [], ◌∷◌, some, true, replicate,
  length, length-replicate, ◌≡◌, refl, ap, arith,
}
use stm32mp257_test_board.Cstring.Copy.{IsText}
use stm32mp257_test_board.Msc.Descriptors.{
  msc_get_device_desc, msc_get_lang_id_desc, msc_get_config_desc, msc_get_qualifier_desc,
  msc_string_desc, utf16, msc_string_desc_lem,
}
use stm32mp257_test_board.Card.{Sd}
use stm32mp257_test_board.Msc.State.{send_csw, Msc, idle, Cbw, cbw_signature}
use stm32mp257_test_board.Msc.Transfer.{msc_arm_cbw}
use stm32mp257_test_board.Msc.Scsi.{sense_reply, cdb_lba, cdb_count}
use stm32mp257_test_board.Msc.Class.{msc_data_in, msc_init, host_cbw}
use stm32mp257_test_board.Msc.Blocks.{read_blocks, Works}
use stm32mp257_test_board.Msc.Chunk.{data_sent}
use stm32mp257_test_board.Msc.Errors.{Outside, failed, refused_sense}
use stm32mp257_test_board.Msc.Read.{pump, Sent, read10_transfer}
use stm32mp257_test_board.Msc.Protocol.{IsArmed, command, started, called, Reach-IsArmed}

-- Block `i` holds the byte `i` modulo 256.
abbrev block : ℕ → List ℕ
block i = replicate 512 (i % 256)

abbrev card : Sd
card = record {
  Card = ℕ;
  sd_size_bytes = λ c. c * 512;
  sd_init = λ c. (c, true);
  sd_read = λ c lba len. (c, some (read_blocks block lba (len / 512)));
  sd_write = λ c lba bytes. (c, true);
}

card_works : Works card
card_works = record {
  block = λ c. block;
  length-block = λ c i. length-replicate 512 (i % 256);
  reads = λ c lba n h. ap (λ k. (c, some (read_blocks block lba k))) (whole n);
}
  where
    whole : (n : ℕ) → n * 512 / 512 ≡ n
    whole n = omega arith

-- READ(10) of 40 blocks from block 5 on.
abbrev read_40 : Cbw
read_40 = record {
  signature = cbw_signature;
  tag = 77;
  data_length = 20480;
  flags = 0x80;
  lun = 0;
  cb_length = 10;
  cb = 0x28 ∷ 0 ∷ 0 ∷ 0 ∷ 0 ∷ 5 ∷ 0 ∷ 0 ∷ 40 ∷ 0 ∷ [];
}

abbrev blank : Msc ℕ
blank = record {
  bot_state = idle;
  cbw = read_40;
  csw = record { signature = 0; tag = 0; data_residue = 0; status = 0 };
  xfer_buf = replicate 16384 0;
  io_lba = 0;
  io_blocks_left = 0;
  io_chunk_blocks = 0;
  sense_key = 0;
  sense_asc = 0;
  msc_read_count = 0;
  msc_write_count = 0;
  msc_setup_count = 0;
  msc_init_count = 0;
  card = 1000;
  calls = [];
}

some_blocks : 0 < cdb_count read_40.cb
unfolding cdb_count
some_blocks = omega arith

inside : cdb_lba read_40.cb + cdb_count read_40.cb ≤ 1000 * 512 / 512
unfolding cdb_lba cdb_count
inside = omega arith

buffer_size : length blank.xfer_buf ≡ 16384
buffer_size = length-replicate {A = ℕ} 16384 0

buffer_room : 18 ≤ length blank.xfer_buf
buffer_room = omega (arith, buffer_size)

begun : (msc_init card blank).bot_state ≡ idle
unfolding msc_init msc_arm_cbw
begun = refl

read10_transfer_example :
    Sent card card_works
      (record blank { cbw = read_40 })
      (cdb_lba read_40.cb)
      (cdb_count read_40.cb)
      (pump card ((cdb_count read_40.cb + 31) / 32) (host_cbw card read_40 31 blank))
read10_transfer_example =
    read10_transfer card card_works blank read_40 refl refl refl some_blocks inside (omega arith)
      buffer_size

Reach-IsArmed_example : IsArmed card (host_cbw card read_40 31 (msc_init card blank))
Reach-IsArmed_example =
    Reach-IsArmed card (called (started blank) (command (msc_init card blank) read_40 31 begun))

-- WRITE(10) of 40 blocks from block 992 on.
abbrev write_beyond : Cbw
write_beyond = record read_40 { cb = 0x2A ∷ 0 ∷ 0 ∷ 0 ∷ 3 ∷ 0xE0 ∷ 0 ∷ 0 ∷ 40 ∷ 0 ∷ [] }

write_beyond-Outside : Outside card blank write_beyond
unfolding cdb_lba cdb_count
write_beyond-Outside = record {
  signature = refl;
  io = refl;
  some_blocks = omega arith;
  beyond = omega arith;
}

-- REQUEST SENSE
abbrev ask : Cbw
ask = record read_40 { data_length = 18; cb = 0x03 ∷ 0 ∷ 0 ∷ 0 ∷ 18 ∷ 0 ∷ [] }

refused_sense_example :
    let f = host_cbw card write_beyond 31 blank in
    let q = host_cbw card ask 31 (msc_data_in card 1 f) in
    (f.csw ≡ failed 77)
    × (f.calls ≡ send_csw (failed 77) ∷ [])
    × (f.card ≡ 1000)
    × (data_sent q.calls ≡ sense_reply 0x05 0x21)
    × (q.sense_key ≡ 0)
    × (q.sense_asc ≡ 0)
refused_sense_example =
    refused_sense card blank write_beyond ask refl write_beyond-Outside refl refl (omega arith)
      buffer_room

serial_IsText : IsText (codes "0026")
serial_IsText = (omega arith, (omega arith, (omega arith, (omega arith, tt))))

abbrev clear : List ℕ
clear = replicate 64 0

msc_string_desc_lem_example :
    let r = msc_string_desc (codes "0026" ++ 0 ∷ []) clear in
    (r.0 ≡ 10) × (length r.1 ≡ 64) × (take r.0 r.1 ≡ 10 ∷ 3 ∷ utf16 (codes "0026"))
msc_string_desc_lem_example = msc_string_desc_lem (codes "0026") [] clear serial_IsText refl

-- The lengths that are reported are those of the tables.
tables_sized :
    (length msc_get_device_desc.1 ≡ msc_get_device_desc.0)
    × (length msc_get_lang_id_desc.1 ≡ msc_get_lang_id_desc.0)
    × (length msc_get_config_desc.1 ≡ msc_get_config_desc.0)
    × (length msc_get_qualifier_desc.1 ≡ msc_get_qualifier_desc.0)
tables_sized = (refl, refl, refl, refl)
