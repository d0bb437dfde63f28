-- ===== src/Msc/Write.antt =====
-- WRITE(10) of bootloader/drivers/usb/usb_msc.c, from the command to the status.
use stm32mp257_test_board.Prelude.{
  ℕ, zero, suc, ◌+◌, ◌-◌, ◌*◌, ◌/◌, ◌^◌, ◌≤◌, ◌<◌, List, [], ◌∷◌, ◌++◌, false, length, take, drop,
  append-nil, ltb, ◌==◌, ◌≡◌, refl, ap, ◌∙◌, arith, get_or, subst, le→ltb, length-take, length-drop,
}
use stm32mp257_test_board.Card.{Sd}
use stm32mp257_test_board.Msc.State.{idle, Cbw, send_csw, Msc, cbw_signature}
use stm32mp257_test_board.Msc.Transfer.{next_chunk, msc_arm_write_chunk}
use stm32mp257_test_board.Msc.Scsi.{cdb_lba, cdb_count, msc_cmd_dispatch}
use stm32mp257_test_board.Msc.Class.{host_cbw, msc_data_out, received}
use stm32mp257_test_board.Msc.Blocks.{Works}
use stm32mp257_test_board.Msc.Chunk.{
  data_sent, data_sent-append, passed, next_chunk_last, next_chunk_full,
}
use stm32mp257_test_board.Msc.Stored.{Stores, Stored-join}
use stm32mp257_test_board.Msc.Packet.{
  host_bytes, Writing, Wrote, Continued, last_packet, full_packet,
}

module _ (sd : Sd) where
  -- The host sends `n` packets of `bytes`.
  abbrev pub feed : ℕ → List ℕ → Msc sd.Card → Msc sd.Card
  feed zero bytes s = s
  feed (suc n) bytes s = feed n (drop 16384 bytes) (host_bytes sd bytes s)

take_all : (xs : List ℕ) (n : ℕ) → length xs ≤ n → take n xs ≡ xs
take_all [] zero h = refl
take_all [] (suc n) h = refl
take_all (x ∷ xs) zero h = absurd (omega arith)
take_all (x ∷ xs) (suc n) h = ap (λ r. x ∷ r) (take_all xs n (omega arith))

module _ (sd : Sd) (works : Works sd) (stores : Stores sd works) where
  open sd use {Card, sd_size_bytes}

  -- A full chunk, and the transfer behind it.
  join :
      (s mid : Msc Card) (lba n : ℕ) (bytes : List ℕ) (out : Msc Card)
      → 32 ≤ n
      → Continued sd works stores s lba n 32 bytes mid
      → Wrote sd works stores mid (lba + 32) (n - 32) (drop 16384 bytes) out
      → Wrote sd works stores s lba n bytes out
  join s mid lba n bytes out h c t = record {
    stored = Stored-join sd works s.card mid.card out.card lba 32 n 16384 bytes h c.stored t.stored;
    state = t.state;
    status = t.status ∙ ap (λ w. passed w.tag) c.cbw;
    last = (t.last.0, t.last.1 ∙ ap (λ w. t.last.0 ++ send_csw (passed w.tag) ∷ []) c.cbw);
    count = omega (arith, t.count, c.count);
    quiet = t.quiet ∙ c.quiet;
    buffer = t.buffer;
  }

  transfer_lem :
      (j n lba : ℕ) (bytes : List ℕ) (s : Msc Card)
      → n ≤ 32 * suc j
      → 32 * j < n
      → length bytes ≡ n * 512
      → Writing sd works stores s lba n
      → Wrote sd works stores s lba n bytes (feed sd (suc j) bytes s)
  transfer_lem zero n lba bytes s h l e w =
      subst (λ b. Wrote sd works stores s lba n b (host_bytes sd bytes s))
        (take_all bytes 16384 (omega (arith, e)))
        (last_packet sd works stores s lba n n bytes w (next_chunk_last n (omega arith))
          (omega arith) (omega arith) (omega arith) (omega (arith, length-take 16384 bytes, e))
          refl)
  transfer_lem (suc j) n lba bytes s h l e w =
      let c : Continued sd works stores s lba n 32 bytes (host_bytes sd bytes s) =
        full_packet sd works stores s lba n 32 bytes w (next_chunk_full n (omega arith))
          (omega arith) (omega arith) (omega arith) (omega (arith, length-take 16384 bytes, e))
          (omega arith) in
      join s (host_bytes sd bytes s) lba n bytes _ (omega arith) c (
        transfer_lem j (n - 32) (lba + 32) (drop 16384 bytes) (host_bytes sd bytes s) (omega arith)
          (omega arith) (omega (arith, length-drop 16384 bytes, e)) c.writing)

  -- The command arms the first chunk.
  start_lem :
      (s : Msc Card) (w : Cbw)
      → s.bot_state ≡ idle
      → w.signature ≡ cbw_signature
      → get_or w.cb 0 0 ≡ 0x2A
      → 0 < cdb_count w.cb
      → cdb_lba w.cb + cdb_count w.cb ≤ sd_size_bytes s.card / 512
      → host_cbw sd w 31 s
        ≡ msc_arm_write_chunk sd
            (record s { cbw = w; io_lba = cdb_lba w.cb; io_blocks_left = cdb_count w.cb })
  unfolding host_cbw msc_data_out msc_cmd_dispatch
  start_lem s w i sig op p h =
      let nonzero : (cdb_count w.cb == 0) ≡ false = ground arith in
      let fits : ltb (sd_size_bytes s.card / 512) (cdb_lba w.cb + cdb_count w.cb) ≡ false =
        le→ltb _ _ h in
      ap (λ b. received sd b 31 (record s { cbw = w })) i ∙ rw (sig, op, nonzero, fits) refl

  start-Writing :
      (s : Msc Card) (lba n : ℕ)
      → s.io_lba ≡ lba
      → s.io_blocks_left ≡ n
      → lba + n ≤ sd_size_bytes s.card / 512
      → sd_size_bytes s.card / 512 < 2 ^ 32
      → length s.xfer_buf ≡ 16384
      → Writing sd works stores (msc_arm_write_chunk sd s) lba n
  unfolding msc_arm_write_chunk
  start-Writing s lba n a l inside small buf = record {
    at = a;
    left = l;
    armed = ap next_chunk l;
    state = refl;
    inside = inside;
    small = small;
    buffer = buf;
  }

  -- The transfer behind the arming of its first chunk.
  armed-Wrote :
      (s : Msc Card) (lba n : ℕ) (bytes : List ℕ) (out : Msc Card)
      → Wrote sd works stores (msc_arm_write_chunk sd s) lba n bytes out
      → Wrote sd works stores s lba n bytes out
  unfolding msc_arm_write_chunk
  armed-Wrote s lba n bytes out t = record {
    stored = t.stored;
    state = t.state;
    status = t.status;
    last = t.last;
    count = t.count;
    quiet = t.quiet ∙ data_sent-append s.calls _ ∙ append-nil (data_sent s.calls);
    buffer = t.buffer;
  }

  -- WRITE(10) of a positive number of blocks inside a card below 2 ^ 32 blocks that works and
  -- stores what is written inside it, received while the device waits for a command and with a
  -- whole transfer buffer: after one packet of at most 16384 bytes for each chunk of 32 blocks
  -- begun, the blocks hold exactly the bytes sent, all other blocks and the size of the card
  -- are kept, the last call queues a status wrapper that passes the command under its tag, no
  -- data byte is sent, and the write counter has grown by the number of blocks modulo 2 ^ 64.
  pub write10_transfer :
      (s : Msc Card) (w : Cbw) (bytes : List ℕ)
      → s.bot_state ≡ idle
      → w.signature ≡ cbw_signature
      → get_or w.cb 0 0 ≡ 0x2A
      → 0 < cdb_count w.cb
      → cdb_lba w.cb + cdb_count w.cb ≤ sd_size_bytes s.card / 512
      → sd_size_bytes s.card / 512 < 2 ^ 32
      → length s.xfer_buf ≡ 16384
      → length bytes ≡ cdb_count w.cb * 512
      → Wrote sd works stores
          (record s { cbw = w })
          (cdb_lba w.cb)
          (cdb_count w.cb)
          bytes
          (feed sd ((cdb_count w.cb + 31) / 32) bytes (host_cbw sd w 31 s))
  write10_transfer s w bytes i sig op p h small buf e =
      rw (start_lem s w i sig op p h, rounds (cdb_count w.cb) p)
        (again (
          armed-Wrote begun (cdb_lba w.cb) (cdb_count w.cb) bytes _ (
            transfer_lem ((cdb_count w.cb - 1) / 32) (cdb_count w.cb) (cdb_lba w.cb) bytes
              (msc_arm_write_chunk sd begun) (omega arith) (omega arith) e
              (start-Writing begun (cdb_lba w.cb) (cdb_count w.cb) refl refl h small buf))))
    where
      begun : Msc Card
      begun = record s { cbw = w; io_lba = cdb_lba w.cb; io_blocks_left = cdb_count w.cb }

      rounds : (n : ℕ) → 0 < n → (n + 31) / 32 ≡ suc ((n - 1) / 32)
      rounds n p = omega arith

      again :
          {out : Msc Card}
          → Wrote sd works stores begun (cdb_lba w.cb) (cdb_count w.cb) bytes out
          → Wrote sd works stores (record s { cbw = w }) (cdb_lba w.cb) (cdb_count w.cb) bytes out
      again t = record {
        stored = t.stored;
        state = t.state;
        status = t.status;
        last = t.last;
        count = t.count;
        quiet = t.quiet;
        buffer = t.buffer;
      }
