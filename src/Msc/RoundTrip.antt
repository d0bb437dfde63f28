-- ===== src/Msc/RoundTrip.antt =====
-- WRITE(10) and then READ(10) of the same blocks in bootloader/drivers/usb/usb_msc.c.
use stm32mp257_test_board.Prelude.{
  ℕ, ◌+◌, ◌*◌, ◌/◌, ◌^◌, ◌≤◌, ◌<◌, List, ◌++◌, length, append-nil, ◌≡◌, refl, ap, ap₂, ◌∙◌, arith,
  get_or,
}
use stm32mp257_test_board.Card.{Sd}
use stm32mp257_test_board.Msc.State.{idle, csw_queued, Cbw, Msc, cbw_signature}
use stm32mp257_test_board.Msc.Transfer.{msc_arm_cbw}
use stm32mp257_test_board.Msc.Scsi.{cdb_lba, cdb_count}
use stm32mp257_test_board.Msc.Class.{msc_data_in, sent, host_cbw}
use stm32mp257_test_board.Msc.Blocks.{read_blocks, Works}
use stm32mp257_test_board.Msc.Chunk.{data_sent, data_sent-append, passed}
use stm32mp257_test_board.Msc.Stored.{Stores}
use stm32mp257_test_board.Msc.Packet.{Wrote}
use stm32mp257_test_board.Msc.Read.{pump, Sent, read10_transfer}
use stm32mp257_test_board.Msc.Write.{feed, write10_transfer}

module _ (sd : Sd) where
  -- The states behind a WRITE(10) of `bytes`, behind the packet of its status, and behind a
  -- READ(10).
  abbrev pub written : Cbw → List ℕ → Msc sd.Card → Msc sd.Card
  written w bytes s =
      msc_data_in sd 1 (feed sd ((cdb_count w.cb + 31) / 32) bytes (host_cbw sd w 31 s))

  abbrev pub read_back : Cbw → Msc sd.Card → Msc sd.Card
  read_back r s = pump sd ((cdb_count r.cb + 31) / 32) (host_cbw sd r 31 s)

  status_sent : (s : Msc sd.Card) → s.bot_state ≡ csw_queued → msc_data_in sd 1 s ≡ msc_arm_cbw sd s
  unfolding msc_data_in
  status_sent s e = ap (λ b. sent sd b s) e

  record Rearmed (s out : Msc sd.Card) : Type 0 where
    state : out.bot_state ≡ idle
    card : out.card ≡ s.card
    buffer : out.xfer_buf ≡ s.xfer_buf
    quiet : data_sent out.calls ≡ data_sent s.calls

  msc_arm_cbw-Rearmed : (s : Msc sd.Card) → Rearmed s (msc_arm_cbw sd s)
  unfolding msc_arm_cbw
  msc_arm_cbw-Rearmed s = record {
    state = refl;
    card = refl;
    buffer = refl;
    quiet = data_sent-append s.calls _ ∙ append-nil (data_sent s.calls);
  }

  status_sent-Rearmed :
      (s : Msc sd.Card) → s.bot_state ≡ csw_queued → Rearmed s (msc_data_in sd 1 s)
  status_sent-Rearmed s e = rw (status_sent s e) (msc_arm_cbw-Rearmed s)

module _ (sd : Sd) (works : Works sd) (stores : Stores sd works) where
  open sd use {Card, sd_size_bytes}

  -- On a card below 2 ^ 32 blocks that works and stores what is written inside it: a WRITE(10)
  -- of a positive number of blocks inside the card, received while the device waits for a
  -- command and with a whole transfer buffer, and sent in packets of at most 16384 bytes, then
  -- the packet of its status, then a READ(10) of the same blocks with one packet for each
  -- chunk of 32 blocks begun, sends back exactly the bytes that were written, passes under the
  -- tag of the READ(10), and leaves the card as the WRITE(10) left it.
  pub write10-read10 :
      (s : Msc Card) (w r : Cbw) (bytes : List ℕ)
      → s.bot_state ≡ idle
      → w.signature ≡ cbw_signature
      → get_or w.cb 0 0 ≡ 0x2A
      → 0 < cdb_count w.cb
      → cdb_lba w.cb + cdb_count w.cb ≤ sd_size_bytes s.card / 512
      → sd_size_bytes s.card / 512 < 2 ^ 32
      → length s.xfer_buf ≡ 16384
      → length bytes ≡ cdb_count w.cb * 512
      → r.signature ≡ cbw_signature
      → get_or r.cb 0 0 ≡ 0x28
      → cdb_lba r.cb ≡ cdb_lba w.cb
      → cdb_count r.cb ≡ cdb_count w.cb
      → let out = read_back sd r (written sd w bytes s) in
        (data_sent out.calls ≡ data_sent s.calls ++ bytes)
        × (out.csw ≡ passed r.tag)
        × (out.card ≡ (written sd w bytes s).card)
  write10-read10 s w r bytes i sig op p h small buf e sig' op' same_lba same_count =
      let t : Wrote sd works stores (record s { cbw = w }) (cdb_lba w.cb) (cdb_count w.cb) bytes
          (feed sd ((cdb_count w.cb + 31) / 32) bytes (host_cbw sd w 31 s)) =
        write10_transfer sd works stores s w bytes i sig op p h small buf e in
      let a : Rearmed sd (feed sd ((cdb_count w.cb + 31) / 32) bytes (host_cbw sd w 31 s))
          (written sd w bytes s) =
        status_sent-Rearmed sd _ t.state in
      let size : sd_size_bytes (written sd w bytes s).card ≡ sd_size_bytes s.card =
        ap sd_size_bytes a.card ∙ t.stored.size in
      let out : Sent sd works (record (written sd w bytes s) { cbw = r }) (cdb_lba r.cb)
          (cdb_count r.cb) (read_back sd r (written sd w bytes s)) =
        read10_transfer sd works (written sd w bytes s) r a.state sig' op'
          (omega (arith, p, same_count)) (omega (arith, h, same_lba, same_count, size))
          (omega (arith, small, size)) (ap length a.buffer ∙ t.buffer) in
      (
        out.data_bytes
            ∙ ap₂ ◌++◌ (a.quiet ∙ t.quiet) (
                ap₂ (λ l n. read_blocks (works.block (written sd w bytes s).card) l n) same_lba
                  same_count
                ∙ ap (λ c. read_blocks (works.block c) (cdb_lba w.cb) (cdb_count w.cb)) a.card
                ∙ t.stored.written),
        out.status,
        out.card,
      )
