-- ===== src/Msc/Read.antt =====
-- READ(10) of bootloader/drivers/usb/usb_msc.c, from the command to the status.
use stm32mp257_test_board.Prelude.{
  ℕ, zero, suc, ◌+◌, ◌-◌, ◌*◌, ◌/◌, ◌%◌, ◌^◌, ◌≤◌, ◌<◌, List, [], ◌∷◌, ◌++◌, Bool, false, not,
  length, append_assoc, append-nil, ltb, ◌==◌, if◌then◌else◌, ◌≡◌, refl, sym, ap, ap₂, ◌∙◌, arith,
  get_or, subst, le→ltb,
}
use stm32mp257_test_board.Card.{Sd}
use stm32mp257_test_board.Msc.State.{
  idle, data_in, csw_queued, Cbw, Usb, send_csw, Msc, cbw_signature,
}
use stm32mp257_test_board.Msc.Transfer.{msc_continue_read, msc_send_csw}
use stm32mp257_test_board.Msc.Scsi.{cdb_lba, cdb_count, msc_cmd_dispatch}
use stm32mp257_test_board.Msc.Class.{msc_data_in, sent, host_cbw, msc_data_out, received}
use stm32mp257_test_board.Msc.Blocks.{read_blocks, Works, read_blocks-add}
use stm32mp257_test_board.Msc.Chunk.{
  data_sent, data_sent-append, passed, next_chunk_last, next_chunk_full, Reading, Chunk, chunk_lem,
}

module _ (sd : Sd) where
  open sd use {Card, sd_size_bytes}

  -- `n` packets are sent.
  abbrev pub pump : ℕ → Msc Card → Msc Card
  pump zero s = s
  pump (suc n) s = pump n (msc_data_in sd 1 s)

module _ (sd : Sd) (works : Works sd) where
  open sd use {Card, sd_size_bytes, sd_read}

  -- What a whole transfer has done.
  pub record Sent (s : Msc Card) (lba n : ℕ) (out : Msc Card) : Type 0 where
    pub data_bytes :
        data_sent out.calls ≡ data_sent s.calls ++ read_blocks (works.block s.card) lba n
    pub state : out.bot_state ≡ csw_queued
    pub status : out.csw ≡ passed s.cbw.tag
    pub last : (cs : List Usb) × (out.calls ≡ cs ++ send_csw (passed s.cbw.tag) ∷ [])
    pub card : out.card ≡ s.card
    pub count : out.msc_read_count ≡ (s.msc_read_count + n) % 2 ^ 64

  data_in_last :
      (s : Msc Card)
      → s.bot_state ≡ data_in
      → s.io_blocks_left ≡ 0
      → msc_data_in sd 1 s ≡ msc_send_csw sd 0 s
  unfolding msc_data_in
  data_in_last s e q =
      ap (λ b. sent sd b s) e
      ∙ ap (λ n. if not (n == 0) then msc_continue_read sd s else msc_send_csw sd 0 s) q

  data_in_more :
      (s : Msc Card) (n : ℕ)
      → s.bot_state ≡ data_in
      → s.io_blocks_left ≡ n
      → 0 < n
      → msc_data_in sd 1 s ≡ msc_continue_read sd s
  unfolding msc_data_in
  data_in_more s n e q h =
      ap (λ b. sent sd b s) e
      ∙ ap (λ n. if not (n == 0) then msc_continue_read sd s else msc_send_csw sd 0 s) q
      ∙ ap (λ (b : Bool). if not b then msc_continue_read sd s else msc_send_csw sd 0 s)
          (ne_zero n h)
    where
      ne_zero : (n : ℕ) → 0 < n → (n == 0) ≡ false
      ne_zero n h = ground arith

  -- The last chunk, and the status behind it.
  final_packet :
      (s out : Msc Card) (lba n : ℕ)
      → Chunk sd works s lba n n out
      → Sent s lba n (msc_data_in sd 1 out)
  final_packet s out lba n c = rw (data_in_last out c.state (c.reading.left ∙ sub_self n)) (
      unfold msc_send_csw in
      record {
        data_bytes = data_sent-append out.calls _ ∙ append-nil (data_sent out.calls) ∙ c.bytes;
        state = refl;
        status = ap (λ w. passed w.tag) c.cbw;
        last = (out.calls, ap (λ w. out.calls ++ send_csw (passed w.tag) ∷ []) c.cbw);
        card = c.card;
        count = c.count;
      })
    where
      sub_self : (n : ℕ) → n - n ≡ 0
      sub_self n = omega arith

  -- A full chunk, and the transfer behind it.
  join :
      (s mid : Msc Card) (lba n : ℕ) (out : Msc Card)
      → 32 ≤ n
      → Chunk sd works s lba n 32 mid
      → Sent mid (lba + 32) (n - 32) out
      → Sent s lba n out
  join s mid lba n out h c t = record {
    data_bytes =
        t.data_bytes
        ∙ ap₂ (λ b card. b ++ read_blocks (works.block card) (lba + 32) (n - 32)) c.bytes c.card
        ∙ append_assoc (data_sent s.calls) (read_blocks (works.block s.card) lba 32)
            (read_blocks (works.block s.card) (lba + 32) (n - 32))
        ∙ ap (λ b. data_sent s.calls ++ b)
            (sym (read_blocks-add (works.block s.card) lba 32 (n - 32))
              ∙ ap (λ k. read_blocks (works.block s.card) lba k) whole);
    state = t.state;
    status = t.status ∙ ap (λ w. passed w.tag) c.cbw;
    last = (t.last.0, t.last.1 ∙ ap (λ w. t.last.0 ++ send_csw (passed w.tag) ∷ []) c.cbw);
    card = t.card ∙ c.card;
    count = omega (arith, t.count, c.count);
  }
    where
      whole : 32 + (n - 32) ≡ n
      whole = omega arith

  transfer_lem :
      (j n lba : ℕ) (s : Msc Card)
      → n ≤ 32 * suc j
      → 32 * j < n
      → Reading sd works s lba n
      → Sent s lba n (pump sd (suc j) (msc_continue_read sd s))
  transfer_lem zero n lba s h l r = final_packet s _ lba n (
      subst (λ k. Chunk sd works s lba n k (msc_continue_read sd s))
        (next_chunk_last n (omega arith)) (chunk_lem sd works s lba n (omega arith) r))
  transfer_lem (suc j) n lba s h l r =
      let c =
        subst (λ k. Chunk sd works s lba n k (msc_continue_read sd s))
          (next_chunk_full n (omega arith)) (chunk_lem sd works s lba n (omega arith) r) in
      rw (data_in_more (msc_continue_read sd s) (n - 32) c.state c.reading.left (omega arith)) (
        join s (msc_continue_read sd s) lba n _ (omega arith) c (
          transfer_lem j (n - 32) (lba + 32) (msc_continue_read sd s) (omega arith) (omega arith)
            c.reading))

  -- The command starts the transfer.
  start_lem :
      (s : Msc Card) (w : Cbw)
      → s.bot_state ≡ idle
      → w.signature ≡ cbw_signature
      → get_or w.cb 0 0 ≡ 0x28
      → 0 < cdb_count w.cb
      → cdb_lba w.cb + cdb_count w.cb ≤ sd_size_bytes s.card / 512
      → host_cbw sd w 31 s
        ≡ msc_continue_read sd
            (record s { cbw = w; io_lba = cdb_lba w.cb; io_blocks_left = cdb_count w.cb })
  unfolding host_cbw msc_data_out msc_cmd_dispatch
  start_lem s w i sig op p h =
      let nonzero : (cdb_count w.cb == 0) ≡ false = ground arith in
      let fits : ltb (sd_size_bytes s.card / 512) (cdb_lba w.cb + cdb_count w.cb) ≡ false =
        le→ltb _ _ h in
      ap (λ b. received sd b 31 (record s { cbw = w })) i ∙ rw (sig, op, nonzero, fits) refl

  -- READ(10) of a positive number of blocks inside a card below 2 ^ 32 blocks that works,
  -- received while the device waits for a command and with a whole transfer buffer: after one
  -- packet sent for each chunk of 32 blocks begun, the data bytes sent are exactly those
  -- blocks in order, the last call queues a status wrapper that passes the command under its
  -- tag, the card is unchanged and the read counter has grown by the number of blocks modulo 2
  -- ^ 64.
  pub read10_transfer :
      (s : Msc Card) (w : Cbw)
      → s.bot_state ≡ idle
      → w.signature ≡ cbw_signature
      → get_or w.cb 0 0 ≡ 0x28
      → 0 < cdb_count w.cb
      → cdb_lba w.cb + cdb_count w.cb ≤ sd_size_bytes s.card / 512
      → sd_size_bytes s.card / 512 < 2 ^ 32
      → length s.xfer_buf ≡ 16384
      → Sent
          (record s { cbw = w })
          (cdb_lba w.cb)
          (cdb_count w.cb)
          (pump sd ((cdb_count w.cb + 31) / 32) (host_cbw sd w 31 s))
  read10_transfer s w i sig op p h small buf =
      rw (start_lem s w i sig op p h, rounds (cdb_count w.cb) p)
        (again (
          transfer_lem ((cdb_count w.cb - 1) / 32) (cdb_count w.cb) (cdb_lba w.cb)
            (record s { cbw = w; io_lba = cdb_lba w.cb; io_blocks_left = cdb_count w.cb })
            (omega arith) (omega arith)
            record { at = refl; left = refl; inside = h; small = small; buffer = buf }))
    where
      rounds : (n : ℕ) → 0 < n → (n + 31) / 32 ≡ suc ((n - 1) / 32)
      rounds n p = omega arith

      again :
          {out : Msc Card}
          → Sent
              (record s { cbw = w; io_lba = cdb_lba w.cb; io_blocks_left = cdb_count w.cb })
              (cdb_lba w.cb)
              (cdb_count w.cb)
              out
          → Sent (record s { cbw = w }) (cdb_lba w.cb) (cdb_count w.cb) out
      again t = record {
        data_bytes = t.data_bytes;
        state = t.state;
        status = t.status;
        last = t.last;
        card = t.card;
        count = t.count;
      }
