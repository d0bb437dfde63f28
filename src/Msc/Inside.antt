-- ===== src/Msc/Inside.antt =====
-- Where bootloader/drivers/usb/usb_msc.c reads and writes the card.
use stm32mp257_test_board.Prelude.{
  ℕ, ◌+◌, ◌-◌, ◌*◌, ◌^◌, ◌≤◌, ◌<◌, Bool, not, ◌&&◌, ◌||◌, Bool-cases, inl, inr, ltb, ◌==◌, ◌≡◌,
  refl, sym, subst, arith, get_or, bit_and, length-take, take,
}
use stm32mp257_test_board.Card.{Sd}
use stm32mp257_test_board.Msc.State.{
  Bot, idle, data_in, data_out, csw_queued, Msc, ep_num, cbw_bytes, cbw_signature, block_size,
  sub32,
}
use stm32mp257_test_board.Msc.Scsi.{
  start_io, request_sense, msc_cmd_dispatch, cdb_lba, cdb_count, card_blocks, inq, read_capacity,
  read_format, sense6,
}
use stm32mp257_test_board.Msc.Class.{
  msc_init, msc_setup, sent, msc_data_in, wrote_chunk, received, msc_data_out, host_cbw, host_chunk,
}
use stm32mp257_test_board.Msc.Protocol.{Callback, init, setup, packet_sent, command, chunk, packet}
use stm32mp257_test_board.Msc.Guard.{
  Guards, next_chunk-fits, nonzero, where_left, not_beyond, Rest, IsInside, msc_arm_cbw-IsInside,
  msc_send_csw-IsInside, msc_fail-IsInside, msc_send_data-IsInside, if-IsInside,
  msc_continue_read-IsInside, msc_arm_write_chunk-IsInside,
}

-- The states that the callbacks reach from `s`, which is initialised first.
pub data Run (sd : Sd) (s : Msc sd.Card) : Msc sd.Card → Type 0 where
  begun : Run sd s (msc_init sd s)
  followed : {t u : Msc sd.Card} → Run sd s t → Callback sd t u → Run sd s u

module _ {sd : Sd} {blocks : ℕ} {P : sd.Card → Type 0} (guards : Guards sd blocks P)
    (small : blocks < 2 ^ 32) where
  open sd use {Card, sd_write}

  start_io-IsInside : (b : Bool) (s : Msc Card) → P s.card → IsInside sd blocks P (start_io sd b s)
  unfolding start_io card_blocks
  start_io-IsInside b s k =
      let lba = cdb_lba s.cbw.cb in
      let cnt = cdb_count s.cbw.cb in
      let s' = record s { io_lba = lba; io_blocks_left = cnt } in
      elim (Bool-cases (cnt == 0)) [
        | inl z ↦ rw z (msc_send_csw-IsInside 0 s k)
        | inr z ↦ rw z (elim (Bool-cases (ltb (card_blocks sd s) (lba + cnt))) [
          | inl f ↦ rw f (msc_fail-IsInside 0x05 0x21 s k)
          | inr f ↦
              let fits : lba + cnt ≤ blocks =
                subst (λ m. lba + cnt ≤ m) (guards.sized s.card k) (not_beyond _ _ f) in
              rw f (
                if-IsInside b (msc_continue_read-IsInside guards small s' (nonzero cnt z) fits k)
                  (msc_arm_write_chunk-IsInside guards small s' (nonzero cnt z) fits k))
        ])
      ]

  request_sense-IsInside : (s : Msc Card) → P s.card → IsInside sd blocks P (request_sense sd s)
  unfolding request_sense
  request_sense-IsInside s h =
      msc_send_data-IsInside _ (record s { sense_key = 0; sense_asc = 0 }) h

  msc_cmd_dispatch-IsInside :
      (s : Msc Card) → P s.card → IsInside sd blocks P (msc_cmd_dispatch sd s)
  unfolding msc_cmd_dispatch
  msc_cmd_dispatch-IsInside s h =
      let op = get_or s.cbw.cb 0 0 in
      if-IsInside (op == 0x00 || op == 0x1B || op == 0x1E) (msc_send_csw-IsInside 0 s h) (
        if-IsInside (op == 0x12) (msc_send_data-IsInside inq s h) (
          if-IsInside (op == 0x25) (msc_send_data-IsInside (read_capacity sd s) s h) (
            if-IsInside (op == 0x23) (msc_send_data-IsInside (read_format sd s) s h) (
              if-IsInside (op == 0x1A) (msc_send_data-IsInside sense6 s h) (
                if-IsInside (op == 0x03) (request_sense-IsInside s h) (
                  if-IsInside (op == 0x28 || op == 0x2A) (start_io-IsInside (op == 0x28) s h)
                    (msc_fail-IsInside 0x05 0x20 s h)))))))

  sent-IsInside :
      (b : Bot) (s : Msc Card)
      → s.bot_state ≡ b
      → IsInside sd blocks P s
      → IsInside sd blocks P (sent sd b s)
  unfolding sent
  sent-IsInside data_in s e h = elim (Bool-cases (s.io_blocks_left == 0)) [
    | inl z ↦ rw z (msc_send_csw-IsInside 0 s h.kept)
    | inr z ↦
        let some_left = nonzero s.io_blocks_left z in
        rw z (
          msc_continue_read-IsInside guards small s some_left
            (where_left s.io_lba s.io_blocks_left blocks some_left
              (subst (λ b. Rest sd blocks P b s) e h.rest))
            h.kept)
  ]
  sent-IsInside csw_queued s e h = msc_arm_cbw-IsInside s h.kept
  sent-IsInside idle s e h = h
  sent-IsInside data_out s e h = h

  wrote_chunk-IsInside :
      (s : Msc Card)
      → Rest sd blocks P data_out s
      → P s.card
      → IsInside sd blocks P (wrote_chunk sd s)
  unfolding wrote_chunk
  wrote_chunk-IsInside s (inside, part, p) k =
      let fits = next_chunk-fits s.io_blocks_left p in
      let left = sub32 s.io_blocks_left s.io_chunk_blocks in
      let taken : left ≡ s.io_blocks_left - s.io_chunk_blocks = omega (arith, small) in
      elim (Bool-cases (left == 0)) [
        | inl z ↦ rw z (msc_send_csw-IsInside 0 _ k)
        | inr z ↦
            rw z (
              msc_arm_write_chunk-IsInside guards small _ (nonzero left z) (omega (arith, small)) k)
      ]

  received-IsInside :
      (b : Bot) (n : ℕ) (s : Msc Card)
      → Rest sd blocks P b s
      → (s.bot_state ≡ b)
      → P s.card
      → IsInside sd blocks P (received sd b n s)
  unfolding received
  received-IsInside idle n s r e h =
      if-IsInside (n == cbw_bytes && s.cbw.signature == cbw_signature)
        (msc_cmd_dispatch-IsInside s h) (msc_fail-IsInside 0x05 0x24 s h)
  received-IsInside data_out n s r e h =
      let (card, ok) =
        sd_write s.card s.io_lba (take (s.io_chunk_blocks * block_size) s.xfer_buf) in
      let fits = next_chunk-fits s.io_blocks_left r.2 in
      let k : P card =
        guards.write_inside s.card s.io_lba s.io_chunk_blocks
          (take (s.io_chunk_blocks * block_size) s.xfer_buf) (omega (arith, fits, r.1))
          (omega (arith, fits, r.1)) (omega (arith, fits, r.0, r.1))
          (omega (arith, length-take (s.io_chunk_blocks * block_size) s.xfer_buf)) h in
      if-IsInside ok (wrote_chunk-IsInside (record s { card = card }) r k)
        (msc_fail-IsInside 0x04 0x03 (record s { card = card }) k)
  received-IsInside data_in n s r e h = record {
    kept = h;
    rest = subst (λ b. Rest sd blocks P b s) (sym e) r;
  }
  received-IsInside csw_queued n s r e h = record {
    kept = h;
    rest = subst (λ b. Rest sd blocks P b s) (sym e) r;
  }

  msc_setup-IsInside :
      (bm b : ℕ) (s : Msc Card)
      → IsInside sd blocks P s
      → IsInside sd blocks P (msc_setup sd bm b s).1
  unfolding msc_setup
  msc_setup-IsInside bm b s h = elim (Bool-cases (bit_and bm 0x60 == 0x20)) [
    | inl e ↦ rw e (elim (Bool-cases (b == 0xFE)) [
      | inl k ↦ rw k (record { kept = h.kept; rest = h.rest })
      | inr k ↦ rw k (elim (Bool-cases (b == 0xFF)) [
        | inl l ↦ rw l (msc_arm_cbw-IsInside _ h.kept)
        | inr l ↦ rw l (record { kept = h.kept; rest = h.rest })
      ])
    ])
    | inr e ↦ rw e (record { kept = h.kept; rest = h.rest })
  ]

  pub Callback-IsInside :
      {s t : Msc Card} → Callback sd s t → IsInside sd blocks P s → IsInside sd blocks P t
  unfolding msc_init msc_data_in host_cbw host_chunk msc_data_out
  Callback-IsInside (init s) h = msc_arm_cbw-IsInside _ h.kept
  Callback-IsInside (setup s bm b) h = msc_setup-IsInside bm b s h
  Callback-IsInside (packet_sent s ep) h = if-IsInside _ h (sent-IsInside s.bot_state s refl h)
  Callback-IsInside (command s w n e) h =
      received-IsInside s.bot_state n (record s { cbw = w }) h.rest refl h.kept
  Callback-IsInside (chunk s b n e) h =
      received-IsInside s.bot_state n (record s { xfer_buf = b }) h.rest refl h.kept
  Callback-IsInside (packet s ep n) h =
      if-IsInside (not (ep == ep_num)) h (received-IsInside s.bot_state n s h.rest refl h.kept)

  -- Every access to the card is inside it: over a card of `blocks` blocks, below 2 ^ 32, any
  -- property of the card that fixes its size and that reads and writes of 1 to 32 blocks
  -- inside the card keep, and that holds at the first `msc_init`, holds after any sequence of
  -- callbacks with any data and any answers of the card; what is left to read lies inside the
  -- card, and what is left to write too, with the next chunk of it armed.
  pub Run-IsInside : {s t : Msc Card} → P s.card → Run sd s t → IsInside sd blocks P t
  unfolding msc_init
  Run-IsInside h begun = msc_arm_cbw-IsInside _ h
  Run-IsInside h (followed r c) = Callback-IsInside c (Run-IsInside h r)
