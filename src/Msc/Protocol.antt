-- ===== src/Msc/Protocol.antt =====
-- The protocol of bootloader/drivers/usb/usb_msc.c: between two callbacks the bulk endpoints have been
-- asked for exactly the transfer that `bot_state` waits for.
use stm32mp257_test_board.Prelude.{
  ℕ, ◌+◌, ◌*◌, List, [], ◌∷◌, ◌++◌, Option, none, some, Bool, true, false, not, ◌&&◌, ◌||◌,
  Bool-cases, inl, inr, ltb, ◌==◌, if◌then◌else◌, ◌≡◌, refl, ◌∙◌, get_or, bit_and, take,
}
use stm32mp257_test_board.Card.{Sd}
use stm32mp257_test_board.Msc.State.{
  Bot, idle, data_in, data_out, csw_queued, Cbw, Usb, receive_cbw, receive_xfer, send_xfer, ep_num,
  send_csw, send_ep0, ctl_error, ep_open, Msc, cbw_bytes, cbw_signature, block_size,
}
use stm32mp257_test_board.Msc.Transfer.{
  msc_arm_cbw, msc_send_csw, msc_fail, msc_send_data, after_read, msc_continue_read,
  msc_arm_write_chunk,
}
use stm32mp257_test_board.Msc.Scsi.{
  start_io, request_sense, msc_cmd_dispatch, cdb_lba, cdb_count, card_blocks, inq, read_capacity,
  read_format, sense6,
}
use stm32mp257_test_board.Msc.Class.{
  msc_init, msc_setup, sent, msc_data_in, wrote_chunk, received, msc_data_out, host_cbw, host_chunk,
}

-- The state that waits for a call's completion; the control endpoint is no bulk endpoint.
abbrev completes : Usb → Option Bot → Option Bot
completes (receive_cbw n) o = some idle
completes (receive_xfer n) o = some data_out
completes (send_xfer b) o = some data_in
completes (send_csw w) o = some csw_queued
completes (send_ep0 n) o = o
completes ctl_error o = o
completes (ep_open n) o = o

abbrev asked_from : Option Bot → List Usb → Option Bot
asked_from o [] = o
asked_from o (c ∷ cs) = asked_from (completes c o) cs

-- What the last call on a bulk endpoint asked for.
abbrev asked : List Usb → Option Bot
asked cs = asked_from none cs

asked_from-append :
    (xs : List Usb) (c : Usb) (o : Option Bot)
    → asked_from o (xs ++ c ∷ []) ≡ completes c (asked_from o xs)
asked_from-append [] c o = refl
asked_from-append (x ∷ xs) c o = asked_from-append xs c (completes x o)

module _ (sd : Sd) where
  open sd use {Card, sd_read, sd_write}

  pub record IsArmed (s : Msc Card) : Type 0 where
    pub armed : asked s.calls ≡ some s.bot_state

  msc_arm_cbw-IsArmed : (s : Msc Card) → IsArmed (msc_arm_cbw sd s)
  unfolding msc_arm_cbw
  msc_arm_cbw-IsArmed s = record { armed = asked_from-append s.calls _ none }

  msc_send_csw-IsArmed : (n : ℕ) (s : Msc Card) → IsArmed (msc_send_csw sd n s)
  unfolding msc_send_csw
  msc_send_csw-IsArmed n s = record { armed = asked_from-append s.calls _ none }

  msc_fail-IsArmed : (k a : ℕ) (s : Msc Card) → IsArmed (msc_fail sd k a s)
  unfolding msc_fail
  msc_fail-IsArmed k a s = msc_send_csw-IsArmed 1 (record s { sense_key = k; sense_asc = a })

  msc_send_data-IsArmed : (b : List ℕ) (s : Msc Card) → IsArmed (msc_send_data sd b s)
  unfolding msc_send_data
  msc_send_data-IsArmed b s = record { armed = asked_from-append s.calls _ none }

  after_read-IsArmed :
      (n : ℕ) (c : Card) (o : Option (List ℕ)) (s : Msc Card) → IsArmed (after_read sd n c o s)
  unfolding after_read
  after_read-IsArmed n c none s = msc_fail-IsArmed 0x04 0x11 (record s { card = c })
  after_read-IsArmed n c (some b) s = record { armed = asked_from-append s.calls _ none }

  msc_continue_read-IsArmed : (s : Msc Card) → IsArmed (msc_continue_read sd s)
  unfolding msc_continue_read
  msc_continue_read-IsArmed s = after_read-IsArmed _ _ _ s

  msc_arm_write_chunk-IsArmed : (s : Msc Card) → IsArmed (msc_arm_write_chunk sd s)
  unfolding msc_arm_write_chunk
  msc_arm_write_chunk-IsArmed s = record { armed = asked_from-append s.calls _ none }

  -- A branch that is armed either way.
  if-IsArmed : (b : Bool) {s t : Msc Card} → IsArmed s → IsArmed t → IsArmed (if b then s else t)
  if-IsArmed true h k = h
  if-IsArmed false h k = k

  request_sense-IsArmed : (s : Msc Card) → IsArmed (request_sense sd s)
  unfolding request_sense
  request_sense-IsArmed s = msc_send_data-IsArmed _ (record s { sense_key = 0; sense_asc = 0 })

  start_io-IsArmed : (b : Bool) (s : Msc Card) → IsArmed (start_io sd b s)
  unfolding start_io
  start_io-IsArmed b s =
      let lba = cdb_lba s.cbw.cb in
      let cnt = cdb_count s.cbw.cb in
      let s' = record s { io_lba = lba; io_blocks_left = cnt } in
      if-IsArmed (cnt == 0) (msc_send_csw-IsArmed 0 s) (
        if-IsArmed (ltb (card_blocks sd s) (lba + cnt)) (msc_fail-IsArmed 0x05 0x21 s)
          (if-IsArmed b (msc_continue_read-IsArmed s') (msc_arm_write_chunk-IsArmed s')))

  msc_cmd_dispatch-IsArmed : (s : Msc Card) → IsArmed (msc_cmd_dispatch sd s)
  unfolding msc_cmd_dispatch
  msc_cmd_dispatch-IsArmed s =
      let op = get_or s.cbw.cb 0 0 in
      if-IsArmed (op == 0x00 || op == 0x1B || op == 0x1E) (msc_send_csw-IsArmed 0 s) (
        if-IsArmed (op == 0x12) (msc_send_data-IsArmed inq s) (
          if-IsArmed (op == 0x25) (msc_send_data-IsArmed (read_capacity sd s) s) (
            if-IsArmed (op == 0x23) (msc_send_data-IsArmed (read_format sd s) s) (
              if-IsArmed (op == 0x1A) (msc_send_data-IsArmed sense6 s) (
                if-IsArmed (op == 0x03) (request_sense-IsArmed s) (
                  if-IsArmed (op == 0x28 || op == 0x2A) (start_io-IsArmed (op == 0x28) s)
                    (msc_fail-IsArmed 0x05 0x20 s)))))))

  sent-IsArmed : (b : Bot) (s : Msc Card) → IsArmed s → IsArmed (sent sd b s)
  unfolding sent
  sent-IsArmed data_in s h =
      if-IsArmed (not (s.io_blocks_left == 0)) (msc_continue_read-IsArmed s)
        (msc_send_csw-IsArmed 0 s)
  sent-IsArmed csw_queued s h = msc_arm_cbw-IsArmed s
  sent-IsArmed idle s h = h
  sent-IsArmed data_out s h = h

  wrote_chunk-IsArmed : (s : Msc Card) → IsArmed (wrote_chunk sd s)
  unfolding wrote_chunk
  wrote_chunk-IsArmed s = if-IsArmed _ (msc_arm_write_chunk-IsArmed _) (msc_send_csw-IsArmed 0 _)

  received-IsArmed : (b : Bot) (n : ℕ) (s : Msc Card) → IsArmed s → IsArmed (received sd b n s)
  unfolding received
  received-IsArmed idle n s h =
      if-IsArmed (n == cbw_bytes && s.cbw.signature == cbw_signature) (msc_cmd_dispatch-IsArmed s)
        (msc_fail-IsArmed 0x05 0x24 s)
  received-IsArmed data_out n s h =
      let (card, ok) =
        sd_write s.card s.io_lba (take (s.io_chunk_blocks * block_size) s.xfer_buf) in
      if-IsArmed ok (wrote_chunk-IsArmed (record s { card = card }))
        (msc_fail-IsArmed 0x04 0x03 (record s { card = card }))
  received-IsArmed data_in n s h = h
  received-IsArmed csw_queued n s h = h

  msc_setup-IsArmed : (bm b : ℕ) (s : Msc Card) → IsArmed s → IsArmed (msc_setup sd bm b s).1
  unfolding msc_setup
  msc_setup-IsArmed bm b s h = elim (Bool-cases (bit_and bm 0x60 == 0x20)) [
    | inl e ↦ rw e (elim (Bool-cases (b == 0xFE)) [
      | inl k ↦ rw k (record { armed = asked_from-append s.calls (send_ep0 0) none ∙ h.armed })
      | inr k ↦ rw k (elim (Bool-cases (b == 0xFF)) [
        | inl l ↦ rw l (msc_arm_cbw-IsArmed _)
        | inr l ↦ rw l (record { armed = asked_from-append s.calls ctl_error none ∙ h.armed })
      ])
    ])
    | inr e ↦ rw e (record { armed = asked_from-append s.calls ctl_error none ∙ h.armed })
  ]

  -- The callbacks, in any order and on any input.
  pub data Callback : Msc Card → Msc Card → Type 0 where
    init : (s : Msc Card) → Callback s (msc_init sd s)
    setup : (s : Msc Card) (bm b : ℕ) → Callback s (msc_setup sd bm b s).1
    packet_sent : (s : Msc Card) (ep : ℕ) → Callback s (msc_data_in sd ep s)
    command : (s : Msc Card) (w : Cbw) (n : ℕ) → s.bot_state ≡ idle → Callback s (host_cbw sd w n s)
    chunk :
        (s : Msc Card) (b : List ℕ) (n : ℕ)
        → s.bot_state ≡ data_out
        → Callback s (host_chunk sd b n s)
    packet : (s : Msc Card) (ep n : ℕ) → Callback s (msc_data_out sd ep n s)

  pub Callback-IsArmed : {s t : Msc Card} → Callback s t → IsArmed s → IsArmed t
  unfolding msc_init msc_setup msc_data_in host_cbw host_chunk msc_data_out
  Callback-IsArmed (init s) h = msc_arm_cbw-IsArmed _
  Callback-IsArmed (setup s bm b) h = msc_setup-IsArmed bm b s h
  Callback-IsArmed (packet_sent s ep) h = if-IsArmed _ h (sent-IsArmed s.bot_state s h)
  Callback-IsArmed (command s w n e) h =
      received-IsArmed s.bot_state n (record s { cbw = w }) (record { armed = h.armed })
  Callback-IsArmed (chunk s b n e) h =
      received-IsArmed s.bot_state n (record s { xfer_buf = b }) (record { armed = h.armed })
  Callback-IsArmed (packet s ep n) h =
      if-IsArmed (not (ep == ep_num)) h (received-IsArmed s.bot_state n s h)

  -- The states that the callbacks reach from a state of which nothing is known.
  pub data Reach : Msc Card → Type 0 where
    started : (s : Msc Card) → Reach (msc_init sd s)
    called : {s t : Msc Card} → Reach s → Callback s t → Reach t

  -- From the first `msc_init` on, after any sequence of callbacks (control requests and
  -- resets, packets sent, commands, chunks of data, other packets) with any data and any
  -- answers of the card, the last call on a bulk endpoint asked for the transfer that
  -- `bot_state` waits for.
  pub Reach-IsArmed : {s : Msc Card} → Reach s → IsArmed s
  unfolding msc_init
  Reach-IsArmed (started s) = msc_arm_cbw-IsArmed _
  Reach-IsArmed (called r c) = Callback-IsArmed c (Reach-IsArmed r)
