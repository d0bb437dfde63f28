-- ===== src/Msc/Errors.antt =====
-- What the host learns of a command that bootloader/drivers/usb/usb_msc.c refuses.
use stm32mp257_test_board.Prelude.{
  ℕ, ◌+◌, ◌/◌, ◌≤◌, ◌<◌, [], ◌∷◌, ◌++◌, Bool, true, false, ◌||◌, length, ltb, lt→ltb, ◌==◌,
  if◌then◌else◌, ◌≡◌, refl, ap, ap₂, ◌∙◌, arith, get_or, append-nil,
}
use stm32mp257_test_board.Card.{Sd}
use stm32mp257_test_board.Msc.State.{send_csw, idle, Cbw, Csw, Msc, cbw_signature, csw_signature}
use stm32mp257_test_board.Msc.Transfer.{msc_arm_cbw, msc_send_csw, msc_fail, msc_send_data}
use stm32mp257_test_board.Msc.Scsi.{
  cdb_lba, cdb_count, sense_reply, request_sense, start_io, msc_cmd_dispatch,
}
use stm32mp257_test_board.Msc.Class.{msc_data_in, host_cbw, msc_data_out, received}
use stm32mp257_test_board.Msc.Blocks.{take-memcpy}
use stm32mp257_test_board.Msc.Chunk.{data_sent, data_sent-append}

-- The status wrapper that fails a command.
abbrev pub failed : ℕ → Csw
failed tag = record { signature = csw_signature; tag = tag; data_residue = 0; status = 1 }

module _ (sd : Sd) where
  open sd use {Card, sd_size_bytes}

  -- A read or write of blocks that do not lie inside the card.
  pub record Outside (s : Msc Card) (w : Cbw) : Type 0 where
    pub signature : w.signature ≡ cbw_signature
    pub io : (get_or w.cb 0 0 == 0x28 || get_or w.cb 0 0 == 0x2A) ≡ true
    pub some_blocks : 0 < cdb_count w.cb
    pub beyond : sd_size_bytes s.card / 512 < cdb_lba w.cb + cdb_count w.cb

  start_io-Outside :
      (b : Bool) (s : Msc Card) (w : Cbw)
      → Outside s w
      → start_io sd b (record s { cbw = w }) ≡ msc_fail sd 0x05 0x21 (record s { cbw = w })
  unfolding start_io
  start_io-Outside b s w h =
      let nonzero : (cdb_count w.cb == 0) ≡ false = ground (arith, h.some_blocks) in
      rw (nonzero, lt→ltb _ _ h.beyond) refl

  dispatch_io :
      (op : ℕ) (b : Bool)
      → b ≡ (op == 0x28 || op == 0x2A)
      → b ≡ true
      → (x y z u v t k l : Msc Card)
      → (if op == 0x00 || op == 0x1B || op == 0x1E
          then x
          else if op == 0x12
          then y
          else if op == 0x25
          then z
          else if op == 0x23
          then u
          else if op == 0x1A
          then v
          else if op == 0x03
          then t
          else if op == 0x28 || op == 0x2A
          then k
          else l)
        ≡ k
  dispatch_io op b e h x y z u v t k l = ground arith

  -- A command wrapper of the right length and signature is dispatched.
  dispatched :
      (s : Msc Card) (w : Cbw)
      → s.bot_state ≡ idle
      → w.signature ≡ cbw_signature
      → host_cbw sd w 31 s ≡ msc_cmd_dispatch sd (record s { cbw = w })
  unfolding host_cbw msc_data_out
  dispatched s w i h =
      ap (λ b. received sd b 31 (record s { cbw = w })) i
      ∙ ap
          (λ g.
            if g == cbw_signature
            then msc_cmd_dispatch sd (record s { cbw = w })
            else msc_fail sd 0x05 0x24 (record s { cbw = w }))
          h

  refused :
      (s : Msc Card) (w : Cbw)
      → s.bot_state ≡ idle
      → Outside s w
      → host_cbw sd w 31 s ≡ msc_fail sd 0x05 0x21 (record s { cbw = w })
  unfolding msc_cmd_dispatch
  refused s w i h =
      dispatched s w i h.signature
      ∙ dispatch_io (get_or w.cb 0 0) _ refl h.io _ _ _ _ _ _ _ _
      ∙ start_io-Outside _ s w h

  -- The status is sent, and the next command is awaited.
  status_sent :
      (s : Msc Card)
      → msc_data_in sd 1 (msc_fail sd 0x05 0x21 s) ≡ msc_arm_cbw sd (msc_fail sd 0x05 0x21 s)
  unfolding msc_data_in msc_fail msc_send_csw
  status_sent s = refl

  sensed :
      (s : Msc Card) (r : Cbw)
      → s.bot_state ≡ idle
      → r.signature ≡ cbw_signature
      → get_or r.cb 0 0 ≡ 0x03
      → host_cbw sd r 31 s ≡ request_sense sd (record s { cbw = r })
  unfolding msc_cmd_dispatch
  sensed s r i h op = dispatched s r i h ∙ rw op refl

  capped : (d n : ℕ) → n ≡ 18 → 18 ≤ d → (if ltb d n then d else n) ≡ 18
  capped d n e h = ground arith

  length-sense_reply : (k a : ℕ) → length (sense_reply k a) ≡ 18
  unfolding sense_reply
  length-sense_reply k a = refl

  reply_sent :
      (s : Msc Card)
      → 18 ≤ s.cbw.data_length
      → 18 ≤ length s.xfer_buf
      → (data_sent (request_sense sd s).calls
          ≡ data_sent s.calls ++ sense_reply s.sense_key s.sense_asc)
        × ((request_sense sd s).sense_key ≡ 0)
        × ((request_sense sd s).sense_asc ≡ 0)
  unfolding request_sense msc_send_data
  reply_sent s h k =
      let reply = sense_reply s.sense_key s.sense_asc in
      let size = length-sense_reply s.sense_key s.sense_asc in
      (
        rw (capped s.cbw.data_length (length reply) size h) (
            data_sent-append s.calls _
            ∙ ap (λ b. data_sent s.calls ++ b)
                (append-nil _ ∙ take-memcpy s.xfer_buf reply 18 size k)),
        refl,
        refl,
      )

  refused_calls :
      (s : Msc Card)
      → let f = msc_fail sd 0x05 0x21 s in
        (f.csw ≡ failed s.cbw.tag)
        × (f.calls ≡ s.calls ++ send_csw (failed s.cbw.tag) ∷ [])
        × (f.card ≡ s.card)
        × (data_sent (msc_arm_cbw sd f).calls ≡ data_sent s.calls)
  unfolding msc_fail msc_send_csw msc_arm_cbw
  refused_calls s = (
    refl,
    refl,
    refl,
    data_sent-append (s.calls ++ send_csw (failed s.cbw.tag) ∷ []) _
        ∙ append-nil _
        ∙ data_sent-append s.calls _
        ∙ append-nil _,
  )

  waiting_sense :
      (s : Msc Card)
      → let a = msc_arm_cbw sd (msc_fail sd 0x05 0x21 s) in
        (a.bot_state ≡ idle)
        × (a.sense_key ≡ 0x05)
        × (a.sense_asc ≡ 0x21)
        × (a.xfer_buf ≡ s.xfer_buf)
  unfolding msc_fail msc_send_csw msc_arm_cbw
  waiting_sense s = (refl, refl, refl, refl)

  -- READ(10) or WRITE(10) of blocks that do not all lie inside the card, received while the
  -- device waits for a command, queues a failing status under the command's tag as its only
  -- call and leaves the card unchanged; a REQUEST SENSE of at least 18 bytes that follows the
  -- status, with that much room in the transfer buffer, sends exactly the reply with sense key
  -- 5 and code 0x21 and clears both.
  pub refused_sense :
      (s : Msc Card) (w r : Cbw)
      → s.bot_state ≡ idle
      → Outside s w
      → r.signature ≡ cbw_signature
      → get_or r.cb 0 0 ≡ 0x03
      → 18 ≤ r.data_length
      → 18 ≤ length s.xfer_buf
      → let f = host_cbw sd w 31 s in
        let q = host_cbw sd r 31 (msc_data_in sd 1 f) in
        (f.csw ≡ failed w.tag)
        × (f.calls ≡ s.calls ++ send_csw (failed w.tag) ∷ [])
        × (f.card ≡ s.card)
        × (data_sent q.calls ≡ data_sent s.calls ++ sense_reply 0x05 0x21)
        × (q.sense_key ≡ 0)
        × (q.sense_asc ≡ 0)
  refused_sense s w r i o g op h k =
      let f = msc_fail sd 0x05 0x21 (record s { cbw = w }) in
      let a = msc_arm_cbw sd f in
      let c = refused_calls (record s { cbw = w }) in
      let e = waiting_sense (record s { cbw = w }) in
      let t = reply_sent (record a { cbw = r }) h (rw e.3 k) in
      rw (refused s w i o, status_sent (record s { cbw = w }), sensed a r e.0 g op)
        (c.0, c.1, c.2, t.0 ∙ ap₂ (λ x y. x ++ y) c.3 (ap₂ sense_reply e.1 e.2), t.1, t.2)
