-- ===== src/Msc/Progress.antt =====
-- Every command of bootloader/drivers/usb/usb_msc.c comes to an end.
use stm32mp257_test_board.Prelude.{
  ℕ, zero, suc, ◌+◌, ◌-◌, ◌*◌, ◌/◌, ◌^◌, ◌≤◌, ◌<◌, List, Option, none, some, Bool-cases, ◌⊎◌, inl,
  inr, ◌==◌, ◌≡◌, refl, ap, arith, take,
}
use stm32mp257_test_board.Card.{Sd}
use stm32mp257_test_board.Msc.State.{
  Bot, idle, data_in, data_out, csw_queued, Msc, block_size, sub32, ep_num,
}
use stm32mp257_test_board.Msc.Transfer.{
  next_chunk, msc_arm_cbw, msc_send_csw, msc_fail, send_chunk, after_read, msc_continue_read,
  msc_arm_write_chunk,
}
use stm32mp257_test_board.Msc.Class.{
  msc_data_in, sent, wrote_chunk, received, msc_data_out, host_chunk,
}
use stm32mp257_test_board.Msc.Protocol.{
  packet_sent, chunk, Reach, started, called, IsArmed, Reach-IsArmed,
}
use stm32mp257_test_board.Msc.Guard.{Guards, next_chunk-fits, nonzero, Rest}
use stm32mp257_test_board.Msc.Inside.{Run, begun, followed, Run-IsInside}

-- The packets that are left: those of data, and the status.
abbrev due : Bot → ℕ → ℕ
due idle left = 0
due csw_queued left = 1
due data_in left = 2 + (left + 31) / 32
due data_out left = 1 + (left + 31) / 32

-- Fewer are left behind a chunk.
fewer : (n : ℕ) → 0 < n → (n - next_chunk n + 31) / 32 < (n + 31) / 32
unfolding next_chunk
fewer n p = ground arith

module _ (sd : Sd) where
  open sd use {Card, sd_read, sd_write}

  -- The host does its part of what the device waits for: it takes what is sent, or sends `bytes`.
  -- It begins no new command.
  abbrev pub served : Bot → List ℕ → Msc Card → Msc Card
  served idle bytes s = s
  served data_in bytes s = msc_data_in sd ep_num s
  served csw_queued bytes s = msc_data_in sd ep_num s
  served data_out bytes s = host_chunk sd bytes (s.io_chunk_blocks * block_size) s

  abbrev pub serve : ℕ → (ℕ → List ℕ) → Msc Card → Msc Card
  serve zero bytes s = s
  serve (suc n) bytes s = serve n bytes (served s.bot_state (bytes n) s)

  module _ {s : Msc Card} where
    served-Run :
        (b : Bot) (bytes : List ℕ) (t : Msc Card)
        → t.bot_state ≡ b
        → Run sd s t
        → Run sd s (served b bytes t)
    served-Run idle bytes t e r = r
    served-Run data_in bytes t e r = followed r (packet_sent t ep_num)
    served-Run csw_queued bytes t e r = followed r (packet_sent t ep_num)
    served-Run data_out bytes t e r = followed r (chunk t bytes (t.io_chunk_blocks * block_size) e)

    pub serve-Run :
        (n : ℕ) (bytes : ℕ → List ℕ) {t : Msc Card} → Run sd s t → Run sd s (serve n bytes t)
    serve-Run zero bytes r = r
    serve-Run (suc n) bytes {t} r = serve-Run n bytes (served-Run t.bot_state (bytes n) t refl r)

    Run-Reach : {t : Msc Card} → Run sd s t → Reach sd t
    Run-Reach begun = started s
    Run-Reach (followed r c) = called (Run-Reach r) c

  abbrev owed : Msc Card → ℕ
  owed s = due s.bot_state s.io_blocks_left

  csw-owed : (n : ℕ) (s : Msc Card) → owed (msc_send_csw sd n s) ≡ 1
  unfolding msc_send_csw
  csw-owed n s = refl

  arm-owed : (s : Msc Card) → owed (msc_arm_cbw sd s) ≡ 0
  unfolding msc_arm_cbw
  arm-owed s = refl

  after_read-owed :
      (c : Card) (o : Option (List ℕ)) (s : Msc Card)
      → 0 < s.io_blocks_left
      → s.io_blocks_left < 2 ^ 32
      → owed (after_read sd (next_chunk s.io_blocks_left) c o s) < due data_in s.io_blocks_left
  unfolding after_read msc_fail send_chunk
  after_read-owed c none s p h =
      omega (arith, csw-owed 1 (record s { card = c; sense_key = 4; sense_asc = 0x11 }))
  after_read-owed c (some b) s p h =
      omega (arith, fewer s.io_blocks_left p, next_chunk-fits s.io_blocks_left p)

  sent-owed :
      (s : Msc Card)
      → s.io_blocks_left < 2 ^ 32
      → owed (sent sd data_in s) < due data_in s.io_blocks_left
  unfolding sent msc_continue_read
  sent-owed s h = elim (Bool-cases (s.io_blocks_left == 0)) [
    | inl z ↦ rw z (omega (arith, csw-owed 0 s))
    | inr z ↦ rw z (after_read-owed _ _ s (nonzero _ z) h)
  ]

  wrote_chunk-owed :
      (s : Msc Card)
      → s.io_chunk_blocks ≡ next_chunk s.io_blocks_left
      → 0 < s.io_blocks_left
      → s.io_blocks_left < 2 ^ 32
      → owed (wrote_chunk sd s) < due data_out s.io_blocks_left
  unfolding wrote_chunk msc_arm_write_chunk
  wrote_chunk-owed s e p h =
      let left = sub32 s.io_blocks_left s.io_chunk_blocks in
      elim (Bool-cases (left == 0)) [
        | inl z ↦ rw z (omega (arith, csw-owed 0 _, p))
        | inr z ↦
            rw z (omega (arith, fewer s.io_blocks_left p, next_chunk-fits s.io_blocks_left p, e, h))
      ]

  received-owed :
      (s : Msc Card) (n : ℕ)
      → s.io_chunk_blocks ≡ next_chunk s.io_blocks_left
      → 0 < s.io_blocks_left
      → s.io_blocks_left < 2 ^ 32
      → owed (received sd data_out n s) < due data_out s.io_blocks_left
  unfolding received msc_fail
  received-owed s n e p h =
      let (card, ok) =
        sd_write s.card s.io_lba (take (s.io_chunk_blocks * block_size) s.xfer_buf) in
      elim (Bool-cases ok) [
        | inl k ↦ rw k (wrote_chunk-owed (record s { card = card }) e p h)
        | inr k ↦
            rw k (
              omega (arith, csw-owed 1 (record s { card = card; sense_key = 4; sense_asc = 3 }), p))
      ]

  module _ (blocks : ℕ) (P : Card → Type 0) (guards : Guards sd blocks P)
      (small : blocks < 2 ^ 32) where
    left_small :
        (s : Msc Card)
        → (s.io_blocks_left ≡ 0) ⊎ (s.io_lba + s.io_blocks_left ≤ blocks)
        → s.io_blocks_left < 2 ^ 32
    left_small s (inl z) = omega arith
    left_small s (inr h) = omega (arith, small)

    served-owed :
        (b : Bot) (bytes : List ℕ) (s : Msc Card)
        → s.bot_state ≡ b
        → Rest sd blocks P b s
        → owed (served b bytes s) ≤ due b s.io_blocks_left - 1
    unfolding msc_data_in host_chunk msc_data_out
    served-owed idle bytes s e r = omega (arith, ap (λ b. due b s.io_blocks_left) e)
    served-owed data_in bytes s e r =
        omega (arith, sent-owed s (left_small s r), ap (λ b. owed (sent sd b s)) e)
    served-owed csw_queued bytes s e r = omega (arith, arm-owed s, ap (λ b. owed (sent sd b s)) e)
    served-owed data_out bytes s e (inside, part, p) = omega (
      arith,
      received-owed (record s { xfer_buf = bytes }) (s.io_chunk_blocks * block_size) part p
          (omega (arith, inside, small)),
      ap
          (λ b.
            owed (received sd b (s.io_chunk_blocks * block_size) (record s { xfer_buf = bytes })))
          e,
    )

    idle_of : (b : Bot) (left : ℕ) → due b left ≤ 0 → b ≡ idle
    idle_of idle left h = refl
    idle_of csw_queued left h = absurd (omega arith)
    idle_of data_in left h = absurd (omega arith)
    idle_of data_out left h = absurd (omega arith)

    serve-idle :
        (n : ℕ) (bytes : ℕ → List ℕ) {s t : Msc Card}
        → P s.card
        → Run sd s t
        → owed t ≤ n
        → (serve n bytes t).bot_state ≡ idle
    serve-idle zero bytes {t} h r l = idle_of t.bot_state t.io_blocks_left l
    serve-idle (suc n) bytes {t} h r l =
        serve-idle n bytes h (served-Run t.bot_state (bytes n) t refl r) (
          omega (
            arith,
            l,
            served-owed t.bot_state (bytes n) t refl (Run-IsInside guards small h r).rest,
          ))

    owed-most : (b : Bot) (left : ℕ) → due b left ≤ 2 + (left + 31) / 32
    owed-most idle left = omega arith
    owed-most csw_queued left = omega arith
    owed-most data_in left = omega arith
    owed-most data_out left = omega arith

    -- Over a card with a property that reads and writes of 1 to 32 blocks inside it keep and
    -- that fixes its size below 2 ^ 32 blocks, where the property holds at the first
    -- `msc_init`: from every state that callbacks reach, if the host does its part of what
    -- the device waits for, at most once for each chunk of 32 blocks begun of those left and
    -- two times more, the device waits for a command again, has asked for it, and the
    -- property still holds, whatever the card answers and whatever bytes the host sends.
    pub serve-completes :
        (bytes : ℕ → List ℕ) {s t : Msc Card}
        → P s.card
        → Run sd s t
        → let out = serve (2 + (t.io_blocks_left + 31) / 32) bytes t in
          (out.bot_state ≡ idle) × IsArmed sd out × P out.card
    serve-completes bytes {t} h r =
        let n = 2 + (t.io_blocks_left + 31) / 32 in
        (
          serve-idle n bytes h r (owed-most t.bot_state t.io_blocks_left),
          Reach-IsArmed sd (Run-Reach (serve-Run n bytes r)),
          (Run-IsInside guards small h (serve-Run n bytes r)).kept,
        )
