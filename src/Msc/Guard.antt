-- ===== src/Msc/Guard.antt =====
-- What it means that bootloader/drivers/usb/usb_msc.c stays inside the card, and the steps of a
-- transfer that do.
use stm32mp257_test_board.Prelude.{
  ℕ, ◌+◌, ◌*◌, ◌/◌, ◌^◌, ◌≤◌, ◌<◌, List, Option, none, some, Bool, true, false, ◌⊎◌, inl, inr, ltb,
  ◌==◌, if◌then◌else◌, ◌≡◌, refl, arith, length,
}
use stm32mp257_test_board.Card.{Sd}
use stm32mp257_test_board.Msc.State.{Bot, idle, data_in, data_out, csw_queued, Msc}
use stm32mp257_test_board.Msc.Transfer.{
  next_chunk, msc_arm_cbw, msc_send_csw, msc_fail, msc_send_data, send_chunk, after_read,
  msc_continue_read, msc_arm_write_chunk,
}

-- A property of the card that a read or a write inside its `blocks` blocks keeps, of 32 blocks at
-- most, which is what `xfer_buf` holds.
pub record Guards (sd : Sd) (blocks : ℕ) (P : sd.Card → Type 0) : Type 0 where
  pub sized : (c : sd.Card) → P c → sd.sd_size_bytes c / 512 ≡ blocks
  pub read_inside :
      (c : sd.Card) (lba n : ℕ)
      → 0 < n
      → n ≤ 32
      → lba + n ≤ blocks
      → P c
      → P (sd.sd_read c lba (n * 512)).0
  pub write_inside :
      (c : sd.Card) (lba n : ℕ) (bytes : List ℕ)
      → 0 < n
      → n ≤ 32
      → lba + n ≤ blocks
      → length bytes ≤ n * 512
      → P c
      → P (sd.sd_write c lba bytes).0

pub next_chunk-fits :
    (n : ℕ) → 0 < n → (0 < next_chunk n) × (next_chunk n ≤ 32) × (next_chunk n ≤ n)
unfolding next_chunk
next_chunk-fits n p = ground arith

pub nonzero : (n : ℕ) → (n == 0) ≡ false → 0 < n
nonzero n e = ground arith

-- Of two, the one that is possible where something is left.
pub where_left :
    (lba left blocks : ℕ) → 0 < left → (left ≡ 0) ⊎ (lba + left ≤ blocks) → lba + left ≤ blocks
where_left lba left blocks p (inl z) = absurd (omega arith)
where_left lba left blocks p (inr h) = h

pub not_beyond : (a b : ℕ) → ltb a b ≡ false → b ≤ a
not_beyond a b h = ground arith

module _ (sd : Sd) (blocks : ℕ) (P : sd.Card → Type 0) where
  open sd use {Card, sd_read, sd_write}

  -- What is left to move lies inside the card, and an armed chunk is a part of it.
  abbrev pub Fits : Bot → ℕ → ℕ → ℕ → Type 0
  Fits idle lba left part = Unit
  Fits csw_queued lba left part = Unit
  Fits data_in lba left part = (left ≡ 0) ⊎ (lba + left ≤ blocks)
  Fits data_out lba left part = (lba + left ≤ blocks) × (part ≡ next_chunk left) × (0 < left)

  abbrev pub Rest : Bot → Msc Card → Type 0
  Rest b s = Fits b s.io_lba s.io_blocks_left s.io_chunk_blocks

  pub record IsInside (s : Msc Card) : Type 0 where
    pub kept : P s.card
    pub rest : Rest s.bot_state s

module _ {sd : Sd} {blocks : ℕ} {P : sd.Card → Type 0} where
  open sd use {Card}

  pub msc_arm_cbw-IsInside : (s : Msc Card) → P s.card → IsInside sd blocks P (msc_arm_cbw sd s)
  unfolding msc_arm_cbw
  msc_arm_cbw-IsInside s h = record { kept = h; rest = tt }

  pub msc_send_csw-IsInside :
      (n : ℕ) (s : Msc Card) → P s.card → IsInside sd blocks P (msc_send_csw sd n s)
  unfolding msc_send_csw
  msc_send_csw-IsInside n s h = record { kept = h; rest = tt }

  pub msc_fail-IsInside :
      (k a : ℕ) (s : Msc Card) → P s.card → IsInside sd blocks P (msc_fail sd k a s)
  unfolding msc_fail
  msc_fail-IsInside k a s h = msc_send_csw-IsInside 1 (record s { sense_key = k; sense_asc = a }) h

  pub msc_send_data-IsInside :
      (b : List ℕ) (s : Msc Card) → P s.card → IsInside sd blocks P (msc_send_data sd b s)
  unfolding msc_send_data
  msc_send_data-IsInside b s h = record { kept = h; rest = inl refl }

  -- A branch that is inside either way.
  pub if-IsInside :
      (b : Bool) {s t : Msc Card}
      → IsInside sd blocks P s
      → IsInside sd blocks P t
      → IsInside sd blocks P (if b then s else t)
  if-IsInside true h k = h
  if-IsInside false h k = k

  module _ (guards : Guards sd blocks P) (small : blocks < 2 ^ 32) where
    pub after_read-IsInside :
        (n : ℕ) (c : Card) (o : Option (List ℕ)) (s : Msc Card)
        → n ≤ s.io_blocks_left
        → s.io_lba + s.io_blocks_left ≤ blocks
        → P c
        → IsInside sd blocks P (after_read sd n c o s)
    unfolding after_read send_chunk
    after_read-IsInside n c none s l h k = msc_fail-IsInside 0x04 0x11 (record s { card = c }) k
    after_read-IsInside n c (some b) s l h k = record {
      kept = k;
      rest = inr (omega (arith, small));
    }

    pub msc_continue_read-IsInside :
        (s : Msc Card)
        → 0 < s.io_blocks_left
        → s.io_lba + s.io_blocks_left ≤ blocks
        → P s.card
        → IsInside sd blocks P (msc_continue_read sd s)
    unfolding msc_continue_read
    msc_continue_read-IsInside s p h k =
        let fits = next_chunk-fits s.io_blocks_left p in
        after_read-IsInside _ _ _ s fits.2 h (
          guards.read_inside s.card s.io_lba (next_chunk s.io_blocks_left) fits.0 fits.1
            (omega (arith, fits)) k)

    pub msc_arm_write_chunk-IsInside :
        (s : Msc Card)
        → 0 < s.io_blocks_left
        → s.io_lba + s.io_blocks_left ≤ blocks
        → P s.card
        → IsInside sd blocks P (msc_arm_write_chunk sd s)
    unfolding msc_arm_write_chunk
    msc_arm_write_chunk-IsInside s p h k = record { kept = k; rest = (h, refl, p) }
