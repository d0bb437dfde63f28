-- ===== src/Msc/Chunk.antt =====
-- A chunk of a READ(10) of bootloader/drivers/usb/usb_msc.c: what one packet sends.
use stm32mp257_test_board.Prelude.{
  ℕ, ◌+◌, ◌-◌, ◌*◌, ◌/◌, ◌%◌, ◌^◌, ◌≤◌, ◌<◌, List, [], ◌∷◌, ◌++◌, Option, length, append_assoc,
  append-nil, ◌≡◌, refl, sym, ap, ap₂, ◌∙◌, arith,
}
use stm32mp257_test_board.Card.{Sd}
use stm32mp257_test_board.Msc.State.{
  data_in, Csw, Usb, receive_cbw, receive_xfer, send_xfer, send_csw, send_ep0, ctl_error, ep_open,
  Msc, csw_signature,
}
use stm32mp257_test_board.Msc.Transfer.{msc_continue_read, send_chunk, next_chunk, after_read}
use stm32mp257_test_board.Msc.Blocks.{
  read_blocks, Works, length-read_blocks, take-memcpy, length-memcpy,
}

-- The data bytes among what was sent.
abbrev pub data_sent : List Usb → List ℕ
data_sent [] = []
data_sent (send_xfer bytes ∷ cs) = bytes ++ data_sent cs
data_sent (receive_cbw n ∷ cs) = data_sent cs
data_sent (receive_xfer n ∷ cs) = data_sent cs
data_sent (send_csw w ∷ cs) = data_sent cs
data_sent (send_ep0 n ∷ cs) = data_sent cs
data_sent (ctl_error ∷ cs) = data_sent cs
data_sent (ep_open n ∷ cs) = data_sent cs

pub data_sent-append : (xs ys : List Usb) → data_sent (xs ++ ys) ≡ data_sent xs ++ data_sent ys
data_sent-append [] ys = refl
data_sent-append (send_xfer bytes ∷ xs) ys =
    ap (λ r. bytes ++ r) (data_sent-append xs ys)
    ∙ sym (append_assoc bytes (data_sent xs) (data_sent ys))
data_sent-append (receive_cbw n ∷ xs) ys = data_sent-append xs ys
data_sent-append (receive_xfer n ∷ xs) ys = data_sent-append xs ys
data_sent-append (send_csw w ∷ xs) ys = data_sent-append xs ys
data_sent-append (send_ep0 n ∷ xs) ys = data_sent-append xs ys
data_sent-append (ctl_error ∷ xs) ys = data_sent-append xs ys
data_sent-append (ep_open n ∷ xs) ys = data_sent-append xs ys

-- The status wrapper that passes a command.
abbrev pub passed : ℕ → Csw
passed tag = record { signature = csw_signature; tag = tag; data_residue = 0; status = 0 }

next_chunk-le : (n : ℕ) → (next_chunk n ≤ 32) × (next_chunk n ≤ n) × (0 < n → 0 < next_chunk n)
unfolding next_chunk
next_chunk-le n = ground arith

pub next_chunk_last : (n : ℕ) → n ≤ 32 → next_chunk n ≡ n
unfolding next_chunk
next_chunk_last n h = ground arith

pub next_chunk_full : (n : ℕ) → 32 < n → next_chunk n ≡ 32
unfolding next_chunk
next_chunk_full n h = ground arith

module _ (sd : Sd) (works : Works sd) where
  open sd use {Card, sd_size_bytes, sd_read}

  -- `n` blocks from `lba` are left to send.
  pub record Reading (s : Msc Card) (lba n : ℕ) : Type 0 where
    pub at : s.io_lba ≡ lba
    pub left : s.io_blocks_left ≡ n
    pub inside : lba + n ≤ sd_size_bytes s.card / 512
    pub small : sd_size_bytes s.card / 512 < 2 ^ 32
    pub buffer : length s.xfer_buf ≡ 16384

  continue_lem :
      (s : Msc Card) (lba n : ℕ)
      → Reading s lba n
      → msc_continue_read sd s
        ≡ send_chunk sd (next_chunk n) (read_blocks (works.block s.card) lba (next_chunk n)) s
  unfolding msc_continue_read
  continue_lem s lba n r =
      ap₂ (λ l k. after (sd_read s.card l (next_chunk k * 512)) k) r.at r.left
      ∙ ap (λ q. after q n)
          (works.reads s.card lba (next_chunk n) (omega (arith, next_chunk-le n, r.inside)))
    where
      after : Card × Option (List ℕ) → ℕ → Msc Card
      after (card, bytes) k = after_read sd (next_chunk k) card bytes s

  -- The state behind a chunk, and the bytes that it sends.
  pub record Chunk (s : Msc Card) (lba n k : ℕ) (out : Msc Card) : Type 0 where
    pub bytes : data_sent out.calls ≡ data_sent s.calls ++ read_blocks (works.block s.card) lba k
    pub reading : Reading out (lba + k) (n - k)
    pub state : out.bot_state ≡ data_in
    pub cbw : out.cbw ≡ s.cbw
    pub card : out.card ≡ s.card
    pub count : out.msc_read_count ≡ (s.msc_read_count + k) % 2 ^ 64

  pub chunk_lem :
      (s : Msc Card) (lba n : ℕ)
      → 0 < n
      → Reading s lba n
      → Chunk s lba n (next_chunk n) (msc_continue_read sd s)
  chunk_lem s lba n p r = rw (continue_lem s lba n r) (
      unfold send_chunk in
      record {
        bytes =
            data_sent-append s.calls _
            ∙ ap (λ b. data_sent s.calls ++ b)
                (append-nil _ ∙ take-memcpy s.xfer_buf blocks (k * 512) sizes fits);
        reading = record {
          at = omega (arith, r.at, next_chunk-le n, r.inside, r.small);
          left = omega (arith, r.left, next_chunk-le n, r.inside, r.small);
          inside = omega (arith, r.inside, next_chunk-le n);
          small = r.small;
          buffer = length-memcpy s.xfer_buf blocks (k * 512) sizes fits ∙ r.buffer;
        };
        state = refl;
        cbw = refl;
        card = refl;
        count = refl;
      })
    where
      k : ℕ
      k = next_chunk n

      blocks : List ℕ
      blocks = read_blocks (works.block s.card) lba k

      sizes : length blocks ≡ k * 512
      sizes = length-read_blocks (works.block s.card) (works.length-block s.card) lba k

      fits : k * 512 ≤ length s.xfer_buf
      fits = omega (arith, r.buffer, next_chunk-le n)
