-- ===== src/Msc/Packet.antt =====
-- A packet of data of a WRITE(10) of bootloader/drivers/usb/usb_msc.c: what one packet stores.
use stm32mp257_test_board.Prelude.{
  ℕ, ◌+◌, ◌-◌, ◌*◌, ◌/◌, ◌%◌, ◌^◌, ◌≤◌, ◌<◌, List, [], ◌∷◌, ◌++◌, Bool, true, false, not, length,
  take, append-nil, ◌==◌, if◌then◌else◌, ◌≡◌, refl, ap, ◌∙◌, arith, subst,
}
use stm32mp257_test_board.Cstring.{memcpy}
use stm32mp257_test_board.Card.{Sd}
use stm32mp257_test_board.Msc.State.{data_out, csw_queued, Usb, send_csw, Msc, add32, sub32, add64}
use stm32mp257_test_board.Msc.Transfer.{next_chunk, msc_arm_write_chunk, msc_send_csw, msc_fail}
use stm32mp257_test_board.Msc.Class.{host_chunk, msc_data_out, received, wrote_chunk}
use stm32mp257_test_board.Msc.Blocks.{Works, take-memcpy, length-memcpy}
use stm32mp257_test_board.Msc.Chunk.{data_sent, data_sent-append, passed}
use stm32mp257_test_board.Msc.Stored.{Stored, Stores}

zero_test : (a : ℕ) → a ≡ 0 → (a == 0) ≡ true
zero_test a h = ground arith

nonzero_test : (a : ℕ) → 0 < a → (a == 0) ≡ false
nonzero_test a h = ground arith

-- What fits the buffer.
abbrev pub packet : List ℕ → List ℕ
packet bytes = take 16384 bytes

module _ (sd : Sd) where
  open sd use {Card}

  -- The host sends the next bytes, a buffer at most; the controller stores them in `xfer_buf`.
  abbrev pub host_bytes : List ℕ → Msc Card → Msc Card
  host_bytes bytes s =
      host_chunk sd (memcpy s.xfer_buf (packet bytes) (length (packet bytes)))
        (length (packet bytes)) s

module _ (sd : Sd) (works : Works sd) (stores : Stores sd works) where
  open sd use {Card, sd_size_bytes, sd_write}

  -- `n` blocks from `lba` are left to receive, and the next chunk is armed.
  pub record Writing (s : Msc Card) (lba n : ℕ) : Type 0 where
    pub at : s.io_lba ≡ lba
    pub left : s.io_blocks_left ≡ n
    pub armed : s.io_chunk_blocks ≡ next_chunk n
    pub state : s.bot_state ≡ data_out
    pub inside : lba + n ≤ sd_size_bytes s.card / 512
    pub small : sd_size_bytes s.card / 512 < 2 ^ 32
    pub buffer : length s.xfer_buf ≡ 16384

  -- What a whole transfer has done.
  pub record Wrote (s : Msc Card) (lba n : ℕ) (bytes : List ℕ) (out : Msc Card) : Type 0 where
    pub stored : Stored sd works s.card lba n bytes out.card
    pub state : out.bot_state ≡ csw_queued
    pub status : out.csw ≡ passed s.cbw.tag
    pub last : (cs : List Usb) × (out.calls ≡ cs ++ send_csw (passed s.cbw.tag) ∷ [])
    pub count : out.msc_write_count ≡ (s.msc_write_count + n) % 2 ^ 64
    pub quiet : data_sent out.calls ≡ data_sent s.calls
    pub buffer : length out.xfer_buf ≡ 16384

  -- The state behind the write of `k` blocks of `bytes`, before what follows is decided.
  abbrev held : List ℕ → Msc Card → Msc Card
  held bytes s = record s {
    xfer_buf = memcpy s.xfer_buf (packet bytes) (length (packet bytes));
    card = (sd_write s.card s.io_lba (packet bytes)).0;
  }

  -- A full chunk, behind which the next is armed.
  pub record Continued (s : Msc Card) (lba n k : ℕ) (bytes : List ℕ) (out : Msc Card) : Type 0 where
    pub stored : Stored sd works s.card lba k (packet bytes) out.card
    pub writing : Writing out (lba + k) (n - k)
    pub cbw : out.cbw ≡ s.cbw
    pub count : out.msc_write_count ≡ (s.msc_write_count + k) % 2 ^ 64
    pub quiet : data_sent out.calls ≡ data_sent s.calls

  -- The counts behind a chunk.
  abbrev advanced : Msc Card → Msc Card
  advanced s = record s {
    io_lba = add32 s.io_lba s.io_chunk_blocks;
    io_blocks_left = sub32 s.io_blocks_left s.io_chunk_blocks;
    msc_write_count = add64 s.msc_write_count s.io_chunk_blocks;
  }

  abbrev follow : Msc Card → Bool → Msc Card
  follow s last =
      if not last then msc_arm_write_chunk sd (advanced s) else msc_send_csw sd 0 (advanced s)

  module _ (s : Msc Card) (lba n k : ℕ) (bytes : List ℕ) (w : Writing s lba n)
      (chunk : next_chunk n ≡ k) (some_blocks : 0 < k) (within : k ≤ n) (fits : k ≤ 32)
      (sizes : length (packet bytes) ≡ k * 512) where
    from_buffer :
        take (s.io_chunk_blocks * 512) (memcpy s.xfer_buf (packet bytes) (length (packet bytes)))
        ≡ packet bytes
    from_buffer =
        ap (λ m. take m (memcpy s.xfer_buf (packet bytes) (length (packet bytes))))
          (omega (arith, w.armed, chunk, sizes))
        ∙ take-memcpy s.xfer_buf (packet bytes) (length (packet bytes)) refl
            (omega (arith, w.buffer, sizes))

    good : (sd_write s.card s.io_lba (packet bytes)).1 ≡ true
    good =
        stores.writes s.card s.io_lba k (packet bytes) some_blocks (omega (arith, w.at, w.inside))
          sizes

    packet-Stored :
        Stored sd works s.card lba k (packet bytes) (sd_write s.card s.io_lba (packet bytes)).0
    packet-Stored =
        subst
          (λ l.
            Stored sd works s.card l k (packet bytes) (sd_write s.card s.io_lba (packet bytes)).0)
          w.at
          (stores.stored s.card s.io_lba k (packet bytes) some_blocks
            (omega (arith, w.at, w.inside)) sizes)

    host_bytes-held : host_bytes sd bytes s ≡ wrote_chunk sd (held bytes s)
    unfolding host_chunk msc_data_out
    host_bytes-held =
        ap (λ b. received sd b (length (packet bytes)) filled) w.state
        ∙ ap (λ p. after (sd_write s.card s.io_lba p)) from_buffer
        ∙ ap (λ b. after ((sd_write s.card s.io_lba (packet bytes)).0, b)) good
      where
        filled : Msc Card
        filled = record s { xfer_buf = memcpy s.xfer_buf (packet bytes) (length (packet bytes)) }

        after : Card × Bool → Msc Card
        after (card, ok) =
            if ok
            then wrote_chunk sd (record filled { card = card })
            else msc_fail sd 0x04 0x03 (record filled { card = card })

    remaining : sub32 s.io_blocks_left s.io_chunk_blocks ≡ n - k
    remaining = omega (arith, w.left, w.armed, chunk, w.inside, w.small)

    host_bytes-done : k ≡ n → host_bytes sd bytes s ≡ msc_send_csw sd 0 (advanced (held bytes s))
    unfolding wrote_chunk
    host_bytes-done e =
        host_bytes-held ∙ ap (follow (held bytes s)) (zero_test _ (omega (arith, remaining)))

    host_bytes-more :
        k < n → host_bytes sd bytes s ≡ msc_arm_write_chunk sd (advanced (held bytes s))
    unfolding wrote_chunk
    host_bytes-more l =
        host_bytes-held ∙ ap (follow (held bytes s)) (nonzero_test _ (omega (arith, remaining)))

    -- The last chunk, and the status behind it.
    pub last_packet : k ≡ n → Wrote s lba n (packet bytes) (host_bytes sd bytes s)
    unfolding msc_send_csw
    last_packet e = rw (host_bytes-done e) (record {
      stored =
          subst (λ m. Stored sd works s.card lba m (packet bytes) (held bytes s).card) e
            packet-Stored;
      state = refl;
      status = refl;
      last = (s.calls, refl);
      count = omega (arith, w.armed, chunk, e);
      quiet = data_sent-append s.calls _ ∙ append-nil (data_sent s.calls);
      buffer =
          length-memcpy s.xfer_buf (packet bytes) (length (packet bytes)) refl
            (omega (arith, w.buffer, sizes))
          ∙ w.buffer;
    })

    pub full_packet : k < n → Continued s lba n k bytes (host_bytes sd bytes s)
    unfolding msc_arm_write_chunk
    full_packet l = rw (host_bytes-more l) (record {
      stored = packet-Stored;
      writing = record {
        at = omega (arith, w.at, w.armed, chunk, w.inside, w.small);
        left = remaining;
        armed = ap next_chunk remaining;
        state = refl;
        inside = omega (arith, packet-Stored.size, w.inside);
        small = omega (arith, packet-Stored.size, w.small);
        buffer =
            length-memcpy s.xfer_buf (packet bytes) (length (packet bytes)) refl
              (omega (arith, w.buffer, sizes))
            ∙ w.buffer;
      };
      cbw = refl;
      count = omega (arith, w.armed, chunk);
      quiet = data_sent-append s.calls _ ∙ append-nil (data_sent s.calls);
    })
