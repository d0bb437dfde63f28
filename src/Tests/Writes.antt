-- ===== src/Tests/Writes.antt =====
-- The writes of bootloader/drivers/usb/usb_msc.c at concrete inputs, over a card of a thousand blocks
-- that stores them.
use stm32mp257_test_board.Prelude.{
  ℕ, zero, suc, ◌+◌, ◌*◌, ◌/◌, ◌≤◌, ◌<◌, List, [], ◌∷◌, ◌++◌, some, true, false, take, drop,
  take-append-drop, replicate, length, length-take, length-drop, length-append, length-replicate,
  ◌==◌, ==_refl, if◌then◌else◌, ◌≡◌, refl, subst, ap, ap₂, ◌∙◌, arith,
}
use stm32mp257_test_board.Card.{Sd}
use stm32mp257_test_board.Msc.State.{Msc, idle, Cbw, cbw_signature}
use stm32mp257_test_board.Msc.Scsi.{cdb_lba, cdb_count}
use stm32mp257_test_board.Msc.Class.{host_cbw}
use stm32mp257_test_board.Msc.Blocks.{read_blocks, Works}
use stm32mp257_test_board.Msc.Chunk.{data_sent, passed}
use stm32mp257_test_board.Msc.Stored.{Stored, Stores, read_blocks-same}
use stm32mp257_test_board.Msc.Packet.{Wrote}
use stm32mp257_test_board.Msc.Write.{feed, write10_transfer}
use stm32mp257_test_board.Msc.RoundTrip.{written, read_back, write10-read10}

-- A block is what was written to it, filled up with 0.
abbrev block : (ℕ → List ℕ) → ℕ → List ℕ
block c i = take 512 (c i ++ replicate 512 0)

length-block : (c : ℕ → List ℕ) (i : ℕ) → length (block c i) ≡ 512
length-block c i = omega (
  arith,
  length-take 512 (c i ++ replicate 512 0),
  length-append (c i) (replicate 512 0),
  length-replicate {A = ℕ} 512 0,
)

abbrev put : ℕ → List ℕ → (ℕ → List ℕ) → ℕ → List ℕ
put i bytes c j = if j == i then bytes else c j

abbrev store : ℕ → ℕ → List ℕ → (ℕ → List ℕ) → ℕ → List ℕ
store zero lba bytes c = c
store (suc n) lba bytes c = put lba (take 512 bytes) (store n (lba + 1) (drop 512 bytes) c)

take_whole : (xs ys : List ℕ) (n : ℕ) → length xs ≡ n → take n (xs ++ ys) ≡ xs
take_whole [] ys zero e = refl
take_whole [] ys (suc n) e = absurd (omega arith)
take_whole (x ∷ xs) ys zero e = absurd (omega arith)
take_whole (x ∷ xs) ys (suc n) e = ap (λ r. x ∷ r) (take_whole xs ys n (omega arith))

other : (i j : ℕ) → i < j → ((j == i) ≡ false) × ((i == j) ≡ false)
other i j h = (ground arith, ground arith)

store-written :
    (n lba : ℕ) (bytes : List ℕ) (c : ℕ → List ℕ)
    → length bytes ≡ n * 512
    → read_blocks (block (store n lba bytes c)) lba n ≡ bytes
store-written zero lba [] c e = refl
store-written zero lba (x ∷ bytes) c e = absurd (omega arith)
store-written (suc n) lba bytes c e =
    ap₂ ◌++◌
      (ap
          (λ b. take 512 (
            (if b then take 512 bytes else store n (lba + 1) (drop 512 bytes) c lba)
            ++ replicate 512 0))
          (==_refl lba)
        ∙ take_whole (take 512 bytes) (replicate 512 0) 512
            (omega (arith, length-take 512 bytes, e)))
      (read_blocks-same (block (store (suc n) lba bytes c))
          (block (store n (lba + 1) (drop 512 bytes) c)) (lba + 1) n
          (λ i l u. rw (other lba i (omega arith)).0 refl)
        ∙ store-written n (lba + 1) (drop 512 bytes) c (omega (arith, length-drop 512 bytes, e)))
    ∙ take-append-drop 512 bytes

store-below :
    (n lba : ℕ) (bytes : List ℕ) (c : ℕ → List ℕ) (i : ℕ) → i < lba → store n lba bytes c i ≡ c i
store-below zero lba bytes c i h = refl
store-below (suc n) lba bytes c i h =
    rw (other i lba h).1 (store-below n (lba + 1) (drop 512 bytes) c i (omega arith))

store-above :
    (n lba : ℕ) (bytes : List ℕ) (c : ℕ → List ℕ) (i : ℕ)
    → lba + n ≤ i
    → store n lba bytes c i ≡ c i
store-above zero lba bytes c i h = refl
store-above (suc n) lba bytes c i h =
    rw (other lba i (omega arith)).0 (store-above n (lba + 1) (drop 512 bytes) c i (omega arith))

abbrev card : Sd
card = record {
  Card = ℕ → List ℕ;
  sd_size_bytes = λ c. 512000;
  sd_init = λ c. (c, true);
  sd_read = λ c lba len. (c, some (read_blocks (block c) lba (len / 512)));
  sd_write = λ c lba bytes. (store (length bytes / 512) lba bytes c, true);
}

card_works : Works card
card_works = record {
  block = block;
  length-block = length-block;
  reads = λ c lba n h. ap (λ k. (c, some (read_blocks (block c) lba k))) (whole n);
}
  where
    whole : (n : ℕ) → n * 512 / 512 ≡ n
    whole n = omega arith

store-Stored :
    (c : ℕ → List ℕ) (lba n : ℕ) (bytes : List ℕ)
    → length bytes ≡ n * 512
    → Stored card card_works c lba n bytes (store n lba bytes c)
unfolding card_works
store-Stored c lba n bytes e = record {
  written = store-written n lba bytes c e;
  below = λ i l. ap (λ b. take 512 (b ++ replicate 512 0)) (store-below n lba bytes c i l);
  above = λ i l. ap (λ b. take 512 (b ++ replicate 512 0)) (store-above n lba bytes c i l);
  size = refl;
}

blocks_of : (bytes : List ℕ) (n : ℕ) → length bytes ≡ n * 512 → n ≡ length bytes / 512
blocks_of bytes n e = omega (arith, e)

card_stores : Stores card card_works
card_stores = record {
  writes = λ c lba n bytes p h e. refl;
  stored = λ c lba n bytes p h e.
      subst (λ k. Stored card card_works c lba n bytes (store k lba bytes c)) (blocks_of bytes n e)
        (store-Stored c lba n bytes e);
}

-- WRITE(10) and READ(10) of 40 blocks from block 5 on.
abbrev pub write_40 : Cbw
write_40 = record {
  signature = cbw_signature;
  tag = 78;
  data_length = 20480;
  flags = 0;
  lun = 0;
  cb_length = 10;
  cb = 0x2A ∷ 0 ∷ 0 ∷ 0 ∷ 0 ∷ 5 ∷ 0 ∷ 0 ∷ 40 ∷ 0 ∷ [];
}

abbrev pub read_40 : Cbw
read_40 = record write_40 { tag = 79; cb = 0x28 ∷ 0 ∷ 0 ∷ 0 ∷ 0 ∷ 5 ∷ 0 ∷ 0 ∷ 40 ∷ 0 ∷ [] }

abbrev pub blank_over : {Card : Type 0} → Card → Msc Card
blank_over c = record {
  bot_state = idle;
  cbw = write_40;
  csw = record { signature = 0; tag = 0; data_residue = 0; status = 0 };
  xfer_buf = replicate 16384 0;
  io_lba = 0;
  io_blocks_left = 0;
  io_chunk_blocks = 0;
  sense_key = 0;
  sense_asc = 0;
  msc_read_count = 0;
  msc_write_count = 0;
  msc_setup_count = 0;
  msc_init_count = 0;
  card = c;
  calls = [];
}

abbrev blank : Msc (ℕ → List ℕ)
blank = blank_over (λ i. [])

abbrev sevens : List ℕ
sevens = replicate 20480 7

some_blocks : 0 < cdb_count write_40.cb
unfolding cdb_count
some_blocks = omega arith

inside : cdb_lba write_40.cb + cdb_count write_40.cb ≤ 512000 / 512
unfolding cdb_lba cdb_count
inside = omega arith

sizes : length sevens ≡ cdb_count write_40.cb * 512
unfolding cdb_count
sizes = length-replicate {A = ℕ} 20480 7

same_lba : cdb_lba read_40.cb ≡ cdb_lba write_40.cb
unfolding cdb_lba
same_lba = refl

same_count : cdb_count read_40.cb ≡ cdb_count write_40.cb
unfolding cdb_count
same_count = refl

write10_transfer_example :
    Wrote card card_works card_stores
      (record blank { cbw = write_40 })
      (cdb_lba write_40.cb)
      (cdb_count write_40.cb)
      sevens
      (feed card ((cdb_count write_40.cb + 31) / 32) sevens (host_cbw card write_40 31 blank))
write10_transfer_example =
    write10_transfer card card_works card_stores blank write_40 sevens refl refl refl some_blocks
      inside (omega arith) (length-replicate {A = ℕ} 16384 0) sizes

write10-read10_example :
    let out = read_back card read_40 (written card write_40 sevens blank) in
    (data_sent out.calls ≡ sevens)
    × (out.csw ≡ passed 79)
    × (out.card ≡ (written card write_40 sevens blank).card)
write10-read10_example =
    write10-read10 card card_works card_stores blank write_40 read_40 sevens refl refl refl
      some_blocks inside (omega arith) (length-replicate {A = ℕ} 16384 0) sizes refl refl same_lba
      same_count
