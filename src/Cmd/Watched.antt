-- ===== src/Cmd/Watched.antt =====
-- The calls of drivers/sd.h that bootloader/src/cmd.c makes of a card, in order, and what a card promises
-- that serves them.
use stm32mp257_test_board.Prelude.{
  ℕ, ◌/◌, ◌<◌, List, [], ◌∷◌, ◌++◌, none, some, true, ◌≡◌, ◌≢◌, ◌⊎◌, length,
}
use stm32mp257_test_board.Card.{Sd}
use stm32mp257_test_board.Cmd.Disk.{Disk}

-- A call with its block, and the number of bytes to read or the bytes to write.
pub data Access : Type 0 where
  did_read : ℕ → ℕ → Access
  did_write : ℕ → List ℕ → Access

-- The same card, whose state also records the calls of it.
abbrev pub watched : Sd → Sd
watched sd = record {
  Card = sd.Card × List Access;
  sd_size_bytes = λ c. sd.sd_size_bytes c.0;
  sd_init = λ c. (((sd.sd_init c.0).0, c.1), (sd.sd_init c.0).1);
  sd_read =
      λ c lba n. (((sd.sd_read c.0 lba n).0, c.1 ++ did_read lba n ∷ []), (sd.sd_read c.0 lba n).1);
  sd_write = λ c lba bytes. (
    ((sd.sd_write c.0 lba bytes).0, c.1 ++ did_write lba bytes ∷ []),
    (sd.sd_write c.0 lba bytes).1,
  );
}

-- The state of the handlers, over the card of which no call is recorded yet.
abbrev pub watch : {sd : Sd} → Disk sd → Disk (watched sd)
watch s = record {
  card = (s.card, []);
  done = s.done;
  mbr = s.mbr;
  saved = s.saved;
  patt = s.patt;
  back = s.back;
  log = s.log;
}

-- A card whose reads and writes of single blocks may fail, at any call: a read that succeeds gives the
-- block, and a write may change its block to anything, and no other block.
pub record Sound (sd : Sd) : Type 0 where
  pub block : sd.Card → ℕ → List ℕ
  pub length-block : (c : sd.Card) (i : ℕ) → length (block c i) ≡ 512
  pub reads :
      (c : sd.Card) (i : ℕ)
      → ((sd.sd_read c i 512).1 ≡ none) ⊎ ((sd.sd_read c i 512).1 ≡ some (block c i))
  pub read_kept : (c : sd.Card) (i j : ℕ) → block (sd.sd_read c i 512).0 j ≡ block c j
  pub write_kept :
      (c : sd.Card) (i j : ℕ) (bytes : List ℕ)
      → j ≢ i
      → block (sd.sd_write c i bytes).0 j ≡ block c j

-- A card whose reads and writes of single blocks succeed; a write may change its block to anything, and
-- no other block.
pub record Serves (sd : Sd) : Type 0 where
  pub block : sd.Card → ℕ → List ℕ
  pub length-block : (c : sd.Card) (i : ℕ) → length (block c i) ≡ 512
  pub reads :
      (c : sd.Card) (i : ℕ)
      → i < sd.sd_size_bytes c / 512
      → (sd.sd_read c i 512).1 ≡ some (block c i)
  pub read_kept : (c : sd.Card) (i j : ℕ) → block (sd.sd_read c i 512).0 j ≡ block c j
  pub writes :
      (c : sd.Card) (i : ℕ) (bytes : List ℕ)
      → i < sd.sd_size_bytes c / 512
      → length bytes ≡ 512
      → (sd.sd_write c i bytes).1 ≡ true
  pub write_kept :
      (c : sd.Card) (i j : ℕ) (bytes : List ℕ)
      → j ≢ i
      → block (sd.sd_write c i bytes).0 j ≡ block c j
  pub read_size :
      (c : sd.Card) (i : ℕ) → sd.sd_size_bytes (sd.sd_read c i 512).0 ≡ sd.sd_size_bytes c
  pub write_size :
      (c : sd.Card) (i : ℕ) (bytes : List ℕ)
      → sd.sd_size_bytes (sd.sd_write c i bytes).0 ≡ sd.sd_size_bytes c

-- A card that also stores what is written, as drivers/sd.h promises.
pub record Stores (sd : Sd) : Type 0 where
  pub serves : Serves sd
  pub written :
      (c : sd.Card) (i : ℕ) (bytes : List ℕ)
      → i < sd.sd_size_bytes c / 512
      → length bytes ≡ 512
      → serves.block (sd.sd_write c i bytes).0 i ≡ bytes

-- The recording changes nothing of the first.
abbrev pub watched-Serves : {sd : Sd} → Serves sd → Serves (watched sd)
watched-Serves serves = record {
  block = λ c. serves.block c.0;
  length-block = λ c. serves.length-block c.0;
  reads = λ c. serves.reads c.0;
  read_kept = λ c. serves.read_kept c.0;
  writes = λ c. serves.writes c.0;
  write_kept = λ c. serves.write_kept c.0;
  read_size = λ c. serves.read_size c.0;
  write_size = λ c. serves.write_size c.0;
}
