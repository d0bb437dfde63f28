-- ===== src/Cmd/Reported.antt =====
-- What `cmd_sdw` of bootloader/src/cmd.c reports over a card whose calls may fail.
use stm32mp257_test_board.Prelude.{ℕ, List, [], ◌∷◌, ◌++◌, true, false, ◌≡◌, ◌≢◌}
use stm32mp257_test_board.Log.{Event, printf}
use stm32mp257_test_board.Card.{Sd}
use stm32mp257_test_board.Cmd.Disk.{Disk, pattern_bytes}
use stm32mp257_test_board.Cmd.Watched.{Access, did_read, did_write, watched, watch, Sound}
use stm32mp257_test_board.Cmd.Restore.{verdict}

-- The calls of the card and the log behind a test of the block `last`, which held `saved`, and which
-- held `back` behind the write of the pattern.
pub data Outcome (last : ℕ) (saved back : List ℕ) (log : List Event)
    : List Access → List Event → Type 0 where
  save_failed :
      Outcome last saved back log
        (did_read last 512 ∷ [])
        (log ++ printf "SD WRITE: save read FAILED\r\n" [] ∷ [])
  write_failed :
      Outcome last saved back log
        (did_read last 512 ∷ did_write last pattern_bytes ∷ [])
        (log ++ printf "SD WRITE: write FAILED\r\n" [] ∷ [])
  readback_failed :
      Outcome last saved back log
        (did_read last 512 ∷ did_write last pattern_bytes ∷ did_read last 512 ∷ [])
        (log ++ printf "SD WRITE: readback FAILED\r\n" [] ∷ [])
  restore_failed :
      Outcome last saved back log
        (did_read last 512
          ∷ did_write last pattern_bytes
          ∷ did_read last 512
          ∷ did_write last saved
          ∷ [])
        (log ++ printf "SD WRITE: restore FAILED\r\n" [] ∷ [])
  held :
      back ≡ pattern_bytes
      → Outcome last saved back log
          (did_read last 512
            ∷ did_write last pattern_bytes
            ∷ did_read last 512
            ∷ did_write last saved
            ∷ [])
          (log ++ verdict true last ∷ [])
  mismatched :
      back ≢ pattern_bytes
      → Outcome last saved back log
          (did_read last 512
            ∷ did_write last pattern_bytes
            ∷ did_read last 512
            ∷ did_write last saved
            ∷ [])
          (log ++ verdict false last ∷ [])

module _ {sd : Sd} (sound : Sound sd) where
  open sound use {block, length-block, reads, read_kept, write_kept}
  open sd use {sd_size_bytes, sd_read, sd_write}

  -- The card behind the write of the pattern.
  abbrev pub filled : sd.Card → ℕ → sd.Card
  filled c last = (sd_write (sd_read c last 512).0 last pattern_bytes).0

  -- What holds behind the test, of a state that records the calls.
  pub record Reports (s : Disk sd) (last : ℕ) (r : Disk (watched sd)) : Type 0 where
    pub others : (j : ℕ) → j ≢ last → block r.card.0 j ≡ block s.card j
    pub outcome :
        Outcome last (block s.card last) (block (filled s.card last) last) s.log r.card.1 r.log

  module _ (s : Disk sd) (last : ℕ) where
    abbrev saved : List ℕ
    saved = block s.card last

    abbrev back : List ℕ
    back = block (filled s.card last) last

    -- The state in front of each of the four calls.
    abbrev written_state : Disk (watched sd)
    written_state = record (watch s) {
      card = ((sd_read s.card last 512).0, did_read last 512 ∷ []);
      saved = saved;
    }

    abbrev checked_state : Disk (watched sd)
    checked_state = record written_state {
      card = (filled s.card last, did_read last 512 ∷ did_write last pattern_bytes ∷ []);
      patt = pattern_bytes;
    }

    abbrev restored_state : Disk (watched sd)
    restored_state = record checked_state {
      card = (
        (sd_read (filled s.card last) last 512).0,
        did_read last 512 ∷ did_write last pattern_bytes ∷ did_read last 512 ∷ [],
      );
      back = back;
    }

    -- The card at the end.
    abbrev last_card : (watched sd).Card
    last_card = (
      (sd_write (sd_read (filled s.card last) last 512).0 last saved).0,
      did_read last 512
          ∷ did_write last pattern_bytes
          ∷ did_read last 512
          ∷ did_write last saved
          ∷ [],
    )
