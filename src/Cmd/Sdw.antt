-- ===== src/Cmd/Sdw.antt =====
-- The steps of `cmd_sdw` of bootloader/src/cmd.c, by what the call that each makes gives.
use stm32mp257_test_board.Prelude.{
  ℕ, ◌+◌, ◌-◌, ◌/◌, ◌%◌, ◌^◌, ◌≤◌, List, [], ◌∷◌, none, some, Option, Bool, true, false, ◌==◌,
  if◌then◌else◌, codes, ◌≡◌, ap, arith,
}
use stm32mp257_test_board.Log.{printf, num, str}
use stm32mp257_test_board.Cstring.{memcmp}
use stm32mp257_test_board.Card.{Sd}
use stm32mp257_test_board.Cmd.Disk.{
  Disk, pattern_bytes, is_zero, say, sdw_restore, sdw_check, sdw_write, sdw_save,
}

-- The number of the last block, from the size in bytes.
abbrev pub last_of : ℕ → ℕ
last_of size = (size / 512 + (2 ^ 32 - 1)) % 2 ^ 32

pub nonzero : (n : ℕ) → 1 ≤ n / 512 → (n == 0) ≡ false
nonzero n h = ground arith

module _ {sd : Sd} where
  open sd use {sd_size_bytes, sd_read, sd_write}

  -- The steps of the handler, by what the call that each makes gives.
  abbrev pub report : Bool → ℕ → Disk sd → Disk sd
  report ok last = say sd (
      printf "SD WRITE %s (block %u)\r\n"
        (str (if ok then codes "OK" else codes "MISMATCH") ∷ num last ∷ []))

  abbrev pub after_save : Disk sd → sd.Card × Option (List ℕ) → Disk sd
  after_save s r = elim r.1 [
    | none ↦ say sd (printf "SD WRITE: save read FAILED\r\n" []) (record s { card = r.0 })
    | some bytes ↦
        sdw_write sd (last_of (sd_size_bytes s.card)) (record s { card = r.0; saved = bytes })
  ]

  abbrev pub after_check : ℕ → Disk sd → sd.Card × Option (List ℕ) → Disk sd
  after_check last s r = elim r.1 [
    | none ↦ say sd (printf "SD WRITE: readback FAILED\r\n" []) (record s { card = r.0 })
    | some bytes ↦
        sdw_restore sd last (is_zero (memcmp s.patt bytes 512))
          (record s { card = r.0; back = bytes })
  ]

  pub save_step :
      (s : Disk sd) (r : sd.Card × Option (List ℕ))
      → sd_read s.card (last_of (sd_size_bytes s.card)) 512 ≡ r
      → sdw_save sd s ≡ after_save s r
  unfolding sdw_save
  save_step s r h = ap (after_save s) h

  abbrev pub after_write : ℕ → Disk sd → sd.Card × Bool → Disk sd
  after_write last s r = elim r.1 [
    | false ↦
        say sd (printf "SD WRITE: write FAILED\r\n" [])
          (record s { card = r.0; patt = pattern_bytes })
    | true ↦ sdw_check sd last (record s { card = r.0; patt = pattern_bytes })
  ]

  pub write_step :
      (last : ℕ) (s : Disk sd) (r : sd.Card × Bool)
      → sd_write s.card last pattern_bytes ≡ r
      → sdw_write sd last s ≡ after_write last s r
  unfolding sdw_write
  write_step last s r h = ap (after_write last s) h

  pub check_step :
      (last : ℕ) (s : Disk sd) (r : sd.Card × Option (List ℕ))
      → sd_read s.card last 512 ≡ r
      → sdw_check sd last s ≡ after_check last s r
  unfolding sdw_check
  check_step last s r h = ap (after_check last s) h

  abbrev pub after_restore : Bool → ℕ → Disk sd → sd.Card × Bool → Disk sd
  after_restore ok last s r = elim r.1 [
    | false ↦ say sd (printf "SD WRITE: restore FAILED\r\n" []) (record s { card = r.0 })
    | true ↦ report ok last (record s { card = r.0 })
  ]

  pub restore_step :
      (last : ℕ) (ok : Bool) (s : Disk sd) (r : sd.Card × Bool)
      → sd_write s.card last s.saved ≡ r
      → sdw_restore sd last ok s ≡ after_restore ok last s r
  unfolding sdw_restore
  restore_step last ok s r h = ap (after_restore ok last s) h
