-- ===== src/Cmd/Disk.antt =====
-- The handlers `cmd_sd` and `cmd_sdw` of bootloader/src/cmd.c, over the card as drivers/sd.h offers
-- it. What a failed read leaves in its buffer is not modelled.
use stm32mp257_test_board.Prelude.{
  ℕ, zero, suc, ◌+◌, ◌-◌, ◌*◌, ◌/◌, ◌%◌, ◌^◌, List, [], ◌∷◌, ◌++◌, none, some, Bool, true, false,
  ◌&&◌, ◌==◌, bit_xor, get_or, if◌then◌else◌, codes, ℤ, pos, negsuc,
}
use stm32mp257_test_board.Log.{Event, printf, num, str}
use stm32mp257_test_board.Cstring.{memcmp}
use stm32mp257_test_board.Card.{Sd}

-- The bytes `i ^ 0xA5` for `n` values of `i`.
unfoldable pub pattern_from : ℕ → ℕ → List ℕ
pattern_from zero i = []
pattern_from (suc n) i = bit_xor i 0xA5 % 2 ^ 8 ∷ pattern_from n (suc i)

abbrev pub pattern_bytes : List ℕ
pattern_bytes = pattern_from 512 0

abbrev pub is_zero : ℤ → Bool
is_zero (pos n) = n == 0
is_zero (negsuc n) = false

-- The card, the static flag and buffers of the two handlers, and what is printed.
pub record Disk (sd : Sd) : Type 0 where
  pub card : sd.Card
  pub done : Bool
  pub mbr : List ℕ
  pub saved : List ℕ
  pub patt : List ℕ
  pub back : List ℕ
  pub log : List Event

module _ (sd : Sd) where
  open sd use {sd_size_bytes, sd_init, sd_read, sd_write}

  unfoldable pub say : Event → Disk sd → Disk sd
  say e s = record s { log = s.log ++ e ∷ [] }

  unfoldable pub sd_report : Disk sd → Disk sd
  sd_report s =
      let a = get_or s.mbr 510 0 in
      let b = get_or s.mbr 511 0 in
      let verdict = if (a == 0x55) && (b == 0xAA) then codes " OK" else codes " BAD" in
      say
        (printf "SD %u MB, MBR sig %02X%02X%s\r\n"
          (num (sd_size_bytes s.card / (1024 * 1024) % 2 ^ 32) ∷ num a ∷ num b ∷ str verdict ∷ []))
        s

  unfoldable pub sd_show : Disk sd → Disk sd
  sd_show s =
      let (c, r) = sd_read s.card 0 512 in
      elim r [
        | none ↦ say (printf "SD read FAILED\r\n" []) (record s { card = c })
        | some bytes ↦ sd_report (record s { card = c; mbr = bytes })
      ]

  unfoldable pub cmd_sd : Disk sd → Disk sd
  cmd_sd s =
      let (c, ok) = sd_init s.card in
      if s.done
      then sd_show s
      else if ok
      then sd_show (record s { card = c; done = true })
      else say (printf "SD init FAILED\r\n" []) (record s { card = c })

  -- `cmd_sdw` from its last write back to its start.
  unfoldable pub sdw_restore : ℕ → Bool → Disk sd → Disk sd
  sdw_restore last ok s =
      let (c, done) = sd_write s.card last s.saved in
      elim done [
        | false ↦ say (printf "SD WRITE: restore FAILED\r\n" []) (record s { card = c })
        | true ↦
            say
              (printf "SD WRITE %s (block %u)\r\n"
                (str (if ok then codes "OK" else codes "MISMATCH") ∷ num last ∷ []))
              (record s { card = c })
      ]

  unfoldable pub sdw_check : ℕ → Disk sd → Disk sd
  sdw_check last s =
      let (c, r) = sd_read s.card last 512 in
      elim r [
        | none ↦ say (printf "SD WRITE: readback FAILED\r\n" []) (record s { card = c })
        | some bytes ↦
            sdw_restore last (is_zero (memcmp s.patt bytes 512))
              (record s { card = c; back = bytes })
      ]

  unfoldable pub sdw_write : ℕ → Disk sd → Disk sd
  sdw_write last s =
      let (c, done) = sd_write s.card last pattern_bytes in
      elim done [
        | false ↦
            say (printf "SD WRITE: write FAILED\r\n" [])
              (record s { card = c; patt = pattern_bytes })
        | true ↦ sdw_check last (record s { card = c; patt = pattern_bytes })
      ]

  unfoldable pub sdw_save : Disk sd → Disk sd
  sdw_save s =
      let last = (sd_size_bytes s.card / 512 + (2 ^ 32 - 1)) % 2 ^ 32 in
      let (c, r) = sd_read s.card last 512 in
      elim r [
        | none ↦ say (printf "SD WRITE: save read FAILED\r\n" []) (record s { card = c })
        | some bytes ↦ sdw_write last (record s { card = c; saved = bytes })
      ]

  unfoldable pub cmd_sdw : Disk sd → Disk sd
  cmd_sdw s =
      let (c, ok) = sd_init s.card in
      if sd_size_bytes s.card == 0
      then (if ok
          then sdw_save (record s { card = c })
          else say (printf "SD init FAILED\r\n" []) (record s { card = c }))
      else sdw_save s
