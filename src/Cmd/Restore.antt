-- ===== src/Cmd/Restore.antt =====
-- What `cmd_sdw` of bootloader/src/cmd.c does to the card that it tests, and what it reports.
use stm32mp257_test_board.Prelude.{
  ℕ, zero, suc, ◌+◌, ◌-◌, ◌/◌, ◌%◌, ◌^◌, ◌≤◌, ◌<◌, List, [], ◌∷◌, some, Bool, true, false, take,
  ==_iff, if◌then◌else◌, codes, length, ℤ, pos, negsuc, ◌≡◌, ◌≢◌, ◌↔◌, refl, sym, ap, ◌∙◌, arith,
}
use stm32mp257_test_board.Log.{Event, printf, num, str}
use stm32mp257_test_board.Cstring.{memcmp}
use stm32mp257_test_board.Cstring.Compare.{memcmp_same_iff}
use stm32mp257_test_board.Card.{Sd}
use stm32mp257_test_board.Cmd.Disk.{
  Disk, sdw_write, pattern_from, pattern_bytes, is_zero, sdw_save, cmd_sdw,
}
use stm32mp257_test_board.Cmd.Line.{take_all}
use stm32mp257_test_board.Cmd.Sdw.{
  last_of, nonzero, report, save_step, write_step, check_step, restore_step,
}
use stm32mp257_test_board.Cmd.Watched.{Access, did_read, did_write, Serves}

pub true≢false : true ≢ false
true≢false = ground arith

length-pattern_from : (n i : ℕ) → length (pattern_from n i) ≡ n
unfolding pattern_from
length-pattern_from zero i = refl
length-pattern_from (suc n) i = ap suc (length-pattern_from n (suc i))

pub full : length pattern_bytes ≡ 512
full = length-pattern_from 512 0

is_zero_iff : (z : ℤ) → (is_zero z ≡ true) ↔ (z ≡ pos 0)
is_zero_iff (pos n) = (λ h. ap pos ((==_iff n 0).0 h), λ h. ground (arith, h))
is_zero_iff (negsuc n) = (λ h. ground arith, λ h. ground arith)

-- `memcmp` of two blocks is 0 exactly where they are the same.
pub same_blocks :
    (xs ys : List ℕ)
    → length xs ≡ 512
    → length ys ≡ 512
    → (is_zero (memcmp xs ys 512) ≡ true) ↔ (xs ≡ ys)
same_blocks xs ys e e' =
    let (to, from) = memcmp_same_iff xs ys 512 (omega (arith, e)) (omega (arith, e')) in
    let (zero_to, zero_from) = is_zero_iff (memcmp xs ys 512) in
    (
      λ h.
          sym (take_all 512 xs (omega (arith, e)))
          ∙ to (zero_to h)
          ∙ take_all 512 ys (omega (arith, e')),
      λ h. zero_from (from (ap (take 512) h)),
    )

-- What is printed at the end.
abbrev pub verdict : Bool → ℕ → Event
verdict ok last =
    printf "SD WRITE %s (block %u)\r\n"
      (str (if ok then codes "OK" else codes "MISMATCH") ∷ num last ∷ [])

pub last_in : (n : ℕ) → 1 ≤ n → n ≤ 2 ^ 32 → (n + (2 ^ 32 - 1)) % 2 ^ 32 ≡ n - 1
last_in n h k = omega arith

module _ {sd : Sd} (serves : Serves sd) where
  open serves use {block, length-block, reads, read_kept, writes, write_kept, read_size, write_size}
  open sd use {sd_size_bytes, sd_read, sd_write}

  -- The card behind each of the four calls.
  abbrev saved_card : sd.Card → ℕ → sd.Card
  saved_card c last = (sd_read c last 512).0

  abbrev pub filled : sd.Card → ℕ → sd.Card
  filled c last = (sd_write (saved_card c last) last pattern_bytes).0

  abbrev checked : sd.Card → ℕ → sd.Card
  checked c last = (sd_read (filled c last) last 512).0

  abbrev pub restored : sd.Card → ℕ → sd.Card
  restored c last = (sd_write (checked c last) last (block c last)).0

  -- The state of a run in which every call succeeds.
  abbrev tested : Disk sd → ℕ → Disk sd
  tested s last =
      report (is_zero (memcmp pattern_bytes (block (filled s.card last) last) 512)) last (record s {
        card = restored s.card last;
        saved = block s.card last;
        patt = pattern_bytes;
        back = block (filled s.card last) last;
      })

  module _ (s : Disk sd) (last : ℕ) (is_last : last_of (sd_size_bytes s.card) ≡ last)
      (inside : last < sd_size_bytes s.card / 512) where
    save_size : sd_size_bytes (saved_card s.card last) ≡ sd_size_bytes s.card
    save_size = read_size s.card last

    fill_size : sd_size_bytes (filled s.card last) ≡ sd_size_bytes s.card
    fill_size = write_size (saved_card s.card last) last pattern_bytes ∙ save_size

    check_size : sd_size_bytes (checked s.card last) ≡ sd_size_bytes s.card
    check_size = read_size (filled s.card last) last ∙ fill_size

    sdw_save-tested : sdw_save sd s ≡ tested s last
    sdw_save-tested =
        let b = block s.card last in
        let r = block (filled s.card last) last in
        save_step s (saved_card s.card last, some b)
          (rw is_last (ap (λ x. (saved_card s.card last, x)) (reads s.card last inside)))
        ∙ ap (λ l. sdw_write sd l (record s { card = saved_card s.card last; saved = b })) is_last
        ∙ write_step last (record s { card = saved_card s.card last; saved = b })
            (filled s.card last, true)
            (ap (λ ok. (filled s.card last, ok))
              (writes (saved_card s.card last) last pattern_bytes (omega (arith, save_size, inside))
                full))
        ∙ check_step last (record s { card = filled s.card last; saved = b; patt = pattern_bytes })
            (checked s.card last, some r)
            (ap (λ x. (checked s.card last, x))
              (reads (filled s.card last) last (omega (arith, fill_size, inside))))
        ∙ restore_step last (is_zero (memcmp pattern_bytes r 512))
            (record s { card = checked s.card last; saved = b; patt = pattern_bytes; back = r })
            (restored s.card last, true)
            (ap (λ ok. (restored s.card last, ok))
              (writes (checked s.card last) last b (omega (arith, check_size, inside))
                (length-block s.card last)))

    -- The handler starts as its first read does, since the card has a size.
    pub cmd_sdw-tested : cmd_sdw sd s ≡ tested s last
    unfolding cmd_sdw
    cmd_sdw-tested = rw (nonzero (sd_size_bytes s.card) (omega (arith, inside))) sdw_save-tested

    -- Another block is behind the four calls what it was.
    pub others_kept : (j : ℕ) → j ≢ last → block (restored s.card last) j ≡ block s.card j
    others_kept j n =
        write_kept (checked s.card last) last j (block s.card last) n
        ∙ read_kept (filled s.card last) last j
        ∙ write_kept (saved_card s.card last) last j pattern_bytes n
        ∙ read_kept s.card last j

-- The calls that the test of the block `last`, which holds `bytes`, makes.
abbrev pub sdw_calls : ℕ → List ℕ → List Access
sdw_calls last bytes =
    did_read last 512 ∷ did_write last pattern_bytes ∷ did_read last 512 ∷ did_write last bytes ∷ []
