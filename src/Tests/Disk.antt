-- ===== src/Tests/Disk.antt =====
-- The card handlers of bootloader/src/cmd.c at concrete cards.
use stm32mp257_test_board.Prelude.{
  ℕ, zero, suc, List, [], ◌∷◌, ◌++◌, none, some, Bool, true, false, Bool-cases, inl, inr, ◌==◌,
  if◌then◌else◌, take, replicate, length, length-take, length-append, length-replicate, ◌≡◌, ◌≢◌,
  ==_iff, ==_refl, refl, ap, arith,
}
use stm32mp257_test_board.Card.{Sd}
use stm32mp257_test_board.Cmd.Disk.{
  Disk, say, sdw_check, sdw_write, sdw_save, pattern_bytes, cmd_sdw,
}
use stm32mp257_test_board.Cmd.Watched.{did_read, did_write, watched, watch, Stores}

-- A card of 8 blocks; a block is what was written, filled up with 0.
abbrev block : (ℕ → List ℕ) → ℕ → List ℕ
block c i = take 512 (c i ++ replicate 512 0)

abbrev sd : Sd
sd = record {
  Card = ℕ → List ℕ;
  sd_size_bytes = λ c. 4096;
  sd_init = λ c. (c, true);
  sd_read = λ c lba n. (c, some (block c lba));
  sd_write = λ c lba bytes. (λ j. if j == lba then bytes else c j, true);
}

take_whole : (xs ys : List ℕ) (n : ℕ) → length xs ≡ n → take n (xs ++ ys) ≡ xs
take_whole [] ys zero e = refl
take_whole [] ys (suc n) e = absurd (omega arith)
take_whole (x ∷ xs) ys zero e = absurd (omega arith)
take_whole (x ∷ xs) ys (suc n) e = ap (λ r. x ∷ r) (take_whole xs ys n (omega arith))

length-block : (c : ℕ → List ℕ) (i : ℕ) → length (block c i) ≡ 512
length-block c i = omega (
  arith,
  length-take 512 (c i ++ replicate 512 0),
  length-append (c i) (replicate 512 0),
  length-replicate {A = ℕ} 512 0,
)

other : (c : ℕ → List ℕ) (i j : ℕ) (bytes : List ℕ) → j ≢ i → (if j == i then bytes else c j) ≡ c j
other c i j bytes n = elim (Bool-cases (j == i)) [
  | inl e ↦ absurd (n ((==_iff j i).0 e))
  | inr e ↦ rw e refl
]

abbrev stores : Stores sd
stores = record {
  serves = record {
    block = block;
    length-block = length-block;
    reads = λ c i h. refl;
    read_kept = λ c i j. refl;
    writes = λ c i bytes h l. refl;
    write_kept = λ c i j bytes n. ap (λ b. take 512 (b ++ replicate 512 0)) (other c i j bytes n);
    read_size = λ c i. refl;
    write_size = λ c i bytes. refl;
  };
  written = λ c i bytes h l. rw (==_refl i) (take_whole bytes (replicate 512 0) 512 l);
}

abbrev fresh : Disk sd
fresh = record {
  card = λ i. i ∷ [];
  done = false;
  mbr = [];
  saved = [];
  patt = [];
  back = [];
  log = [];
}

-- A card of 8 blocks of zeros that cannot be read once it was written.
abbrev worn : Sd
worn = record {
  Card = Bool;
  sd_size_bytes = λ c. 4096;
  sd_init = λ c. (c, true);
  sd_read = λ c lba n. (c, if c then none else some (replicate 512 0));
  sd_write = λ c lba bytes. (true, true);
}

abbrev unworn : Disk worn
unworn = record { card = false; done = false; mbr = []; saved = []; patt = []; back = []; log = [] }

-- Its read back fails, and the pattern is not replaced.
unworn_calls :
    (cmd_sdw (watched worn) (watch unworn)).card.1
    ≡ did_read 7 512 ∷ did_write 7 pattern_bytes ∷ did_read 7 512 ∷ []
unfolding cmd_sdw sdw_save sdw_write sdw_check say
unworn_calls = refl
