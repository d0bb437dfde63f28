-- ===== src/Card.antt =====
-- The SD card as bootloader/drivers/sd.h offers it, over the MMC driver that is carried from TF-A.
-- A read gives the bytes that it stores at the buffer, or nothing where it reports a failure.
use stm32mp257_test_board.Prelude.{ℕ, Bool, List, Option}

pub record Sd : Type 1 where
  pub Card : Type 0
  pub sd_size_bytes : Card → ℕ
  pub sd_init : Card → Card × Bool
  pub sd_read : Card → ℕ → ℕ → Card × Option (List ℕ)
  pub sd_write : Card → ℕ → List ℕ → Card × Bool
