-- ===== src/Tests/Guarded.antt =====
-- The accesses of bootloader/drivers/usb/usb_msc.c to a card of a thousand blocks that records them.
use stm32mp257_test_board.Prelude.{
  ℕ, ◌+◌, ◌/◌, ◌≤◌, List, [], ◌∷◌, some, true, All, replicate, length, ◌≡◌, refl, arith,
}
use stm32mp257_test_board.Card.{Sd}
use stm32mp257_test_board.Msc.State.{Msc, idle}
use stm32mp257_test_board.Msc.Transfer.{msc_arm_cbw}
use stm32mp257_test_board.Msc.Class.{msc_init, host_cbw}
use stm32mp257_test_board.Msc.Protocol.{command, IsArmed}
use stm32mp257_test_board.Msc.Guard.{Guards, IsInside}
use stm32mp257_test_board.Msc.Inside.{Run, begun, followed, Run-IsInside}
use stm32mp257_test_board.Msc.Progress.{serve, serve-completes}
use stm32mp257_test_board.Tests.Writes.{blank_over, write_40}

-- The first block and the count of every access.
abbrev card : Sd
card = record {
  Card = List (ℕ × ℕ);
  sd_size_bytes = λ c. 512000;
  sd_init = λ c. (c, true);
  sd_read = λ c lba len. ((lba, len / 512) ∷ c, some (replicate len 7));
  sd_write = λ c lba bytes. ((lba, (length bytes + 511) / 512) ∷ c, true);
}

abbrev Within : List (ℕ × ℕ) → Type 0
Within = All (λ a. a.0 + a.1 ≤ 1000)

card_guards : Guards card 1000 Within
card_guards = record {
  sized = λ c h. refl;
  read_inside = λ c lba n p m h k. (omega arith, k);
  write_inside = λ c lba n bytes p m h l k. (omega arith, k);
}

abbrev blank : Msc (List (ℕ × ℕ))
blank = blank_over []

armed_idle : (msc_init card blank).bot_state ≡ idle
unfolding msc_init msc_arm_cbw
armed_idle = refl

writing : Run card blank (host_cbw card write_40 31 (msc_init card blank))
writing = followed begun (command (msc_init card blank) write_40 31 armed_idle)

Run-IsInside_example : IsInside card 1000 Within (host_cbw card write_40 31 (msc_init card blank))
Run-IsInside_example = Run-IsInside card_guards (omega arith) tt writing

serve-completes_example :
    let t = host_cbw card write_40 31 (msc_init card blank) in
    let out = serve card (2 + (t.io_blocks_left + 31) / 32) (λ i. replicate 16384 7) t in
    (out.bot_state ≡ idle) × IsArmed card out × Within out.card
serve-completes_example =
    serve-completes card 1000 Within card_guards (omega arith) (λ i. replicate 16384 7) tt writing
