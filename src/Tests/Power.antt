-- ===== src/Tests/Power.antt =====
-- The power-state calls of bootloader/drivers/psci.c at concrete inputs.
use stm32mp257_test_board.Prelude.{some, foldl, [], ◌∷◌, arith, if◌then◌else◌, ◌≡◌, refl}
use stm32mp257_test_board.Psci.{
  Psci, cpu_off_fid, cpu_on64, affinity64, psci_smc, features, to_u64, ret_not_supported,
  ret_already_on,
}
use stm32mp257_test_board.Psci.Launch.{called_on, turn_on-launched}
use stm32mp257_test_board.Psci.Pen.{
  running, System, waiting, pen_wait, pen_return, wake, quiet, at_reset, start, next, is_on, done,
  more, affinity-Reach, turn_on_late-lost,
}

abbrev off : Psci
off = (at_reset 7).psci

-- Core 1 polls an empty mailbox.
abbrev polled : System
polled = record { psci = off; core = pen_wait off }

affinity-Reach_example :
    psci_smc affinity64 1 0 0 off ≡ (some (if is_on (pen_wait off) 0 then 0 else 1), off)
affinity-Reach_example = affinity-Reach polled (next (start 7) (wake off))

-- SYSTEM_RESET
reset_unreported : features 0x84000009 ≡ ret_not_supported
unfolding features
reset_unreported = refl

abbrev on : Psci
on = (psci_smc cpu_on64 1 0x84000000 5 off).1

abbrev lost : System
lost = record {
  psci = pen_return (psci_smc cpu_on64 1 0x84000000 5 (psci_smc cpu_off_fid 0 0 0 on).1).1;
  core = waiting;
}

turn_on_late-lost_example :
    ((psci_smc cpu_on64 1 0x84000000 5 (psci_smc cpu_off_fid 0 0 0 on).1).0 ≡ some 0)
    × (pen_wait lost.psci ≡ waiting)
    × (psci_smc cpu_on64 1 9 9 lost.psci ≡ (some (to_u64 ret_already_on), lost.psci))
turn_on_late-lost_example =
    turn_on_late-lost on 0x84000000 5 9 9 (record { psci = lost.psci; core = pen_wait lost.psci })
      (more (quiet (wake lost.psci)) (done _))

turn_on-launched_example :
    ((psci_smc cpu_on64 1 0x84000000 5 off).0 ≡ some 0)
    × (pen_wait (foldl called_on (called_on off (0x84000000, 5)) ((0x84000000, 6) ∷ (1, 2) ∷ []))
        ≡ running 0x84000000 5)
turn_on-launched_example =
    turn_on-launched (at_reset 7) 0x84000000 5 ((0x84000000, 6) ∷ (1, 2) ∷ []) (start 7) refl refl
      (λ e. omega arith)
