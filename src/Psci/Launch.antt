-- ===== src/Psci/Launch.antt =====
-- A core that waits in the holding pen of bootloader/drivers/startup.S is released by CPU_ON of
-- bootloader/drivers/psci.c.
use stm32mp257_test_board.Prelude.{
  ℕ, List, [], ◌∷◌, foldl, some, false, ◌==◌, if◌then◌else◌, ◌≡◌, ◌≢◌, refl, ap, ap₂, ◌∙◌, arith,
}
use stm32mp257_test_board.Psci.{Psci, cpu_on64, psci_smc, cpu_on, to_u64}
use stm32mp257_test_board.Psci.Pen.{
  System, waiting, running, pen_wait, Reach, is_on, Reach-HasState,
}

-- The state behind a CPU_ON of core 1, with an entry and a context.
abbrev pub called_on : Psci → ℕ × ℕ → Psci
called_on s (entry, ctx) = (psci_smc cpu_on64 1 entry ctx s).1

-- A CPU_ON of a core that is on changes nothing.
called_on-kept : (s : Psci) (c : ℕ × ℕ) → s.core1_on ≡ 1 → called_on s c ≡ s
unfolding psci_smc cpu_on
called_on-kept s (entry, ctx) h = rw h refl

later-kept : (s : Psci) (calls : List (ℕ × ℕ)) → s.core1_on ≡ 1 → foldl called_on s calls ≡ s
later-kept s [] h = refl
later-kept s (c ∷ calls) h =
    ap (λ t. foldl called_on t calls) (called_on-kept s c h) ∙ later-kept s calls h

-- Where core 0 has made no CPU_OFF, no CPU_ON was made between core 1's CPU_OFF and its arrival
-- in the pen, each earlier CPU_ON had an entry other than 0, and core 1 waits in the pen at an
-- empty mailbox: a CPU_ON of it with an entry other than 0 succeeds, and after any further calls
-- of CPU_ON, core 1's next look at the mailbox launches it at the entry and with the context of
-- the first.
pub turn_on-launched :
    (s : System) (entry ctx : ℕ) (later : List (ℕ × ℕ))
    → Reach s
    → s.core ≡ waiting
    → s.psci.psci_pen_entry ≡ 0
    → entry ≢ 0
    → ((psci_smc cpu_on64 1 entry ctx s.psci).0 ≡ some 0)
      × (pen_wait (foldl called_on (called_on s.psci (entry, ctx)) later) ≡ running entry ctx)
unfolding psci_smc cpu_on to_u64 pen_wait
turn_on-launched s entry ctx later r w e n =
    let off : s.psci.core1_on ≡ 0 =
      Reach-HasState r ∙ ap₂ (λ c m. if is_on c m then 1 else 0) w e in
    let nonzero : (entry == 0) ≡ false = ground (arith, n) in
    let set : called_on s.psci (entry, ctx)
        ≡ record { core1_on = 1; psci_pen_entry = entry; psci_pen_ctx = ctx } =
      rw off refl in
    (
      rw off refl,
      ap (λ p. pen_wait (foldl called_on p later)) set
          ∙ ap pen_wait (
              later-kept (record { core1_on = 1; psci_pen_entry = entry; psci_pen_ctx = ctx }) later
                refl)
          ∙ rw nonzero refl,
    )
