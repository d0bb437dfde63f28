-- ===== src/Psci/Calls.antt =====
-- What the calls of bootloader/drivers/psci.c promise each other.
use stm32mp257_test_board.Prelude.{ℕ, ◌-◌, ◌%◌, ◌^◌, some, bit_and, ◌≡◌, refl, arith}
use stm32mp257_test_board.Psci.{
  Psci, cpu_on64, affinity64, to_u64, ret_not_supported, cpu_on, affinity_info, features, psci_smc,
}

-- A function that PSCI_FEATURES does not report is not implemented: the call answers
-- NOT_SUPPORTED whatever its arguments are, and changes nothing.
psci_smc-unreported :
    (fid a1 a2 a3 : ℕ) (s : Psci)
    → features (fid % 2 ^ 32) ≡ ret_not_supported
    → psci_smc fid a1 a2 a3 s ≡ (some (to_u64 ret_not_supported), s)
unfolding features psci_smc
psci_smc-unreported fid a1 a2 a3 s h = ground arith

-- A CPU_ON of core 1 while it is off succeeds: AFFINITY_INFO of it then answers ON, its entry
-- and context are in the mailbox, and a second CPU_ON of it answers ALREADY_ON and changes
-- nothing.
psci_smc-cpu_on :
    (mpidr entry ctx mpidr' entry' ctx' : ℕ) (s : Psci)
    → bit_and mpidr 0xFFFFFF ≡ 1
    → bit_and mpidr' 0xFFFFFF ≡ 1
    → s.core1_on ≡ 0
    → let t = (psci_smc cpu_on64 mpidr entry ctx s).1 in
      ((psci_smc cpu_on64 mpidr entry ctx s).0 ≡ some 0)
      × (t.psci_pen_entry ≡ entry)
      × (t.psci_pen_ctx ≡ ctx)
      × (psci_smc affinity64 mpidr 0 0 t ≡ (some 0, t))
      × (psci_smc cpu_on64 mpidr' entry' ctx' t ≡ (some (2 ^ 64 - 4), t))
unfolding psci_smc cpu_on affinity_info to_u64
psci_smc-cpu_on mpidr entry ctx mpidr' entry' ctx' s h h' k =
    rw (h, k, h') (refl, refl, refl, refl, refl)
