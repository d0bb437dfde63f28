-- ===== src/Psci.antt =====
-- bootloader/drivers/psci.c: the power-state calls that the kernel makes at EL3.
use stm32mp257_test_board.Prelude.{
  ℕ, ◌+◌, ◌-◌, ◌%◌, ◌^◌, Option, none, some, Bool, ◌||◌, not, bit_and, ◌==◌, if◌then◌else◌, ℤ, pos,
  negsuc,
}
pub mod Calls
pub mod Pen
pub mod Launch

-- Function identifiers.
abbrev version_fid : ℕ
version_fid = 0x84000000

abbrev pub cpu_off_fid : ℕ
cpu_off_fid = 0x84000002

abbrev cpu_on32 : ℕ
cpu_on32 = 0x84000003

abbrev pub cpu_on64 : ℕ
cpu_on64 = 0xC4000003

abbrev affinity32 : ℕ
affinity32 = 0x84000004

abbrev pub affinity64 : ℕ
affinity64 = 0xC4000004

abbrev mig_info_type : ℕ
mig_info_type = 0x84000006

abbrev psci_features : ℕ
psci_features = 0x8400000A

abbrev set_suspend_mode : ℕ
set_suspend_mode = 0x8400000F

abbrev pub ret_not_supported : ℤ
ret_not_supported = negsuc 0

abbrev ret_invalid_params : ℤ
ret_invalid_params = negsuc 1

abbrev pub ret_already_on : ℤ
ret_already_on = negsuc 3

-- `core1_on` and the mailbox of the holding pen.
pub record Psci : Type 0 where
  pub core1_on : ℕ
  pub psci_pen_entry : ℕ
  pub psci_pen_ctx : ℕ

-- `(uint64_t)` of an `int64_t`.
unfoldable pub to_u64 : ℤ → ℕ
to_u64 (pos n) = n % 2 ^ 64
to_u64 (negsuc n) = 2 ^ 64 - 1 - n

unfoldable pub cpu_on : ℕ → ℕ → ℕ → Psci → ℤ × Psci
cpu_on mpidr entry ctx s =
    if not (bit_and mpidr 0xFFFFFF == 1)
    then (ret_invalid_params, s)
    else if not (s.core1_on == 0)
    then (ret_already_on, s)
    else (pos 0, record s { psci_pen_ctx = ctx; psci_pen_entry = entry; core1_on = 1 })

unfoldable pub affinity_info : ℕ → Psci → ℤ
affinity_info mpidr s =
    let aff = bit_and mpidr 0xFFFFFF in
    if aff == 0
    then pos 0
    else if aff == 1
    then (if not (s.core1_on == 0) then pos 0 else pos 1)
    else ret_invalid_params

unfoldable pub features : ℕ → ℤ
features fid =
    if fid == version_fid
      || fid == cpu_off_fid
      || fid == cpu_on32
      || fid == cpu_on64
      || fid == affinity32
      || fid == affinity64
      || fid == mig_info_type
      || fid == psci_features
      || fid == set_suspend_mode
    then pos 0
    else ret_not_supported

-- The answer to a call, or nothing where the calling core is parked in the pen and does not return.
unfoldable pub psci_smc : ℕ → ℕ → ℕ → ℕ → Psci → Option ℕ × Psci
unfolding to_u64 affinity_info features cpu_on
psci_smc fid a1 a2 a3 s =
    let f = fid % 2 ^ 32 in
    if f == version_fid
    then (some 0x00010000, s)
    else if f == cpu_on32 || f == cpu_on64
    then (some (to_u64 (cpu_on a1 a2 a3 s).0), (cpu_on a1 a2 a3 s).1)
    else if f == cpu_off_fid
    then (none, record s { core1_on = 0 })
    else if f == affinity32 || f == affinity64
    then (some (to_u64 (affinity_info a1 s)), s)
    else if f == mig_info_type
    then (some 2, s)
    else if f == set_suspend_mode
    then (some (if a1 == 0 then 0 else to_u64 ret_not_supported), s)
    else if f == psci_features
    then (some (to_u64 (features (a1 % 2 ^ 32))), s)
    else (some (to_u64 ret_not_supported), s)
