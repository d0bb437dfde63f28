-- ===== src/Tests.antt =====
-- The development's theorems at concrete inputs, and runs of the definitions.
mod Shell
mod Power
mod Transfer
mod Writes
mod Guarded
mod Text
mod Hardware
mod Disk
mod Load
mod Memory
mod Loop
mod Serial
mod Chip
