-- ===== src/Rcc.antt =====
-- bootloader/drivers/rcc.c: the clocks of the chip.
pub mod Registers
pub mod Flexgen
pub mod Pll2
pub mod Pll1
pub mod Clock
pub mod Faults
