-- ===== src/Io/Registers.antt =====
-- Registers that keep what is written to them: the configuration registers of the chip.
use stm32mp257_test_board.Prelude.{ℕ, ◌-◌, ◌^◌, bit_and, bit_or, ◌==◌, if◌then◌else◌, ◌≡◌}
use stm32mp257_test_board.Io.{
  Mmio, Machine, mmio_read_32, mmio_write_32, mmio_setbits_32, mmio_clrbits_32, mmio_clrsetbits_32,
}

pub record Keeps (hw : Mmio) : Type 0 where
  pub at : hw.World → ℕ → ℕ
  pub read-at : (w : hw.World) (a : ℕ) → hw.read a w ≡ (at w a, w)
  pub write-at : (w : hw.World) (a v b : ℕ) → at (hw.write a v w) b ≡ (if b == a then v else at w b)

module _ {hw : Mmio} (keeps : Keeps hw) where
  open keeps use {at, read-at, write-at}

  abbrev pub reg : Machine hw → ℕ → ℕ
  reg m a = at m.world a

  pub reg-write :
      (a v b : ℕ) (m : Machine hw) → reg (mmio_write_32 a v m).1 b ≡ (if b == a then v else reg m b)
  unfolding mmio_write_32
  reg-write a v b m = write-at m.world a v b

  pub read_lem : (a : ℕ) (m : Machine hw) → mmio_read_32 a m ≡ (reg m a, m)
  unfolding mmio_read_32
  read_lem a m = rw read-at

  pub reg-setbits :
      (a s b : ℕ) (m : Machine hw)
      → reg (mmio_setbits_32 a s m).1 b ≡ (if b == a then bit_or (reg m a) s else reg m b)
  unfolding mmio_setbits_32
  reg-setbits a s b m = rw (read_lem a m) (reg-write a _ b m)

  pub reg-clrbits :
      (a c b : ℕ) (m : Machine hw)
      → reg (mmio_clrbits_32 a c m).1 b
        ≡ (if b == a then bit_and (reg m a) (2 ^ 32 - 1 - c) else reg m b)
  unfolding mmio_clrbits_32
  reg-clrbits a c b m = rw (read_lem a m) (reg-write a _ b m)

  pub reg-clrsetbits :
      (a c s b : ℕ) (m : Machine hw)
      → reg (mmio_clrsetbits_32 a c s m).1 b
        ≡ (if b == a then bit_or (bit_and (reg m a) (2 ^ 32 - 1 - c)) s else reg m b)
  unfolding mmio_clrsetbits_32
  reg-clrsetbits a c s b m = rw (read_lem a m) (reg-write a _ b m)
