-- ===== src/Io.antt =====
-- bootloader/drivers/io.h over the memory-mapped registers, which are hardware: reading may change
-- them, so every access passes the machine on.
pub mod Bits
pub mod Closed
pub mod Holds
pub mod Registers
pub mod Wait
use Prim.Native.String.{String}
use stm32mp257_test_board.Prelude.{
  zero, suc, Bool, if◌then◌else◌, ℕ, ◌-◌, ◌*◌, ◌%◌, ◌^◌, List, [], ◌∷◌, ◌++◌, bit_and, bit_or,
}
use stm32mp257_test_board.Log.{Event, printf, Arg}

-- The hardware behind the registers, and the system counter that `mrs` reads.
pub record Mmio : Type 1 where
  pub World : Type 0
  pub read : ℕ → World → ℕ × World
  pub write : ℕ → ℕ → World → World
  pub cntpct : World → ℕ × World
  pub cntfrq : World → ℕ
  pub set_cntfrq : ℕ → World → World

-- The hardware, the global that the I2C driver writes, and what was printed.
pub record Machine (hw : Mmio) : Type 0 where
  pub world : hw.World
  pub i2c_last_isr : ℕ
  pub log : List Event

-- Code that uses the machine and gives a result.
abbrev pub Act : Mmio → Type 0 → Type 0
Act hw A = Machine hw → A × Machine hw

abbrev pub pure : {hw : Mmio} {A : Type 0} → A → Act hw A
pure a m = (a, m)

infixl 5 ◌>>=◌ ◌>>◌
abbrev pub ◌>>=◌ : {hw : Mmio} {A B : Type 0} → Act hw A → (A → Act hw B) → Act hw B
◌>>=◌ f k m = let (a, m') = f m in k a m'

abbrev pub ◌>>◌ : {hw : Mmio} {B : Type 0} → Act hw (Unit {0}) → Act hw B → Act hw B
◌>>◌ f k m = k (f m).1

-- `BIT(n)`.
abbrev pub bit_mask : ℕ → ℕ
bit_mask n = 2 ^ n

-- `~x` and `x << n` on `uint32_t`.
abbrev pub not32 : ℕ → ℕ
not32 x = 2 ^ 32 - 1 - x

abbrev pub shl32 : ℕ → ℕ → ℕ
shl32 x n = x * 2 ^ n % 2 ^ 32

module _ {hw : Mmio} where
  unfoldable pub my_printf : String → List Arg → Act hw (Unit {0})
  my_printf format args m = (tt, record m { log = m.log ++ printf format args ∷ [] })

  unfoldable pub mmio_write_32 : ℕ → ℕ → Act hw (Unit {0})
  mmio_write_32 addr val m = (tt, record m { world = hw.write addr val m.world })

  unfoldable pub mmio_read_32 : ℕ → Act hw ℕ
  mmio_read_32 addr m = let (v, w) = hw.read addr m.world in (v, record m { world = w })

  unfoldable pub mmio_setbits_32 : ℕ → ℕ → Act hw (Unit {0})
  mmio_setbits_32 addr set = do v ← mmio_read_32 addr; mmio_write_32 addr (bit_or v set)

  unfoldable pub mmio_clrbits_32 : ℕ → ℕ → Act hw (Unit {0})
  mmio_clrbits_32 addr clr = do v ← mmio_read_32 addr; mmio_write_32 addr (bit_and v (not32 clr))

  unfoldable pub mmio_clrsetbits_32 : ℕ → ℕ → ℕ → Act hw (Unit {0})
  mmio_clrsetbits_32 addr clr set = do
    v ← mmio_read_32 addr
    mmio_write_32 addr (bit_or (bit_and v (not32 clr)) set)

-- `if (!ok) return code;` before the rest.
abbrev pub or_return : {hw : Mmio} {A : Type 0} → Act hw Bool → A → Act hw A → Act hw A
or_return test code rest = test >>= λ ok. if ok then rest else pure code

-- `for (i = first; ...)` over `n` values.
unfoldable pub for_from : {hw : Mmio} → ℕ → ℕ → (ℕ → Act hw (Unit {0})) → Act hw (Unit {0})
for_from zero first f = pure tt
for_from (suc n) first f = do f first; for_from n (suc first) f
