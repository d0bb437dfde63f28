-- ===== src/Io/Closed.antt =====
-- What every access to a register keeps, a whole driver keeps.
use stm32mp257_test_board.Prelude.{
  ℕ, zero, suc, bit_and, bit_or, List, Bool, true, false, Bool-cases, inl, inr,
}
use Prim.Native.String.{String}
use stm32mp257_test_board.Log.{Arg}
use stm32mp257_test_board.Io.{
  Mmio, Machine, Act, pure, not32, ◌>>◌, ◌>>=◌, my_printf, mmio_read_32, mmio_write_32,
  mmio_setbits_32, mmio_clrbits_32, mmio_clrsetbits_32, for_from,
}
use stm32mp257_test_board.Io.Wait.{poll}

-- A property of the hardware that no access to a register ends.
pub record Closed (hw : Mmio) (P : hw.World → Type 0) : Type 0 where
  pub by_read : (a : ℕ) (w : hw.World) → P w → P (hw.read a w).1
  pub by_write : (a v : ℕ) (w : hw.World) → P w → P (hw.write a v w)

pub record Stays (hw : Mmio) (P : hw.World → Type 0) {A : Type 0} (f : Act hw A) : Type 0 where
  pub after : (m : Machine hw) → P m.world → P (f m).1.world

module _ {hw : Mmio} {P : hw.World → Type 0} where
  pub pure-Stays : {A : Type 0} (a : A) → Stays hw P (pure a)
  pure-Stays a = record { after = λ m h. h }

  pub bind-Stays :
      {A B : Type 0} {f : Act hw A} {k : A → Act hw B}
      → Stays hw P f
      → ((a : A) → Stays hw P (k a))
      → Stays hw P (f >>= k)
  bind-Stays {f} p q = record { after = λ m h. (q (f m).0).after (f m).1 (p.after m h) }

  pub then-Stays :
      {B : Type 0} {f : Act hw (Unit {0})} {g : Act hw B}
      → Stays hw P f
      → Stays hw P g
      → Stays hw P (f >> g)
  then-Stays {f} p q = record { after = λ m h. q.after (f m).1 (p.after m h) }

  pub cases-Stays :
      {A : Type 0} {f g : Act hw A} (b : Bool)
      → Stays hw P f
      → Stays hw P g
      → Stays hw P (elim b [ false ↦ f | true ↦ g ])
  cases-Stays true p q = q
  cases-Stays false p q = p

  pub for_from-Stays :
      (n first : ℕ) {f : ℕ → Act hw (Unit {0})}
      → ((i : ℕ) → Stays hw P (f i))
      → Stays hw P (for_from n first f)
  unfolding for_from
  for_from-Stays zero first all = pure-Stays tt
  for_from-Stays (suc n) first all = then-Stays (all first) (for_from-Stays n (suc first) all)

  pub printf-Stays : (s : String) (args : List Arg) → Stays hw P (my_printf s args)
  unfolding my_printf
  printf-Stays s args = record { after = λ m h. h }

  module _ (closed : Closed hw P) where
    pub read-Stays : (a : ℕ) → Stays hw P (mmio_read_32 a)
    unfolding mmio_read_32
    read-Stays a = record { after = λ m h. closed.by_read a m.world h }

    pub write-Stays : (a v : ℕ) → Stays hw P (mmio_write_32 a v)
    unfolding mmio_write_32
    write-Stays a v = record { after = λ m h. closed.by_write a v m.world h }

    pub setbits-Stays : (a s : ℕ) → Stays hw P (mmio_setbits_32 a s)
    unfolding mmio_setbits_32
    setbits-Stays a s = bind-Stays (read-Stays a) (λ v. write-Stays a (bit_or v s))

    pub clrbits-Stays : (a s : ℕ) → Stays hw P (mmio_clrbits_32 a s)
    unfolding mmio_clrbits_32
    clrbits-Stays a s = bind-Stays (read-Stays a) (λ v. write-Stays a (bit_and v (not32 s)))

    pub clrsetbits-Stays : (a c s : ℕ) → Stays hw P (mmio_clrsetbits_32 a c s)
    unfolding mmio_clrsetbits_32
    clrsetbits-Stays a c s =
        bind-Stays (read-Stays a) (λ v. write-Stays a (bit_or (bit_and v (not32 c)) s))

    pub poll-Stays : (n : ℕ) (ready : ℕ → Bool) (a : ℕ) → Stays hw P (poll n ready a)
    unfolding poll
    poll-Stays zero ready a = record { after = λ m h. h }
    poll-Stays (suc n) ready a = record {
      after = λ m h. elim (Bool-cases (ready (mmio_read_32 a m).0)) [
        | inl e ↦ rw (poll, e) ((read-Stays a).after m h)
        | inr e ↦
            rw (poll, e)
              ((poll-Stays n ready a).after (mmio_read_32 a m).1 ((read-Stays a).after m h))
      ];
    }
