-- ===== src/Io/Holds.antt =====
-- What a sequence of register writes leaves in one register.
use stm32mp257_test_board.Prelude.{
  ℕ, zero, suc, ◌+◌, ◌≤◌, ◌<◌, false, Bool-cases, inl, inr, ◌==◌, ==_refl, ==_iff, ◌≡◌, refl, sym,
  ◌∙◌, subst, arith,
}
use stm32mp257_test_board.Io.{
  Mmio, Machine, Act, ◌>>◌, ◌>>=◌, mmio_read_32, mmio_write_32, mmio_setbits_32, mmio_clrbits_32,
  mmio_clrsetbits_32, for_from,
}
use stm32mp257_test_board.Io.Registers.{
  Keeps, reg, reg-write, reg-setbits, reg-clrbits, reg-clrsetbits, read_lem,
}

-- An action after which register `b` holds `v`.
pub record Leaves {hw : Mmio} (keeps : Keeps hw) (b v : ℕ) (f : Act hw (Unit {0})) : Type 0 where
  pub at_end : (m : Machine hw) → reg keeps (f m).1 b ≡ v

-- An action that does not change that register `b` holds `v`.
pub record Holds {hw : Mmio} (keeps : Keeps hw) (b v : ℕ) (f : Act hw (Unit {0})) : Type 0 where
  pub still : (m : Machine hw) → reg keeps m b ≡ v → reg keeps (f m).1 b ≡ v

module _ {hw : Mmio} {keeps : Keeps hw} {b v : ℕ} where
  pub write-Holds : (a x : ℕ) → (b == a) ≡ false → Holds keeps b v (mmio_write_32 a x)
  write-Holds a x n = record { still = λ m h. reg-write keeps a x b m ∙ rw n h }

  pub write-Leaves : Leaves keeps b v (mmio_write_32 b v)
  write-Leaves = record { at_end = λ m. reg-write keeps b v b m ∙ rw (==_refl b) refl }

  -- The value itself may be written anywhere.
  pub same-Holds : (a : ℕ) → Holds keeps b v (mmio_write_32 a v)
  same-Holds a = record {
    still = λ m h.
        reg-write keeps a v b m ∙ elim (Bool-cases (b == a)) [ inl e ↦ rw e refl | inr e ↦ rw e h ];
  }

  pub setbits-Holds : (a s : ℕ) → (b == a) ≡ false → Holds keeps b v (mmio_setbits_32 a s)
  setbits-Holds a s n = record { still = λ m h. reg-setbits keeps a s b m ∙ rw n h }

  pub clrbits-Holds : (a c : ℕ) → (b == a) ≡ false → Holds keeps b v (mmio_clrbits_32 a c)
  clrbits-Holds a c n = record { still = λ m h. reg-clrbits keeps a c b m ∙ rw n h }

  pub clrsetbits-Holds : (a c s : ℕ) → (b == a) ≡ false → Holds keeps b v (mmio_clrsetbits_32 a c s)
  clrsetbits-Holds a c s n = record { still = λ m h. reg-clrsetbits keeps a c s b m ∙ rw n h }

  pub read-Holds :
      (a : ℕ) (k : ℕ → Act hw (Unit {0}))
      → ((x : ℕ) → Holds keeps b v (k x))
      → Holds keeps b v (mmio_read_32 a >>= k)
  read-Holds a k all = record {
    still = λ m h.
        subst (λ r. reg keeps (k r.0 r.1).1 b ≡ v) (sym (read_lem keeps a m))
          ((all (reg keeps m a)).still m h);
  }

  pub then-Holds :
      {f g : Act hw (Unit {0})} → Holds keeps b v f → Holds keeps b v g → Holds keeps b v (f >> g)
  then-Holds {f} p q = record { still = λ m h. q.still (f m).1 (p.still m h) }

  pub then-Leaves :
      {f g : Act hw (Unit {0})} → Leaves keeps b v f → Holds keeps b v g → Leaves keeps b v (f >> g)
  then-Leaves {f} p q = record { at_end = λ m. q.still (f m).1 (p.at_end m) }

  pub after-Leaves :
      (f : Act hw (Unit {0})) {g : Act hw (Unit {0})}
      → Leaves keeps b v g
      → Leaves keeps b v (f >> g)
  after-Leaves f q = record { at_end = λ m. q.at_end (f m).1 }

  pub for_from-Holds :
      (n first : ℕ) (f : ℕ → Act hw (Unit {0}))
      → ((j : ℕ) → first ≤ j → j < first + n → Holds keeps b v (f j))
      → Holds keeps b v (for_from n first f)
  unfolding for_from
  for_from-Holds zero first f all = record { still = λ m h. h }
  for_from-Holds (suc n) first f all =
      then-Holds (all first (omega arith) (omega arith))
        (for_from-Holds n (suc first) f (λ j p q. all j (omega arith) (omega arith)))

  -- One pass leaves the value, and those after it hold it.
  pub for_from-Leaves :
      (n first k : ℕ) (f : ℕ → Act hw (Unit {0}))
      → first ≤ k
      → k < first + n
      → Leaves keeps b v (f k)
      → ((j : ℕ) → k < j → j < first + n → Holds keeps b v (f j))
      → Leaves keeps b v (for_from n first f)
  unfolding for_from
  for_from-Leaves zero first k f p q now later = absurd (omega arith)
  for_from-Leaves (suc n) first k f p q now later = elim (Bool-cases (k == first)) [
    | inl e ↦
        then-Leaves (subst (λ i. Leaves keeps b v (f i)) ((==_iff k first).0 e) now)
          (for_from-Holds n (suc first) f (λ j p q. later j (ground arith) (omega arith)))
    | inr e ↦ after-Leaves (f first) (
        for_from-Leaves n (suc first) k f (ground arith) (omega arith) now
          (λ j p q. later j p (omega arith)))
  ]
