-- ===== src/Uart/Send.antt =====
-- What the transmitter of bootloader/drivers/uart.c puts on the line.
use stm32mp257_test_board.Prelude.{
  All, ℕ, zero, suc, ◌%◌, ◌^◌, ◌≤◌, ◌<◌, List, [], ◌∷◌, ◌++◌, append_assoc, append-nil, Bool, true,
  false, Bool-cases, inl, inr, bit_and, ◌==◌, if◌then◌else◌, ◌≡◌, refl, sym, subst, ap, ◌∙◌, arith,
}
use stm32mp257_test_board.Io.{
  Mmio, Machine, Act, or_return, pure, ◌>>◌, mmio_read_32, mmio_write_32,
}
use stm32mp257_test_board.Uart.{usart_isr, usart_tdr, uart_putc, uart_puts}

-- The transmitter of a UART: the bytes that it has taken, and how many more times the status register
-- shows no room. A byte may be written once there is room, and `delay` bounds the wait behind it.
pub record Transmits (hw : Mmio) (delay : ℕ) : Type 0 where
  pub line : hw.World → List ℕ
  pub busy : hw.World → ℕ
  pub full :
      (w : hw.World) (n : ℕ)
      → busy w ≡ suc n
      → ((bit_and (hw.read usart_isr w).0 128 == 0) ≡ true) × (busy (hw.read usart_isr w).1 ≡ n)
  pub room :
      (w : hw.World)
      → busy w ≡ 0
      → ((bit_and (hw.read usart_isr w).0 128 == 0) ≡ false) × (busy (hw.read usart_isr w).1 ≡ 0)
  pub looked : (w : hw.World) → line (hw.read usart_isr w).1 ≡ line w
  pub taken :
      (w : hw.World) (c : ℕ)
      → busy w ≡ 0
      → (line (hw.write usart_tdr c w) ≡ line w ++ c ∷ []) × (busy (hw.write usart_tdr c w) ≤ delay)

-- A text on the line, with a carriage return before each line feed.
abbrev pub with_returns : List ℕ → List ℕ
with_returns [] = []
with_returns (c ∷ s) = if c == 10 then 13 ∷ c ∷ with_returns s else c ∷ with_returns s

module _ {hw : Mmio} {delay : ℕ} (uart : Transmits hw delay) where
  open uart use {line, busy, full, room, looked, taken}

  -- The call has sent `bytes`, and the wait for the next is bounded again.
  pub record Sent (m : Machine hw) (bytes : List ℕ) (r : Bool × Machine hw) : Type 0 where
    pub done : r.0 ≡ true
    pub on_line : line r.1.world ≡ line m.world ++ bytes
    pub wait : busy r.1.world ≤ delay

  low : (c : ℕ) → c < 256 → c % 2 ^ 8 ≡ c
  low c b = omega arith

  -- The machine behind a look at the status.
  abbrev seen : Machine hw → Machine hw
  seen m = record m { world = (hw.read usart_isr m.world).1 }

  abbrev put : ℕ → Machine hw → Machine hw
  put c m = record m { world = hw.write usart_tdr c m.world }

  -- A round of `uart_putc` by whether there is no room.
  abbrev turn : ℕ → ℕ → Machine hw → Bool → Bool × Machine hw
  turn fuel c m no_room =
      (elim no_room as (λ x. Act hw Bool) [
        | true ↦ uart_putc fuel c
        | false ↦ mmio_write_32 usart_tdr (c % 2 ^ 8) >> pure true
      ])
        (seen m)

  put_free :
      (fuel c : ℕ) (m : Machine hw)
      → c < 256
      → busy m.world ≡ 0
      → uart_putc (suc fuel) c m ≡ (true, put c (seen m))
  unfolding uart_putc mmio_read_32 mmio_write_32
  put_free fuel c m b e =
      ap (turn fuel c m) (room m.world e).0 ∙ ap (λ v. (true, put v (seen m))) (low c b)

  put_wait :
      (fuel c n : ℕ) (m : Machine hw)
      → busy m.world ≡ suc n
      → uart_putc (suc fuel) c m ≡ uart_putc fuel c (seen m)
  unfolding uart_putc mmio_read_32
  put_wait fuel c n m e = ap (turn fuel c m) (full m.world n e).0

  putc_wait-Sent :
      (fuel c n : ℕ) (m : Machine hw)
      → c < 256
      → busy m.world ≡ n
      → n < fuel
      → Sent m (c ∷ []) (uart_putc fuel c m)
  putc_wait-Sent zero c n m b e h = absurd (omega arith)
  putc_wait-Sent (suc fuel) c zero m b e h = rw (put_free fuel c m b e) (record {
    done = refl;
    on_line =
        (taken (seen m).world c (room m.world e).1).0 ∙ ap (λ l. l ++ c ∷ []) (looked m.world);
    wait = (taken (seen m).world c (room m.world e).1).1;
  })
  putc_wait-Sent (suc fuel) c (suc n) m b e h =
      let r = putc_wait-Sent fuel c n (seen m) b (full m.world n e).1 (omega arith) in
      rw (put_wait fuel c n m e) (record {
        done = r.done;
        on_line = r.on_line ∙ ap (λ l. l ++ c ∷ []) (looked m.world);
        wait = r.wait;
      })

  pub uart_putc-Sent :
      (fuel c : ℕ) (m : Machine hw)
      → c < 256
      → delay < fuel
      → busy m.world ≤ delay
      → Sent m (c ∷ []) (uart_putc fuel c m)
  uart_putc-Sent fuel c m b d h = putc_wait-Sent fuel c (busy m.world) m b refl (omega arith)

  -- One call after another.
  pub or_return-Sent :
      (f g : Act hw Bool) (xs ys : List ℕ) (m : Machine hw)
      → Sent m xs (f m)
      → ((m' : Machine hw) → busy m'.world ≤ delay → Sent m' ys (g m'))
      → Sent m (xs ++ ys) (or_return f false g m)
  or_return-Sent f g xs ys m a k =
      let b = k (f m).1 a.wait in
      subst (Sent m (xs ++ ys)) (ap (λ ok. (if ok then g else pure false) (f m).1) (sym a.done))
        (record {
          done = b.done;
          on_line = b.on_line ∙ ap (λ l. l ++ ys) a.on_line ∙ append_assoc (line m.world) xs ys;
          wait = b.wait;
        })

  -- On a transmitter that takes bytes as documented and that shows no room at most `delay`
  -- times in a row, with more rounds of fuel than that for each byte: `uart_puts` of a string
  -- ends, and has put every byte of the string on the line once and in order, with a carriage
  -- return before each line feed, and nothing else.
  pub uart_puts-Sent :
      (fuel : ℕ) (s junk : List ℕ) (m : Machine hw)
      → delay < fuel
      → All (λ c. (0 < c) × (c < 256)) s
      → busy m.world ≤ delay
      → Sent m (with_returns s) (uart_puts fuel (s ++ 0 ∷ junk) m)
  unfolding uart_puts
  uart_puts-Sent fuel [] junk m d t h = record {
    done = refl;
    on_line = sym (append-nil (line m.world));
    wait = h;
  }
  uart_puts-Sent fuel (c ∷ s) junk m d (b, t) h =
      let nonzero : (c == 0) ≡ false = ground (arith, b) in
      let rest : (m' : Machine hw)
          → busy m'.world ≤ delay
          → Sent m' (with_returns s) (uart_puts fuel (s ++ 0 ∷ junk) m') =
        λ m' k. uart_puts-Sent fuel s junk m' d t k in
      let one : (m' : Machine hw)
          → busy m'.world ≤ delay
          → Sent m' (c ∷ with_returns s)
              (or_return (uart_putc fuel c) false (uart_puts fuel (s ++ 0 ∷ junk)) m') =
        λ m' k.
          or_return-Sent (uart_putc fuel c) (uart_puts fuel (s ++ 0 ∷ junk)) (c ∷ [])
            (with_returns s) m' (uart_putc-Sent fuel c m' b.1 d k) rest in
      elim (Bool-cases (c == 10)) [
        | inl e ↦
            rw (nonzero, e)
              (or_return-Sent (uart_putc fuel 13) _ (13 ∷ []) _ m
                (uart_putc-Sent fuel 13 m (omega arith) d h) one)
        | inr e ↦ rw (nonzero, e) (one m h)
      ]
