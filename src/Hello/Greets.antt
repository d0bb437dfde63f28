-- ===== src/Hello/Greets.antt =====
-- What the program of baremetal/hello/src/main.c puts on the line.
use stm32mp257_test_board.Prelude.{
  All, ℕ, zero, suc, ◌≤◌, ◌<◌, ◌%◌, ◌^◌, List, [], ◌∷◌, ◌++◌, append-nil, Bool, true, false, not,
  bit_and, ◌==◌, ◌≡◌, refl, sym, subst, arith,
}
use stm32mp257_test_board.Io.{
  Mmio, Machine, Act, or_return, pure, ◌>>◌, mmio_read_32, mmio_write_32,
}
use stm32mp257_test_board.Io.Wait.{poll}
use stm32mp257_test_board.Uart
use stm32mp257_test_board.Uart.{usart_isr, usart_tdr}
use stm32mp257_test_board.Uart.Send.{Transmits, Sent, uart_putc-Sent, or_return-Sent}
use stm32mp257_test_board.Hello.{uart_putc, uart_puts, greeting, greet}

-- A text `n` times.
abbrev pub times : ℕ → List ℕ → List ℕ
times zero s = []
times (suc n) s = s ++ times n s

module _ {hw : Mmio} where
  -- The two ways to wait for room are one.
  uart_putc_same : (fuel c : ℕ) (m : Machine hw) → Uart.uart_putc fuel c m ≡ uart_putc fuel c m
  unfolding Uart.uart_putc uart_putc poll mmio_read_32
  uart_putc_same zero c m = refl
  uart_putc_same (suc fuel) c m =
      by_room (bit_and (hw.read usart_isr m.world).0 128 == 0) (uart_putc_same fuel c seen)
    where
      seen : Machine hw
      seen = record m { world = (hw.read usart_isr m.world).1 }

      polled : Bool → Bool × Machine hw
      polled b = elim (not b) [
        | true ↦ (true, seen)
        | false ↦ poll fuel (λ v. not (bit_and v 128 == 0)) usart_isr seen
      ]

      by_room :
          (b : Bool)
          → Uart.uart_putc fuel c seen ≡ uart_putc fuel c seen
          → (elim b as (λ x. Act hw Bool) [
            | true ↦ Uart.uart_putc fuel c
            | false ↦ mmio_write_32 usart_tdr (c % 2 ^ 8) >> pure true
          ])
              seen
            ≡ (or_return (λ m. polled b) false (mmio_write_32 usart_tdr (c % 2 ^ 8) >> pure true)) m
      by_room true e = e
      by_room false e = refl

module _ {hw : Mmio} {delay : ℕ} (uart : Transmits hw delay) where
  open uart use {line, busy}

  putc :
      (fuel c : ℕ) (m : Machine hw)
      → c < 256
      → delay < fuel
      → busy m.world ≤ delay
      → Sent uart m (c ∷ []) (uart_putc fuel c m)
  putc fuel c m b d h =
      subst (Sent uart m (c ∷ [])) (uart_putc_same fuel c m) (uart_putc-Sent uart fuel c m b d h)

  uart_puts-Sent_text :
      (fuel : ℕ) (s junk : List ℕ) (m : Machine hw)
      → delay < fuel
      → All (λ c. (0 < c) × (c < 256)) s
      → busy m.world ≤ delay
      → Sent uart m s (uart_puts fuel (s ++ 0 ∷ junk) m)
  unfolding uart_puts
  uart_puts-Sent_text fuel [] junk m d t h = record {
    done = refl;
    on_line = sym (append-nil (line m.world));
    wait = h;
  }
  uart_puts-Sent_text fuel (c ∷ s) junk m d (b, t) h =
      let nonzero : (c == 0) ≡ false = ground (arith, b) in
      rw nonzero (
        or_return-Sent uart (uart_putc fuel c) _ (c ∷ []) s m (putc fuel c m b.1 d h)
          (λ m' k. uart_puts-Sent_text fuel s junk m' d t k))

  greeting-text : All (λ c. (0 < c) × (c < 256)) greeting
  greeting-text = ground arith

  -- On a transmitter that takes bytes as documented and that shows no room at most `delay`
  -- times in a row, with more rounds of fuel than that for each byte: `n` turns of the loop of
  -- `main` end, and have put exactly `n` greetings on the line.
  pub greet-Sent :
      (fuel n : ℕ) (m : Machine hw)
      → delay < fuel
      → busy m.world ≤ delay
      → Sent uart m (times n greeting) (greet fuel n m)
  unfolding greet
  greet-Sent fuel zero m d h = record {
    done = refl;
    on_line = sym (append-nil (line m.world));
    wait = h;
  }
  greet-Sent fuel (suc n) m d h =
      or_return-Sent uart (uart_puts fuel (greeting ++ 0 ∷ [])) (greet fuel n) greeting
        (times n greeting) m (uart_puts-Sent_text fuel greeting [] m d greeting-text h)
        (λ m' k. greet-Sent fuel n m' d k)
