-- ===== src/Main/Turn.antt =====
-- One turn of the loop of `main` edits the line with every byte that the UART has received.
use stm32mp257_test_board.Prelude.{
  ℕ, zero, suc, ◌+◌, ◌<◌, List, [], ◌∷◌, Bool, true, false, ◌||◌, Bool-cases, inl, inr, not, foldl,
  leb, ◌%◌, ◌^◌, bit_and, ◌==◌, if◌then◌else◌, length, ◌≡◌, refl, ap, ◌∙◌, sym, subst, arith,
}
use stm32mp257_test_board.Io.{Mmio, Machine, Act, pure, ◌>>=◌, mmio_read_32, mmio_write_32}
use stm32mp257_test_board.Uart.{
  usart_isr, usart_icr, usart_rdr, usart_err_flags, uart_rx_ready, uart_getc_raw,
}
use stm32mp257_test_board.Console.{Console, console_push, console_rx_empty}
use stm32mp257_test_board.Console.Ring.{contents, enqueue, push-IsValid, push_refines}
use stm32mp257_test_board.Console.Ring
use stm32mp257_test_board.Cmd.Keys.{cmd_poll}
use stm32mp257_test_board.Cmd.Editor.{Editor, Repr}
use stm32mp257_test_board.Cmd.Editor.Poll.{steps, cmd_poll-Repr}
use stm32mp257_test_board.Gpio.{gpio_bsrr, gpio_write}
use stm32mp257_test_board.Main.{led_gpio_base, heartbeat_ticks, Main, feed, heartbeat, main_turn}

is_empty : List ℕ → Bool
is_empty [] = true
is_empty (c ∷ q) = false

-- The receiver of a UART: the bytes that wait, and how the registers show and take them.
pub record Receives (hw : Mmio) : Type 0 where
  pub waiting : hw.World → List ℕ
  pub idle : (w : hw.World) → waiting w ≡ [] → (bit_and (hw.read usart_isr w).0 32 == 0) ≡ true
  pub busy :
      (w : hw.World) (c : ℕ) (q : List ℕ)
      → waiting w ≡ c ∷ q
      → (bit_and (hw.read usart_isr w).0 32 == 0) ≡ false
  pub looked : (w : hw.World) → waiting (hw.read usart_isr w).1 ≡ waiting w
  pub cleared : (v : ℕ) (w : hw.World) → waiting (hw.write usart_icr v w) ≡ waiting w
  pub value :
      (w : hw.World) (c : ℕ) (q : List ℕ)
      → waiting w ≡ c ∷ q
      → bit_and (hw.read usart_rdr w).0 0xFF ≡ c
  pub taken :
      (w : hw.World) (c : ℕ) (q : List ℕ) → waiting w ≡ c ∷ q → waiting (hw.read usart_rdr w).1 ≡ q
  -- The heartbeat writes a GPIO port.
  pub blinked :
      (v : ℕ) (w : hw.World) → waiting (hw.write (led_gpio_base + gpio_bsrr) v w) ≡ waiting w

foldl-IsValid : (c : Console) (q : List ℕ) → Ring.IsValid c → Ring.IsValid (foldl console_push c q)
foldl-IsValid c [] v = v
foldl-IsValid c (b ∷ q) v = foldl-IsValid (console_push c b) q (push-IsValid b v)

foldl-contents :
    (c : Console) (q : List ℕ)
    → Ring.IsValid c
    → contents (foldl console_push c q) ≡ foldl enqueue (contents c) q
foldl-contents c [] v = refl
foldl-contents c (b ∷ q) v =
    foldl-contents (console_push c b) q (push-IsValid b v)
    ∙ ap (λ w. foldl enqueue w q) (push_refines b v)

-- Whether Ctrl-C is among the bytes.
abbrev pub has_ctrl_c : List ℕ → Bool
has_ctrl_c [] = false
has_ctrl_c (b ∷ q) = (b == 3) || has_ctrl_c q

push-interrupt :
    (c : Console) (b : ℕ) → (console_push c b).interrupt_flag ≡ (c.interrupt_flag || (b == 3))
unfolding console_push
push-interrupt c b = ground arith

or_assoc : (a b c : Bool) → ((a || b) || c) ≡ (a || (b || c))
or_assoc a b c = ground arith

foldl-interrupt :
    (c : Console) (q : List ℕ)
    → (foldl console_push c q).interrupt_flag ≡ (c.interrupt_flag || has_ctrl_c q)
foldl-interrupt c [] = ground arith
foldl-interrupt c (b ∷ q) =
    foldl-interrupt (console_push c b) q
    ∙ (ap (λ f. f || has_ctrl_c q) (push-interrupt c b)
        ∙ or_assoc c.interrupt_flag (b == 3) (has_ctrl_c q))

-- The editor after the bytes of a turn.
abbrev taken_line : Editor → Bool → List ℕ → Editor
taken_line e interrupted q = if interrupted then record (steps e q) { line = [] } else steps e q

module _ {hw : Mmio} (uart : Receives hw) where
  open uart use {waiting, idle, busy, looked, cleared, value, taken, blinked}

  ready-waiting : (m : Machine hw) → waiting (uart_rx_ready m).1.world ≡ waiting m.world
  unfolding uart_rx_ready mmio_read_32 mmio_write_32
  ready-waiting m = elim (Bool-cases (bit_and (hw.read usart_isr m.world).0 usart_err_flags == 0)) [
    | inl e ↦ rw e (looked m.world)
    | inr e ↦ rw e (cleared usart_err_flags (hw.read usart_isr m.world).1 ∙ looked m.world)
  ]

  ready-value :
      (b : Bool) (m : Machine hw)
      → (bit_and (hw.read usart_isr m.world).0 32 == 0) ≡ b
      → (uart_rx_ready m).0 ≡ not b
  unfolding uart_rx_ready mmio_read_32
  ready-value b m h = ap not h

  -- The body of the loop, by what `uart_rx_ready` gives.
  abbrev body : Bool → ℕ → Console → Act hw Console
  body ready fuel c = elim ready [
    | false ↦ pure c
    | true ↦ uart_getc_raw >>= λ byte. feed fuel (console_push c byte)
  ]

  feed_turn :
      (fuel : ℕ) (c : Console) (b : Bool) (m : Machine hw)
      → (uart_rx_ready m).0 ≡ b
      → feed (suc fuel) c m ≡ body b fuel c (uart_rx_ready m).1
  unfolding feed
  feed_turn fuel c b m h = ap (λ b. body b fuel c (uart_rx_ready m).1) h

  record Fed (c : Console) (q : List ℕ) (r : Console × Machine hw) : Type 0 where
    pushed : r.0 ≡ foldl console_push c q
    emptied : waiting r.1.world ≡ []

  cons-Fed :
      {c : Console} {b : ℕ} {q : List ℕ} {r : Console × Machine hw}
      → Fed (console_push c b) q r
      → Fed c (b ∷ q) r
  cons-Fed f = record { pushed = f.pushed; emptied = f.emptied }

  feed-Fed :
      (fuel : ℕ) (c : Console) (q : List ℕ) (m : Machine hw)
      → waiting m.world ≡ q
      → length q < fuel
      → Fed c q (feed fuel c m)
  unfolding uart_getc_raw mmio_read_32
  feed-Fed zero c q m h lt = absurd (omega arith)
  feed-Fed (suc fuel) c [] m h lt =
      rw (feed_turn fuel c false m (ready-value true m (idle m.world h)))
        (record { pushed = refl; emptied = ready-waiting m ∙ h })
  feed-Fed (suc fuel) c (b ∷ q) m h lt =
      let m' = (uart_rx_ready m).1 in
      let e = ready-waiting m ∙ h in
      rw (feed_turn fuel c true m (ready-value false m (busy m.world b q h)), value m'.world b q e)
        (cons-Fed (
          feed-Fed fuel (console_push c b) q (mmio_read_32 usart_rdr m').1 (taken m'.world b q e)
            (omega arith)))

  heartbeat-keeps :
      (s : Main hw)
      → ((heartbeat s).shell ≡ s.shell)
        × ((heartbeat s).console ≡ s.console)
        × (waiting (heartbeat s).machine.world ≡ waiting s.machine.world)
  unfolding heartbeat gpio_write mmio_write_32
  heartbeat-keeps s = elim (Bool-cases (leb heartbeat_ticks ((s.tick + 1) % 2 ^ 32))) [
    | inl e ↦ rw e (refl, refl, blinked _ s.machine.world)
    | inr e ↦ rw e (refl, refl, refl)
  ]

  -- On a UART that shows and hands out its received bytes as documented, and with more rounds
  -- for the inner loop than bytes wait: where the console's ring is well-formed and the static
  -- state stands for an editor, one turn of the loop of `main` takes all bytes that the UART
  -- has received, and afterwards the state stands for the editor that has taken one editing
  -- step for each byte of the ring's queue with the received bytes enqueued (with the line
  -- dropped where Ctrl-C was pressed or received); the ring is then empty and well-formed.
  pub main_turn-Repr :
      (fuel : ℕ) (s : Main hw) (e : Editor)
      → Ring.IsValid s.console
      → Repr s.shell e
      → length (waiting s.machine.world) < fuel
      → let got = waiting s.machine.world in
        let q = foldl enqueue (contents s.console) got in
        let r = main_turn fuel s in
        Repr r.shell (
          if s.console.interrupt_flag || has_ctrl_c got
          then record (steps e q) { line = [] }
          else steps e q)
        × (waiting r.machine.world ≡ [])
        × (console_rx_empty r.console ≡ true)
        × Ring.IsValid r.console
  unfolding main_turn
  main_turn-Repr fuel s e v r lt =
      let got = waiting s.machine.world in
      let fed = feed fuel s.console s.machine in
      let f = feed-Fed fuel s.console got s.machine refl lt in
      let p = cmd_poll-Repr fed.0 s.shell e (rw f.pushed (foldl-IsValid s.console got v)) r in
      let polled = cmd_poll fed.0 s.shell in
      let h =
        heartbeat-keeps (record s { machine = fed.1; console = polled.0; shell = polled.1 }) in
      let flag = ap (λ c. c.interrupt_flag) f.pushed ∙ foldl-interrupt s.console got in
      let queue = ap contents f.pushed ∙ foldl-contents s.console got v in
      (
        subst
            (λ x. Repr x (
              taken_line e (s.console.interrupt_flag || has_ctrl_c got)
                (foldl enqueue (contents s.console) got)))
            (sym h.0)
            (subst (λ b. Repr polled.1 (taken_line e b (foldl enqueue (contents s.console) got)))
              flag (subst (λ q. Repr polled.1 (taken_line e fed.0.interrupt_flag q)) queue p.0)),
        h.2 ∙ f.emptied,
        ap console_rx_empty h.1 ∙ p.1,
        subst Ring.IsValid (sym h.1) p.2,
      )
