-- ===== src/Tests/Loop.antt =====
-- bootloader/src/main.c at concrete inputs, with three bytes in the receiver.
use stm32mp257_test_board.Prelude.{
  ℕ, zero, suc, ◌-◌, List, [], ◌∷◌, true, false, ◌==◌, if◌then◌else◌, foldl, length, bit_and,
  negsuc, ◌∙◌, replicate, ◌≡◌, refl, ap, arith,
}
use stm32mp257_test_board.Io.{Mmio, Machine, mmio_read_32}
use stm32mp257_test_board.Io.Wait.{after_reads}
use stm32mp257_test_board.Uart.{usart_isr, usart_rdr}
use stm32mp257_test_board.Console
use stm32mp257_test_board.Console.{console_rx_empty}
use stm32mp257_test_board.Console.Ring
use stm32mp257_test_board.Cmd.Shell.{reset, cmd_init}
use stm32mp257_test_board.Cmd.Editor.{Repr}
use stm32mp257_test_board.Cmd.Editor.Poll.{steps, blank, cmd_init-Repr}
use stm32mp257_test_board.Main.{Main, main_turn}
use stm32mp257_test_board.Main.Turn.{Receives, main_turn-Repr}
use stm32mp257_test_board.Rcc.Registers.{rcc_ocrdyr, div_timeout}
use stm32mp257_test_board.Rcc.Pll2.{rcc_pll2_init}
use stm32mp257_test_board.Rcc.Pll1.{rcc_a35_pll1_init}
use stm32mp257_test_board.Rcc.Faults.{hse_asked, rcc_pll2_init-timeout}

-- A receiver with a number of the letter a.
abbrev status : ℕ → ℕ
status zero = 0
status (suc n) = 32

abbrev hw : Mmio
hw = record {
  World = ℕ;
  read = λ a w.
      if a == usart_isr then (status w, w) else if a == usart_rdr then (97, w - 1) else (0, w);
  write = λ a v w. w;
  cntpct = λ w. (0, w);
  cntfrq = λ w. 0;
  set_cntfrq = λ f w. w;
}

abbrev tail : List ℕ → List ℕ
tail [] = []
tail (c ∷ q) = q

abbrev head : List ℕ → ℕ
head [] = 0
head (c ∷ q) = c

abbrev letters : ℕ → List ℕ
letters w = replicate w 97

pred_lem : (w : ℕ) → suc w - 1 ≡ w
pred_lem w = omega arith

idle : (w : ℕ) → letters w ≡ [] → (bit_and (status w) 32 == 0) ≡ true
idle zero h = refl
idle (suc w) h = absurd (omega (arith, ap head h))

busy : (w c : ℕ) (q : List ℕ) → letters w ≡ c ∷ q → (bit_and (status w) 32 == 0) ≡ false
busy zero c q h = absurd (omega (arith, ap length h))
busy (suc w) c q h = refl

value : (w c : ℕ) (q : List ℕ) → letters w ≡ c ∷ q → 97 ≡ c
value zero c q h = absurd (omega (arith, ap length h))
value (suc w) c q h = ap head h

taken : (w c : ℕ) (q : List ℕ) → letters w ≡ c ∷ q → letters (w - 1) ≡ q
taken zero c q h = absurd (omega (arith, ap length h))
taken (suc w) c q h = ap letters (pred_lem w) ∙ ap tail h

abbrev uart : Receives hw
uart = record {
  waiting = letters;
  idle = idle;
  busy = busy;
  looked = λ w. refl;
  cleared = λ v w. refl;
  value = value;
  taken = taken;
  blinked = λ v w. refl;
}

abbrev start : Main hw
start = record {
  machine = record { world = 3; i2c_last_isr = 0; log = [] };
  console = Console.reset;
  shell = cmd_init reset;
  tick = 0;
  led = 0;
}

main_turn-Repr_example :
    let q = foldl Ring.enqueue (Ring.contents Console.reset) (letters 3) in
    let r = main_turn 4 start in
    Repr r.shell (steps blank q)
    × (letters r.machine.world ≡ [])
    × (console_rx_empty r.console ≡ true)
    × Ring.IsValid r.console
main_turn-Repr_example =
    main_turn-Repr uart 4 start blank Ring.reset-IsValid cmd_init-Repr (omega arith)

rcc_pll2_init-timeout_example :
    let m : Machine hw = start.machine in
    (rcc_pll2_init m ≡ (negsuc 0, after_reads div_timeout rcc_ocrdyr (hse_asked m)))
    × (rcc_a35_pll1_init m ≡ (negsuc 0, after_reads div_timeout rcc_ocrdyr (hse_asked m)))
unfolding mmio_read_32
rcc_pll2_init-timeout_example = rcc_pll2_init-timeout start.machine (λ j h. refl)
