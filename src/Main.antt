-- ===== src/Main.antt =====
-- bootloader/src/main.c: the start of the bootloader and its loop.
use Prim.Native.String.{String}
use stm32mp257_test_board.Prelude.{
  ℕ, zero, suc, ◌+◌, ◌-◌, ◌*◌, ◌/◌, ◌%◌, ◌^◌, List, [], ◌∷◌, Option, none, some, Bool, true, false,
  ◌&&◌, leb, ◌==◌, bit_xor, if◌then◌else◌, codes, ℤ, pos, negsuc,
}
use stm32mp257_test_board.Log.{Arg, num, str}
use stm32mp257_test_board.Io.{Mmio, Machine, Act, pure, ◌>>=◌, ◌>>◌, for_from, my_printf}
use stm32mp257_test_board.Gpio.{gpio_bank, gpio_set_output, gpio_write}
use stm32mp257_test_board.Uart.{uart_init, uart_putc, uart_rx_ready, uart_getc_raw}
use stm32mp257_test_board.Timer.{timer_init, timeout_init_us, timer_freq_hz}
use stm32mp257_test_board.I2c.{i2c_init}
use stm32mp257_test_board.Pmic.{pmic_read, pmic_init_rails, pmic_print_rails}
use stm32mp257_test_board.Rcc.Clock.{rcc_clock_init, rcc_bus_clk_init}
use stm32mp257_test_board.Rcc.Pll1.{rcc_a35_pll1_init}
use stm32mp257_test_board.Console.{Console, console_push}
use stm32mp257_test_board.Cmd.Shell.{Shell}
use stm32mp257_test_board.Cmd.Keys.{cmd_poll}
pub mod Turn

abbrev pub heartbeat_ticks : ℕ
heartbeat_ticks = 4000000

-- `LED_GPIO_BASE` and `LED_PIN`
abbrev pub led_gpio_base : ℕ
led_gpio_base = gpio_bank 7

abbrev pub led_pin : ℕ
led_pin = 7

-- The 32-bit word of an `int` argument.
abbrev pub word_of : ℤ → ℕ
word_of (pos n) = n % 2 ^ 32
word_of (negsuc n) = (2 ^ 32 - 1 - n) % 2 ^ 32

-- A result of 0, or the other text with the result.
abbrev outcome : ℤ → String → String → String × List Arg
outcome (pos zero) good bad = (good, [])
outcome (pos (suc n)) good bad = (bad, num (word_of (pos (suc n))) ∷ [])
outcome (negsuc n) good bad = (bad, num (word_of (negsuc n)) ∷ [])

module _ {hw : Mmio} where
  unfoldable pub print_last_isr : String → Act hw (Unit {0})
  print_last_isr format m = my_printf format (num m.i2c_last_isr ∷ []) m

  -- Whether both reads succeed; the second is not tried after a failure of the first.
  unfoldable pub probe_pmic : Act hw Bool
  probe_pmic = pmic_read 0 >>= λ id. elim id [
    | none ↦ print_last_isr "PMIC I2C error isr=0x%08X\r\n" >> pure false
    | some pid ↦ pmic_read 1 >>= λ version. elim version [
      | none ↦ print_last_isr "PMIC I2C error isr=0x%08X\r\n" >> pure false
      | some pver ↦
          my_printf "PMIC product_id=0x%02X version=0x%02X\r\n" (num pid ∷ num pver ∷ [])
          >> pure true
    ]
  ]

  unfoldable pub start_rails : Bool → Act hw (Unit {0})
  start_rails false = print_last_isr "RAILS ERR isr=0x%08X\r\n"
  start_rails true = pmic_init_rails >>= λ ok. elim ok [
    | true ↦ pmic_print_rails >> my_printf "RAILS OK\r\n" []
    | false ↦ print_last_isr "RAILS ERR isr=0x%08X\r\n"
  ]

  -- `uart_putc`, on fuel for its wait.
  unfoldable pub put : ℕ → ℕ → Act hw (Unit {0})
  put fuel c = uart_putc fuel c >>= λ sent. pure tt

  unfoldable pub time_uart : ℕ → Act hw (Unit {0})
  time_uart fuel = do
    t0 ← timeout_init_us 0
    for_from 10 0 (λ k. for_from 100 0 (λ c. put fuel 46))
    put fuel 13
    put fuel 10
    t1 ← timeout_init_us 0
    f ← timer_freq_hz
    f' ← timer_freq_hz
    let ms = (t1 + 2 ^ 64 - t0) % 2 ^ 64 * 1000 % 2 ^ 64 / f % 2 ^ 32
    my_printf "TIMER cntfrq=%u uart1k=%u ms %s\r\n"
        (num f' ∷ num ms ∷ str (if leb 80 ms && leb ms 95 then codes "OK" else codes "BAD") ∷ [])

  unfoldable pub report : ℤ → String → String → Act hw (Unit {0})
  report code good bad = let (format, args) = outcome code good bad in my_printf format args

  -- `main` up to `cmd_init`; the empty loop that lets the clock settle touches nothing.
  unfoldable pub main_start : ℕ → Act hw (Unit {0})
  main_start fuel = do
    rcc_clock_init
    timer_init
    uart_init
    i2c_init
    gpio_set_output led_gpio_base led_pin
    pmic_ok ← probe_pmic
    start_rails pmic_ok
    time_uart fuel
    a35 ← rcc_a35_pll1_init
    report a35 "A35 @ 1200 MHz\r\n" "A35 PLL1 FAILED (%d), staying on bypass clock\r\n"
    bus ← rcc_bus_clk_init
    report bus "NoC: ddr-axi -> pll4/2 (600 MHz)\r\n"
        "NoC clk FAILED (%d), staying on boot clocks\r\n"

-- What the loop of `main` works on.
pub record Main (hw : Mmio) : Type 0 where
  pub machine : Machine hw
  pub console : Console
  pub shell : Shell
  pub tick : ℕ
  pub led : ℕ

module _ {hw : Mmio} where
  -- `while (uart_rx_ready()) console_push(uart_getc_raw());`, on fuel.
  unfoldable pub feed : ℕ → Console → Act hw Console
  feed zero c = pure c
  feed (suc fuel) c = uart_rx_ready >>= λ ready. elim ready [
    | false ↦ pure c
    | true ↦ uart_getc_raw >>= λ byte. feed fuel (console_push c byte)
  ]

  unfoldable pub heartbeat : Main hw → Main hw
  heartbeat s =
      let tick = (s.tick + 1) % 2 ^ 32 in
      if leb heartbeat_ticks tick
      then (let led = bit_xor s.led 1 in
          record s {
            tick = 0;
            led = led;
            machine = (gpio_write led_gpio_base led_pin led s.machine).1;
          })
      else record s { tick = tick }

  -- The body of the loop of `main`.
  unfoldable pub main_turn : ℕ → Main hw → Main hw
  main_turn fuel s =
      let (c, m) = feed fuel s.console s.machine in
      let (c', sh) = cmd_poll c s.shell in
      heartbeat (record s { machine = m; console = c'; shell = sh })
