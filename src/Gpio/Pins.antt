-- ===== src/Gpio/Pins.antt =====
-- A pin is configured and the other pins of its bank keep their configuration.
use stm32mp257_test_board.Prelude.{
  ℕ, ◌+◌, ◌*◌, ◌/◌, ◌%◌, ◌^◌, ◌<◌, Bool, true, false, ◌&&◌, max, bit_and, ltb, ◌==◌, ==_refl,
  if◌then◌else◌, ◌≡◌, refl, ap, ◌∙◌, arith,
}
use stm32mp257_test_board.Io.{Mmio, Machine, shl32, mmio_clrsetbits_32}
use stm32mp257_test_board.Io.Bits.{digit, digit_clrset, all_below, all_below_lem}
use stm32mp257_test_board.Io.Registers.{Keeps, reg, reg-clrsetbits}
use stm32mp257_test_board.Gpio.{gpio_moder, gpio_afrl, gpio_afrh, gpio_set_af, mode_alt}

-- The masks of all pins and of all alternate functions, tried digit by digit.
abbrev mode_right : ℕ → ℕ → Bool
mode_right pin j =
    (digit j (shl32 3 (pin * 2)) == (if j / 2 == pin then 1 else 0))
    && (digit j (shl32 mode_alt (pin * 2)) == (if j / 2 == pin then digit (j % 2) 2 else 0))

mode_table : all_below 16 (λ pin. all_below 32 (λ j. mode_right pin j)) ≡ true
unfolding all_below digit
mode_table = refl

mode_masks : (pin j : ℕ) → pin < 16 → j < 32 → mode_right pin j ≡ true
mode_masks pin j p q =
    all_below_lem 32 (λ j. mode_right pin j) j
      (all_below_lem 16 (λ pin. all_below 32 (λ j. mode_right pin j)) pin mode_table p) q

abbrev af_right : ℕ → ℕ → ℕ → Bool
af_right pin af j =
    let shift = bit_and pin 7 * 4 in
    (digit j (shl32 0xF shift) == (if j / 4 == pin % 8 then 1 else 0))
    && (digit j (shl32 (bit_and af 0xF) shift)
        == (if j / 4 == pin % 8 then digit (j % 4) af else 0))

af_table : all_below 16 (λ pin. all_below 16 (λ af. all_below 32 (λ j. af_right pin af j))) ≡ true
unfolding all_below digit
af_table = refl

af_masks : (pin af j : ℕ) → pin < 16 → af < 16 → j < 32 → af_right pin af j ≡ true
af_masks pin af j p a q =
    all_below_lem 32 (λ j. af_right pin af j) j
      (all_below_lem 16 (λ af. all_below 32 (λ j. af_right pin af j)) af
        (all_below_lem 16 (λ pin. all_below 16 (λ af. all_below 32 (λ j. af_right pin af j))) pin
          af_table p)
        a)
      q

small_shift : (x n : ℕ) → shl32 x n < 2 ^ 32
small_shift x n = omega arith

-- What a table says, digit by digit.
both : (a b : Bool) → (a && b) ≡ true → (a ≡ true) × (b ≡ true)
both a b h = ground arith

chosen :
    (k : Bool) (dc ds dv x : ℕ)
    → (dc == (if k then 1 else 0)) ≡ true
    → (ds == (if k then x else 0)) ≡ true
    → max (if dc == 1 then 0 else dv) ds ≡ (if k then x else dv)
chosen k dc ds dv x h e = ground arith

away : (base k : ℕ) → 0 < k → ((base + 0x00) == (base + k)) ≡ false
away base k h = ground arith

flip : (a b : ℕ) → (a == b) ≡ false → (b == a) ≡ false
flip a b h = ground arith

afr_offset : ℕ → ℕ
afr_offset pin = if ltb pin 8 then gpio_afrl else gpio_afrh

afr_offset-positive : (pin : ℕ) → 0 < afr_offset pin
unfolding afr_offset
afr_offset-positive pin = ground arith

module _ {hw : Mmio} (keeps : Keeps hw) where
  -- One field of a register is replaced.
  field :
      (a clr set j x : ℕ) (k : Bool) (m : Machine hw)
      → j < 32
      → clr < 2 ^ 32
      → (digit j clr == (if k then 1 else 0)) ≡ true
      → (digit j set == (if k then x else 0)) ≡ true
      → digit j (reg keeps (mmio_clrsetbits_32 a clr set m).1 a)
        ≡ (if k then x else digit j (reg keeps m a))
  field a clr set j x k m q c h e =
      ap (λ v. digit j v) (reg-clrsetbits keeps a clr set a m ∙ rw (==_refl a) refl)
      ∙ digit_clrset j (reg keeps m a) clr set q c
      ∙ chosen k (digit j clr) (digit j set) (digit j (reg keeps m a)) x h e

  other :
      (a clr set b : ℕ) (m : Machine hw)
      → (b == a) ≡ false
      → reg keeps (mmio_clrsetbits_32 a clr set m).1 b ≡ reg keeps m b
  other a clr set b m h = reg-clrsetbits keeps a clr set b m ∙ rw h refl

  -- On configuration registers that keep what is written, `gpio_set_af` of a pin below 16 and
  -- an alternate function below 16 sets the pin's field of the mode register to alternate and
  -- its field of the alternate function register to the function, and keeps every binary digit
  -- of the other pins' fields and every other register.
  pub gpio_set_af-pins :
      (base pin af j b : ℕ) (m : Machine hw)
      → pin < 16
      → af < 16
      → j < 32
      → (b == base + gpio_moder) ≡ false
      → (b == base + (if ltb pin 8 then gpio_afrl else gpio_afrh)) ≡ false
      → let afr = base + (if ltb pin 8 then gpio_afrl else gpio_afrh) in
        let r = (gpio_set_af base pin af m).1 in
        (digit j (reg keeps r (base + gpio_moder))
          ≡ (if j / 2 == pin then digit (j % 2) 2 else digit j (reg keeps m (base + gpio_moder))))
        × (digit j (reg keeps r afr)
            ≡ (if j / 4 == pin % 8 then digit (j % 4) af else digit j (reg keeps m afr)))
        × (reg keeps r b ≡ reg keeps m b)
  unfolding gpio_set_af afr_offset
  gpio_set_af-pins base pin af j b m p a q n1 n2 =
      let afr = base + afr_offset pin in
      let shift = bit_and pin 7 * 4 in
      let clr = shl32 0xF shift in
      let set = shl32 (bit_and af 0xF) shift in
      let m' = (mmio_clrsetbits_32 afr clr set m).1 in
      let mode = both _ _ (mode_masks pin j p q) in
      let alt = both _ _ (af_masks pin af j p a q) in
      let apart = away base (afr_offset pin) (afr_offset-positive pin) in
      (
        field (base + gpio_moder) (shl32 3 (pin * 2)) (shl32 mode_alt (pin * 2)) j (digit (j % 2) 2)
              (j / 2 == pin) m' q (small_shift 3 (pin * 2)) mode.0 mode.1
            ∙ ap (λ v. if j / 2 == pin then digit (j % 2) 2 else digit j v)
                (other afr clr set (base + gpio_moder) m apart),
        ap (λ v. digit j v)
              (other (base + gpio_moder) (shl32 3 (pin * 2)) (shl32 mode_alt (pin * 2)) afr m'
                (flip (base + gpio_moder) afr apart))
            ∙ field afr clr set j (digit (j % 4) af) (j / 4 == pin % 8) m q (small_shift 0xF shift)
                alt.0 alt.1,
        other (base + gpio_moder) (shl32 3 (pin * 2)) (shl32 mode_alt (pin * 2)) b m' n1
            ∙ other afr clr set b m n2,
      )
