-- ===== src/Cstring/Number.antt =====
-- What `strtoul` of bootloader/utils/string.c reads.
use native.Mathlib.Nat.{add-mul-mod_self_left, div-add-mod}
use stm32mp257_test_board.Prelude.{
  refl, ◌≢◌, ℕ, sym, ap, ◌∙◌, ◌+◌, ◌*◌, ◌/◌, ◌%◌, ◌^◌, ◌<◌, List, [], ◌∷◌, ◌++◌, ◌≡◌, arith, Bool,
  true, false, not, ltb, none, some, All,
}
use stm32mp257_test_board.Cstring.{
  strtoul, scan_digits, digit_of, skip_blank, skip_plus, number_base,
}

-- Whether the loop takes the character as a digit.
abbrev pub is_digit : ℕ → ℕ → Bool
is_digit base c = elim (digit_of c) [ none ↦ false | some d ↦ ltb d base ]

abbrev pub digit_value : ℕ → ℕ
digit_value c = elim (digit_of c) [ none ↦ 0 | some d ↦ d ]

-- The number that digits stand for behind those already read, in full.
abbrev pub number_from : ℕ → ℕ → List ℕ → ℕ
number_from base val [] = val
number_from base val (c ∷ ds) = number_from base (val * base + digit_value c) ds

-- Where the digit loop stops.
abbrev pub stops : ℕ → List ℕ → Bool
stops base [] = true
stops base (c ∷ p) = not (is_digit base c)

mod_step : (m val base d : ℕ) → (val % m * base + d) % m ≡ (val * base + d) % m
mod_step m val base d =
    sym (add-mul-mod_self_left (val % m * base + d) m (val / m * base))
    ∙ ap (λ t. t % m) (omega (arith, ap (λ (t : ℕ). t * base) (div-add-mod val m)))

number_from_mod :
    (base val : ℕ) (ds : List ℕ)
    → number_from base (val % 2 ^ 64) ds % 2 ^ 64 ≡ number_from base val ds % 2 ^ 64
number_from_mod base val [] = omega arith
number_from_mod base val (c ∷ ds) =
    sym (number_from_mod base (val % 2 ^ 64 * base + digit_value c) ds)
    ∙ ap (λ v. number_from base v ds % 2 ^ 64) (mod_step (2 ^ 64) val base (digit_value c))
    ∙ number_from_mod base (val * base + digit_value c) ds

scan_digits_lem :
    (base val : ℕ) (ds rest : List ℕ)
    → All (λ c. is_digit base c ≡ true) ds
    → stops base rest ≡ true
    → val < 2 ^ 64
    → scan_digits base val (ds ++ rest) ≡ (number_from base val ds % 2 ^ 64, rest)
unfolding scan_digits
scan_digits_lem base val [] [] t h k = ground arith
scan_digits_lem base val [] (x ∷ rest) t h k = ground arith
scan_digits_lem base val (c ∷ ds) rest t h k = ground (
  arith,
  number_from_mod base (val * base + digit_value c) ds,
  scan_digits_lem base ((val * base + digit_value c) % 2 ^ 64) ds rest t.1 h (omega arith),
)

-- Of a text that begins with a decimal digit other than 0, `strtoul` with base 0 gives the value
-- of all its decimal digits modulo 2 ^ 64 and the text behind them.
pub strtoul_decimal :
    (c : ℕ) (ds rest : List ℕ)
    → is_digit 10 c ≡ true
    → c ≢ b'0'
    → All (λ c. is_digit 10 c ≡ true) ds
    → stops 10 rest ≡ true
    → strtoul (c ∷ ds ++ rest) 0 ≡ (number_from 10 0 (c ∷ ds) % 2 ^ 64, rest)
unfolding strtoul
strtoul_decimal c ds rest t ne ts h =
    rw (start c t ne) (scan_digits_lem 10 0 (c ∷ ds) rest (t, ts) h (omega arith))
  where
    start :
        (c : ℕ)
        → is_digit 10 c ≡ true
        → c ≢ b'0'
        → number_base (skip_plus (skip_blank (c ∷ ds ++ rest))) 0 ≡ (10, c ∷ ds ++ rest)
    start c t ne = ground arith

-- Hexadecimal digits behind `0x` are read in base 16.
pub strtoul_hex :
    (ds rest : List ℕ)
    → All (λ c. is_digit 16 c ≡ true) ds
    → stops 16 rest ≡ true
    → strtoul (b'0' ∷ b'x' ∷ ds ++ rest) 0 ≡ (number_from 16 0 ds % 2 ^ 64, rest)
unfolding strtoul
strtoul_hex ds rest ts h = scan_digits_lem 16 0 ds rest ts h (omega arith)

-- Of a plus sign before a text that does not begin with a decimal digit, `strtoul` with base 0
-- gives 0 and stores the pointer behind the sign, although it has read no digit.
pub strtoul-sign : (rest : List ℕ) → stops 10 rest ≡ true → strtoul (b'+' ∷ rest) 0 ≡ (0, rest)
unfolding strtoul
strtoul-sign [] h = refl
strtoul-sign (c ∷ rest) h =
    rw (base_ten c rest h) (scan_digits_lem 10 0 [] (c ∷ rest) tt h (omega arith))
  where
    base_ten :
        (c : ℕ) (rest : List ℕ)
        → stops 10 (c ∷ rest) ≡ true
        → number_base (c ∷ rest) 0 ≡ (10, c ∷ rest)
    base_ten c rest h = ground arith
