-- ===== src/Io/Bits.antt =====
-- The binary digits of words, for the masks of bootloader/drivers.
use Prim.Native.Nat.{digits, bit_and-bitwise, bit_or-bitwise}
use stm32mp257_test_board.Prelude.{
  ℕ, zero, suc, ◌+◌, ◌-◌, ◌*◌, ◌/◌, ◌%◌, ◌^◌, ◌≤◌, ◌<◌, min, max, bit_and, bit_or, Bool, true, ◌&&◌,
  ◌==◌, if◌then◌else◌, ◌≡◌, refl, ap, ◌∙◌, arith,
}

-- Digit `i`, from the lowest.
unfoldable pub digit : ℕ → ℕ → ℕ
digit zero a = a % 2
digit (suc i) a = digit i (a / 2)

abbrev and_digits : ℕ → ℕ → ℕ → ℕ
and_digits n a b = digits (λ b. zero) min n a b

abbrev or_digits : ℕ → ℕ → ℕ → ℕ
or_digits n a b = digits (λ b. b) max n a b

-- Any count of digits that is large enough gives the same.
digits_enough :
    (z : ℕ → ℕ) (f : ℕ → ℕ → ℕ) (n m a b : ℕ) → a ≤ n → a ≤ m → digits z f n a b ≡ digits z f m a b
digits_enough z f zero zero a b p q = refl
digits_enough z f zero (suc m) zero b p q = refl
digits_enough z f zero (suc m) (suc a) b p q = absurd (omega arith)
digits_enough z f (suc n) zero zero b p q = refl
digits_enough z f (suc n) zero (suc a) b p q = absurd (omega arith)
digits_enough z f (suc n) (suc m) zero b p q = refl
digits_enough z f (suc n) (suc m) (suc a) b p q =
    ap (λ k. k * 2 + f (suc a % 2) (b % 2))
      (digits_enough z f n m (suc a / 2) (b / 2) (omega arith) (omega arith))

bit_and_halves : (a b : ℕ) → bit_and a b ≡ bit_and (a / 2) (b / 2) * 2 + min (a % 2) (b % 2)
bit_and_halves zero b = omega (arith, bit_and-bitwise 0 b, bit_and-bitwise 0 (b / 2))
bit_and_halves (suc a) b = omega (
  arith,
  bit_and-bitwise (suc a) b,
  bit_and-bitwise (suc a / 2) (b / 2),
  digits_enough (λ b. zero) min a (suc a / 2) (suc a / 2) (b / 2) (omega arith) (omega arith),
)

bit_or_halves : (a b : ℕ) → bit_or a b ≡ bit_or (a / 2) (b / 2) * 2 + max (a % 2) (b % 2)
bit_or_halves zero b = omega (arith, bit_or-bitwise 0 b, bit_or-bitwise 0 (b / 2))
bit_or_halves (suc a) b = omega (
  arith,
  bit_or-bitwise (suc a) b,
  bit_or-bitwise (suc a / 2) (b / 2),
  digits_enough (λ b. b) max a (suc a / 2) (suc a / 2) (b / 2) (omega arith) (omega arith),
)

pub digit-bit_and : (i a b : ℕ) → digit i (bit_and a b) ≡ min (digit i a) (digit i b)
unfolding digit
digit-bit_and zero a b = omega (arith, bit_and_halves a b)
digit-bit_and (suc i) a b =
    ap (λ k. digit i k) (omega (arith, bit_and_halves a b)) ∙ digit-bit_and i (a / 2) (b / 2)

pub digit-bit_or : (i a b : ℕ) → digit i (bit_or a b) ≡ max (digit i a) (digit i b)
unfolding digit
digit-bit_or zero a b = omega (arith, bit_or_halves a b)
digit-bit_or (suc i) a b =
    ap (λ k. digit i k) (omega (arith, bit_or_halves a b)) ∙ digit-bit_or i (a / 2) (b / 2)

pub digit-le : (i a : ℕ) → digit i a ≤ 1
unfolding digit
digit-le zero a = omega arith
digit-le (suc i) a = digit-le i (a / 2)

-- The complement within `w` digits.
pub digit_complement : (w i a : ℕ) → i < w → a < 2 ^ w → digit i (2 ^ w - 1 - a) ≡ 1 - digit i a
unfolding digit
digit_complement zero i a h k = absurd (omega arith)
digit_complement (suc w) zero a h k = omega arith
digit_complement (suc w) (suc i) a h k =
    ap (λ k. digit i k) (omega arith) ∙ digit_complement w i (a / 2) (omega arith) (omega arith)

-- `(v & ~clr) | set`, digit by digit: where `clr` has a digit, `set` decides.
pub digit_clrset :
    (i v clr set : ℕ)
    → i < 32
    → clr < 2 ^ 32
    → digit i (bit_or (bit_and v (2 ^ 32 - 1 - clr)) set)
      ≡ max (if digit i clr == 1 then 0 else digit i v) (digit i set)
digit_clrset i v clr set h k =
    digit-bit_or i (bit_and v (2 ^ 32 - 1 - clr)) set
    ∙ ap (λ d. max d (digit i set))
        (digit-bit_and i v (2 ^ 32 - 1 - clr)
          ∙ ground (arith, digit_complement 32 i clr h k, digit-le i v, digit-le i clr))

-- Over a small range, every value is tried.
unfoldable pub all_below : ℕ → (ℕ → Bool) → Bool
all_below zero p = true
all_below (suc n) p = p n && all_below n p

pub all_below_lem : (n : ℕ) (p : ℕ → Bool) (x : ℕ) → all_below n p ≡ true → x < n → p x ≡ true
unfolding all_below
all_below_lem zero p x h lt = absurd (omega arith)
all_below_lem (suc n) p x h lt = ground (arith, all_below_lem n p x)
