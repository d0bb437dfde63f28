-- ===== src/Tests/Text.antt =====
-- bootloader/utils/string.c at concrete inputs.
use stm32mp257_test_board.Prelude.{ℕ, List, [], ◌∷◌, ◌++◌, codes, ◌≡◌, refl, arith, All, true}
use stm32mp257_test_board.Cstring.{digit_of, strtoul}
use stm32mp257_test_board.Cstring.Copy.{IsText}
use stm32mp257_test_board.Cstring.Number.{strtoul-sign, is_digit, stops}
use stm32mp257_test_board.Cstring.RoundTrip.{digits, strtoul-digits_decimal, strtoul-digits_hex}

at_space : stops 10 (b' ' ∷ []) ≡ true
unfolding digit_of
at_space = refl

at_end10 : stops 10 (0 ∷ []) ≡ true
unfolding digit_of
at_end10 = refl

at_end16 : stops 16 (0 ∷ []) ≡ true
unfolding digit_of
at_end16 = refl

seven : is_digit 10 b'7' ≡ true
unfolding digit_of
seven = refl

zero_six : All (λ c. is_digit 10 c ≡ true) (codes "06")
unfolding digit_of
zero_six = (refl, (refl, tt))

abbrev one_two : List ℕ
one_two = 1 ∷ 2 ∷ []

abbrev one_three : List ℕ
one_three = 1 ∷ 3 ∷ []

strtoul-digits_decimal_example : strtoul (digits 10 2049 2048 ++ b' ' ∷ []) 0 ≡ (2048, b' ' ∷ [])
strtoul-digits_decimal_example =
    strtoul-digits_decimal 2048 (b' ' ∷ []) (omega arith) (omega arith) at_space

strtoul-digits_hex_example :
    strtoul (b'0' ∷ b'x' ∷ digits 16 49153 49152 ++ 0 ∷ []) 0 ≡ (49152, 0 ∷ [])
strtoul-digits_hex_example = strtoul-digits_hex 49152 (0 ∷ []) (omega arith) at_end16

word_IsText : IsText (codes "he")
word_IsText = (omega arith, (omega arith, tt))

strtoul-sign_example : strtoul (b'+' ∷ 0 ∷ []) 0 ≡ (0, 0 ∷ [])
strtoul-sign_example = strtoul-sign (0 ∷ []) at_end10
