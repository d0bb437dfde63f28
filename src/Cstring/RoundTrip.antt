-- ===== src/Cstring/RoundTrip.antt =====
-- `strtoul` of bootloader/utils/string.c reads back the numbers that one writes for it.
use native.Mathlib.Nat.{div-add-mod', div-lt_self, le-div_iff_mul-le}
use stm32mp257_test_board.Prelude.{
  Bool-cases, ltb→lt, inl, inr, ◌≢◌, ℕ, zero, suc, ◌+◌, ◌-◌, ◌*◌, ◌/◌, ◌%◌, ◌^◌, ◌≤◌, ◌<◌, List, [],
  ◌∷◌, ◌++◌, ◌≡◌, refl, ap, ◌∙◌, arith, true, false, ltb, if◌then◌else◌, All,
}
use stm32mp257_test_board.Cstring.{strtoul, digit_of}
use stm32mp257_test_board.Cstring.Number.{
  is_digit, digit_value, number_from, stops, strtoul_decimal, strtoul_hex,
}

-- The character of a digit, in lower case.
abbrev digit_char : ℕ → ℕ
digit_char d = if ltb d 10 then b'0' + d else b'a' + (d - 10)

-- A number in a base, the leading digit first; the fuel is above the number.
pub digits : ℕ → ℕ → ℕ → List ℕ
digits base zero n = []
digits base (suc f) n =
    let rest = digits base f (n / base) ++ digit_char (n % base) ∷ [] in
    if ltb n base then digit_char n ∷ [] else rest

digit_char_lem : (d : ℕ) → d < 16 → digit_value (digit_char d) ≡ d
unfolding digit_of
digit_char_lem d h = ground arith

is_digit-digit_char : (base d : ℕ) → d < base → base ≤ 16 → is_digit base (digit_char d) ≡ true
unfolding digit_of
is_digit-digit_char base d h k = ground arith

number_from-append :
    (base val : ℕ) (xs : List ℕ) (c : ℕ)
    → number_from base val (xs ++ c ∷ []) ≡ number_from base val xs * base + digit_value c
number_from-append base val [] c = refl
number_from-append base val (x ∷ xs) c = number_from-append base (val * base + digit_value x) xs c

All-append_one :
    (base : ℕ) (xs : List ℕ) (c : ℕ)
    → All (λ x. is_digit base x ≡ true) xs
    → is_digit base c ≡ true
    → All (λ x. is_digit base x ≡ true) (xs ++ c ∷ [])
All-append_one base [] c t h = (h, tt)
All-append_one base (x ∷ xs) c t h = (t.0, All-append_one base xs c t.1 h)

not_ltb : (a b : ℕ) → ltb a b ≡ false → b ≤ a
not_ltb a b e = ground arith

module _ (base : ℕ) (low : 1 < base) (high : base ≤ 16) where
  smaller : (n f : ℕ) → n < suc f → base ≤ n → n / base < f
  smaller n f h k = omega (arith, div-lt_self {n = n} {k = base} (omega arith) low)

  digits_value : (f n : ℕ) → n < f → number_from base 0 (digits base f n) ≡ n
  unfolding digits
  digits_value zero n h = absurd (omega arith)
  digits_value (suc f) n h = elim (Bool-cases (ltb n base)) [
    | inl e ↦ rw e (omega (arith, digit_char_lem n, ltb→lt n base e))
    | inr e ↦ rw e (
        number_from-append base 0 (digits base f (n / base)) (digit_char (n % base))
        ∙ rw
            (
              digits_value f (n / base) (smaller n f h (not_ltb n base e)),
              digit_char_lem (n % base) (omega arith),
            )
            (div-add-mod' n base))
  ]

  pub digits_digit : (f n : ℕ) → All (λ c. is_digit base c ≡ true) (digits base f n)
  unfolding digits
  digits_digit zero n = tt
  digits_digit (suc f) n = elim (Bool-cases (ltb n base)) [
    | inl e ↦ rw e (is_digit-digit_char base n (ltb→lt n base e) high, tt)
    | inr e ↦ rw e (
        All-append_one base (digits base f (n / base)) (digit_char (n % base))
          (digits_digit f (n / base)) (is_digit-digit_char base (n % base) (omega arith) high))
  ]

  positive : (n : ℕ) → base ≤ n → 0 < n / base
  positive n k = (le-div_iff_mul-le {k = base} {x = 1} {y = n} (omega arith)).1 (omega arith)

  -- The leading digit of a number that is not 0 is not 0.
  pub digits_head :
      (f n : ℕ) → 0 < n → n < f → (c : ℕ) × (ds : List ℕ) × (digits base f n ≡ c ∷ ds) × (c ≢ b'0')
  unfolding digits
  digits_head zero n p h = absurd (omega arith)
  digits_head (suc f) n p h = elim (Bool-cases (ltb n base)) [
    | inl e ↦ (digit_char n, [], rw e, ground arith)
    | inr e ↦
        let (c, ds, q, ne) =
          digits_head f (n / base) (positive n (not_ltb n base e))
            (smaller n f h (not_ltb n base e)) in
        (c, ds ++ digit_char (n % base) ∷ [], rw (e, q), ne)
  ]

-- A positive number below 2 ^ 64 that is written in decimal, before a text that does not begin
-- with a decimal digit, is read back by `strtoul` with base 0, and the pointer stops behind it.
pub strtoul-digits_decimal :
    (n : ℕ) (rest : List ℕ)
    → 0 < n
    → n < 2 ^ 64
    → stops 10 rest ≡ true
    → strtoul (digits 10 (suc n) n ++ rest) 0 ≡ (n, rest)
strtoul-digits_decimal n rest p h k =
    let (c, ds, q, ne) = digits_head 10 (omega arith) (omega arith) (suc n) n p (omega arith) in
    let value = digits_value 10 (omega arith) (omega arith) (suc n) n (omega arith) in
    let all = digits_digit 10 (omega arith) (omega arith) (suc n) n in go c ds q ne value all
  where
    go :
        (c : ℕ) (ds : List ℕ)
        → digits 10 (suc n) n ≡ c ∷ ds
        → c ≢ b'0'
        → number_from 10 0 (digits 10 (suc n) n) ≡ n
        → All (λ c. is_digit 10 c ≡ true) (digits 10 (suc n) n)
        → strtoul (digits 10 (suc n) n ++ rest) 0 ≡ (n, rest)
    go c ds q ne value all =
        let all' : All (λ c. is_digit 10 c ≡ true) (c ∷ ds) = rw q at all in
        let value' : number_from 10 0 (c ∷ ds) ≡ n = rw q at value in
        rw (q, strtoul_decimal c ds rest all'.0 ne all'.1 k, value')
          (ap (λ v. (v, rest)) (omega arith))

-- A number below 2 ^ 64 that is written in hexadecimal behind `0x`, before a text that does not
-- begin with a hexadecimal digit, is read back by `strtoul` with base 0, and the pointer stops
-- behind it.
pub strtoul-digits_hex :
    (n : ℕ) (rest : List ℕ)
    → n < 2 ^ 64
    → stops 16 rest ≡ true
    → strtoul (b'0' ∷ b'x' ∷ digits 16 (suc n) n ++ rest) 0 ≡ (n, rest)
strtoul-digits_hex n rest h k =
    rw
      (
        strtoul_hex (digits 16 (suc n) n) rest
            (digits_digit 16 (omega arith) (omega arith) (suc n) n) k,
        digits_value 16 (omega arith) (omega arith) (suc n) n (omega arith),
      )
      (ap (λ v. (v, rest)) (omega arith))
