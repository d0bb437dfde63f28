-- ===== src/Cmd/Args/Number.antt =====
-- A number behind a command's name, as `parse_args_uint32` of bootloader/src/cmd.c reads it.
use stm32mp257_test_board.Prelude.{
  ℕ, suc, ◌%◌, ◌^◌, ◌<◌, true, false, not, ◌&&◌, List, [], ◌∷◌, ◌++◌, ◌==◌, length, length-append,
  All, get_or, ◌≡◌, refl, sym, ap, ◌∙◌, arith, subst,
}
use stm32mp257_test_board.Cstring.{strtoul, digit_of}
use stm32mp257_test_board.Cstring.Number.{is_digit, stops}
use stm32mp257_test_board.Cstring.RoundTrip.{
  digits, digits_head, digits_digit, strtoul-digits_decimal,
}
use stm32mp257_test_board.Cmd.Args.{
  my_isspace, skip_word, skip_space, is_name, skip_letters, skip_prefix, read_args,
  parse_args_uint32,
}

-- No NUL and no space.
abbrev pub IsWord : List ℕ → Type 0
IsWord w = All (λ c. (not (c == 0) && not (my_isspace c)) ≡ true) w

skip_word_lem : (w r : List ℕ) → IsWord w → skip_word (w ++ b' ' ∷ r) ≡ b' ' ∷ r
unfolding skip_word my_isspace
skip_word_lem [] r h = refl
skip_word_lem (c ∷ w) r h = rw h.0 (skip_word_lem w r h.1)

digit_starts :
    (c : ℕ)
    → is_digit 10 c ≡ true
    → (is_name c ≡ false) × (my_isspace c ≡ false) × ((c == 0) ≡ false)
unfolding digit_of is_name my_isspace
digit_starts c h = ground arith

same : (n : ℕ) → (n == n) ≡ true
same n = ground arith

ends : (c : ℕ) (ds junk : List ℕ) → (length (0 ∷ junk) == length (c ∷ ds ++ 0 ∷ junk)) ≡ false
ends c ds junk = ground (arith, length-append ds (0 ∷ junk))

space_is : my_isspace b' ' ≡ true
unfolding my_isspace
space_is = refl

stops_nul : (junk : List ℕ) → stops 10 (0 ∷ junk) ≡ true
unfolding digit_of
stops_nul junk = refl

skip_space-digit : (c : ℕ) (r : List ℕ) → is_digit 10 c ≡ true → skip_space (b' ' ∷ c ∷ r) ≡ c ∷ r
unfolding skip_space
skip_space-digit c r h = rw (space_is, (digit_starts c h).2, (digit_starts c h).1) refl

skip_prefix-digit : (c : ℕ) (r : List ℕ) → is_digit 10 c ≡ true → skip_prefix (c ∷ r) ≡ c ∷ r
unfolding skip_prefix skip_letters
skip_prefix-digit c r h = rw ((digit_starts c h).0, same (length (c ∷ r))) refl

read_step :
    (n v : ℕ) (p p' end : List ℕ)
    → skip_prefix p ≡ p'
    → strtoul p' 0 ≡ (v, end)
    → (get_or p 0 0 == 0) ≡ false
    → (length end == length p') ≡ false
    → read_args (suc n) p
      ≡ (suc (read_args n (skip_space end)).0, (v % 2 ^ 32) ∷ (read_args n (skip_space end)).1)
unfolding read_args
read_step n v p p' end a e g h = rw (a, e, g, h) refl

no_args : (junk : List ℕ) → read_args 2 (skip_space (0 ∷ junk)) ≡ (0, [])
unfolding read_args skip_space
no_args junk = refl

one_arg :
    (c v : ℕ) (ds junk : List ℕ)
    → is_digit 10 c ≡ true
    → strtoul (c ∷ ds ++ 0 ∷ junk) 0 ≡ (v, 0 ∷ junk)
    → read_args 3 (skip_space (b' ' ∷ c ∷ ds ++ 0 ∷ junk)) ≡ (1, (v % 2 ^ 32) ∷ [])
one_arg c v ds junk h e =
    let line = c ∷ ds ++ 0 ∷ junk in
    ap (λ p. read_args 3 p) (skip_space-digit c (ds ++ 0 ∷ junk) h)
    ∙ read_step 2 v line line (0 ∷ junk) (skip_prefix-digit c (ds ++ 0 ∷ junk) h) e
        (digit_starts c h).2 (ends c ds junk)
    ∙ ap (λ r. (suc r.0, (v % 2 ^ 32) ∷ r.1)) (no_args junk)

-- Of a line with a word of no space or NUL, a space and a positive number below 2 ^ 64 in
-- decimal, `parse_args_uint32` reads exactly one argument, the number modulo 2 ^ 32.
pub parse_args_uint32-digits :
    (w junk : List ℕ) (n : ℕ)
    → IsWord w
    → 0 < n
    → n < 2 ^ 64
    → parse_args_uint32 (w ++ (b' ' ∷ (digits 10 (suc n) n ++ 0 ∷ junk))) ≡ (1, (n % 2 ^ 32) ∷ [])
unfolding parse_args_uint32
parse_args_uint32-digits w junk n h p q =
    let (c, ds, e, nz) = digits_head 10 (omega arith) (omega arith) (suc n) n p (omega arith) in
    let all =
      subst (λ l. All (λ c. is_digit 10 c ≡ true) l) e
        (digits_digit 10 (omega arith) (omega arith) (suc n) n) in
    ap (λ r. read_args 3 (skip_space r)) (skip_word_lem w (digits 10 (suc n) n ++ 0 ∷ junk) h)
    ∙ ap (λ l. read_args 3 (skip_space (b' ' ∷ l ++ 0 ∷ junk))) e
    ∙ one_arg c n ds junk all.0 (
        ap (λ l. strtoul (l ++ 0 ∷ junk) 0) (sym e)
        ∙ strtoul-digits_decimal n (0 ∷ junk) p q (stops_nul junk))
