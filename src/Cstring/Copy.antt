-- ===== src/Cstring/Copy.antt =====
-- What the copying and measuring functions of bootloader/utils/string.c do.
use stm32mp257_test_board.Prelude.{
  ℕ, zero, suc, ◌-◌, ◌%◌, ◌^◌, ◌≤◌, ◌<◌, List, [], ◌∷◌, ◌++◌, ◌≡◌, refl, ap, arith, Option, none,
  some, length, if◌then◌else◌, ◌==◌, take, drop, replicate, All,
}
use stm32mp257_test_board.Cstring.{memset, memcpy, strlen, strchr, fill_nul, strncpy}

-- The bytes of a C string: none of them is the terminator.
abbrev pub IsText : List ℕ → Type 0
IsText cs = All (λ c. 0 < c) cs

-- `memset` writes the byte to the first `n` places and leaves the rest.
pub memset_lem :
    (d : List ℕ) (c n : ℕ) → n ≤ length d → memset d c n ≡ replicate n (c % 2 ^ 8) ++ drop n d
unfolding memset
memset_lem d c zero h = refl
memset_lem [] c (suc n) h = absurd (omega arith)
memset_lem (x ∷ d) c (suc n) h = ap (λ r. (c % 2 ^ 8) ∷ r) (memset_lem d c n (omega arith))

-- Where the destination and the source have `n` bytes at least, `memcpy` writes the first `n`
-- bytes of the source and leaves the rest of the destination.
pub memcpy_lem :
    (d s : List ℕ) (n : ℕ) → n ≤ length d → n ≤ length s → memcpy d s n ≡ take n s ++ drop n d
unfolding memcpy
memcpy_lem d s zero h k = refl
memcpy_lem [] s (suc n) h k = absurd (omega arith)
memcpy_lem (x ∷ d) [] (suc n) h k = absurd (omega arith)
memcpy_lem (x ∷ d) (y ∷ s) (suc n) h k =
    ap (λ r. y ∷ r) (memcpy_lem d s n (omega arith) (omega arith))

-- `strlen` counts the bytes before the terminator.
pub strlen_lem : (cs junk : List ℕ) → IsText cs → strlen (cs ++ 0 ∷ junk) ≡ length cs
unfolding strlen
strlen_lem [] junk t = refl
strlen_lem (c ∷ cs) junk t = ground (arith, strlen_lem cs junk t.1)

fill_nul_lem : (d : List ℕ) (n : ℕ) → length d ≡ n → fill_nul d n ≡ replicate n 0
unfolding fill_nul
fill_nul_lem [] zero e = refl
fill_nul_lem (x ∷ d) zero e = absurd (omega arith)
fill_nul_lem [] (suc n) e = absurd (omega arith)
fill_nul_lem (x ∷ d) (suc n) e = ap (λ r. 0 ∷ r) (fill_nul_lem d n (omega arith))

sub_zero : (cs : List ℕ) → replicate {A = ℕ} (0 - length cs) 0 ≡ []
sub_zero cs = rw (zero_sub cs)
  where
    zero_sub : (cs : List ℕ) → 0 - length cs ≡ 0
    zero_sub cs = omega arith

-- To a destination of `n` bytes, `strncpy` of a string copies at most `n` bytes of the string
-- and pads with NULs up to `n`.
pub strncpy_lem :
    (d cs junk : List ℕ) (n : ℕ)
    → IsText cs
    → length d ≡ n
    → strncpy d (cs ++ 0 ∷ junk) n ≡ take n cs ++ replicate (n - length cs) 0
unfolding strncpy
strncpy_lem [] cs junk zero t e = ground (arith, sub_zero cs)
strncpy_lem (x ∷ d) cs junk zero t e = absurd (omega arith)
strncpy_lem [] cs junk (suc n) t e = absurd (omega arith)
strncpy_lem (x ∷ d) [] junk (suc n) t e = ground (arith, fill_nul_lem d n (omega arith))
strncpy_lem (x ∷ d) (c ∷ cs) junk (suc n) t e =
    ground (arith, strncpy_lem d cs junk n t.1 (omega arith))

-- The first place of a byte in a list.
abbrev pub index_of : List ℕ → ℕ → Option ℕ
index_of [] c = none
index_of (x ∷ cs) c =
    let rest : Option ℕ = elim (index_of cs c) [ none ↦ none | some i ↦ some (suc i) ] in
    if x == c then some 0 else rest

-- `strchr` finds the first place of a byte other than NUL in a string, and looks at the string
-- only.
pub strchr_lem :
    (cs junk : List ℕ) (c : ℕ)
    → IsText cs
    → 0 < c
    → c < 2 ^ 8
    → strchr (cs ++ 0 ∷ junk) c ≡ index_of cs c
unfolding strchr
strchr_lem [] junk c t h k = ground arith
strchr_lem (x ∷ cs) junk c t h k = ground (arith, strchr_lem cs junk c t.1 h k)
