-- ===== src/Cstring.antt =====
-- bootloader/utils/string.c. A pointer is the list of the bytes from it to the end of its object;
-- a read past that end gives a NUL. Functions that write return the object that they wrote.
pub mod Copy
pub mod Compare
pub mod Number
pub mod RoundTrip
use stm32mp257_test_board.Prelude.{
  ℕ, zero, suc, ◌+◌, ◌-◌, ◌*◌, ◌%◌, ◌^◌, ◌&&◌, ◌||◌, Option, none, some, List, [], ◌∷◌, ltb, leb,
  codes, ◌≡◌, refl, ◌==◌, if◌then◌else◌, get_or, drop, ℤ, pos, negsuc, sub_ℕ,
}

-- `while (n-- != 0) *d++ = (uint8_t)c;`
unfoldable pub memset : List ℕ → ℕ → ℕ → List ℕ
memset d c zero = d
memset [] c (suc n) = []
memset (x ∷ d) c (suc n) = (c % 2 ^ 8) ∷ memset d c n

unfoldable pub memcpy : List ℕ → List ℕ → ℕ → List ℕ
memcpy d s zero = d
memcpy [] s (suc n) = []
memcpy (x ∷ d) s (suc n) = get_or s 0 0 ∷ memcpy d (drop 1 s) n

unfoldable pub memcmp : List ℕ → List ℕ → ℕ → ℤ
memcmp a b zero = pos 0
memcmp a b (suc n) =
    let x = get_or a 0 0 in
    let y = get_or b 0 0 in
    let rest = memcmp (drop 1 a) (drop 1 b) n in
    if x == y then rest else if ltb x y then negsuc 0 else pos 1

unfoldable pub strlen : List ℕ → ℕ
strlen [] = 0
strlen (c ∷ s) = if c == 0 then 0 else suc (strlen s)

unfoldable pub strncmp : List ℕ → List ℕ → ℕ → ℤ
strncmp a b zero = pos 0
strncmp a b (suc n) =
    let x = get_or a 0 0 in
    let y = get_or b 0 0 in
    let rest = strncmp (drop 1 a) (drop 1 b) n in
    if x == y then (if x == 0 then pos 0 else rest) else sub_ℕ x y

-- The offset of the pointer that `strchr` returns; `none` is NULL.
unfoldable pub strchr : List ℕ → ℕ → Option ℕ
strchr [] c = if c % 2 ^ 8 == 0 then some 0 else none
strchr (x ∷ s) c =
    let rest : Option ℕ = elim (strchr s c) [ none ↦ none | some i ↦ some (suc i) ] in
    if x == 0
    then (if c % 2 ^ 8 == 0 then some 0 else none)
    else if x == c % 2 ^ 8
    then some 0
    else rest

-- The second loop of `strncpy`.
unfoldable pub fill_nul : List ℕ → ℕ → List ℕ
fill_nul d zero = d
fill_nul [] (suc n) = []
fill_nul (x ∷ d) (suc n) = 0 ∷ fill_nul d n

unfoldable pub strncpy : List ℕ → List ℕ → ℕ → List ℕ
unfolding fill_nul
strncpy d s zero = d
strncpy [] s (suc n) = []
strncpy (x ∷ d) s (suc n) =
    let c = get_or s 0 0 in
    let rest = strncpy d (drop 1 s) n in if c == 0 then 0 ∷ fill_nul d n else c ∷ rest

-- `while (*p == ' ' || *p == '\t') p++;`
unfoldable pub skip_blank : List ℕ → List ℕ
skip_blank [] = []
skip_blank (c ∷ p) = if c == b' ' || c == 9 then skip_blank p else c ∷ p

unfoldable pub skip_plus : List ℕ → List ℕ
skip_plus [] = []
skip_plus (c ∷ p) = if c == b'+' then p else c ∷ p

-- The base that the prefix chooses, and the pointer behind `0x`.
unfoldable pub number_base : List ℕ → ℕ → ℕ × List ℕ
number_base p base =
    let x = get_or p 1 0 in
    if (base == 0 || base == 16) && get_or p 0 0 == b'0' && (x == b'x' || x == b'X')
    then (16, drop 2 p)
    else if base == 0 && get_or p 0 0 == b'0'
    then (8, p)
    else if base == 0
    then (10, p)
    else (base, p)

-- The digit that a character stands for, `none` where the loop of `strtoul` breaks.
unfoldable pub digit_of : ℕ → Option ℕ
digit_of c =
    if leb b'0' c && leb c b'9'
    then some (c - b'0')
    else if leb b'a' c && leb c b'z'
    then some (c - b'a' + 10)
    else if leb b'A' c && leb c b'Z'
    then some (c - b'A' + 10)
    else none

-- The digit loop, from the value so far: `unsigned long` is 64 bits wide and wraps.
unfoldable pub scan_digits : ℕ → ℕ → List ℕ → ℕ × List ℕ
scan_digits base val [] = (val, [])
scan_digits base val (c ∷ p) = elim (digit_of c) [
  | none ↦ (val, c ∷ p)
  | some digit ↦
      if leb base digit then (val, c ∷ p) else scan_digits base ((val * base + digit) % 2 ^ 64) p
]

-- The value and `*endptr`.
unfoldable pub strtoul : List ℕ → ℕ → ℕ × List ℕ
unfolding skip_blank skip_plus number_base scan_digits digit_of
strtoul nptr base = let (b, p) = number_base (skip_plus (skip_blank nptr)) base in scan_digits b 0 p

strtoul_runs : strtoul (codes " +0x1fG") 0 ≡ (31, codes "G")
unfolding strtoul
strtoul_runs = refl
