-- ===== src/Cstring/Compare.antt =====
-- What the comparisons of bootloader/utils/string.c decide.
use stm32mp257_test_board.Prelude.{
  ℕ, zero, suc, ◌≤◌, List, [], ◌∷◌, ◌++◌, ◌≡◌, ◌↔◌, refl, arith, Bool, true, false, length, take,
  ◌==◌, if◌then◌else◌, pos, is_zero,
}
use stm32mp257_test_board.Cstring.{memcmp, strncmp}
use stm32mp257_test_board.Cstring.Copy.{IsText}

-- Where both arrays have `n` bytes at least, `memcmp` is 0 exactly when the first `n` bytes
-- agree.
pub memcmp_same_iff :
    (a b : List ℕ) (n : ℕ)
    → n ≤ length a
    → n ≤ length b
    → (memcmp a b n ≡ pos 0) ↔ (take n a ≡ take n b)
unfolding memcmp
memcmp_same_iff a b zero h k = (λ _. refl, λ _. refl)
memcmp_same_iff [] b (suc n) h k = absurd (omega arith)
memcmp_same_iff (x ∷ a) [] (suc n) h k = absurd (omega arith)
memcmp_same_iff (x ∷ a) (y ∷ b) (suc n) h k =
    ground (arith, memcmp_same_iff a b n (omega arith) (omega arith))

-- Whether the word begins the name.
abbrev pub is_prefix : List ℕ → List ℕ → Bool
is_prefix [] name = true
is_prefix (x ∷ w) [] = false
is_prefix (x ∷ w) (y ∷ name) = if x == y then is_prefix w name else false

-- `strncmp` over the length of a word without NUL is 0 exactly when the word begins the other
-- string.
pub strncmp_prefix :
    (w name r junk : List ℕ)
    → IsText w
    → is_zero (strncmp (w ++ r) (name ++ 0 ∷ junk) (length w)) ≡ is_prefix w name
unfolding strncmp
strncmp_prefix [] name r junk t = refl
strncmp_prefix (x ∷ w) [] r junk t = ground (arith)
strncmp_prefix (x ∷ w) (y ∷ name) r junk t = ground (arith, strncmp_prefix w name r junk t.1)
