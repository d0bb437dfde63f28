-- ===== src/Msc/Blocks.antt =====
-- The blocks of a card, and what bootloader/drivers/usb/usb_msc.c may rely on in the calls of
-- drivers/sd.h.
use native.Mathlib.Nat.{add-zero, zero-add}
use stm32mp257_test_board.Prelude.{
  ℕ, zero, suc, ◌+◌, ◌*◌, ◌/◌, ◌≤◌, List, [], ◌∷◌, ◌++◌, some, length, length-append, take, drop,
  append_assoc, ◌≡◌, refl, sym, ap, ap₂, ◌∙◌, arith, length-drop,
}
use stm32mp257_test_board.Cstring.{memcpy}
use stm32mp257_test_board.Cstring.Copy.{memcpy_lem}
use stm32mp257_test_board.Card.{Sd}

-- The bytes of `n` blocks from `lba` on.
abbrev pub read_blocks : (ℕ → List ℕ) → ℕ → ℕ → List ℕ
read_blocks block lba zero = []
read_blocks block lba (suc n) = block lba ++ read_blocks block (lba + 1) n

-- A card that works: a read inside the card gives the bytes of the blocks and changes nothing.
pub record Works (sd : Sd) : Type 1 where
  pub block : sd.Card → ℕ → List ℕ
  pub length-block : (c : sd.Card) (i : ℕ) → length (block c i) ≡ 512
  pub reads :
      (c : sd.Card) (lba n : ℕ)
      → lba + n ≤ sd.sd_size_bytes c / 512
      → sd.sd_read c lba (n * 512) ≡ (c, some (read_blocks (block c) lba n))

module _ (block : ℕ → List ℕ) (sizes : (i : ℕ) → length (block i) ≡ 512) where
  pub length-read_blocks : (lba n : ℕ) → length (read_blocks block lba n) ≡ n * 512
  length-read_blocks lba zero = refl
  length-read_blocks lba (suc n) = omega (
    arith,
    length-append (block lba) (read_blocks block (lba + 1) n),
    sizes lba,
    length-read_blocks (lba + 1) n,
  )

pub read_blocks-add :
    (block : ℕ → List ℕ) (lba m n : ℕ)
    → read_blocks block lba (m + n) ≡ read_blocks block lba m ++ read_blocks block (lba + m) n
read_blocks-add block lba zero n =
    ap₂ (λ l k. read_blocks block l k) (sym (add-zero lba)) (zero-add n)
read_blocks-add block lba (suc m) n =
    ap (λ k. read_blocks block lba k) (suc-add m n)
    ∙ ap (λ r. block lba ++ r) (read_blocks-add block (lba + 1) m n)
    ∙ sym (
        append_assoc (block lba) (read_blocks block (lba + 1) m)
          (read_blocks block (lba + 1 + m) n))
    ∙ ap (λ l. (block lba ++ read_blocks block (lba + 1) m) ++ read_blocks block l n) (shift lba m)
  where
    suc-add : (m n : ℕ) → suc m + n ≡ suc (m + n)
    suc-add m n = omega arith

    shift : (lba m : ℕ) → lba + 1 + m ≡ lba + suc m
    shift lba m = omega arith

take_exact : (xs ys : List ℕ) (n : ℕ) → length xs ≡ n → take n (xs ++ ys) ≡ xs
take_exact [] ys zero e = refl
take_exact [] ys (suc n) e = absurd (omega arith)
take_exact (x ∷ xs) ys zero e = absurd (omega arith)
take_exact (x ∷ xs) ys (suc n) e = ap (λ r. x ∷ r) (take_exact xs ys n (omega arith))

take_all : (xs : List ℕ) (n : ℕ) → length xs ≡ n → take n xs ≡ xs
take_all [] zero e = refl
take_all [] (suc n) e = absurd (omega arith)
take_all (x ∷ xs) zero e = absurd (omega arith)
take_all (x ∷ xs) (suc n) e = ap (λ r. x ∷ r) (take_all xs n (omega arith))

-- Bytes that are copied into a buffer with room are what is sent from it.
pub take-memcpy :
    (buf bytes : List ℕ) (n : ℕ)
    → length bytes ≡ n
    → n ≤ length buf
    → take n (memcpy buf bytes n) ≡ bytes
take-memcpy buf bytes n e h =
    ap (λ b. take n b)
      (memcpy_lem buf bytes n h (omega arith) ∙ ap (λ b. b ++ drop n buf) (take_all bytes n e))
    ∙ take_exact bytes (drop n buf) n e

pub length-memcpy :
    (buf bytes : List ℕ) (n : ℕ)
    → length bytes ≡ n
    → n ≤ length buf
    → length (memcpy buf bytes n) ≡ length buf
length-memcpy buf bytes n e h =
    ap length
      (memcpy_lem buf bytes n h (omega arith) ∙ ap (λ b. b ++ drop n buf) (take_all bytes n e))
    ∙ omega (arith, length-append bytes (drop n buf), length-drop n buf)
