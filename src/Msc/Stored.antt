-- ===== src/Msc/Stored.antt =====
-- What a write of drivers/sd.h leaves on a card, for the writes of bootloader/drivers/usb/usb_msc.c.
use stm32mp257_test_board.Prelude.{
  ℕ, zero, suc, ◌+◌, ◌-◌, ◌*◌, ◌/◌, ◌≤◌, ◌<◌, List, ◌++◌, true, length, take, drop,
  take-append-drop, ◌≡◌, refl, ap, ap₂, ◌∙◌, arith,
}
use stm32mp257_test_board.Card.{Sd}
use stm32mp257_test_board.Msc.Blocks.{read_blocks, Works, read_blocks-add}

-- Blocks that agree are read alike.
pub read_blocks-same :
    (f g : ℕ → List ℕ) (lba n : ℕ)
    → ((i : ℕ) → lba ≤ i → i < lba + n → f i ≡ g i)
    → read_blocks f lba n ≡ read_blocks g lba n
read_blocks-same f g lba zero h = refl
read_blocks-same f g lba (suc n) h =
    ap₂ ◌++◌ (h lba (omega arith) (omega arith))
      (read_blocks-same f g (lba + 1) n (λ i a b. h i (omega arith) (omega arith)))

module _ (sd : Sd) (works : Works sd) where
  open sd use {Card, sd_size_bytes, sd_write}

  -- `c'` is `c` with `bytes` in the `n` blocks from `lba` on.
  pub record Stored (c : Card) (lba n : ℕ) (bytes : List ℕ) (c' : Card) : Type 0 where
    pub written : read_blocks (works.block c') lba n ≡ bytes
    pub below : (i : ℕ) → i < lba → works.block c' i ≡ works.block c i
    pub above : (i : ℕ) → lba + n ≤ i → works.block c' i ≡ works.block c i
    pub size : sd_size_bytes c' ≡ sd_size_bytes c

  -- A card that works stores what is written inside it.
  pub record Stores : Type 0 where
    pub writes :
        (c : Card) (lba n : ℕ) (bytes : List ℕ)
        → 0 < n
        → lba + n ≤ sd_size_bytes c / 512
        → length bytes ≡ n * 512
        → (sd_write c lba bytes).1 ≡ true
    pub stored :
        (c : Card) (lba n : ℕ) (bytes : List ℕ)
        → 0 < n
        → lba + n ≤ sd_size_bytes c / 512
        → length bytes ≡ n * 512
        → Stored c lba n bytes (sd_write c lba bytes).0

  -- Two writes in a row are one.
  pub Stored-join :
      (c c' c'' : Card) (lba k n m : ℕ) (bytes : List ℕ)
      → k ≤ n
      → Stored c lba k (take m bytes) c'
      → Stored c' (lba + k) (n - k) (drop m bytes) c''
      → Stored c lba n bytes c''
  Stored-join c c' c'' lba k n m bytes h a b = record {
    written =
        ap (read_blocks (works.block c'') lba) whole
        ∙ read_blocks-add (works.block c'') lba k (n - k)
        ∙ ap₂ ◌++◌
            (read_blocks-same (works.block c'') (works.block c') lba k (λ i l u. b.below i u)
              ∙ a.written)
            b.written
        ∙ take-append-drop m bytes;
    below = λ i l. b.below i (omega arith) ∙ a.below i l;
    above = λ i l. b.above i (omega arith) ∙ a.above i (omega arith);
    size = b.size ∙ a.size;
  }
    where
      whole : n ≡ k + (n - k)
      whole = omega arith
