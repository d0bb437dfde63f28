-- ===== src/Boot/Region.antt =====
-- The blocks that `load_region` of bootloader/src/boot.c loads.
use stm32mp257_test_board.Prelude.{
  ℕ, zero, suc, ◌+◌, ◌-◌, ◌*◌, ◌%◌, ◌^◌, ◌≤◌, ◌<◌, List, [], Bool, true, ltb, Bool-cases, inl, inr,
  ◌≡◌, ◌≢◌, le→ltb, ltb→lt, refl, ap, ◌∙◌, arith,
}
use stm32mp257_test_board.Log.{printf}
use stm32mp257_test_board.Boot.{Board, Boot, sd_block_size, next_count, say, load_from, load_region}

module _ (board : Board) where
  open board use {hw, sd_read}

  -- What sd.h promises of a read inside the card: it succeeds, it stores the blocks at the
  -- destination and nothing below it, and the card keeps its blocks. `mem w a` are the 512 bytes of
  -- memory from `a` on.
  pub record Stored (block mem : hw.World → ℕ → List ℕ) (lba dest first end : ℕ) (w : hw.World)
      (r : hw.World × Bool) : Type 0 where
    pub ok : r.1 ≡ true
    pub stored :
        (i : ℕ) → first ≤ i → i < end → mem r.0 (dest + i * sd_block_size) ≡ block w (lba + i)
    pub below : (a : ℕ) → a + sd_block_size ≤ dest + first * sd_block_size → mem r.0 a ≡ mem w a
    pub card : (i : ℕ) → block r.0 i ≡ block w i

  pub record Loads : Type 1 where
    pub size : ℕ
    pub size_bound : size ≤ 2 ^ 32
    pub block : hw.World → ℕ → List ℕ
    pub mem : hw.World → ℕ → List ℕ
    pub reads :
        (w : hw.World) (lba dest cnt : ℕ)
        → 0 < cnt
        → lba + cnt ≤ size
        → dest + cnt * sd_block_size ≤ 2 ^ 32
        → Stored block mem lba dest 0 cnt w (sd_read w lba dest (cnt * sd_block_size))

  next_count-positive : (n : ℕ) → 0 < n → 0 < next_count n
  unfolding next_count
  next_count-positive n h = ground arith

  next_count-le : (n : ℕ) → next_count n ≤ n
  unfolding next_count
  next_count-le n = ground arith

  mod_small : (a : ℕ) → a < 2 ^ 32 → a % 2 ^ 32 ≡ a
  mod_small a h = omega arith

  no_index : {n done : ℕ} (i : ℕ) → done ≤ i → i < n → n ≤ done → i ≢ i
  no_index i p q h = omega arith

  module _ (loads : Loads) where
    open loads use {size, size_bound, block, mem, reads}

    chunk-Stored :
        (w : hw.World) (n lba dest done : ℕ)
        → done < n
        → lba + n ≤ size
        → dest + n * sd_block_size ≤ 2 ^ 32
        → Stored block mem (lba + done) (dest + done * sd_block_size) 0 (next_count (n - done)) w (
            sd_read w
              ((lba + done) % 2 ^ 32)
              ((dest + done * sd_block_size) % 2 ^ 32)
              (next_count (n - done) * sd_block_size))
    chunk-Stored w n lba dest done h k l =
        let p = next_count-positive (n - done) (omega arith) in
        let q = next_count-le (n - done) in
        rw
          (
            mod_small (lba + done) (omega arith),
            mod_small (dest + done * sd_block_size) (omega arith),
          )
          (reads w (lba + done) (dest + done * sd_block_size) (next_count (n - done)) p
            (omega arith) (omega arith))

    -- A chunk from `done` on and the rest after it.
    join-Stored :
        (lba dest done cnt n : ℕ) (w : hw.World) (r r' : hw.World × Bool)
        → Stored block mem (lba + done) (dest + done * sd_block_size) 0 cnt w r
        → Stored block mem lba dest (done + cnt) n r.0 r'
        → Stored block mem lba dest done n w r'
    join-Stored lba dest done cnt n w r r' h k = record {
      ok = k.ok;
      stored = λ i p q. elim (Bool-cases (ltb i (done + cnt))) [
        | inl e ↦
            k.below (dest + i * sd_block_size) (ground arith)
            ∙ (ap (mem r.0) (ground arith)
                ∙ (h.stored (i - done) (omega arith) (ground arith) ∙ ap (block w) (omega arith)))
        | inr e ↦ k.stored i (ground arith) q ∙ h.card (lba + i)
      ];
      below = λ a p. k.below a (omega arith) ∙ h.below a (omega arith);
      card = λ i. k.card i ∙ h.card i;
    }

    none-Stored :
        (lba dest done n : ℕ) (w : hw.World)
        → n ≤ done
        → Stored block mem lba dest done n w (w, true)
    none-Stored lba dest done n w h = record {
      ok = refl;
      stored = λ i p q. elim (no_index i p q h refl) [ ];
      below = λ a p. refl;
      card = λ i. refl;
    }

    load_from-Stored :
        (fuel n lba dest done : ℕ) (s : Boot board)
        → n ≤ done + fuel
        → done ≤ n
        → lba + n ≤ size
        → dest + n * sd_block_size ≤ 2 ^ 32
        → let r = load_from board fuel n lba dest done s in
          Stored block mem lba dest done n s.world (r.1.world, r.0)
    unfolding load_from say
    load_from-Stored zero n lba dest done s p q k l =
        rw (le→ltb done n (omega arith)) (none-Stored lba dest done n s.world (omega arith))
    load_from-Stored (suc fuel) n lba dest done s p q k l =
        let cnt = next_count (n - done) in
        let r =
          sd_read s.world ((lba + done) % 2 ^ 32) ((dest + done * sd_block_size) % 2 ^ 32)
            (cnt * sd_block_size) in
        elim (Bool-cases (ltb done n)) [
          | inl e ↦
              let h = ltb→lt done n e in
              let c = chunk-Stored s.world n lba dest done h k l in
              let c1 = next_count-positive (n - done) (omega arith) in
              let c2 = next_count-le (n - done) in
              rw (e, c.ok)
                (join-Stored lba dest done cnt n s.world r _ c (
                  load_from-Stored fuel n lba dest (done + cnt)
                    (say board (printf "." []) (record s { world = r.0 })) (omega arith)
                    (omega arith) k l))
          | inr e ↦ rw e (none-Stored lba dest done n s.world (ground arith))
        ]

    -- On a board whose card keeps what sd.h promises, `load_region` of `n` blocks that lie
    -- inside the card, to a destination that ends by 4 GiB, succeeds; afterwards each block
    -- `i` below `n` stands at its place of the destination, the memory below the destination
    -- is as it was, and so is every block `j` of the card.
    pub load_region-loaded :
        (n lba dest i a j : ℕ) (s : Boot board)
        → lba + n ≤ size
        → dest + n * sd_block_size ≤ 2 ^ 32
        → i < n
        → a + sd_block_size ≤ dest
        → let r = load_region board n lba dest s in
          (r.0 ≡ true)
          × (mem r.1.world (dest + i * sd_block_size) ≡ block s.world (lba + i))
          × (mem r.1.world a ≡ mem s.world a)
          × (block r.1.world j ≡ block s.world j)
    unfolding load_region
    load_region-loaded n lba dest i a j s k l p q =
        let h = load_from-Stored n n lba dest 0 s (omega arith) (omega arith) k l in
        (h.ok, h.stored i (omega arith) p, h.below a (omega arith), h.card j)
