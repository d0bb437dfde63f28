-- ===== src/Cmd/Editor/Add.antt =====
-- `history_add` of bootloader/src/cmd.c puts the entered line in front of the last eight.
use stm32mp257_test_board.Prelude.{
  ℕ, zero, suc, ◌+◌, ◌%◌, ◌<◌, List, [], ◌∷◌, length, length-set, get_or, set, take,
  get_or-set_self, get_or-set_ne, ltb, ◌==◌, if◌then◌else◌, ◌≡◌, ◌≢◌, refl, ap, ap₂, ◌∙◌, arith,
  true, false, Bool-cases, inl, inr, min, length-take, ==_iff,
}
use stm32mp257_test_board.Cstring.{strncpy}
use stm32mp257_test_board.Cmd.Shell.{Shell}
use stm32mp257_test_board.Cmd.History.{history_add}
use stm32mp257_test_board.Cmd.Line.{Holds, IsLine, padded, terminate, copy, length-padded}
use stm32mp257_test_board.Cmd.Editor.{Editor, remember, enter, slot, Keeps, Repr}

get_or-take : (n k : ℕ) (xs : List (List ℕ)) → k < n → get_or (take n xs) k [] ≡ get_or xs k []
get_or-take zero k xs h = absurd (omega arith)
get_or-take (suc n) k [] h = refl
get_or-take (suc n) zero (x ∷ xs) h = refl
get_or-take (suc n) (suc k) (x ∷ xs) h = get_or-take n k xs (omega arith)

slot_newest : (head : ℕ) → head < 8 → slot ((head + 1) % 8) 0 ≡ head
slot_newest head h = omega arith

slot_older :
    (head j : ℕ)
    → head < 8
    → j < 7
    → (slot ((head + 1) % 8) (suc j) ≡ slot head j) × (head ≢ slot head j)
slot_older head j h k = omega arith

module _ (ring : List (List ℕ)) (head count : ℕ) (past : List (List ℕ)) (l : List ℕ)
    (line : IsLine l) (v : Keeps ring head count past) where
  length_kept : length (take 8 (l ∷ past)) ≡ min 8 (suc (length past))
  length_kept = length-take 8 (l ∷ past)

  sizes_kept : (i : ℕ) → i < 8 → length (get_or (set ring head (padded l)) i []) ≡ 32
  sizes_kept i h = elim (Bool-cases (head == i)) [
    | inl e ↦
        let e' : head ≡ i = (==_iff head i).0 e in
        rw (← e', get_or-set_self ring head (padded l) [] (omega (arith, v.slots, v.head_in)))
          (length-padded l line)
    | inr e ↦ rw (get_or-set_ne ring head i (padded l) [] (ground arith)) (v.sizes i h)
  ]

  lines_kept : (k : ℕ) → k < length (take 8 (l ∷ past)) → IsLine (get_or (take 8 (l ∷ past)) k [])
  lines_kept zero h = line
  lines_kept (suc j) h =
      rw (get_or-take 7 j past (omega (arith, length_kept)))
        (v.lines j (omega (arith, length_kept)))

  stored_kept :
      (k : ℕ)
      → k < length (take 8 (l ∷ past))
      → get_or (set ring head (padded l)) (slot ((head + 1) % 8) k) []
        ≡ padded (get_or (take 8 (l ∷ past)) k [])
  stored_kept zero h =
      rw (slot_newest head v.head_in)
        (get_or-set_self ring head (padded l) [] (omega (arith, v.slots, v.head_in)))
  stored_kept (suc j) h =
      let (p, q) = slot_older head j v.head_in (omega (arith, length_kept)) in
      rw
        (
          p,
          get_or-set_ne ring head (slot head j) (padded l) [] q,
          get_or-take 7 j past (omega (arith, length_kept)),
        )
        (v.stored j (omega (arith, length_kept)))

  Keeps-added :
      Keeps
        (set ring head (padded l))
        ((head + 1) % 8)
        (if ltb count 8 then count + 1 else count)
        (take 8 (l ∷ past))
  Keeps-added = record {
    slots = length-set ring head (padded l) ∙ v.slots;
    sizes = sizes_kept;
    head_in = omega arith;
    counted = ground (arith, length_kept, v.counted, v.room);
    room = omega (arith, length_kept);
    lines = lines_kept;
    stored = stored_kept;
  }

-- The terminator that `history_add` and `execute_command` write is there already.
pub terminated : {s : Shell} {l : List ℕ} → Holds s l → set s.line_buf s.line_len 0 ≡ padded l
terminated {s} {l} h = ap₂ (λ b n. set b n 0) h.buf h.len ∙ terminate l (length l) (omega arith)

first_byte : (c : ℕ) → 0 < c → (c == 0) ≡ false
first_byte c h = ground arith

-- Where the static state stands for an editor, `history_add` makes a line that is not empty the
-- latest of at most eight past lines, whatever the ring's position, and leaves the state as it
-- is on an empty line.
pub history_add-Repr : (s : Shell) (e : Editor) → Repr s e → Repr (history_add s) (enter e)
unfolding history_add enter
history_add-Repr s e r = go e.line r.holds
  where
    line : List ℕ
    line = set s.line_buf s.line_len 0

    place : List ℕ
    place = get_or s.history s.history_head []

    kept : Holds (record s { line_buf = line }) e.line
    kept = record { buf = terminated r.holds; len = r.holds.len; line = r.holds.line }

    entry : (l : List ℕ) → Holds s l → set (strncpy place line 32) 31 0 ≡ padded l
    entry l h =
        ap (λ b. set (strncpy place b 32) 31 0) (terminated h)
        ∙ ap (λ b. set b 31 0) (copy place l (r.keeps.sizes s.history_head r.keeps.head_in) h.line)
        ∙ terminate l 31 h.line.fits

    go : (l : List ℕ) → Holds s l → Repr (history_add s) (remember l e)
    go [] h =
        let t : (get_or line 0 0 == 0) ≡ true = ap (λ b. get_or b 0 0 == 0) (terminated h) in
        rw t record {
          holds = kept;
          keeps = r.keeps;
          index = r.index;
          cursor_in = r.cursor_in;
          esc = r.esc;
        }
    go (c ∷ cs) h =
        let t : (get_or line 0 0 == 0) ≡ false =
          ap (λ b. get_or b 0 0 == 0) (terminated h) ∙ first_byte c h.line.text.0 in
        rw t record {
          holds = record { buf = kept.buf; len = kept.len; line = kept.line };
          keeps =
              rw (entry (c ∷ cs) h) (
                Keeps-added s.history s.history_head s.history_count e.past (c ∷ cs) h.line
                  r.keeps);
          index = refl;
          cursor_in = tt;
          esc = r.esc;
        }
