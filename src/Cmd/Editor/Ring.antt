-- ===== src/Cmd/Editor/Ring.antt =====
-- The history ring of bootloader/src/cmd.c keeps the last eight lines in order.
use stm32mp257_test_board.Prelude.{
  ℕ, zero, suc, ◌+◌, ◌%◌, ◌≤◌, ◌<◌, List, [], ◌∷◌, Option, none, some, length, get_or, ◌==◌,
  if◌then◌else◌, ◌≡◌, refl, ap, ◌∙◌, arith, true, false, Bool-cases, inl, inr,
}
use stm32mp257_test_board.Cmd.Shell.{Shell, line_load, line_erase, cmd_prompt}
use stm32mp257_test_board.Cmd.History.{history_prev, history_next, next_from, prev_index}
use stm32mp257_test_board.Cmd.Line.{Holds, line_load-Holds, length-padded, line_load_nil-Holds}
use stm32mp257_test_board.Cmd.Editor.{
  Editor, older, show_older, newer, show_newer, slot, cursor_slot, CursorIn, Repr,
}

pub buf_size : {s : Shell} {cs : List ℕ} → Holds s cs → length s.line_buf ≡ 32
buf_size {s} {cs} h = ap length h.buf ∙ length-padded cs h.line

-- Loading a past line moves the cursor to it.
load-Repr :
    (s : Shell) (e : Editor) (k : ℕ)
    → Repr s e
    → k < length e.past
    → Repr
        (line_load
          (get_or s.history (slot s.history_head k) [])
          (record s { history_index = some (slot s.history_head k) }))
        (record e { line = get_or e.past k []; cursor = some k })
unfolding line_load line_erase cmd_prompt
load-Repr s e k r h = record {
  holds = rw (r.keeps.stored k h) (
      line_load-Holds (get_or e.past k [])
        (record s { history_index = some (slot s.history_head k) }) (buf_size r.holds)
        (r.keeps.lines k h));
  keeps = r.keeps;
  index = refl;
  cursor_in = h;
  esc = r.esc;
}

older-lt : (count : ℕ) (c : Option ℕ) → 0 < count → CursorIn count c → older count c < count
older-lt count none h i = h
older-lt count (some k) h i = ground arith

-- The index of `history_prev` is the place of the older line.
prev_index-slot :
    (s : Shell) (count : ℕ) (c : Option ℕ)
    → s.history_index ≡ cursor_slot s.history_head c
    → s.history_count ≡ count
    → s.history_head < 8
    → count ≤ 8
    → CursorIn count c
    → prev_index s ≡ slot s.history_head (older count c)
unfolding prev_index
prev_index-slot s count none i n h l t = ground arith
prev_index-slot s count (some k) i n h l t = ground arith

-- Where the static state stands for an editor, `history_prev` shows the next older of the past
-- lines, stays at the oldest, and does nothing without past lines.
pub history_prev-Repr : (s : Shell) (e : Editor) → Repr s e → Repr (history_prev s) (show_older e)
unfolding history_prev show_older
history_prev-Repr s e r = elim (Bool-cases (length e.past == 0)) [
  | inl q ↦ let q' : (s.history_count == 0) ≡ true = rw (← r.keeps.counted) at q in rw (q, q') r
  | inr q ↦
      let q' : (s.history_count == 0) ≡ false = rw (← r.keeps.counted) at q in
      let h : older (length e.past) e.cursor < length e.past =
        older-lt (length e.past) e.cursor (ground arith) r.cursor_in in
      rw
        (
          q,
          q',
          prev_index-slot s (length e.past) e.cursor r.index r.keeps.counted r.keeps.head_in
              r.keeps.room r.cursor_in,
        )
        (load-Repr s e (older (length e.past) e.cursor) r h)
]

next_none : (s : Shell) → s.history_index ≡ none → history_next s ≡ s
unfolding history_next
next_none s e = ap (λ o. next_from o s) e

next_some :
    (s : Shell) (i : ℕ)
    → s.history_index ≡ some i
    → history_next s ≡ (
        if (i + 1) % 8 == s.history_head
        then line_load (0 ∷ []) (record s { history_index = none })
        else line_load
            (get_or s.history ((i + 1) % 8) [])
            (record s { history_index = some ((i + 1) % 8) }))
unfolding history_next
next_some s i e = ap (λ o. next_from o s) e

newest_slot : (head : ℕ) → head < 8 → ((slot head 0 + 1) % 8 == head) ≡ true
newest_slot head h = ground arith

newer_slot :
    (head k : ℕ)
    → head < 8
    → suc k < 8
    → ((slot head (suc k) + 1) % 8 ≡ slot head k) × ((slot head k == head) ≡ false)
newer_slot head k h l = (omega arith, ground arith)

-- Where the static state stands for an editor, `history_next` shows the next newer of the past
-- lines, shows the empty line behind the latest, and does nothing where no past line is shown.
pub history_next-Repr : (s : Shell) (e : Editor) → Repr s e → Repr (history_next s) (show_newer e)
unfolding show_newer
history_next-Repr s e r = go e.cursor r.index r.cursor_in
  where
    go :
        (c : Option ℕ)
        → s.history_index ≡ cursor_slot s.history_head c
        → CursorIn (length e.past) c
        → Repr (history_next s) (newer c e)
    go none i t = rw (next_none s i) r
    go (some zero) i t =
        rw (next_some s _ i, newest_slot s.history_head r.keeps.head_in)
          (unfold line_load line_erase cmd_prompt in
            record {
              holds = line_load_nil-Holds (record s { history_index = none }) (buf_size r.holds);
              keeps = r.keeps;
              index = refl;
              cursor_in = tt;
              esc = r.esc;
            })
    go (some (suc k)) i t =
        let (p, q) = newer_slot s.history_head k r.keeps.head_in (omega (arith, r.keeps.room)) in
        rw (next_some s _ i, p, q) (load-Repr s e k r (omega arith))
