-- ===== src/Cmd/Editor/Complete.antt =====
-- `cmd_tab_completion` of bootloader/src/cmd.c completes a line that begins one command's name.
use stm32mp257_test_board.Prelude.{
  ℕ, zero, suc, ◌+◌, ◌-◌, ◌≤◌, ◌<◌, List, [], ◌∷◌, ◌++◌, Option, none, some, length, get_or, set,
  take, ◌==◌, ltb, if◌then◌else◌, ◌≡◌, refl, sym, ap, ap₂, ◌∙◌, arith, true, false, Bool-cases, inl,
  inr, is_zero, All, subst, length-append, replicate, length-take,
}
use stm32mp257_test_board.Cstring.{strlen}
use stm32mp257_test_board.Cstring.Copy.{IsText, strlen_lem}
use stm32mp257_test_board.Cstring.{strncmp}
use stm32mp257_test_board.Cstring.Compare.{is_prefix}
use stm32mp257_test_board.Log.{Event, printf, str, chr}
use stm32mp257_test_board.Cmd.Shell.{Shell, Cmd, cmd_list, print}
use stm32mp257_test_board.Cmd.Dispatch.{find_names, append_name, list_names, cmd_tab_completion}
use stm32mp257_test_board.Cmd.Line.{IsLine, append_byte}
use stm32mp257_test_board.Cmd.Editor.{Editor, Repr}
use stm32mp257_test_board.Cmd.Lookup.{
  candidates, find_names_lem, cmd_list-IsTable, text_of, IsName, last_or, IsTable,
}

-- The line that the tab key makes of a line.
abbrev completed : List ℕ → List Cmd → List ℕ
completed line [] = line
completed line (c ∷ []) = text_of c.name
completed line (c ∷ d ∷ cs) = line

pub complete : Editor → Editor
complete e = record e { line = completed e.line (candidates e.line cmd_list) }

-- What is printed and called is no part of the editor.
pub log-Repr : {s : Shell} {e : Editor} (l : List Event) → Repr s e → Repr (record s { log = l }) e
log-Repr l r = record {
  holds = record { buf = r.holds.buf; len = r.holds.len; line = r.holds.line };
  keeps = r.keeps;
  index = r.index;
  cursor_in = r.cursor_in;
  esc = r.esc;
}

take-suc :
    (t : List ℕ) (k : ℕ) → k < length t → take k t ++ get_or (t ++ 0 ∷ []) k 0 ∷ [] ≡ take (suc k) t
take-suc [] k h = absurd (omega arith)
take-suc (c ∷ t) zero h = refl
take-suc (c ∷ t) (suc k) h = ap (λ r. c ∷ r) (take-suc t k (omega arith))

IsText-take : (t : List ℕ) (k : ℕ) → IsText t → IsText (take k t)
IsText-take t zero h = tt
IsText-take [] (suc k) h = tt
IsText-take (c ∷ t) (suc k) h = (h.0, IsText-take t k h.1)

take_all : (t : List ℕ) → take (length t) t ≡ t
take_all [] = refl
take_all (c ∷ t) = ap (λ r. c ∷ r) (take_all t)

-- A byte written at the end of the line.
append-Repr :
    (s : Shell) (e : Editor) (c : ℕ) (l : List Event)
    → Repr s e
    → length e.line ≤ 31
    → IsLine (e.line ++ c ∷ [])
    → Repr
        (record s { line_buf = set s.line_buf s.line_len c; line_len = s.line_len + 1; log = l })
        (record e { line = e.line ++ c ∷ [] })
append-Repr s e c l r h line = record {
  holds = record {
    buf = ap₂ (λ b n. set b n c) r.holds.buf r.holds.len ∙ append_byte e.line c h;
    len = omega (arith, r.holds.len, length-append e.line (c ∷ []));
    line = line;
  };
  keeps = r.keeps;
  index = r.index;
  cursor_in = r.cursor_in;
  esc = r.esc;
}

module _ (t : List ℕ) (text : IsText t) (short : length t ≤ 31) (e : Editor) where
  IsLine-take : (k : ℕ) → IsLine (take k t)
  IsLine-take k = record { text = IsText-take t k text; fits = omega (arith, length-take k t) }

  append_name-Repr :
      (n k : ℕ) (s : Shell)
      → k + n ≡ length t
      → Repr s (record e { line = take k t })
      → Repr (append_name n (t ++ 0 ∷ []) s) (record e { line = t })
  unfolding append_name
  append_name-Repr zero k s q r =
      let q' : k ≡ length t = omega arith in
      subst (λ l. Repr s (record e { line = l })) (ap (λ k. take k t) q' ∙ take_all t) r
  append_name-Repr (suc n) k s q r = append_name-Repr n (suc k) _ (omega arith) (
      subst
        (λ l.
          Repr
            (print "%c" (chr c ∷ [])
              (record s { line_buf = set s.line_buf s.line_len c; line_len = s.line_len + 1 }))
            (record e { line = l }))
        next
        (append-Repr s (record e { line = take k t }) c (s.log ++ printf "%c" (chr c ∷ []) ∷ []) r
          (omega (arith, length-take k t)) (subst IsLine (sym next) (IsLine-take (suc k)))))
    where
      c : ℕ
      c = get_or (t ++ 0 ∷ []) s.line_len 0

      at : s.line_len ≡ k
      at = omega (arith, r.holds.len, length-take k t)

      next : take k t ++ c ∷ [] ≡ take (suc k) t
      next = ap (λ i. take k t ++ get_or (t ++ 0 ∷ []) i 0 ∷ []) at ∙ take-suc t k (omega arith)

-- A candidate's name is well formed and begins with the word.
record Fits (w : List ℕ) (c : Cmd) : Type 0 where
  name : IsName c.name
  prefix : is_prefix w (text_of c.name) ≡ true

candidates-Fits : (w : List ℕ) (cs : List Cmd) → IsTable cs → All (Fits w) (candidates w cs)
unfolding candidates
candidates-Fits w [] t = tt
candidates-Fits w (c ∷ cs) t = elim (Bool-cases (is_prefix w (text_of c.name))) [
  | inl p ↦ rw p (record { name = t.0; prefix = p }, candidates-Fits w cs t.1)
  | inr p ↦ rw p (candidates-Fits w cs t.1)
]

prefix_take :
    (w t : List ℕ) → is_prefix w t ≡ true → (take (length w) t ≡ w) × (length w ≤ length t)
prefix_take [] t p = (refl, omega arith)
prefix_take (x ∷ w) [] p = cc
prefix_take (x ∷ w) (y ∷ t) p = ground (arith, prefix_take w t)

list_names-Repr : (cs : List Cmd) {s : Shell} {e : Editor} → Repr s e → Repr (list_names cs s) e
unfolding list_names
list_names-Repr [] r = r
list_names-Repr (c ∷ cs) {s} r =
    elim (Bool-cases (is_zero (strncmp s.line_buf c.name s.line_len))) [
      | inl p ↦ rw (p, list_names) (list_names-Repr cs (log-Repr _ r))
      | inr p ↦ rw (p, list_names) (list_names-Repr cs r)
    ]

-- `cmd_tab_completion` behind its first loop.
tab_from : Shell → ℕ × Option Cmd → Shell
tab_from s (matches, best) =
    if matches == 1
    then elim best [ none ↦ s | some c ↦ append_name (strlen c.name - s.line_len) c.name s ]
    else if ltb 1 matches
    then print "\r\n> %s" (str s.line_buf ∷ []) (list_names cmd_list (print "\r\n" [] s))
    else s

complete_one :
    (s : Shell) (e : Editor) (c : Cmd)
    → Repr s e
    → Fits e.line c
    → Repr (append_name (strlen c.name - s.line_len) c.name s) (record e { line = text_of c.name })
complete_one s e c r f =
    subst (λ m. Repr (append_name (strlen m - s.line_len) m s) (record e { line = text_of c.name }))
      (sym f.name.split)
      (append_name-Repr (text_of c.name) f.name.text f.name.short e _ (length e.line) s
        (omega (arith, strlen_lem (text_of c.name) [] f.name.text, r.holds.len, fits.1))
        (subst (λ l. Repr s (record e { line = l })) (sym fits.0) r))
  where
    fits :
        (take (length e.line) (text_of c.name) ≡ e.line) × (length e.line ≤ length (text_of c.name))
    fits = prefix_take e.line (text_of c.name) f.prefix

tab_from-Repr :
    (s : Shell) (e : Editor) (cs : List Cmd)
    → Repr s e
    → All (Fits e.line) cs
    → Repr (tab_from s (0 + length cs, last_or none cs)) (record e { line = completed e.line cs })
unfolding tab_from
tab_from-Repr s e [] r f = r
tab_from-Repr s e (c ∷ []) r f = complete_one s e c r f.0
tab_from-Repr s e (c ∷ d ∷ cs) r f =
    let p : (0 + suc (suc (length cs)) == 1) ≡ false = ground arith in
    let q : ltb 1 (0 + suc (suc (length cs))) ≡ true = ground arith in
    rw (p, q) (log-Repr _ (list_names-Repr cmd_list (log-Repr _ r)))

-- Where the static state stands for an editor, `cmd_tab_completion` extends the line to the only
-- command name that the line begins, where there is exactly one, and otherwise leaves line,
-- history and arrow position as they are.
pub cmd_tab_completion-Repr :
    (s : Shell) (e : Editor) → Repr s e → Repr (cmd_tab_completion s) (complete e)
unfolding cmd_tab_completion tab_from complete
cmd_tab_completion-Repr s e r = rw (found) (
    tab_from-Repr s e (candidates e.line cmd_list) r
      (candidates-Fits e.line cmd_list cmd_list-IsTable))
  where
    found :
        find_names s.line_buf s.line_len cmd_list 0 none
        ≡ (0 + length (candidates e.line cmd_list), last_or none (candidates e.line cmd_list))
    found =
        ap₂ (λ b n. find_names b n cmd_list 0 none) r.holds.buf r.holds.len
        ∙ find_names_lem e.line (replicate (32 - length e.line) 0) r.holds.line.text cmd_list 0 none
            cmd_list-IsTable
