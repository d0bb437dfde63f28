-- ===== src/Cmd/Line.antt =====
-- The line buffer of bootloader/src/cmd.c: the line that is being edited, padded with NULs.
use stm32mp257_test_board.Prelude.{
  ℕ, zero, suc, ◌-◌, ◌≤◌, ◌<◌, List, [], ◌∷◌, ◌++◌, ◌≡◌, refl, sym, ap, ap₂, ◌∙◌, arith, length,
  length-append, length-replicate, set, set-append, take, drop, replicate, append_assoc, true,
  false, Bool-cases, inl, inr, ltb, if◌then◌else◌, ltb→lt,
}
use stm32mp257_test_board.Cstring.{memset, strncpy, strlen}
use stm32mp257_test_board.Cstring.Copy.{IsText, memset_lem, strncpy_lem, strlen_lem}
use stm32mp257_test_board.Cmd.Shell.{Shell, cmd_prompt, line_erase, line_load}
use stm32mp257_test_board.Cmd.Keys.{erase_char, insert_char}

abbrev pub padded : List ℕ → List ℕ
padded cs = cs ++ replicate (32 - length cs) 0

-- A line fits the buffer with its terminator, and holds no NUL.
pub record IsLine (cs : List ℕ) : Type 0 where
  pub text : IsText cs
  pub fits : length cs ≤ 31

-- The buffer holds the line.
pub record Holds (s : Shell) (cs : List ℕ) : Type 0 where
  pub buf : s.line_buf ≡ padded cs
  pub len : s.line_len ≡ length cs
  pub line : IsLine cs

pub length-padded : (cs : List ℕ) → IsLine cs → length (padded cs) ≡ 32
length-padded cs l = omega (
  arith,
  length-append cs (replicate (32 - length cs) 0),
  length-replicate {A = ℕ} (32 - length cs) 0,
  l.fits,
)

-- A padded line is the line, its terminator, and NULs.
pub padded_split :
    (cs : List ℕ) → length cs ≤ 31 → padded cs ≡ cs ++ 0 ∷ replicate (31 - length cs) 0
padded_split cs h =
    ap (λ n. cs ++ replicate n 0) (let e : 32 - length cs ≡ suc (31 - length cs) = omega arith in e)

pub nil-IsLine : IsLine []
nil-IsLine = record { text = tt; fits = omega arith }

drop_all : (n : ℕ) (xs : List ℕ) → length xs ≡ n → drop n xs ≡ []
drop_all zero [] e = refl
drop_all zero (x ∷ xs) e = absurd (omega arith)
drop_all (suc n) [] e = refl
drop_all (suc n) (x ∷ xs) e = drop_all n xs (omega arith)

pub clear : (b : List ℕ) → length b ≡ 32 → memset b 0 32 ≡ padded []
clear b e = memset_lem b 0 32 (omega arith) ∙ rw (drop_all 32 b e)

-- A prompt leaves an empty line.
pub cmd_prompt-Holds : (s : Shell) → length s.line_buf ≡ 32 → Holds (cmd_prompt s) []
unfolding cmd_prompt
cmd_prompt-Holds s e = record { buf = clear s.line_buf e; len = refl; line = nil-IsLine }

pub take_all : (n : ℕ) (xs : List ℕ) → length xs ≤ n → take n xs ≡ xs
take_all zero [] e = refl
take_all zero (x ∷ xs) e = absurd (omega arith)
take_all (suc n) [] e = refl
take_all (suc n) (x ∷ xs) e = ap (λ r. x ∷ r) (take_all n xs (omega arith))

-- Copying a padded line gives that padded line, and its last byte is NUL already.
pub copy : (d cs : List ℕ) → length d ≡ 32 → IsLine cs → strncpy d (padded cs) 32 ≡ padded cs
copy d cs e l =
    ap (λ b. strncpy d b 32) (padded_split cs l.fits)
    ∙ strncpy_lem d cs (replicate (31 - length cs) 0) 32 l.text e
    ∙ rw (take_all 32 cs (omega (arith, l.fits)))

set_nul : (n i : ℕ) → set (replicate n 0) i 0 ≡ replicate {A = ℕ} n 0
set_nul zero i = refl
set_nul (suc n) zero = refl
set_nul (suc n) (suc i) = ap (λ r. 0 ∷ r) (set_nul n i)

set_padding :
    (cs : List ℕ) (n i : ℕ) → length cs ≤ i → set (cs ++ replicate n 0) i 0 ≡ cs ++ replicate n 0
set_padding [] n i h = set_nul n i
set_padding (c ∷ cs) n zero h = absurd (omega arith)
set_padding (c ∷ cs) n (suc i) h = ap (λ r. c ∷ r) (set_padding cs n i (omega arith))

-- A NUL written behind a padded line changes nothing.
pub terminate : (cs : List ℕ) (i : ℕ) → length cs ≤ i → set (padded cs) i 0 ≡ padded cs
terminate cs i h = set_padding cs (32 - length cs) i h

strlen-padded : (cs : List ℕ) → IsLine cs → strlen (padded cs) ≡ length cs
strlen-padded cs l =
    rw (padded_split cs l.fits) (strlen_lem cs (replicate (31 - length cs) 0) l.text)

-- `line_load` of a padded line makes it the line.
pub line_load-Holds :
    (cs : List ℕ) (s : Shell)
    → length s.line_buf ≡ 32
    → IsLine cs
    → Holds (line_load (padded cs) s) cs
unfolding line_load line_erase cmd_prompt
line_load-Holds cs s e l = record {
  buf = loaded;
  len = ap strlen loaded ∙ strlen-padded cs l;
  line = l;
}
  where
    loaded : set (strncpy (memset s.line_buf 0 32) (padded cs) 32) 31 0 ≡ padded cs
    loaded = rw (clear s.line_buf e, copy (padded []) cs refl l) (terminate cs 31 l.fits)

-- A byte written at the end of the line.
pub append_byte :
    (cs : List ℕ) (c : ℕ) → length cs ≤ 31 → set (padded cs) (length cs) c ≡ padded (cs ++ c ∷ [])
append_byte cs c h =
    ap (λ b. set b (length cs) c) (padded_split cs h)
    ∙ set-append cs (replicate (31 - length cs) 0) 0 c
    ∙ sym (append_assoc cs (c ∷ []) (replicate (31 - length cs) 0))
    ∙ ap (λ n. (cs ++ c ∷ []) ++ replicate n 0) (omega (arith, length-append cs (c ∷ [])))

IsText-append : (cs : List ℕ) (c : ℕ) → IsText cs → 0 < c → IsText (cs ++ c ∷ [])
IsText-append [] c t h = (h, tt)
IsText-append (x ∷ cs) c t h = (t.0, IsText-append cs c t.1 h)

IsLine-append : (cs : List ℕ) (c : ℕ) → IsLine cs → 0 < c → length cs < 31 → IsLine (cs ++ c ∷ [])
IsLine-append cs c l h k = record {
  text = IsText-append cs c l.text h;
  fits = omega (arith, length-append cs (c ∷ []));
}

-- The line without its last byte.
abbrev pub drop_last : List ℕ → List ℕ
drop_last [] = []
drop_last (x ∷ []) = []
drop_last (x ∷ y ∷ cs) = x ∷ drop_last (y ∷ cs)

length-drop_last : (x : ℕ) (cs : List ℕ) → length (drop_last (x ∷ cs)) ≡ length cs
length-drop_last x [] = refl
length-drop_last x (y ∷ cs) = ap suc (length-drop_last y cs)

IsText-drop_last : (cs : List ℕ) → IsText cs → IsText (drop_last cs)
IsText-drop_last [] t = tt
IsText-drop_last (x ∷ []) t = tt
IsText-drop_last (x ∷ y ∷ cs) t = (t.0, IsText-drop_last (y ∷ cs) t.1)

set_last :
    (x : ℕ) (cs : List ℕ) (n : ℕ)
    → set (x ∷ cs ++ replicate n 0) (length cs) 0 ≡ drop_last (x ∷ cs) ++ replicate (suc n) 0
set_last x [] n = refl
set_last x (y ∷ cs) n = ap (λ r. x ∷ r) (set_last y cs n)

same_padding :
    (x : ℕ) (cs : List ℕ)
    → length cs ≤ 30
    → suc (32 - suc (length cs)) ≡ 32 - length (drop_last (x ∷ cs))
same_padding x cs h = omega (arith, length-drop_last x cs)

-- The last byte of the line overwritten by NUL.
erase_byte :
    (x : ℕ) (cs : List ℕ)
    → length cs ≤ 30
    → set (padded (x ∷ cs)) (length cs) 0 ≡ padded (drop_last (x ∷ cs))
erase_byte x cs h =
    set_last x cs (32 - suc (length cs))
    ∙ ap (λ n. drop_last (x ∷ cs) ++ replicate n 0) (same_padding x cs h)

-- A byte typed at the end of a line that has room is appended; a full line is left.
pub insert_char-Holds :
    (s : Shell) (cs : List ℕ) (c : ℕ)
    → Holds s cs
    → 0 < c
    → Holds (insert_char c s) (if ltb (length cs) 31 then cs ++ c ∷ [] else cs)
unfolding insert_char
insert_char-Holds s cs c h p = elim (Bool-cases (ltb (length cs) 31)) [
  | inl e ↦
      let e' : ltb s.line_len 31 ≡ true = rw (← h.len) at e in
      rw (e, e')
        record {
          buf = ap₂ (λ b n. set b n c) h.buf h.len ∙ append_byte cs c h.line.fits;
          len = omega (arith, h.len, length-append cs (c ∷ []));
          line = IsLine-append cs c h.line p (ltb→lt _ _ e);
        }
  | inr e ↦ let e' : ltb s.line_len 31 ≡ false = rw (← h.len) at e in rw (e, e') h
]

-- Erasing drops the last byte, and does nothing to an empty line.
pub erase_char-Holds : (s : Shell) (cs : List ℕ) → Holds s cs → Holds (erase_char s) (drop_last cs)
unfolding erase_char
erase_char-Holds s [] h = let e : ltb 0 s.line_len ≡ false = ground (arith, h.len) in rw e h
erase_char-Holds s (x ∷ cs) h =
    let e : ltb 0 s.line_len ≡ true = ground (arith, h.len) in
    rw e record {
      buf = ap₂ (λ b n. set b n 0) h.buf one_less ∙ erase_byte x cs (omega (arith, h.line.fits));
      len = omega (arith, h.len, length-drop_last x cs);
      line = record {
        text = IsText-drop_last (x ∷ cs) h.line.text;
        fits = omega (arith, h.line.fits, length-drop_last x cs);
      };
    }
  where
    one_less : s.line_len - 1 ≡ length cs
    one_less = omega (arith, h.len)

nul_copy : set (strncpy (padded []) (0 ∷ []) 32) 31 0 ≡ padded []
unfolding strncpy
nul_copy = refl

-- `line_load("")` makes the line empty.
pub line_load_nil-Holds : (s : Shell) → length s.line_buf ≡ 32 → Holds (line_load (0 ∷ []) s) []
unfolding line_load line_erase cmd_prompt
line_load_nil-Holds s e = record {
  buf = loaded;
  len = ap strlen loaded ∙ strlen-padded [] nil-IsLine;
  line = nil-IsLine;
}
  where
    loaded : set (strncpy (memset s.line_buf 0 32) (0 ∷ []) 32) 31 0 ≡ padded []
    loaded = rw (clear s.line_buf e) nul_copy
