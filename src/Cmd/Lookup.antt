-- ===== src/Cmd/Lookup.antt =====
-- Which command a word names, against the search loops of bootloader/src/cmd.c.
use native.Mathlib.Nat.{add-zero}
use stm32mp257_test_board.Prelude.{
  ℕ, suc, ◌+◌, ◌≤◌, List, [], ◌∷◌, ◌++◌, Option, none, some, length, get_or, ◌==◌, if◌then◌else◌,
  ◌≡◌, refl, sym, ap, ◌∙◌, arith, Bool, true, false, is_zero, All,
}
use stm32mp257_test_board.Cstring.{strncmp}
use stm32mp257_test_board.Cstring.Copy.{IsText}
use stm32mp257_test_board.Cstring.Compare.{is_prefix, strncmp_prefix}
use stm32mp257_test_board.Cmd.Shell.{Cmd, cmd_list}
use stm32mp257_test_board.Cmd.Dispatch.{find_cmd, find_names}

-- The bytes before the terminator.
abbrev pub text_of : List ℕ → List ℕ
text_of [] = []
text_of (c ∷ s) = if c == 0 then [] else c ∷ text_of s

abbrev list_eq : List ℕ → List ℕ → Bool
list_eq [] [] = true
list_eq [] (y ∷ ys) = false
list_eq (x ∷ xs) [] = false
list_eq (x ∷ xs) (y ∷ ys) = if x == y then list_eq xs ys else false

-- A name is terminated, and short enough for the line.
pub record IsName (name : List ℕ) : Type 0 where
  pub split : name ≡ text_of name ++ 0 ∷ []
  pub text : IsText (text_of name)
  pub short : length (text_of name) ≤ 31

abbrev pub IsTable : List Cmd → Type 0
IsTable cs = All (λ c. IsName c.name) cs

-- The commands whose names begin with the word.
unfoldable pub candidates : List ℕ → List Cmd → List Cmd
candidates w [] = []
candidates w (c ∷ cs) =
    if is_prefix w (text_of c.name) then c ∷ candidates w cs else candidates w cs

-- The first command whose name is the word.
unfoldable pub find_exact : List ℕ → List Cmd → Option Cmd
find_exact w [] = none
find_exact w (c ∷ cs) = if list_eq w (text_of c.name) then some c else find_exact w cs

pub data Lookup : Type 0 where
  unknown ambiguous : Lookup
  one : Cmd → Lookup

-- What the number of candidates leaves.
abbrev pub only : List Cmd → Lookup
only [] = unknown
only (c ∷ []) = one c
only (c ∷ d ∷ cs) = ambiguous

-- A name wins over the names that it begins; else the word must begin one name only.
unfoldable pub lookup : List ℕ → List Cmd → Lookup
lookup w cs = elim (find_exact w cs) [ some c ↦ one c | none ↦ only (candidates w cs) ]

-- The count and the match that the search loops leave, from those that they start with.
abbrev pub last_or : Option Cmd → List Cmd → Option Cmd
last_or best [] = best
last_or best (c ∷ cs) = last_or (some c) cs

abbrev pub outcome : Option Cmd → ℕ → Option Cmd → List Cmd → ℕ × Option Cmd
outcome (some c) found best cs = (1, some c)
outcome none found best cs = (found + length cs, last_or best cs)

exact_test :
    (w t : List ℕ)
    → IsText t
    → is_prefix w t ≡ true
    → (get_or (t ++ 0 ∷ []) (length w) 0 == 0) ≡ list_eq w t
exact_test [] [] h p = refl
exact_test [] (y ∷ t) h p = ground arith
exact_test (x ∷ w) [] h p = cc
exact_test (x ∷ w) (y ∷ t) h p = ground (arith, exact_test w t h.1)

not_prefix : (w t : List ℕ) → is_prefix w t ≡ false → list_eq w t ≡ false
not_prefix [] t p = cc
not_prefix (x ∷ w) [] p = refl
not_prefix (x ∷ w) (y ∷ t) p = ground (arith, not_prefix w t)

name_prefix :
    (w r name : List ℕ)
    → IsText w
    → IsName name
    → is_zero (strncmp (w ++ r) name (length w)) ≡ is_prefix w (text_of name)
name_prefix w r name h n =
    ap (λ m. is_zero (strncmp (w ++ r) m (length w))) n.split
    ∙ strncmp_prefix w (text_of name) r [] h

exact_name :
    (w name : List ℕ)
    → IsName name
    → is_prefix w (text_of name) ≡ true
    → (get_or name (length w) 0 == 0) ≡ list_eq w (text_of name)
exact_name w name n p =
    ap (λ m. get_or m (length w) 0 == 0) n.split ∙ exact_test w (text_of name) n.text p

add_suc : (found : ℕ) (cs : List Cmd) → found + 1 + length cs ≡ found + suc (length cs)
add_suc found cs = omega arith

outcome_step :
    (o : Option Cmd) (found : ℕ) (best : Option Cmd) (c : Cmd) (cs : List Cmd)
    → outcome o (found + 1) (some c) cs ≡ outcome o found best (c ∷ cs)
outcome_step none found best c cs = ap (λ n. (n, last_or (some c) cs)) (add_suc found cs)
outcome_step (some d) found best c cs = refl

module _ (w r : List ℕ) (text : IsText w) where
  pub find_cmd_loop :
      (cs : List Cmd) (found : ℕ) (best : Option Cmd)
      → IsTable cs
      → find_cmd (w ++ r) (length w) cs found best
        ≡ outcome (find_exact w cs) found best (candidates w cs)
  unfolding find_cmd find_exact candidates
  find_cmd_loop [] found best t = ap (λ n. (n, best)) (sym (add-zero found))
  find_cmd_loop (c ∷ cs) found best t = ground (
    arith,
    name_prefix w r c.name text t.0,
    exact_name w c.name t.0,
    not_prefix w (text_of c.name),
    find_cmd_loop cs (found + 1) (some c) t.1,
    find_cmd_loop cs found best t.1,
    outcome_step (find_exact w cs) found best c (candidates w cs),
  )

  -- The loop of the tab completion counts the candidates and keeps the last.
  pub find_names_lem :
      (cs : List Cmd) (found : ℕ) (best : Option Cmd)
      → IsTable cs
      → find_names (w ++ r) (length w) cs found best
        ≡ (found + length (candidates w cs), last_or best (candidates w cs))
  unfolding find_names candidates
  find_names_lem [] found best t = ap (λ n. (n, best)) (sym (add-zero found))
  find_names_lem (c ∷ cs) found best t = ground (
    arith,
    name_prefix w r c.name text t.0,
    find_names_lem cs (found + 1) (some c) t.1,
    find_names_lem cs found best t.1,
  )

pub cmd_list-IsTable : IsTable cmd_list
cmd_list-IsTable = (
  record { split = refl; text = omega arith; short = omega arith },
  (
    record { split = refl; text = omega arith; short = omega arith },
    (
      record { split = refl; text = omega arith; short = omega arith },
      (
        record { split = refl; text = omega arith; short = omega arith },
        (
          record { split = refl; text = omega arith; short = omega arith },
          (
            record { split = refl; text = omega arith; short = omega arith },
            (
              record { split = refl; text = omega arith; short = omega arith },
              (
                record { split = refl; text = omega arith; short = omega arith },
                (record { split = refl; text = omega arith; short = omega arith }, tt),
              ),
            ),
          ),
        ),
      ),
    ),
  ),
)
