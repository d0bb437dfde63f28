-- ===== src/Cmd/Args.antt =====
-- The arguments of a command line: `parse_args_uint32` of bootloader/src/cmd.c.
pub mod Number
use stm32mp257_test_board.Prelude.{
  ℕ, zero, suc, ◌%◌, ◌^◌, Bool, not, ◌&&◌, ◌||◌, List, [], ◌∷◌, ◌==◌, leb, if◌then◌else◌, get_or,
  drop, length,
}
use stm32mp257_test_board.Cstring.{strtoul}

unfoldable pub my_isspace : ℕ → Bool
my_isspace c = c == b' ' || c == 12 || c == 10 || c == 13 || c == 9 || c == 11

-- `while (*p && !my_isspace(*p)) p++;`
unfoldable pub skip_word : List ℕ → List ℕ
skip_word [] = []
skip_word (c ∷ p) = if not (c == 0) && not (my_isspace c) then skip_word p else c ∷ p

-- `while (*p && my_isspace(*p)) p++;`
unfoldable pub skip_space : List ℕ → List ℕ
skip_space [] = []
skip_space (c ∷ p) = if not (c == 0) && my_isspace c then skip_space p else c ∷ p

unfoldable pub is_name : ℕ → Bool
is_name c = leb b'A' c && leb c b'Z' || leb b'a' c && leb c b'z' || c == b'_'

unfoldable pub skip_letters : List ℕ → List ℕ
skip_letters [] = []
skip_letters (c ∷ p) = if is_name c then skip_letters p else c ∷ p

-- The pointer behind a `name=` prefix. Pointers into one line are equal if as much is left.
unfoldable pub skip_prefix : List ℕ → List ℕ
skip_prefix p =
    let q = skip_letters p in
    if not (length q == length p) && get_or q 0 0 == b'=' then drop 1 q else p

-- The loop, for the arguments that are left to read: how many were counted, and the values stored.
unfoldable pub read_args : ℕ → List ℕ → ℕ × List ℕ
read_args zero p = (0, [])
read_args (suc n) p =
    let p' = skip_prefix p in
    let (value, end) = strtoul p' 0 in
    let (count, values) = read_args n (skip_space end) in
    if get_or p 0 0 == 0
    then (0, [])
    else if length end == length p'
    then (0, (value % 2 ^ 32) ∷ [])
    else (suc count, (value % 2 ^ 32) ∷ values)

unfoldable pub parse_args_uint32 : List ℕ → ℕ × List ℕ
parse_args_uint32 line_buf = read_args 3 (skip_space (skip_word line_buf))
