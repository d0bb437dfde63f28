-- ===== src/Console/Ring.antt =====
-- The receive ring of bootloader/src/console.c holds a queue of at most 63 bytes.
use stm32mp257_test_board.Prelude.{
  ℕ, zero, suc, ◌+◌, ◌-◌, ◌%◌, ◌<◌, true, false, List, [], ◌∷◌, ◌++◌, ◌==◌, if◌then◌else◌, set,
  get_or, length, length-set, get_or-set_self, get_or-set_ne, arith, ◌≡◌, ◌≢◌, refl, ap, ap₂, sym,
  ltb,
}
use stm32mp257_test_board.Console.{Console, reset, console_push, console_rx_empty, console_rx_get}

pub record IsValid (s : Console) : Type 0 where
  pub storage : length s.rx_buf ≡ 64
  pub head_in : s.rx_head < 64
  pub tail_in : s.rx_tail < 64

-- The number of bytes that wait.
abbrev pub pending : Console → ℕ
pending s = (s.rx_head + 64 - s.rx_tail) % 64

-- The `n` bytes from place `t` on, round the ring.
abbrev pub window : List ℕ → ℕ → ℕ → List ℕ
window buf t zero = []
window buf t (suc n) = get_or buf t 0 ∷ window buf ((t + 1) % 64) n

-- The bytes that wait, the oldest first.
abbrev pub contents : Console → List ℕ
contents s = window s.rx_buf s.rx_tail (pending s)

length-window : (buf : List ℕ) (t n : ℕ) → length (window buf t n) ≡ n
length-window buf t zero = refl
length-window buf t (suc n) = ap suc (length-window buf ((t + 1) % 64) n)

window-set :
    (buf : List ℕ) (c n t i : ℕ)
    → length buf ≡ 64
    → t < 64
    → n < 64
    → i ≡ (t + n) % 64
    → window (set buf i c) t (suc n) ≡ window buf t n ++ (c ∷ [])
window-set buf c zero t i l h k e =
    rw (sym start) (ground (arith, get_or-set_self buf i c 0 (omega arith)))
  where
    start : i ≡ t
    start = omega arith
window-set buf c (suc n) t i l h k e =
    ap₂ ◌∷◌ (get_or-set_ne buf i t c 0 (omega arith))
      (window-set buf c n ((t + 1) % 64) i l (omega arith) (omega arith) (omega arith))

pub reset-IsValid : IsValid reset
reset-IsValid = omega arith

pub push-IsValid : {s : Console} (c : ℕ) → IsValid s → IsValid (console_push s c)
unfolding console_push
push-IsValid {s} c v = ground (arith, length-set s.rx_buf s.rx_head c)

pub get-IsValid : {s : Console} → IsValid s → IsValid (console_rx_get s).1
unfolding console_rx_get
get-IsValid v = ground arith

-- The queue that the ring stands for: NUL and Ctrl-C do not enter it, and a full queue drops.
abbrev pub enqueue : List ℕ → ℕ → List ℕ
enqueue q c =
    if c == 0 then q else if c == 3 then q else if ltb (length q) 63 then q ++ (c ∷ []) else q

pending_next :
    (h t : ℕ)
    → h < 64
    → t < 64
    → (h + 1) % 64 ≢ t
    → ((h + 1) % 64 + 64 - t) % 64 ≡ suc ((h + 64 - t) % 64)
pending_next h t p q ne = omega arith

pending_less :
    (h t : ℕ) → h < 64 → t < 64 → t ≢ h → (h + 64 - t) % 64 ≡ suc ((h + 64 - (t + 1) % 64) % 64)
pending_less h t p q ne = omega arith

-- Where the console's ring is well-formed, `console_push` is the enqueue of a bounded queue of
-- 63 bytes that drops NUL, Ctrl-C and what no longer fits.
pub push_refines :
    {s : Console} (c : ℕ) → IsValid s → contents (console_push s c) ≡ enqueue (contents s) c
unfolding console_push
push_refines {s} c v = ground (
  arith,
  length-window s.rx_buf s.rx_tail (pending s),
  window-set s.rx_buf c (pending s) s.rx_tail s.rx_head v.storage v.tail_in,
  pending_next s.rx_head s.rx_tail v.head_in v.tail_in,
)

pub empty_refines : {s : Console} → IsValid s → console_rx_empty s ≡ (pending s == 0)
unfolding console_rx_empty
empty_refines v = ground arith

-- Where the console's ring is well-formed and not empty, `console_rx_get` gives the oldest byte
-- that waits and leaves the others in order.
pub get_refines :
    {s : Console}
    → IsValid s
    → console_rx_empty s ≡ false
    → contents s ≡ (console_rx_get s).0 ∷ contents (console_rx_get s).1
unfolding console_rx_get console_rx_empty
get_refines {s} v e = ground (arith, pending_less s.rx_head s.rx_tail v.head_in v.tail_in)

-- A read takes one byte.
pub pending_get :
    (c : Console)
    → IsValid c
    → console_rx_empty c ≡ false
    → suc (pending (console_rx_get c).1) ≡ pending c
unfolding console_rx_empty console_rx_get
pending_get c v e = ground arith

pub flag_get : (c : Console) → (console_rx_get c).1.interrupt_flag ≡ c.interrupt_flag
unfolding console_rx_get
flag_get c = refl

pub contents-empty : {c : Console} → IsValid c → console_rx_empty c ≡ true → contents c ≡ []
unfolding console_rx_empty
contents-empty {c} v e = ap (λ n. window c.rx_buf c.rx_tail n) none_left
  where
    none_left : pending c ≡ 0
    none_left = ground arith
