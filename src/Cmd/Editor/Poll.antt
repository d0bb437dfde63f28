-- ===== src/Cmd/Editor/Poll.antt =====
-- `cmd_poll` of bootloader/src/cmd.c takes all that the console holds, and keeps the invariant.
use stm32mp257_test_board.Prelude.{
  ℕ, zero, suc, ◌<◌, List, [], ◌∷◌, length, ◌==◌, if◌then◌else◌, ◌≡◌, refl, sym, ap, ◌∙◌, arith,
  Bool, true, false, Bool-cases, inl, inr, foldl, replicate, none, get_or,
}
use stm32mp257_test_board.Console.{Console, console_rx_empty, console_rx_get, console_interrupted}
use stm32mp257_test_board.Console.Ring
use stm32mp257_test_board.Console.Ring.{
  contents, pending, get_refines, get-IsValid, pending_get, flag_get, contents-empty,
}
use stm32mp257_test_board.Cmd.Shell.{Shell, reset, cmd_init, cmd_prompt}
use stm32mp257_test_board.Cmd.Keys.{try_handle_escape, handle_byte, drain, cmd_poll}
use stm32mp257_test_board.Cmd.Line.{nil-IsLine}
use stm32mp257_test_board.Cmd.Editor.Complete.{log-Repr}
use stm32mp257_test_board.Cmd.Editor.{Editor, Repr}
use stm32mp257_test_board.Cmd.Editor.Ring.{history_prev-Repr, history_next-Repr}
use stm32mp257_test_board.Cmd.Editor.Step.{step, mode-Repr, edit-Repr, cmd_prompt-Repr}

-- Where the static state stands for an editor, handling any byte, whether it belongs to an
-- escape sequence, ends the line, edits it or asks for completion, leaves a state that stands
-- for the editor after one editing step with that byte.
pub handle_byte-Repr :
    (byte : ℕ) (s : Shell) (e : Editor) → Repr s e → Repr (handle_byte byte s) (step byte e)
unfolding handle_byte try_handle_escape step
handle_byte-Repr byte s e r = elim (Bool-cases (e.mode == 1)) [
  | inl p ↦ elim (Bool-cases (byte == b'[')) [
    | inl q ↦ rw (p, at_mode 1 p, q) (mode-Repr 2 r)
    | inr q ↦ rw (p, at_mode 1 p, q) (mode-Repr 0 r)
  ]
  | inr p ↦ elim (Bool-cases (e.mode == 2)) [
    | inl q ↦ elim (Bool-cases (byte == b'A')) [
      | inl t ↦ rw (p, at_mode 1 p, q, at_mode 2 q, t) (mode-Repr 0 (history_prev-Repr s e r))
      | inr t ↦ elim (Bool-cases (byte == b'B')) [
        | inl u ↦ rw (p, at_mode 1 p, q, at_mode 2 q, t, u) (mode-Repr 0 (history_next-Repr s e r))
        | inr u ↦ rw (p, at_mode 1 p, q, at_mode 2 q, t, u) (mode-Repr 0 r)
      ]
    ]
    | inr q ↦ elim (Bool-cases (byte == 0x1B)) [
      | inl t ↦ rw (p, at_mode 1 p, q, at_mode 2 q, t) (mode-Repr 1 r)
      | inr t ↦ rw (p, at_mode 1 p, q, at_mode 2 q, t) (edit-Repr byte s e r)
    ]
  ]
]
  where
    at_mode : (m : ℕ) {b : Bool} → (e.mode == m) ≡ b → (s.esc_state == m) ≡ b
    at_mode m p = ap (λ x. x == m) r.esc ∙ p

-- Enough fuel for the bytes that wait: the loop handles them in order and leaves the ring empty.
record Drained (c : Console) (s : Shell) (out : Console × Shell) : Type 0 where
  pub shell : out.1 ≡ foldl (λ s' byte. handle_byte byte s') s (contents c)
  pub empty : console_rx_empty out.0 ≡ true
  pub valid : Ring.IsValid out.0
  pub flag : out.0.interrupt_flag ≡ c.interrupt_flag

after_byte :
    (c : Console) (s : Shell) {out : Console × Shell}
    → Ring.IsValid c
    → console_rx_empty c ≡ false
    → Drained (console_rx_get c).1 (handle_byte (console_rx_get c).0 s) out
    → Drained c s out
after_byte c s v p d = record {
  shell = d.shell ∙ sym (ap (foldl (λ s' byte. handle_byte byte s') s) (get_refines v p));
  empty = d.empty;
  valid = d.valid;
  flag = d.flag ∙ flag_get c;
}

drain-Drained :
    (n : ℕ) (c : Console) (s : Shell) → Ring.IsValid c → pending c < n → Drained c s (drain n c s)
unfolding drain
drain-Drained zero c s v h = absurd (omega arith)
drain-Drained (suc n) c s v h = elim (Bool-cases (console_rx_empty c)) [
  | inl p ↦
      rw (p, drain)
        record {
          shell = sym (ap (foldl (λ s' byte. handle_byte byte s') s) (contents-empty v p));
          empty = p;
          valid = v;
          flag = refl;
        }
  | inr p ↦
      rw (p, drain)
        (after_byte c s v p (
          drain-Drained n (console_rx_get c).1 (handle_byte (console_rx_get c).0 s) (get-IsValid v)
            (omega (arith, pending_get c v p))))
]

-- The editor behind a list of bytes.
pub steps : Editor → List ℕ → Editor
steps e q = foldl (λ e' byte. step byte e') e q

foldl-Repr :
    (q : List ℕ) (s : Shell) (e : Editor)
    → Repr s e
    → Repr (foldl (λ s' byte. handle_byte byte s') s q) (foldl (λ e' byte. step byte e') e q)
foldl-Repr [] s e r = r
foldl-Repr (byte ∷ q) s e r = foldl-Repr q _ _ (handle_byte-Repr byte s e r)

pending-lt : (c : Console) → pending c < 64
pending-lt c = omega arith

-- `cmd_poll` behind its loop.
finish : Console → Shell → Console × Shell
finish c s =
    let (interrupted, c') = console_interrupted c in
    if interrupted then (c', cmd_prompt s) else (c', s)

interrupted_lem :
    (c : Console) {b : Bool}
    → c.interrupt_flag ≡ b
    → console_interrupted c
      ≡ (if b then (true, record c { interrupt_flag = false }) else (false, c))
unfolding console_interrupted
interrupted_lem c e =
    ap
      (λ x.
        if◌then◌else◌ {A = Bool × Console} x (true, record c { interrupt_flag = false }) (false, c))
      e

finish-Repr :
    (c : Console) (s : Shell) (e : Editor) (b : Bool)
    → c.interrupt_flag ≡ b
    → Ring.IsValid c
    → console_rx_empty c ≡ true
    → Repr s e
    → Repr (finish c s).1 (if b then record e { line = [] } else e)
      × (console_rx_empty (finish c s).0 ≡ true)
      × Ring.IsValid (finish c s).0
unfolding finish console_rx_empty
finish-Repr c s e true f v n r =
    rw (interrupted_lem c f) (
      cmd_prompt-Repr r,
      n,
      record { storage = v.storage; head_in = v.head_in; tail_in = v.tail_in },
    )
finish-Repr c s e false f v n r = rw (interrupted_lem c f) (r, n, v)

-- The command line implements the abstract line editor. Where the console's ring is well-formed
-- and the static state stands for an editor, `cmd_poll` takes every byte that waits in the ring,
-- in order, and afterwards the state stands for the editor that has taken one editing step for
-- each byte (with the line dropped where Ctrl-C was pressed); the ring is then empty and
-- well-formed, so the 64 rounds of the loop are enough.
pub cmd_poll-Repr :
    (c : Console) (s : Shell) (e : Editor)
    → Ring.IsValid c
    → Repr s e
    → Repr (cmd_poll c s).1 (
        if c.interrupt_flag
        then record (steps e (contents c)) { line = [] }
        else steps e (contents c))
      × (console_rx_empty (cmd_poll c s).0 ≡ true)
      × Ring.IsValid (cmd_poll c s).0
unfolding cmd_poll finish steps
cmd_poll-Repr c s e v r =
    finish-Repr (drain 64 c s).0 (drain 64 c s).1 (steps e (contents c)) c.interrupt_flag d.flag
      d.valid d.empty (rw d.shell (foldl-Repr (contents c) s e r))
  where
    d : Drained c s (drain 64 c s)
    d = drain-Drained 64 c s v (pending-lt c)

abbrev pub blank : Editor
blank = record { line = []; past = []; cursor = none; mode = 0 }

get_or-replicate : (n i : ℕ) (b : List ℕ) → i < n → get_or (replicate n b) i [] ≡ b
get_or-replicate zero i b h = absurd (omega arith)
get_or-replicate (suc n) zero b h = refl
get_or-replicate (suc n) (suc i) b h = get_or-replicate n i b (omega arith)

start : Repr reset blank
start = record {
  holds = record { buf = refl; len = refl; line = nil-IsLine };
  keeps = record {
    slots = refl;
    sizes = λ i h. ap length (get_or-replicate 8 i (replicate 32 0) h);
    head_in = omega arith;
    counted = refl;
    room = omega arith;
    lines = λ k h. absurd (omega arith);
    stored = λ k h. absurd (omega arith);
  };
  index = refl;
  cursor_in = tt;
  esc = refl;
}

-- Behind `cmd_init` the state stands for the empty editor.
pub cmd_init-Repr : Repr (cmd_init reset) blank
unfolding cmd_init
cmd_init-Repr = cmd_prompt-Repr (log-Repr _ start)
