-- ===== src/Psci/Pen.antt =====
-- Core 1 in the holding pen of bootloader/drivers/startup.S, between the calls of psci.c.
use stm32mp257_test_board.Prelude.{
  ℕ, some, Bool, not, ◌==◌, if◌then◌else◌, ◌≡◌, ◌≢◌, refl, arith, Bool-cases, inl, inr, true, false,
}
use stm32mp257_test_board.Psci.{
  Psci, cpu_off_fid, cpu_on64, affinity64, psci_smc, cpu_on, affinity_info, to_u64, ret_already_on,
}

-- Core 1 waits in `psci_pen_wait`, runs the kernel at an entry with a context, or has called CPU_OFF
-- and is about to execute `psci_pen_return`.
pub data Core : Type 0 where
  waiting : Core
  running : ℕ → ℕ → Core
  leaving : Core

pub record System : Type 0 where
  pub psci : Psci
  pub core : Core

-- `psci_pen_wait` after an event: released where the mailbox holds an entry.
unfoldable pub pen_wait : Psci → Core
pen_wait s = if s.psci_pen_entry == 0 then waiting else running s.psci_pen_entry s.psci_pen_ctx

-- `psci_pen_return`: clear the mailbox and park.
unfoldable pub pen_return : Psci → Psci
pen_return s = record s { psci_pen_entry = 0 }

-- What the two cores do, one at a time, under three conditions on the callers: core 0 makes no call of
-- CPU_OFF (which clears `core1_on` whichever core makes it), no call of CPU_ON has the entry 0 (which
-- does not release the pen), and none is made while core 1 is between its CPU_OFF and the pen.
pub data Quiet : System → System → Type 0 where
  turn_on :
      (s : System) (entry ctx : ℕ)
      → entry ≢ 0
      → s.core ≢ leaving
      → Quiet s (record s { psci = (psci_smc cpu_on64 1 entry ctx s.psci).1 })
  wake :
      (s : Psci)
      → Quiet (record { psci = s; core = waiting }) (record { psci = s; core = pen_wait s })
  turn_off :
      (s : Psci) (e c : ℕ)
      → Quiet
          (record { psci = s; core = running e c })
          (record { psci = (psci_smc cpu_off_fid 0 0 0 s).1; core = leaving })
  park :
      (s : Psci)
      → Quiet (record { psci = s; core = leaving }) (record { psci = pen_return s; core = waiting })

-- The same with calls of CPU_ON at any time and with any entry, still without a CPU_OFF of core 0.
pub data Step : System → System → Type 0 where
  quiet : {s t : System} → Quiet s t → Step s t
  turn_on_any :
      (s : System) (entry ctx : ℕ)
      → Step s (record s { psci = (psci_smc cpu_on64 1 entry ctx s.psci).1 })

-- At reset: no core 1, and an empty mailbox.
abbrev pub at_reset : ℕ → System
at_reset ctx = record {
  psci = record { core1_on = 0; psci_pen_entry = 0; psci_pen_ctx = ctx };
  core = waiting;
}

pub data Reach : System → Type 0 where
  start : (ctx : ℕ) → Reach (at_reset ctx)
  next : {s t : System} → Reach s → Quiet s t → Reach t

-- Core 1 runs, or has been released: the mailbox that it polls holds an entry.
abbrev pub is_on : Core → ℕ → Bool
is_on waiting entry = not (entry == 0)
is_on (running e c) entry = true
is_on leaving entry = false

abbrev pub HasState : System → Type 0
HasState s = s.psci.core1_on ≡ (if is_on s.core s.psci.psci_pen_entry then 1 else 0)

turn_on-HasState :
    (c : Core) (p : Psci) (entry ctx : ℕ)
    → entry ≢ 0
    → c ≢ leaving
    → HasState (record { psci = p; core = c })
    → HasState (record { psci = (psci_smc cpu_on64 1 entry ctx p).1; core = c })
unfolding psci_smc cpu_on
turn_on-HasState waiting p entry ctx n l h = ground arith
turn_on-HasState (running e c) p entry ctx n l h = ground arith
turn_on-HasState leaving p entry ctx n l h = elim (l refl) [ ]

wake-HasState :
    (s : Psci)
    → HasState (record { psci = s; core = waiting })
    → HasState (record { psci = s; core = pen_wait s })
unfolding pen_wait
wake-HasState s h = elim (Bool-cases (s.psci_pen_entry == 0)) [
  | inl e ↦ rw e h
  | inr e ↦ rw e (rw e at h)
]

Quiet-HasState : {s t : System} → Quiet s t → HasState s → HasState t
unfolding psci_smc pen_return
Quiet-HasState (turn_on s entry ctx n l) h = turn_on-HasState s.core s.psci entry ctx n l h
Quiet-HasState (wake s) h = wake-HasState s h
Quiet-HasState (turn_off s e c) h = refl
Quiet-HasState (park s) h = h

pub Reach-HasState : {s : System} → Reach s → HasState s
Reach-HasState (start ctx) = refl
Reach-HasState (next r q) = Quiet-HasState q (Reach-HasState r)

-- While core 0 makes no CPU_OFF, no CPU_ON is made between core 1's CPU_OFF and its arrival in
-- the pen, and each CPU_ON has an entry other than 0: AFFINITY_INFO of core 1 answers ON (0)
-- where core 1 runs or has been released from the pen, and OFF (1) otherwise, and changes
-- nothing.
pub affinity-Reach :
    (s : System)
    → Reach s
    → psci_smc affinity64 1 0 0 s.psci
      ≡ (some (if is_on s.core s.psci.psci_pen_entry then 0 else 1), s.psci)
unfolding psci_smc affinity_info to_u64
affinity-Reach s r =
    let h = Reach-HasState r in
    elim (Bool-cases (is_on s.core s.psci.psci_pen_entry)) [
      | inl e ↦ let k : s.psci.core1_on ≡ 1 = rw e at h in rw (k, e) refl
      | inr e ↦ let k : s.psci.core1_on ≡ 0 = rw e at h in rw (k, e) refl
    ]

-- Core 1 waits at an empty mailbox, and CPU_ON takes it for running.
pub record IsLost (s : System) : Type 0 where
  pub parked : s.core ≡ waiting
  pub empty : s.psci.psci_pen_entry ≡ 0
  pub taken : s.psci.core1_on ≢ 0

one≢zero : (n : ℕ) → n ≡ 1 → n ≢ 0
one≢zero n e = omega arith

running≢waiting : (e c : ℕ) → running e c ≢ waiting
running≢waiting e c = ground arith

leaving≢waiting : leaving ≢ waiting
leaving≢waiting = ground arith

pub data Steps : System → System → Type 0 where
  done : (s : System) → Steps s s
  more : {s t u : System} → Step s t → Steps t u → Steps s u

turn_on-IsLost :
    (p : Psci) (entry ctx : ℕ)
    → p.core1_on ≢ 0
    → psci_smc cpu_on64 1 entry ctx p ≡ (some (to_u64 ret_already_on), p)
unfolding psci_smc cpu_on
turn_on-IsLost p entry ctx n = ground arith

Step-IsLost : {s t : System} → Step s t → IsLost s → IsLost t
unfolding pen_wait
Step-IsLost (quiet (turn_on s entry ctx n l)) h = rw (turn_on-IsLost s.psci entry ctx h.taken) h
Step-IsLost (quiet (wake s)) h = record {
  parked = rw h.empty refl;
  empty = h.empty;
  taken = h.taken;
}
Step-IsLost (quiet (turn_off s e c)) h = elim (running≢waiting e c h.parked) [ ]
Step-IsLost (quiet (park s)) h = elim (leaving≢waiting h.parked) [ ]
Step-IsLost (turn_on_any s entry ctx) h = rw (turn_on-IsLost s.psci entry ctx h.taken) h

Steps-IsLost : {s t : System} → Steps s t → IsLost s → IsLost t
Steps-IsLost (done s) h = h
Steps-IsLost (more p q) h = Steps-IsLost q (Step-IsLost p h)

-- A CPU_ON that core 0 makes after core 1's CPU_OFF has cleared `core1_on` and before core 1
-- clears the mailbox succeeds and is lost: after core 1's arrival in the pen and any further
-- steps of core 1 and calls of CPU_ON with any entry, as long as core 0 makes no CPU_OFF, core 1
-- waits, and every CPU_ON of it answers ALREADY_ON and changes nothing.
pub turn_on_late-lost :
    (p : Psci) (entry ctx entry' ctx' : ℕ) (t : System)
    → Steps
        (record {
          psci = pen_return (psci_smc cpu_on64 1 entry ctx (psci_smc cpu_off_fid 0 0 0 p).1).1;
          core = waiting;
        })
        t
    → ((psci_smc cpu_on64 1 entry ctx (psci_smc cpu_off_fid 0 0 0 p).1).0 ≡ some 0)
      × (t.core ≡ waiting)
      × (psci_smc cpu_on64 1 entry' ctx' t.psci ≡ (some (to_u64 ret_already_on), t.psci))
unfolding psci_smc cpu_on to_u64 pen_return
turn_on_late-lost p entry ctx entry' ctx' t h =
    let k = Steps-IsLost h (record { parked = refl; empty = refl; taken = one≢zero 1 refl }) in
    (refl, k.parked, turn_on-IsLost t.psci entry' ctx' k.taken)
