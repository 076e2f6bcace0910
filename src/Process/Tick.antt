-- ===== src/Process/Tick.antt =====
-- The timer interrupt of a user process: kernel/interruptHandler.c with kernel/process.c.
use mathlib.Core.Path.{subst₂}
use r5o.Base.{
  ℕ, ◌+◌, ◌^◌, ◌≤◌, ◌<◌, ◌≡◌, refl, true, false, ◌&&◌, ltb, ◌==◌, arith, if◌then◌else◌, not,
  Outcome, ok, halt, and_then, ◌∙◌, sym, ap,
}
use r5o.Process.{
  nproc, running, time_quantum, Machine, runnable, has_time, save_user, enter_kernel, run_process,
  dispatcher, user_interrupt_handler,
}
use r5o.Process.Select.{distance, Chosen, Selected, runs_on, next, nobody, select-Selected}
use r5o.Process.Mode.{UserMode, run_process-UserMode}

-- `mcause` of a machine timer interrupt: the interrupt bit, and 7.
abbrev pub timer_cause : ℕ
timer_cause = 2 ^ 63 + 7

-- A successful dispatch: process `j` is chosen from `m` for the time `t`, and the core is prepared for
-- it.
pub record Dispatched (uservec : ℕ) (m m' : Machine) (j t : ℕ) : Type 0 where
  pub current : m'.current_process ≡ j
  pub in_table : j < nproc
  pub was : runnable (m.pd j) ≡ true
  pub entry : m'.pd j ≡ record (m.pd j) { time_left = t; state = running }
  pub others : (i : ℕ) → m'.pd i ≡ (if i == j then m'.pd j else m.pd i)
  pub mode : UserMode uservec (m.pd j).sa m.csr m'.csr

-- What the handler sees when it chooses: interrupts off, the user's registers saved.
abbrev pub saved : ℕ → Machine → Machine
saved kernelvec m = save_user (enter_kernel kernelvec m)

timer_dispatches :
    (kernelvec uservec : ℕ) (m : Machine)
    → m.current_process < nproc
    → m.csr.mcause ≡ timer_cause
    → user_interrupt_handler kernelvec uservec m ≡ dispatcher uservec (saved kernelvec m)
unfolding user_interrupt_handler
timer_dispatches kernelvec uservec m lt e =
    let inside : not (ltb m.current_process nproc) ≡ false = ground arith in rw (e, inside) refl

-- Whose turn it is: the current process, where it is runnable and has time left; otherwise the nearest
-- runnable one behind it, for a new quantum.
pub data Turn (m : Machine) : ℕ → ℕ → Type 0 where
  goes_on :
      runnable (m.pd m.current_process) ≡ true
      → has_time (m.pd m.current_process) ≡ true
      → Turn m m.current_process (m.pd m.current_process).time_left
  passes :
      (j : ℕ)
      → (runnable (m.pd m.current_process) && has_time (m.pd m.current_process)) ≡ false
      → ((i : ℕ)
          → i < nproc
          → runnable (m.pd i) ≡ true
          → distance m.current_process j ≤ distance m.current_process i)
      → Turn m j time_quantum

-- Where the current process is not runnable, the turn is that of the nearest one.
pub Turn-near :
    {m : Machine} {j t : ℕ}
    → Turn m j t
    → runnable (m.pd m.current_process) ≡ false
    → (i : ℕ) → i < nproc
    → runnable (m.pd i) ≡ true
    → distance m.current_process j ≤ distance m.current_process i
Turn-near (goes_on was time) busy = cc
Turn-near (passes j off near) busy = near

-- What `dispatcher` comes to.
pub data Ran (uservec : ℕ) (m : Machine) : Outcome Machine (Unit {0}) → Type 0 where
  switched :
      {m' : Machine} (j t : ℕ) → Dispatched uservec m m' j t → Turn m j t → Ran uservec m (ok tt m')
  idle :
      ((i : ℕ) → i < nproc → runnable (m.pd i) ≡ false)
      → Ran uservec m (halt "selectProcessToRun: No Process To Run")

module _ (uservec : ℕ) (m : Machine) where
  Chosen-Dispatched :
      (m' m'' : Machine) (j t : ℕ)
      → Chosen m m' j t
      → UserMode uservec (m'.pd m'.current_process).sa m'.csr m''.csr
      → m''.pd ≡ m'.pd
      → m''.current_process ≡ m'.current_process
      → Dispatched uservec m m'' j t
  Chosen-Dispatched m' m'' j t ch mode pd cur =
      let at_j : (i : ℕ) → m''.pd i ≡ m'.pd i = λ i. ap (λ f. f i) pd in
      record {
        current = cur ∙ ch.current;
        in_table = ch.in_table;
        was = ch.was;
        entry = at_j j ∙ ch.entry;
        others = λ i. at_j i ∙ ch.others i ∙ ap (λ p. if i == j then p else m.pd i) (sym (at_j j));
        mode =
            subst₂ (λ sa c. UserMode uservec sa c m''.csr)
              (ap (λ k. (m'.pd k).sa) ch.current ∙ ap (λ p. p.sa) ch.entry) ch.csr mode;
      }

  Selected-Ran :
      {o : Outcome Machine (Unit {0})}
      → Selected m o
      → Ran uservec m (and_then o (λ _. run_process uservec))
  Selected-Ran (runs_on {m'} ch time) =
      let (m'', e, mode, pd, cur) = run_process-UserMode uservec m' in
      rw e (
        switched m.current_process (m.pd m.current_process).time_left
          (Chosen-Dispatched m' m'' m.current_process _ ch mode pd cur) (goes_on ch.was time))
  Selected-Ran (next {m'} j ch f near) =
      let (m'', e, mode, pd, cur) = run_process-UserMode uservec m' in
      rw e (switched j time_quantum (Chosen-Dispatched m' m'' j _ ch mode pd cur) (passes j f near))
  Selected-Ran (nobody h) = idle h

  dispatcher-Ran : m.current_process < nproc → Ran uservec m (dispatcher uservec m)
  unfolding dispatcher
  dispatcher-Ran lt = Selected-Ran (select-Selected m lt)

module _ (kernelvec uservec : ℕ) where
  -- A timer interrupt saves, and then dispatches.
  pub timer_interrupt-Ran :
      (m : Machine)
      → m.current_process < nproc
      → m.csr.mcause ≡ timer_cause
      → Ran uservec (saved kernelvec m) (user_interrupt_handler kernelvec uservec m)
  timer_interrupt-Ran m lt e =
      rw (timer_dispatches kernelvec uservec m lt e) (dispatcher-Ran uservec (saved kernelvec m) lt)
