-- ===== src/Process/Timer.antt =====
-- What a timer interrupt makes of the process table and the registers: kernel/interruptHandler.c with
-- kernel/process.c.
use mathlib.Core.Path.{subst}
use r5o.Base.{
  ℕ, ◌<◌, ◌≡◌, ◌≢◌, refl, true, false, ◌&&◌, ◌||◌, ◌==◌, arith, if◌then◌else◌, Outcome, ok, halt,
  ◌∙◌, sym, ap, ap₂, ltb, Bool-cases, inl, inr, ==_refl,
}
use r5o.Base.Bits.{bit}
use r5o.Cpu.{intr_all_off}
use r5o.Cpu.Switches.{intr_all_off-bits}
use r5o.Process.{nproc, running, ProcessDescriptor, Machine, runnable, user_interrupt_handler}
use r5o.Process.Tick.{
  timer_cause, saved, Dispatched, Turn, goes_on, passes, Ran, switched, idle, timer_interrupt-Ran,
}

-- An entry of the table once the interrupt has come: the one of the process that ran holds the
-- interrupted program counter and the page table, and no other has changed.
abbrev pub after_save : Machine → ℕ → ProcessDescriptor
after_save m i =
    let p = m.pd i in
    if i == m.current_process
    then record p { sa = record { reg = p.sa.reg; epc = m.csr.mepc; satp = m.csr.satp } }
    else p

-- The process `j` gets the core for the time `t`.
pub record Given (uservec : ℕ) (m m' : Machine) (j t : ℕ) : Type 0 where
  pub current : m'.current_process ≡ j
  pub in_table : j < nproc
  pub was : runnable (m.pd j) ≡ true
  pub entry : m'.pd j ≡ record (after_save m j) { time_left = t; state = running }
  pub others : (i : ℕ) → i ≢ j → m'.pd i ≡ after_save m i
  pub mtvec : m'.csr.mtvec ≡ uservec
  pub satp : m'.csr.satp ≡ (after_save m j).sa.satp
  pub mepc : m'.csr.mepc ≡ (after_save m j).sa.epc
  pub mstatus :
      (i : ℕ)
      → i < 64
      → bit m'.csr.mstatus i
        ≡ (if i == 7 then 1 else if i == 3 || (i == 11 || i == 12) then 0 else bit m.csr.mstatus i)
  pub mie :
      (i : ℕ)
      → i < 64
      → bit m'.csr.mie i ≡ (if i == 7 then 1 else if i == 3 || i == 11 then 0 else bit m.csr.mie i)

pub data Ticked (uservec : ℕ) (m : Machine) : Outcome Machine (Unit {0}) → Type 0 where
  given :
      {m' : Machine} (j t : ℕ) → Given uservec m m' j t → Turn m j t → Ticked uservec m (ok tt m')
  nobody :
      ((i : ℕ) → i < nproc → runnable (m.pd i) ≡ false)
      → Ticked uservec m (halt "selectProcessToRun: No Process To Run")

module _ (kernelvec uservec : ℕ) (m : Machine) where
  same_entry : (i : ℕ) → (saved kernelvec m).pd i ≡ after_save m i
  unfolding intr_all_off
  same_entry i = elim (Bool-cases (i == m.current_process)) [
    | inl here ↦
        let at : i ≡ m.current_process = ground arith in rw at (rw (==_refl m.current_process) refl)
    | inr other ↦
        let apart : (m.current_process == i) ≡ false = ground arith in rw (apart, other) refl
  ]

  same-runnable : (i : ℕ) → runnable ((saved kernelvec m).pd i) ≡ runnable (m.pd i)
  same-runnable i = ground arith

  same_time : (i : ℕ) → ((saved kernelvec m).pd i).time_left ≡ (m.pd i).time_left
  same_time i = ground arith

  Turn-saved : {j t : ℕ} → Turn (saved kernelvec m) j t → Turn m j t
  Turn-saved (goes_on was time) =
      subst (Turn m m.current_process) (sym (same_time m.current_process)) (
        goes_on (sym (same-runnable m.current_process) ∙ was)
          (ap (λ n. ltb 0 n) (sym (same_time m.current_process)) ∙ time))
  Turn-saved (passes j off near) =
      passes j
        (ap₂ (λ a n. a && ltb 0 n) (sym (same-runnable m.current_process))
            (sym (same_time m.current_process))
          ∙ off)
        (λ i lt r. near i lt (same-runnable i ∙ r))

  Dispatched-Given :
      (m' : Machine) (j t : ℕ)
      → Dispatched uservec (saved kernelvec m) m' j t
      → Given uservec m m' j t
  unfolding intr_all_off
  Dispatched-Given m' j t d =
      let off = intr_all_off-bits m.csr in
      record {
        current = d.current;
        in_table = d.in_table;
        was = sym (same-runnable j) ∙ d.was;
        entry =
            d.entry
            ∙ ap (λ (p : ProcessDescriptor). record p { time_left = t; state = running })
                (same_entry j);
        others = λ i ne.
            let apart : (i == j) ≡ false = ground arith in d.others i ∙ rw apart (same_entry i);
        mtvec = d.mode.mtvec;
        satp = d.mode.satp ∙ ap (λ p. p.sa.satp) (same_entry j);
        mepc = d.mode.mepc ∙ ap (λ p. p.sa.epc) (same_entry j);
        mstatus = λ i lt. d.mode.mstatus i lt ∙ ground (arith, (off i lt).1);
        mie = λ i lt. d.mode.mie i ∙ ground (arith, (off i lt).0);
      }

  -- A timer interrupt of a process in the table saves its program counter and page table in its
  -- entry. Then it gives the core to the process whose turn it is, prepared for user mode: that process
  -- if it is READY with time left; otherwise the nearest READY one behind it, with a new quantum. Its
  -- entry becomes RUNNING, and no other part of the table changes; the trap vector, the page table and
  -- the program counter are set for it, the previous privilege is user, and of the interrupts only the
  -- timer is on, from the return to user mode on. It stops with its message exactly where no process is READY.
  pub timer_interrupt-Ticked :
      m.current_process < nproc
      → m.csr.mcause ≡ timer_cause
      → Ticked uservec m (user_interrupt_handler kernelvec uservec m)
  timer_interrupt-Ticked lt e = go (timer_interrupt-Ran kernelvec uservec m lt e)
    where
      go : {o : Outcome Machine (Unit {0})} → Ran uservec (saved kernelvec m) o → Ticked uservec m o
      go (switched {m'} j t d turn) = given j t (Dispatched-Given m' j t d) (Turn-saved turn)
      go (idle none) = nobody (λ i lt. sym (same-runnable i) ∙ none i lt)
