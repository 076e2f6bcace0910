-- ===== src/Process/Fair.antt =====
-- No READY process waits for ever in the table of kernel/process.c.
use mathlib.Core.Path.{subst}
use native.Mathlib.Decide.{ℕ_discrete}
use r5o.Base.{
  ℕ, ◌≤◌, ◌<◌, ◌≡◌, ◌≢◌, refl, true, false, ◌==◌, arith, List, [], ◌∷◌, length, All, ◌⊎◌, Outcome,
  ok, inl, inr, ◌∙◌, sym, ap,
}
use r5o.Cpu.{Csr}
use r5o.Process.{nproc, ProcessDescriptor, running, Machine, runnable, user_interrupt_handler}
use r5o.Process.Select.{distance}
use r5o.Process.Tick.{
  timer_cause, saved, Dispatched, Turn-near, Ran, switched, idle, timer_interrupt-Ran,
}

abbrev pub IsTimer : Csr → Type 0
IsTimer c = c.mcause ≡ timer_cause

-- What the core holds when the interrupt comes is up to the process that ran before it.
abbrev pub interrupted : Machine → Csr → Machine
interrupted m c = record m { csr = c }

-- Saving registers leaves who is runnable.
runnable-saved :
    (kernelvec : ℕ) (m : Machine) (i : ℕ) → runnable ((saved kernelvec m).pd i) ≡ runnable (m.pd i)
runnable-saved kernelvec m i = ground arith

pub running-busy : (p : ProcessDescriptor) → p.state ≡ running → runnable p ≡ false
running-busy p e = ground arith

pub not_eq : (i j : ℕ) → j ≢ i → (i == j) ≡ false
not_eq i j ne = ground arith

distance-shrinks :
    (c j i : ℕ)
    → c < nproc
    → j < nproc
    → i < nproc
    → j ≢ i
    → distance c j ≤ distance c i
    → distance j i < distance c i
unfolding distance
distance-shrinks c j i hc hj hi ne h = omega arith

module _ (kernelvec uservec : ℕ) where
  -- Among the timer interrupts with the registers `cs`, in order, one gives the core to process `i`,
  -- and no interrupt before it stops the kernel.
  abbrev pub Serves : ℕ → List Csr → Machine → Type 0
  Serves i [] m = ⊥
  Serves i (c ∷ cs) m =
      (m' : Machine) × (user_interrupt_handler kernelvec uservec (interrupted m c) ≡ ok tt m')
      × ((m'.current_process ≡ i) ⊎ Serves i cs m')

  -- Who is waiting: `i` is runnable, and the current process is not.
  pub record Waits (i : ℕ) (m : Machine) : Type 0 where
    pub current : m.current_process < nproc
    pub busy : runnable (m.pd m.current_process) ≡ false
    pub in_table : i < nproc
    pub waiting : runnable (m.pd i) ≡ true

  Waits-Dispatched :
      (i j t : ℕ) (m m' : Machine) (c : Csr)
      → Waits i m
      → Dispatched uservec (saved kernelvec (interrupted m c)) m' j t
      → j ≢ i
      → Waits i m'
  Waits-Dispatched i j t m m' c w d ne = record {
    current = subst (λ k. k < nproc) (sym d.current) d.in_table;
    busy =
        ap (λ k. runnable (m'.pd k)) d.current ∙ running-busy (m'.pd j) (ap (λ p. p.state) d.entry);
    in_table = w.in_table;
    waiting =
        let other : (i == j) ≡ false = not_eq i j ne in
        ap runnable (d.others i)
        ∙ rw other (runnable-saved kernelvec (interrupted m c) i ∙ w.waiting);
  }

  -- One interrupt while `i` waits: the core goes to `i`, or nearer to `i`.
  step_nearer :
      (i : ℕ) (m : Machine) (c : Csr) {o : Outcome Machine (Unit {0})}
      → Waits i m
      → Ran uservec (saved kernelvec (interrupted m c)) o
      → (m' : Machine) × (o ≡ ok tt m')
        × ((m'.current_process ≡ i)
            ⊎ (Waits i m' × (distance m'.current_process i < distance m.current_process i)))
  step_nearer i m c w (switched {m'} j t d turn) =
      let here = runnable-saved kernelvec (interrupted m c) in
      let closer =
        Turn-near turn (here m.current_process ∙ w.busy) i w.in_table (here i ∙ w.waiting) in
      (
        m',
        refl,
        elim (ℕ_discrete j i) [
          | yes e ↦ inl (d.current ∙ e)
          | no ne ↦ inr (
            Waits-Dispatched i j t m m' c w d ne,
            subst (λ k. distance k i < distance m.current_process i) (sym d.current)
                (distance-shrinks m.current_process j i w.current d.in_table w.in_table ne closer),
          )
        ],
      )
  step_nearer i m c w (idle h) =
      cc (sym (h i w.in_table) ∙ runnable-saved kernelvec (interrupted m c) i ∙ w.waiting)

  -- A READY process that waits behind the current one is given the core within as many timer
  -- interrupts as it stands places behind, and one more: at most 64.
  pub timer-Serves :
      (i : ℕ) (cs : List Csr) (m : Machine)
      → Waits i m
      → All IsTimer cs
      → distance m.current_process i < length cs
      → Serves i cs m
  timer-Serves i [] m w t lt = absurd (omega arith)
  timer-Serves i (c ∷ cs) m w t lt =
      let ran = timer_interrupt-Ran kernelvec uservec (interrupted m c) w.current t.0 in
      let (m', e, r) = step_nearer i m c w ran in
      (
        m',
        e,
        elim r [
          | inl served ↦ inl served
          | inr on ↦ inr (timer-Serves i cs m' on.0 t.1 (omega (arith, on.1)))
        ],
      )
