-- ===== src/Process/Once.antt =====
-- A process that has run is not chosen again: no code of kernel/process.c or
-- kernel/interruptHandler.c makes a RUNNING process READY.
use mathlib.Core.Path.{subst}
use r5o.Base.{
  ℕ, ◌<◌, ◌≡◌, ◌≢◌, false, List, [], ◌∷◌, All, ◌==◌, arith, Outcome, ok, ok-injective, inl, inr,
  ◌∙◌, sym, ap,
}
use r5o.Cpu.{Csr}
use r5o.Process.{nproc, running, Machine, runnable}
use r5o.Process.Tick.{saved, Dispatched, Ran, switched, idle, timer_interrupt-Ran}
use r5o.Process.Fair.{IsTimer, interrupted, Serves, running-busy, not_eq}

-- Inversion of a dispatch that returns.
Ran-ok :
    {uservec : ℕ} {m m' : Machine} {o : Outcome Machine (Unit {0})}
    → Ran uservec m o
    → o ≡ ok tt m'
    → (j : ℕ) × (t : ℕ) × Dispatched uservec m m' j t
Ran-ok {uservec} {m} (switched j t d turn) e =
    (j, t, subst (λ k. Dispatched uservec m k j t) (ok-injective e).1 d)
Ran-ok (idle h) e = cc

module _ (kernelvec uservec : ℕ) where
  -- A RUNNING process is not the one chosen, and stays RUNNING.
  stays_running :
      (i j t : ℕ) (m m' : Machine)
      → (m.pd i).state ≡ running
      → Dispatched uservec (saved kernelvec m) m' j t
      → (j ≢ i) × ((m'.pd i).state ≡ running)
  stays_running i j t m m' r d =
      let ne : j ≢ i = λ e. cc (
        sym d.was
        ∙ ap (λ k. runnable ((saved kernelvec m).pd k)) e
        ∙ running-busy ((saved kernelvec m).pd i) (kept i ∙ r)) in
      let other : (i == j) ≡ false = not_eq i j ne in
      (ne, ap (λ p. p.state) (d.others i) ∙ rw other (kept i ∙ r))
    where
      kept : (k : ℕ) → ((saved kernelvec m).pd k).state ≡ (m.pd k).state
      kept k = ground arith

  -- No timer interrupt gives the core to a process that is RUNNING: once a process has had its
  -- quantum, it is never run again, however many interrupts follow.
  pub never_served_again :
      (i : ℕ) (cs : List Csr) (m : Machine)
      → m.current_process < nproc
      → (m.pd i).state ≡ running
      → All IsTimer cs
      → ¬ (Serves kernelvec uservec i cs m)
  never_served_again i [] m lt r t s = s
  never_served_again i (c ∷ cs) m lt r t (m', e, next) =
      let (j, q, d) = Ran-ok (timer_interrupt-Ran kernelvec uservec (interrupted m c) lt t.0) e in
      let (ne, r') = stays_running i j q (interrupted m c) m' r d in
      elim next [
        | inl here ↦ ne (sym d.current ∙ here)
        | inr later ↦
            never_served_again i cs m' (subst (λ k. k < nproc) (sym d.current) d.in_table) r' t.1
              later
      ]
