-- ===== src/Process/Init.antt =====
-- `procesDescriptorInit` of kernel/process.c.
use r5o.Base.{
  ℕ, zero, suc, ◌+◌, ◌<◌, ◌≡◌, refl, true, false, update, ◌&&◌, ltb, leb, arith, if◌then◌else◌, ◌∙◌,
  Outcome, halt, sym, ap,
}
use r5o.Cpu.{Csr}
use r5o.Process.{
  nproc, ProcessDescriptor, Machine, runnable, process_descriptor_init, init_loop,
  select_process_to_run,
}
use r5o.Process.Select.{Selected, runs_on, next, nobody, select-Selected}

init_loop-get :
    (k i : ℕ) (pd : ℕ → ProcessDescriptor) (j : ℕ)
    → init_loop k i pd j
      ≡ (if leb i j && ltb j (i + k) then record (pd j) { slot_allocated = false } else pd j)
unfolding init_loop
init_loop-get zero i pd j = ground arith
init_loop-get (suc k) i pd j =
    let pd' = update pd i (record (pd i) { slot_allocated = false }) in
    ground (arith, init_loop-get k (i + 1) pd' j)

-- After `procesDescriptorInit` no process can be chosen: `selectProcessToRun` stops with its
-- message, whatever the registers of the core are.
pub process_descriptor_init-nobody :
    (m : Machine) (c : Csr)
    → select_process_to_run (record (process_descriptor_init m) { csr = c })
      ≡ halt "selectProcessToRun: No Process To Run"
unfolding process_descriptor_init
process_descriptor_init-nobody m c =
    go (select-Selected (record (process_descriptor_init m) { csr = c }) (omega arith))
  where
    idle : (i : ℕ) → i < nproc → runnable ((process_descriptor_init m).pd i) ≡ false
    idle i lt =
        let inside : (leb 0 i && ltb i (0 + nproc)) ≡ true = ground arith in
        ap runnable (init_loop-get nproc 0 m.pd i) ∙ rw inside refl

    go :
        {o : Outcome Machine (Unit {0})}
        → Selected (record (process_descriptor_init m) { csr = c }) o
        → o ≡ halt "selectProcessToRun: No Process To Run"
    go (runs_on chosen time) = cc (sym chosen.was ∙ idle _ chosen.in_table)
    go (next j chosen off near) = cc (sym chosen.was ∙ idle j chosen.in_table)
    go (nobody none) = refl
