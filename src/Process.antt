-- ===== src/Process.antt =====
-- kernel/process.c: the process table, the round-robin choice of a process and the way back to
-- user mode; and `userInterruptHandler` of kernel/interruptHandler.c, which calls them.
pub mod Fair
pub mod Init
pub mod Once
pub mod Select
pub mod Tick
pub mod Timer
pub mod Mode
mod Tests
use r5o.Base.{
  ℕ, zero, suc, ◌+◌, ◌*◌, ◌%◌, ◌^◌, Bool, true, false, ◌&&◌, bit_and, bit_or, ltb, ◌==◌,
  if◌then◌else◌, not, update, ok, halt, fault, Cmd, ◌>>=◌, ◌>>◌,
}
use r5o.Cpu.{Csr, complement, mstatus_mpp, mstatus_mpie, mie_mtie, intr_all_off}

-- NPROC and TimeQuantum
abbrev pub nproc : ℕ
nproc = 64

abbrev pub time_quantum : ℕ
time_quantum = 100000

pub data ProcessState : Type 0 where
  created ready running : ProcessState

pub record SaveArea : Type 0 where
  pub reg : ℕ → ℕ
  pub epc : ℕ
  pub satp : ℕ

pub record ProcessDescriptor : Type 0 where
  pub sa : SaveArea
  pub slot_allocated : Bool
  pub time_left : ℕ
  pub state : ProcessState

-- The globals `pd` and `currentProcess`, and the registers of the core.
pub record Machine : Type 0 where
  pub pd : ℕ → ProcessDescriptor
  pub current_process : ℕ
  pub csr : Csr

-- The loop of `procesDescriptorInit`, from entry `i` with `k` rounds left.
init_loop : ℕ → ℕ → (ℕ → ProcessDescriptor) → ℕ → ProcessDescriptor
init_loop zero i pd = pd
init_loop (suc k) i pd =
    init_loop k (i + 1) (update pd i (record (pd i) { slot_allocated = false }))

unfoldable pub process_descriptor_init : Machine → Machine
unfolding init_loop
process_descriptor_init m = record m { pd = init_loop nproc 0 m.pd; current_process = 0 }

abbrev pub is_ready : ProcessState → Bool
is_ready ready = true
is_ready _ = false

-- The slot is allocated and the process is READY.
abbrev pub runnable : ProcessDescriptor → Bool
runnable p = p.slot_allocated && is_ready p.state

abbrev pub has_time : ProcessDescriptor → Bool
has_time p = ltb 0 p.time_left

-- `currentProcess = (currentProcess + 1) % NPROC`
abbrev pub next_pid : ℕ → ℕ
next_pid c = (c + 1) % 2 ^ 64 % nproc

-- A process gets a new quantum and runs.
abbrev pub start : Machine → Machine
start m = record m {
  pd =
      update m.pd m.current_process
        (record (m.pd m.current_process) { time_left = time_quantum; state = running });
}

-- The current process runs on.
abbrev pub run_on : Machine → Machine
run_on m = record m {
  pd = update m.pd m.current_process (record (m.pd m.current_process) { state = running });
}

-- The loop of `selectProcessToRun`, with `k` rounds left.
unfoldable pub search_loop : ℕ → Cmd Machine (Unit {0})
search_loop zero m = halt "selectProcessToRun: No Process To Run"
search_loop (suc k) m =
    let rest = search_loop k (record m { current_process = next_pid m.current_process }) in
    if runnable (m.pd m.current_process) then ok tt (start m) else rest

unfoldable pub select_process_to_run : Cmd Machine (Unit {0})
select_process_to_run m =
    let cur = m.pd m.current_process in
    if not (ltb m.current_process nproc)
    then fault
    else if runnable cur && has_time cur
    then ok tt (run_on m)
    else search_loop nproc (record m { current_process = next_pid m.current_process })

-- The address of the user trap vector, which the linker places.
module _ (uservec : ℕ) where
  -- `runProcess` up to `userret`, which loads the registers of the process and enters user mode.
  unfoldable pub run_process : Cmd Machine (Unit {0})
  run_process m =
      let sa = (m.pd m.current_process).sa in
      ok tt (record m {
        csr = record m.csr {
          mtvec = uservec;
          mstatus = bit_or (bit_and m.csr.mstatus (complement mstatus_mpp)) mstatus_mpie;
          mie = bit_or m.csr.mie mie_mtie;
          satp = sa.satp;
          mepc = sa.epc;
        };
      })

  unfoldable pub dispatcher : Cmd Machine (Unit {0})
  dispatcher = select_process_to_run >> run_process

-- The saves of `userInterruptHandler`.
abbrev pub save_user : Machine → Machine
save_user m =
    let p = m.pd m.current_process in
    record m {
      pd =
          update m.pd m.current_process
            (record p { sa = record p.sa { satp = m.csr.satp; epc = m.csr.mepc } });
    }

abbrev pub enter_kernel : ℕ → Machine → Machine
enter_kernel kernelvec m = record m { csr = record (intr_all_off m.csr) { mtvec = kernelvec } }

-- Bit 63 of `mcause` tells an interrupt from an exception, and 7 is the timer. The addresses of both
-- trap vectors are the linker's.
unfoldable pub user_interrupt_handler : (kernelvec uservec : ℕ) → Cmd Machine (Unit {0})
user_interrupt_handler kernelvec uservec m =
    if not (bit_and m.csr.mcause mstatus_mpp == 0)
    then halt "userInterruptHandler: not from user mode"
    else if not (ltb m.current_process nproc)
    then fault
    else if bit_and m.csr.mcause (2 ^ 63) == 0
    then halt "userInterruptHandler: Exception Occurred"
    else if bit_and m.csr.mcause 0xff == 7
    then dispatcher uservec (save_user (enter_kernel kernelvec m))
    else halt "userInterruptHandler: undefined interrupt occured"
