-- ===== src/Process/Tests.antt =====
-- Examples for kernel/process.c.
use r5o.Base.{ℕ, ◌≡◌, ◌<◌, ◌==◌, if◌then◌else◌, refl, true, false, [], ◌∷◌, ok, arith}
use r5o.Cpu.{Csr}
use r5o.Process.{
  ProcessDescriptor, ready, running, Machine, select_process_to_run, run_process,
  user_interrupt_handler,
}
use r5o.Process.Select.{Selected, select-Selected, distance}
use r5o.Process.Mode.{UserMode, run_process-UserMode}
use r5o.Process.Tick.{timer_cause}
use r5o.Process.Timer.{Ticked, timer_interrupt-Ticked}
use r5o.Process.Fair.{Serves, Waits, timer-Serves}
use r5o.Process.Once.{never_served_again}

-- The registers at a timer interrupt.
abbrev ticked : Csr
ticked = record { mstatus = 0; mie = 0; mtvec = 0; mepc = 4096; mcause = timer_cause; satp = 8192 }

abbrev entry : ℕ → ProcessDescriptor
entry i = record {
  sa = record { reg = λ k. 0; epc = 0; satp = 0 };
  slot_allocated = if i == 0 then true else if i == 3 then true else false;
  time_left = 100000;
  state = if i == 0 then running else ready;
}

-- Process 0 runs, and process 3 waits.
abbrev two_processes : Machine
two_processes = record { pd = entry; current_process = 0; csr = ticked }

select-Selected_example : Selected two_processes (select_process_to_run two_processes)
select-Selected_example = select-Selected two_processes (omega arith)

run_process-UserMode_example :
    (m' : Machine) × (run_process 512 two_processes ≡ ok tt m')
    × UserMode 512 (entry 0).sa ticked m'.csr
    × (m'.pd ≡ entry)
    × (m'.current_process ≡ 0)
run_process-UserMode_example = run_process-UserMode 512 two_processes

timer_interrupt-Ticked_example :
    Ticked 512 two_processes (user_interrupt_handler 256 512 two_processes)
timer_interrupt-Ticked_example = timer_interrupt-Ticked 256 512 two_processes (omega arith) refl

three-Waits : Waits 256 512 3 two_processes
three-Waits = record { current = omega arith; busy = refl; in_table = omega arith; waiting = refl }

three_near : distance 0 3 < 3
unfolding distance
three_near = omega arith

timer-Serves_example : Serves 256 512 3 (ticked ∷ ticked ∷ ticked ∷ []) two_processes
timer-Serves_example =
    timer-Serves 256 512 3 (ticked ∷ ticked ∷ ticked ∷ []) two_processes three-Waits
      (refl, (refl, (refl, tt))) three_near

never_served_again_example : ¬ (Serves 256 512 0 (ticked ∷ ticked ∷ []) two_processes)
never_served_again_example =
    never_served_again 256 512 0 (ticked ∷ ticked ∷ []) two_processes (omega arith) refl
      (refl, (refl, tt))
