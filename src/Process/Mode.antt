-- ===== src/Process/Mode.antt =====
-- `runProcess` of kernel/process.c prepares the core for user mode.
use r5o.Base.{ℕ, ◌<◌, ◌≡◌, refl, ◌||◌, ◌^◌, arith, ◌==◌, if◌then◌else◌, bit_and, ◌∙◌, ok}
use r5o.Base.Bits.{bit, bit-bit_or, bit-pow}
use r5o.Cpu.{Csr, complement, mstatus_mpp}
use r5o.Cpu.Switches.{bit-set, bit-clear}
use r5o.Process.{SaveArea, Machine, run_process}

-- The core as user mode with save area `sa` wants it, where `old` are the registers before: the trap vector is
-- `uservec`; the program counter and the page table are those of `sa`; of `mstatus` the previous
-- privilege (bits 12 and 11) is user and interrupts come back on (bit 7); of `mie` the timer (bit 7)
-- is on; all other bits are as before.
pub record UserMode (uservec : ℕ) (sa : SaveArea) (old csr : Csr) : Type 0 where
  pub mtvec : csr.mtvec ≡ uservec
  pub satp : csr.satp ≡ sa.satp
  pub mepc : csr.mepc ≡ sa.epc
  pub mstatus :
      (i : ℕ)
      → i < 64
      → bit csr.mstatus i
        ≡ (if i == 7 then 1 else if i == 11 || i == 12 then 0 else bit old.mstatus i)
  pub mie : (i : ℕ) → bit csr.mie i ≡ (if i == 7 then 1 else bit old.mie i)

mpp-bits : (i : ℕ) → bit mstatus_mpp i ≡ (if i == 11 || i == 12 then 1 else 0)
mpp-bits i = bit-bit_or (2 ^ 11) (2 ^ 12) i ∙ ground (arith, bit-pow 11 i, bit-pow 12 i)

module _ (uservec : ℕ) where
  -- `runProcess` returns with the core prepared for the current process; the process table and the
  -- choice of the process stay as they are.
  pub run_process-UserMode :
      (m : Machine)
      → (m' : Machine) × (run_process uservec m ≡ ok tt m')
        × UserMode uservec (m.pd m.current_process).sa m.csr m'.csr
        × (m'.pd ≡ m.pd)
        × (m'.current_process ≡ m.current_process)
  unfolding run_process
  run_process-UserMode m = (
    _,
    refl,
    record {
      mtvec = refl;
      satp = refl;
      mepc = refl;
      mstatus = λ i lt.
          bit-set (bit_and m.csr.mstatus (complement mstatus_mpp)) 7 i
          ∙ ground (arith, bit-clear m.csr.mstatus mstatus_mpp i (omega arith) lt, mpp-bits i);
      mie = λ i. bit-set m.csr.mie 7 i;
    },
    refl,
    refl,
  )
