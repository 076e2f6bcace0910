-- ===== src/Interrupts.antt =====
-- The interrupts that the devices raise while the kernel runs: kernel/interruptHandler.c but for
-- `userInterruptHandler`, and the reads of kernel/uart.c and kernel/plic.c.
pub mod Handle
mod Tests
use r5o.Base.{
  ℕ, zero, suc, ◌^◌, Bool, not, Option, none, some, ◌==◌, if◌then◌else◌, bit_and, Outcome, ok, halt,
  fault, hung, Cmd, pure, ◌>>=◌, ◌>>◌,
}
use r5o.Cpu.{Csr, intr_all_off}
use r5o.Console.{Console, consoleintr}
use r5o.Disk.{Disk, disk_intr}

-- UART0_IRQ and VIRTIO0_IRQ
abbrev pub uart0_irq : ℕ
uart0_irq = 10

abbrev pub virtio0_irq : ℕ
virtio0_irq = 1

-- The console, the disk driver and the core, with the states `U` of the uart and `P` of the PLIC. The
-- core's registers are `csr`: no handler here reads those of the driver's state, which `diskRW` sets.
pub record Board (U P : Type 0) : Type 0 where
  pub console : Console
  pub disk : Disk
  pub csr : Csr
  pub uart : U
  pub plic : P

module _ {U P : Type 0} where
  abbrev pub on_console : {A : Type 0} → Board U P → Outcome Console A → Outcome (Board U P) A
  on_console s (ok a c) = ok a (record s { console = c })
  on_console s (halt m) = halt m
  on_console s fault = fault
  on_console s hung = hung

  abbrev pub on_disk : {A : Type 0} → Board U P → Outcome Disk A → Outcome (Board U P) A
  on_disk s (ok a d) = ok a (record s { disk = d })
  on_disk s (halt m) = halt m
  on_disk s fault = fault
  on_disk s hung = hung

-- `kernelInterruptInit`; the linker places the trap vector.
unfoldable pub kernel_interrupt_init : ℕ → Csr → Csr
kernel_interrupt_init kernelvec c = record (intr_all_off c) { mtvec = kernelvec }

-- A read of LSR, a read of RHR, which takes the character, and a read and a write of the claim
-- register of the PLIC, which at the write looks at the interrupt lines of both devices again.
module _ {U P : Type 0} (lsr : U → ℕ) (rhr : U → ℕ × U) (claim : P → ℕ × P)
    (complete : ℕ → U → Disk → P → P) where
  -- `none` stands for -1.
  unfoldable pub uartgetc : Cmd (Board U P) (Option ℕ)
  uartgetc s =
      if not (bit_and (lsr s.uart) 0x01 == 0)
      then ok (some (rhr s.uart).0) (record s { uart = (rhr s.uart).1 })
      else ok none s

  abbrev pub take_char : Cmd (Board U P) (Unit {0}) → Option ℕ → Cmd (Board U P) (Unit {0})
  take_char next none = pure tt
  take_char next (some c) = (λ s. on_console s (consoleintr c s.console)) >> next

  -- The loop of `uartintr`, with at most `k` rounds.
  unfoldable pub uartintr : ℕ → Cmd (Board U P) (Unit {0})
  uartintr zero = λ _. hung
  uartintr (suc k) = uartgetc >>= take_char (uartintr k)

  unfoldable pub plic_claim : Cmd (Board U P) ℕ
  plic_claim s = ok (claim s.plic).0 (record s { plic = (claim s.plic).1 })

  unfoldable pub plic_complete : ℕ → Cmd (Board U P) (Unit {0})
  plic_complete irq s = ok tt (record s { plic = complete irq s.uart s.disk s.plic })

  abbrev pub serve : ℕ → ℕ → Cmd (Board U P) (Unit {0})
  serve k irq s =
      let typing = uartintr k s in
      let moving = on_disk s (disk_intr s.disk) in
      if irq == uart0_irq then typing else if irq == virtio0_irq then moving else ok tt s

  -- With at most `k` rounds of `uartintr`.
  unfoldable pub devintr : ℕ → Cmd (Board U P) (Unit {0})
  devintr k = plic_claim >>= (λ irq. serve k irq >> plic_complete irq)

  -- Bit 63 of `mcause` tells an interrupt from an exception, and 11 is an external one.
  unfoldable pub kernel_interrupt_handler : ℕ → Cmd (Board U P) (Unit {0})
  kernel_interrupt_handler k s =
      let s = record s { csr = intr_all_off s.csr } in
      let rest = devintr k s in
      if not (bit_and s.csr.mcause (2 ^ 63) == 0)
      then (if not (bit_and s.csr.mcause 0xff == 11)
          then halt "trap: Exception other than external"
          else rest)
      else halt "trap: Exception Occurred"
