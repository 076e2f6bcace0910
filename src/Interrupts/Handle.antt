-- ===== src/Interrupts/Handle.antt =====
-- What `kernelInterruptHandler` of kernel/interruptHandler.c does with the device that interrupts.
use r5o.Base.{
  ℕ, zero, suc, ◌^◌, ◌%◌, ◌<◌, ◌≡◌, ◌≢◌, refl, sym, ap, false, List, [], ◌∷◌, arith, ◌==◌,
  if◌then◌else◌, bit_and, has, length, Outcome, ok, halt, and_then, Bool-cases, inl, inr,
}
use r5o.Cpu.{intr_all_off}
use r5o.Cpu.Switches.{IntrOff, intr_all_off-IntrOff}
use r5o.Console.{Console}
use r5o.Console.Edit.{Text, Holds, Leaves, leaves, edited, consoleintr-Leaves}
use r5o.Buffers.{Ptr}
use r5o.Disk.{Disk, num, disk_intr}
use r5o.Disk.Answers.{Answers, disk_intr-Answers}
use r5o.Interrupts.{
  uart0_irq, virtio0_irq, Board, on_console, on_disk, uartgetc, uartintr, plic_claim, plic_complete,
  devintr, kernel_interrupt_handler,
}

-- A uart that receives characters: bit 0 of LSR says whether one is waiting, and a read of RHR takes
-- the first. The characters are unsigned chars.
pub record Receives {U : Type 0} (lsr : U → ℕ) (rhr : U → ℕ × U) (waiting : U → List ℕ)
    : Type 0 where
  pub nothing : (u : U) → waiting u ≡ [] → bit_and (lsr u) 1 ≡ 0
  pub something : (u : U) (c : ℕ) (cs : List ℕ) → waiting u ≡ c ∷ cs → bit_and (lsr u) 1 ≡ 1
  pub first : (u : U) (c : ℕ) (cs : List ℕ) → waiting u ≡ c ∷ cs → (rhr u).0 ≡ c
  pub left : (u : U) (c : ℕ) (cs : List ℕ) → waiting u ≡ c ∷ cs → waiting (rhr u).1 ≡ cs
  pub bytes : (u : U) → (rhr u).0 < 256

-- The text after all the characters, in their order.
abbrev pub edited_all : List ℕ → Text → Text
edited_all [] t = t
edited_all (c ∷ cs) t = edited_all cs (edited c t)

module _ {U P : Type 0} {lsr : U → ℕ} {rhr : U → ℕ × U} {waiting : U → List ℕ}
    (receives : Receives lsr rhr waiting) (claim : P → ℕ × P)
    (complete : ℕ → U → Disk → P → P) where
  -- The loop returns with no character waiting, and the console holds the text; nothing else
  -- changes.
  pub data Emptied (s : Board U P) (t : Text) : Outcome (Board U P) (Unit {0}) → Type 0 where
    emptied :
        {c : Console} {u : U}
        → Holds c t
        → waiting u ≡ []
        → Emptied s t (ok tt (record s { console = c; uart = u }))

  Emptied-earlier :
      {s : Board U P} {t : Text} {o : Outcome (Board U P) (Unit {0})} (c : Console) (u : U)
      → Emptied (record s { console = c; uart = u }) t o
      → Emptied s t o
  Emptied-earlier c u (emptied h e) = emptied h e

  uartintr-Emptied :
      (k : ℕ) (l : List ℕ) (t : Text) (s : Board U P)
      → waiting s.uart ≡ l
      → length l < k
      → Holds s.console t
      → Emptied s (edited_all l t) (uartintr lsr rhr claim complete k s)
  unfolding uartintr uartgetc
  uartintr-Emptied zero l t s e fuel h = ground arith
  uartintr-Emptied (suc k) [] t s e fuel h = rw (receives.nothing s.uart e) (emptied h e)
  uartintr-Emptied (suc k) (c ∷ cs) t s e fuel h =
      rw (receives.something s.uart c cs e, receives.first s.uart c cs e)
        (go
          (consoleintr-Leaves c t h
            (rw (sym (receives.first s.uart c cs e)) (receives.bytes s.uart)))
          (λ c' h'. Emptied-earlier c' u (
            uartintr-Emptied k cs (edited c t) (record s { console = c'; uart = u })
              (receives.left s.uart c cs e) (omega arith) h')))
    where
      u : U
      u = (rhr s.uart).1

      go :
          {o : Outcome Console (Unit {0})}
          → Leaves (edited c t) o
          → ((c' : Console)
              → Holds c' (edited c t)
              → Emptied s
                  (edited_all cs (edited c t))
                  (uartintr lsr rhr claim complete k (record s { console = c'; uart = u })))
          → Emptied s (edited_all (c ∷ cs) t) (
              and_then
                (on_console (record s { uart = u }) o)
                (λ _. uartintr lsr rhr claim complete k))
      go (leaves {s = c'} h') rest = rest c' h'

  -- What the handler comes to, where the device has answered requests for the buffers `bs`. An interrupt
  -- of another device is only claimed and completed.
  pub data Handled (s : Board U P) (t : Text) (bs : List Ptr)
      : Outcome (Board U P) (Unit {0}) → Type 0 where
    exception : bit_and s.csr.mcause (2 ^ 63) ≡ 0 → Handled s t bs (halt "trap: Exception Occurred")
    not_external :
        bit_and s.csr.mcause (2 ^ 63) ≢ 0
        → bit_and s.csr.mcause 0xff ≢ 11
        → Handled s t bs (halt "trap: Exception other than external")
    typed :
        {s' : Board U P}
        → (claim s.plic).0 ≡ uart0_irq
        → Holds s'.console (edited_all (waiting s.uart) t)
        → waiting s'.uart ≡ []
        → s'.disk ≡ s.disk
        → s'.plic ≡ complete uart0_irq s'.uart s'.disk (claim s.plic).1
        → IntrOff s.csr s'.csr
        → Handled s t bs (ok tt s')
    moved :
        {s' : Board U P}
        → (claim s.plic).0 ≡ virtio0_irq
        → s'.disk.used_idx ≡ s.disk.used_id % num
        → ((q : Ptr)
            → s'.disk.cache q
              ≡ (if has q bs then record (s.disk.cache q) { disk = false } else s.disk.cache q))
        → s'.console ≡ s.console
        → s'.uart ≡ s.uart
        → s'.plic ≡ complete virtio0_irq s'.uart s'.disk (claim s.plic).1
        → IntrOff s.csr s'.csr
        → Handled s t bs (ok tt s')
    other :
        {s' : Board U P}
        → (claim s.plic).0 ≢ uart0_irq
        → (claim s.plic).0 ≢ virtio0_irq
        → s'.plic ≡ complete (claim s.plic).0 s.uart s.disk (claim s.plic).1
        → s'.console ≡ s.console
        → s'.uart ≡ s.uart
        → s'.disk ≡ s.disk
        → IntrOff s.csr s'.csr
        → Handled s t bs (ok tt s')

  module _ (k : ℕ) (s : Board U P) (t : Text) (bs : List Ptr) (fuel : length (waiting s.uart) < k)
      (holds : Holds s.console t) (below : s.disk.used_idx < num)
      (answers : Answers s.disk s.disk.used_idx bs) where
    -- Interrupts off, and the interrupt claimed.
    entered : Board U P
    entered = record s { csr = intr_all_off s.csr; plic = (claim s.plic).1 }

    typing-Handled :
        {o : Outcome (Board U P) (Unit {0})}
        → (claim s.plic).0 ≡ uart0_irq
        → Emptied entered (edited_all (waiting s.uart) t) o
        → Handled s t bs (and_then o (λ _. plic_complete lsr rhr claim complete (claim s.plic).0))
    unfolding plic_complete entered intr_all_off
    typing-Handled irq (emptied {u = u} h e) =
        typed irq h e refl (ap (λ n. complete n u s.disk (claim s.plic).1) irq)
          (intr_all_off-IntrOff s.csr)

    moving-Handled :
        (claim s.plic).0 ≡ virtio0_irq
        → Handled s t bs (
            and_then
              (on_disk entered (disk_intr s.disk))
              (λ _. plic_complete lsr rhr claim complete (claim s.plic).0))
    unfolding plic_complete entered intr_all_off
    moving-Handled irq =
        let (d, e, idx, cache) = disk_intr-Answers s.disk bs below answers in
        rw e (
          moved irq idx cache refl refl (ap (λ n. complete n s.uart d (claim s.plic).1) irq)
            (intr_all_off-IntrOff s.csr))

    devintr-Handled :
        Handled s t bs (devintr lsr rhr claim complete k (record s { csr = intr_all_off s.csr }))
    unfolding devintr plic_claim plic_complete entered
    devintr-Handled = elim (Bool-cases ((claim s.plic).0 == uart0_irq)) [
      | inl uart ↦ rw uart (
          typing-Handled (ground arith)
            (uartintr-Emptied k (waiting s.uart) t entered refl fuel holds))
      | inr no_uart ↦ elim (Bool-cases ((claim s.plic).0 == virtio0_irq)) [
        | inl virtio ↦ rw (no_uart, virtio) (moving-Handled (ground arith))
        | inr no_device ↦
            rw (no_uart, no_device)
              (other (ground arith) (ground arith) refl refl refl refl (intr_all_off-IntrOff s.csr))
      ]
    ]

    -- `kernelInterruptHandler`, where the uart receives characters, the console holds a text, every
    -- request that the disk has answered was a success, and there are more rounds than waiting
    -- characters, turns interrupts off and does one of the following: it stops at an exception, or
    -- at an interrupt that is not external; or it claims the interrupt, serves it, and then completes
    -- it, when the PLIC finds the uart without a waiting character, for the uart, or the disk without an
    -- answer that was not seen, for the disk. It serves the uart by passing every waiting character to the line editor, in
    -- order (control-p is one to type, like any letter), and the disk by giving back exactly the buffers of the answered requests.
    pub kernel_interrupt_handler-Handled :
        Handled s t bs (kernel_interrupt_handler lsr rhr claim complete k s)
    unfolding kernel_interrupt_handler intr_all_off
    kernel_interrupt_handler-Handled = elim (Bool-cases (bit_and s.csr.mcause (2 ^ 63) == 0)) [
      | inl sync ↦ rw sync (exception (ground arith))
      | inr intr ↦ elim (Bool-cases (bit_and s.csr.mcause 0xff == 11)) [
        | inl external ↦ rw (intr, external) devintr-Handled
        | inr internal ↦ rw (intr, internal) (not_external (ground arith) (ground arith))
      ]
    ]
