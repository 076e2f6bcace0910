-- ===== src/Boot/Ready.antt =====
-- What `main` of kernel/main.c leaves when it reaches its last loop.
use r5o.Base.{
  ℕ, zero, suc, ◌+◌, ◌*◌, ◌<◌, ◌≤◌, ◌≡◌, refl, sym, ap, ◌∙◌, Bool, true, false, List, [], ◌∷◌,
  arith, ◌==◌, ltb, leb, ◌&&◌, if◌then◌else◌, has, length, update, Outcome, ok, halt, Bool-cases,
  inl, inr, Refines, both_ok, both_halt, ok-injective,
}
use mathlib.Core.List.{append_assoc}
use mathlib.Core.Path.{subst}
use r5o.Console.{Console}
use r5o.Print.{Arg, printf, printf_loop}
use r5o.Print.Pointer.{said, consputc-said}
use r5o.Print.Digits.{Plain}
use r5o.Print.Format.{backwards}
use r5o.Buffers.{Ptr}
use r5o.Disk.{Disk, num}
use r5o.Disk.Device.{Serves}
use r5o.BlockIo.{Io, bsize, logstart, log_data_init}
use r5o.BlockIo.Flat.{Flat, flat, copied, nth, append, Implements}
use r5o.BlockIo.Boot.{Blank, booted, binit-Implements}
use r5o.BlockIo.Log.{log_data-Refines}
use r5o.PageAlloc.{num_pages}
use r5o.PageAlloc.Stack.{Holds}
use r5o.PageAlloc.Init.{page_range, page_alloc_init-Holds}
use r5o.Cpu.{Csr}
use r5o.Cpu.Switches.{Quiet, intr_all_off-Quiet}
use r5o.Process.{select_process_to_run}
use r5o.Process.Init.{process_descriptor_init-nobody}
use r5o.Interrupts.{kernel_interrupt_init}
use r5o.Boot.Registers.{mmio_queue_num_max}
use r5o.Boot.{
  Kernel, boot_text, log_text, done_text, free_loop, clear_pages, negotiate, is_virtio_disk,
  disk_init, main,
}

-- A text whose characters are found to be bytes.
abbrev bytes_only : List ℕ → Bool
bytes_only [] = true
bytes_only (c ∷ cs) = ltb c 256 && bytes_only cs

bytes_only-Plain : (l : List ℕ) → bytes_only l ≡ true → Plain l
bytes_only-Plain [] e = tt
bytes_only-Plain (c ∷ cs) e = (ground arith, bytes_only-Plain cs (ground arith))

-- A format without a '%' is printed as it stands.
printf_loop-said :
    (l : List ℕ) (args : List Arg) (s : Console)
    → bytes_only l ≡ true
    → has 37 l ≡ false
    → s.error_occurred ≡ false
    → printf_loop false l args s ≡ ok tt (said s (backwards l))
unfolding printf_loop
printf_loop-said [] args s p percent alive = refl
printf_loop-said (c ∷ cs) args s p percent alive =
    let plain : (c == 37) ≡ false = ground arith in
    rw (plain, consputc-said s c alive (bytes_only-Plain (c ∷ cs) p).0)
      (printf_loop-said cs args (said s (c ∷ [])) (ground arith) (ground arith) alive
        ∙ ap (λ l. ok tt (record s { sent = l }))
            (sym (append_assoc (backwards cs) (c ∷ []) s.sent)))

-- After `free_loop`, the descriptors in its range are free.
free_loop-free :
    (k i : ℕ) (s : Disk) (j : ℕ)
    → (free_loop k i s).free j ≡ (if leb i j && ltb j (i + k) then true else s.free j)
unfolding free_loop
free_loop-free zero i s j = ground arith
free_loop-free (suc k) i s j =
    free_loop-free k (i + 1) (record s { free = update s.free i true }) j ∙ ground arith

-- The variables of the cache and the driver as the kernel finds them: no buffer is valid or
-- referenced, and no request has been seen.
pub record Untouched (s : Io) : Type 0 where
  pub refcnt : (i : Ptr) → (s.disk.cache i).refcnt ≡ 0
  pub valid : (i : Ptr) → (s.disk.cache i).valid ≡ false
  pub used_idx : s.disk.used_idx ≡ 0

-- `diskInit` makes a blank driver.
abbrev started : Csr → Io → Io
started c s = record s {
  disk = free_loop num 0 (clear_pages (record s.disk { csr = c }));
  block_no = logstart;
  off = 0;
}

started-Blank : (c : Csr) (s : Io) → Quiet c → Untouched s → Blank (started c s).disk
unfolding free_loop
started-Blank c s off u = record {
  refcnt = u.refcnt;
  valid = u.valid;
  idle = record { seen = sym u.used_idx; below = omega (arith, u.used_idx); off = off };
  free = λ j lt. free_loop-free num 0 (clear_pages (record s.disk { csr = c })) j ∙ ground arith;
}

-- What the disk and memory are, with the log's text at the start of its first block.
abbrev with_log : Io → Flat
with_log s = record {
  disk = copied s.disk.medium (logstart * bsize) (nth log_text) 0 (length log_text);
  memory = s.bytes;
  block_no = logstart;
  off = length log_text;
}

log_text-fits : (c : Csr) (s : Io) → append log_text (flat (started c s)) ≡ ok tt (with_log s)
unfolding append free_loop
log_text-fits c s = refl

kernel_interrupt_init-Quiet : (kernelvec : ℕ) (c : Csr) → Quiet (kernel_interrupt_init kernelvec c)
unfolding kernel_interrupt_init
kernel_interrupt_init-Quiet kernelvec c =
    let q = intr_all_off-Quiet c in
    record {
      software = q.software;
      timer = q.timer;
      external = q.external;
      global = q.global;
      previous = q.previous;
    }

-- A run that refines one that returns, returns.
Refines-ok :
    {o : Outcome Io (Unit {0})} {r : Outcome Flat (Unit {0})} (t : Flat)
    → Refines Implements o r
    → r ≡ ok tt t
    → (s : Io) × (o ≡ ok tt s) × Implements s t
Refines-ok t (both_ok {s = s} i) e = (s, refl, subst (Implements s) ((ok-injective e).1) i)
Refines-ok t both_halt e = cc

module _ {V U P : Type 0} (reg : ℕ → V → ℕ) (set_virtio : ℕ → ℕ → V → V) (set_uart : ℕ → ℕ → U → U)
    (set_plic : ℕ → ℕ → P → P) where
  -- What `main` comes to.
  pub data Booted (kernelvec start_page : ℕ) (s : Kernel V U P)
      : Outcome (Kernel V U P) (Unit {0}) → Type 0 where
    no_disk :
        is_virtio_disk reg s.virtio ≡ false
        → Booted kernelvec start_page s (halt "could not find virtio disk")
    no_queue :
        reg mmio_queue_num_max (negotiate reg set_virtio s.virtio) ≡ 0
        → Booted kernelvec start_page s (halt "virtio disk has no queue 0")
    short_queue :
        reg mmio_queue_num_max (negotiate reg set_virtio s.virtio) < num
        → Booted kernelvec start_page s (halt "virtio disk max queue too short")
    ready :
        {s' : Kernel V U P}
        → is_virtio_disk reg s.virtio ≡ true
        → num ≤ reg mmio_queue_num_max (negotiate reg set_virtio s.virtio)
        → Implements s'.io (with_log s.io)
        → Holds s'.alloc (page_range start_page num_pages)
        → select_process_to_run s'.machine ≡ halt "selectProcessToRun: No Process To Run"
        → Quiet s'.machine.csr
        → s'.console ≡ said (said s.console (backwards boot_text)) (backwards done_text)
        → Booted kernelvec start_page s (ok tt s')

  module _ {device : Disk → Disk} (serves : Serves device) (kernelvec start_page pages : ℕ)
      (s : Kernel V U P) (untouched : Untouched s.io)
      (alive : s.console.error_occurred ≡ false) where
    -- `main`, where the cache, the driver and the console are untouched and the virtio device
    -- serves requests, stops with a message exactly where the registers tell no disk, or a queue
    -- of less than 8; or it reaches its last loop. Then the text of the log stands at the start of
    -- block 900, no other byte of the disk has changed, and the cache is in step with it; all 500
    -- pages are free; there is no process to run; no interrupt of the three kinds is enabled, nor
    -- interrupts as a whole; and both messages are printed.
    pub main-Booted :
        Booted kernelvec start_page s
          (main reg set_virtio set_uart set_plic device kernelvec start_page pages s)
    unfolding main disk_init printf free_loop log_data_init
    main-Booted =
        let boot_said = printf_loop-said boot_text [] s.console refl refl alive in
        let done_said =
          printf_loop-said done_text [] (said s.console (backwards boot_text)) refl refl alive in
        let c = kernel_interrupt_init kernelvec (record s.machine.csr { satp = 0 }) in
        let max = reg mmio_queue_num_max (negotiate reg set_virtio s.virtio) in
        rw boot_said (elim (Bool-cases (is_virtio_disk reg s.virtio)) [
          | inr other ↦ rw other (no_disk other)
          | inl disk ↦ elim (Bool-cases (max == 0)) [
            | inl empty ↦ rw (disk, empty) (no_queue (ground arith))
            | inr queue ↦ elim (Bool-cases (ltb max num)) [
              | inl few ↦ rw (disk, queue, few) (short_queue (ground arith))
              | inr enough ↦
                  let (t, e, i) =
                    Refines-ok (with_log s.io)
                      (log_data-Refines serves log_text (booted (started c s.io))
                        (flat (started c s.io)) (omega arith) (omega arith)
                        (binit-Implements (started c s.io) (
                          started-Blank c s.io (kernel_interrupt_init-Quiet kernelvec _)
                            untouched)))
                      (log_text-fits c s.io) in
                  rw (disk, queue, enough, e, done_said)
                    (ready disk (ground arith) i (page_alloc_init-Holds start_page s.alloc)
                      (process_descriptor_init-nobody (record s.machine { csr = c }) _)
                      i.warm.idle.off refl)
            ]
          ]
        ])
