-- ===== src/Boot.antt =====
-- kernel/main.c, from the entry of `main` to its last loop, with `diskInit` of kernel/disk.c,
-- `uartinit` of kernel/uart.c and the set-up of kernel/plic.c.
pub mod Ready
pub mod Registers
mod Tests
use r5o.Base.{
  ℕ, zero, suc, ◌+◌, ◌*◌, ◌/◌, ◌%◌, ◌^◌, Bool, true, not, none, some, List, [], ◌∷◌, ◌&&◌, ◌||◌,
  ◌==◌, ltb, if◌then◌else◌, bit_and, update, Outcome, ok, halt, fault, hung, Cmd, pure, ◌>>=◌, ◌>>◌,
}
use r5o.Cpu.{complement}
use r5o.Buffers.{binit}
use r5o.Console.{Console}
use r5o.Print.{printf}
use r5o.Disk.{Disk, Desc, num, null}
use r5o.BlockIo.{Io, log_data, log_data_init}
use r5o.PageAlloc.{Alloc, page_alloc_init}
use r5o.Process.{Machine, process_descriptor_init}
use r5o.Interrupts.{uart0_irq, virtio0_irq, kernel_interrupt_init}
use r5o.Boot.Registers.{
  mmio_magic_value, mmio_version, mmio_device_id, mmio_vendor_id, mmio_device_features,
  mmio_driver_features, mmio_guest_page_size, mmio_queue_sel, mmio_queue_num_max, mmio_queue_num,
  mmio_queue_pfn, mmio_status, bit_ro, bit_scsi, bit_config_wce, bit_mq, bit_any_layout,
  bit_event_idx, bit_indirect_desc,
}

-- The three texts of `main`.
abbrev pub boot_text : List ℕ
boot_text =
    10 ∷ 82 ∷ 53 ∷ 79 ∷ 53 ∷ 32 ∷ 107 ∷ 101 ∷ 114 ∷ 110 ∷ 101 ∷ 108 ∷ 32 ∷ 105 ∷ 115 ∷ 32 ∷ 98 ∷ 111
    ∷ 111 ∷ 116 ∷ 105 ∷ 110 ∷ 103 ∷ 10 ∷ 10 ∷ []

abbrev pub log_text : List ℕ
log_text =
    84 ∷ 104 ∷ 105 ∷ 115 ∷ 32 ∷ 100 ∷ 97 ∷ 116 ∷ 97 ∷ 32 ∷ 119 ∷ 111 ∷ 117 ∷ 108 ∷ 100 ∷ 32 ∷ 98
    ∷ 101 ∷ 32 ∷ 112 ∷ 108 ∷ 97 ∷ 99 ∷ 101 ∷ 100 ∷ 32 ∷ 105 ∷ 110 ∷ 116 ∷ 111 ∷ 32 ∷ 116 ∷ 104 ∷ 101
    ∷ 32 ∷ 100 ∷ 105 ∷ 115 ∷ 107 ∷ 32 ∷ 32 ∷ 32 ∷ 32 ∷ 32 ∷ 10 ∷ 102 ∷ 114 ∷ 111 ∷ 109 ∷ 32 ∷ 116
    ∷ 104 ∷ 101 ∷ 32 ∷ 115 ∷ 116 ∷ 97 ∷ 114 ∷ 116 ∷ 105 ∷ 110 ∷ 103 ∷ 32 ∷ 111 ∷ 102 ∷ 32 ∷ 116
    ∷ 104 ∷ 101 ∷ 32 ∷ 108 ∷ 111 ∷ 103 ∷ 32 ∷ 98 ∷ 108 ∷ 111 ∷ 99 ∷ 107 ∷ 115 ∷ 10 ∷ []

abbrev pub done_text : List ℕ
done_text = 100 ∷ 111 ∷ 110 ∷ 101 ∷ 32 ∷ 33 ∷ 10 ∷ []

-- The state of the parts, where the driver's `csr` and the machine's are the same registers from
-- `kernelInterruptInit` on, and of the three devices that are set up: the virtio device, the uart and
-- the PLIC.
pub record Kernel (V U P : Type 0) : Type 0 where
  pub console : Console
  pub io : Io
  pub alloc : Alloc
  pub machine : Machine
  pub virtio : V
  pub uart : U
  pub plic : P

-- `features &= ~(1 << k)`, on uint64.
abbrev pub without : ℕ → ℕ → ℕ
without k features = bit_and features (complement (2 ^ k))

abbrev pub driver_features : ℕ → ℕ
driver_features features = without bit_indirect_desc (
    without bit_event_idx (
      without bit_any_layout
        (without bit_mq (without bit_config_wce (without bit_scsi (without bit_ro features))))))

-- The loop that makes the descriptors free, from `i` with `k` rounds left.
unfoldable pub free_loop : ℕ → ℕ → Disk → Disk
free_loop zero i s = s
free_loop (suc k) i s = free_loop k (i + 1) (record s { free = update s.free i true })

-- `memset(disk.pages, 0, sizeof(disk.pages))`: the descriptors, `avail` and the used area are there.
abbrev pub clear_pages : Disk → Disk
clear_pages s = record s {
  desc = λ i. record { addr = null; len = 0; flags = 0; next = 0 };
  avail = λ i. 0;
  used_id = 0;
  elems = λ i. 0;
}

-- `set` writes a value to a register of the uart, or to a word of the PLIC, by its offset.
module _ {D : Type 0} (set : ℕ → ℕ → D → D) where
  unfoldable pub uartinit : D → D
  uartinit u =
      set 1 0x01 (set 2 0x07 (set 3 0x03 (set 1 0x00 (set 0 0x03 (set 3 0x80 (set 1 0x00 u))))))

  unfoldable pub plicinit : D → D
  plicinit p = set (virtio0_irq * 4) 1 (set (uart0_irq * 4) 1 p)

  -- PLIC_MENABLE and PLIC_MPRIORITY of core 0.
  unfoldable pub plicinithart : D → D
  plicinithart p = set 0x200000 0 (set 0x2000 (2 ^ uart0_irq + 2 ^ virtio0_irq) p)

-- `reg` reads a register of the virtio device, and `set` writes to one, by its offset.
module _ {V : Type 0} (reg : ℕ → V → ℕ) where
  -- The four registers that tell the disk.
  abbrev pub is_virtio_disk : V → Bool
  is_virtio_disk v =
      reg mmio_magic_value v == 0x74726976
      && (reg mmio_version v == 1
          && (reg mmio_device_id v == 2 && (reg mmio_vendor_id v == 0x554d4551)))

  -- The status becomes 1, 3, 11 and 15, and the features are chosen after the second.
  unfoldable pub negotiate : (ℕ → ℕ → V → V) → V → V
  negotiate set v =
      let v = set mmio_status 3 (set mmio_status 1 v) in
      let features = driver_features (reg mmio_device_features v) in
      let v = set mmio_driver_features (features % 2 ^ 32) v in
      let v = set mmio_status 15 (set mmio_status 11 v) in
      set mmio_queue_sel 0 (set mmio_guest_page_size 4096 v)

module _ {V U P : Type 0} where
  abbrev pub on_print :
      Kernel V U P → Outcome Console (Unit {0}) → Outcome (Kernel V U P) (Unit {0})
  on_print s (ok a c) = ok a (record s { console = c })
  on_print s (halt m) = halt m
  on_print s fault = fault
  on_print s hung = hung

  abbrev pub on_log : Kernel V U P → Outcome Io (Unit {0}) → Outcome (Kernel V U P) (Unit {0})
  on_log s (ok a t) = ok a (record s { io = t; machine = record s.machine { csr = t.disk.csr } })
  on_log s (halt m) = halt m
  on_log s fault = fault
  on_log s hung = hung

  abbrev pub print : List ℕ → Cmd (Kernel V U P) (Unit {0})
  print text s = on_print s (printf (some text) [] s.console)

module _ {V U P : Type 0} (reg : ℕ → V → ℕ) (set_virtio : ℕ → ℕ → V → V) (set_uart : ℕ → ℕ → U → U)
    (set_plic : ℕ → ℕ → P → P) where
  -- `pages` is the address of `disk.pages`.
  unfoldable pub disk_init : ℕ → Cmd (Kernel V U P) (Unit {0})
  disk_init pages s =
      let v = negotiate reg set_virtio s.virtio in
      let max = reg mmio_queue_num_max v in
      if not (is_virtio_disk reg s.virtio)
      then halt "could not find virtio disk"
      else if max == 0
      then halt "virtio disk has no queue 0"
      else if ltb max num
      then halt "virtio disk max queue too short"
      else ok tt (record s {
        virtio =
            set_virtio mmio_queue_pfn (pages / 2 ^ 12 % 2 ^ 32) (set_virtio mmio_queue_num num v);
        io = record s.io { disk = free_loop num 0 (clear_pages s.io.disk) };
      })

  -- `w_satp(0); consoleinit();`
  abbrev pub enter : Kernel V U P → Kernel V U P
  enter s = record s {
    machine = record s.machine { csr = record s.machine.csr { satp = 0 } };
    uart = uartinit set_uart s.uart;
  }

  -- From `kernelInterruptInit` to `binit`.
  abbrev pub set_up : ℕ → Kernel V U P → Kernel V U P
  set_up kernelvec s = record s {
    machine = record s.machine { csr = kernel_interrupt_init kernelvec s.machine.csr };
    plic = plicinithart set_plic (plicinit set_plic s.plic);
    io = record s.io {
      disk = record s.io.disk {
        cache = binit s.io.disk.cache;
        csr = kernel_interrupt_init kernelvec s.machine.csr;
      };
    };
  }

  -- From `logDataInit` to `procesDescriptorInit`.
  abbrev pub make_tables : ℕ → Kernel V U P → Kernel V U P
  make_tables start_page s = record s {
    io = log_data_init s.io;
    alloc = page_alloc_init start_page s.alloc;
    machine = process_descriptor_init s.machine;
  }

  -- `main` up to its last loop, which does nothing. The virtio device serves requests as `device`
  -- does.
  unfoldable pub main :
      (Disk → Disk) → (kernelvec start_page pages : ℕ) → Cmd (Kernel V U P) (Unit {0})
  main device kernelvec start_page pages = do
    λ s. print boot_text (enter s)
    λ s. disk_init pages (set_up kernelvec s)
    λ s. on_log (make_tables start_page s) (log_data device log_text (make_tables start_page s).io)
    print done_text
