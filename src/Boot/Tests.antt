-- ===== src/Boot/Tests.antt =====
-- Examples for kernel/main.c, with devices that are their registers.
use r5o.Base.{ℕ, ◌==◌, if◌then◌else◌, refl, true, false, [], update}
use r5o.Disk.Instant.{instant, instant-Serves}
use r5o.BlockIo.Boot.{fresh_disk}
use r5o.Process.{created}
use r5o.Boot.{Kernel, main}
use r5o.Boot.Ready.{Booted, main-Booted}

abbrev reg : ℕ → (ℕ → ℕ) → ℕ
reg a v = v a

abbrev set : ℕ → ℕ → (ℕ → ℕ) → ℕ → ℕ
set a x v = update v a x

-- A legacy virtio disk of qemu, with a queue of up to 1024.
abbrev found : Kernel (ℕ → ℕ) (ℕ → ℕ) (ℕ → ℕ)
found = record {
  console = record { buf = λ i. 0; r = 0; w = 0; e = 0; error_occurred = false; sent = [] };
  io = record { disk = fresh_disk (λ a. 32); bytes = λ a. 0; block_no = 0; off = 0 };
  alloc = record { pages = λ i. 0; curr_free_page_node = 0; num_free_pages = 0 };
  machine = record {
    pd = λ i. record {
      sa = record { reg = λ k. 0; epc = 0; satp = 0 };
      slot_allocated = true;
      time_left = 0;
      state = created;
    };
    current_process = 0;
    csr = record { mstatus = 0; mie = 0; mtvec = 0; mepc = 0; mcause = 0; satp = 0 };
  };
  virtio = λ a.
      if a == 0
      then 0x74726976
      else if a == 4
      then 1
      else if a == 8
      then 2
      else if a == 12
      then 0x554d4551
      else if a == 0x34
      then 1024
      else 0;
  uart = λ a. 0;
  plic = λ a. 0;
}

main-Booted_example :
    Booted reg set set set 2000 300 found (main reg set set set instant 2000 300 4096 found)
main-Booted_example =
    main-Booted reg set set set instant-Serves 2000 300 4096 found
      (record { refcnt = λ i. refl; valid = λ i. refl; used_idx = refl }) refl
