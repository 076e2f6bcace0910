-- ===== src/Loader/Tests.antt =====
-- Examples for kernel/createProcess.c.
use mathlib.Core.Path.{subst}
use r5o.Base.{ℕ, none, ltb, arith, refl, List, [], ◌∷◌, ◌==◌, if◌then◌else◌, ◌≡◌, sym}
use r5o.PageAlloc.{num_pages, page_alloc_init}
use r5o.PageAlloc.Init.{page_range, page_alloc_init-Holds}
use r5o.Disk.Instant.{instant, instant-Serves}
use r5o.BlockIo.{Io}
use r5o.BlockIo.Boot.{fresh_disk, fresh_disk-Blank, booted, binit-Implements}
use r5o.Elf.Reader.Image.{gives, scan_headers, scan_file}
use r5o.PageAlloc.Stack.{Holds}
use r5o.Process.{created}
use r5o.Loader.{System, create_process, program_loader}
use r5o.Loader.Load.{Countable}
use r5o.Loader.Create.{Created, create_process-Created}

-- The disk that has the listed bytes at the listed places, and zeros elsewhere.
abbrev bytes_at : List (ℕ × ℕ) → ℕ → ℕ
bytes_at [] a = 0
bytes_at (x ∷ xs) a = if a == x.0 then x.1 else bytes_at xs a

-- A program at the start of block 100: one header, behind that of the file, for 5 bytes from byte 200
-- on that go to address 4096.
abbrev program : ℕ → ℕ
program = bytes_at (
    (102400, 127)
    ∷ (102401, 69)
    ∷ (102402, 76)
    ∷ (102403, 70)
    ∷ (102432, 64)
    ∷ (102456, 1)
    ∷ (102464, 1)
    ∷ (102472, 200)
    ∷ (102481, 16)
    ∷ (102496, 5)
    ∷ (102504, 5)
    ∷ [])

program-scan :
    scan_file program 100 0 110 0
    ≡ gives (record { off = 200; vaddr = 4096; filesz = 5; memsz = 5 } ∷ [])
unfolding scan_file scan_headers
program-scan = refl

abbrev program_io : Io
program_io = record { disk = fresh_disk program; bytes = λ a. 0; block_no = 900; off = 0 }

-- Processes 0, 1 and 2 are there.
abbrev some_processes : System
some_processes = record {
  reader = record {
    io = booted program_io;
    sections = record {
      nodes = λ i. record { off = 0; vaddr = 0; filesz = 0; memsz = 0; prev = none; next = none };
      head = none;
      tail = none;
      cnt = 0;
    };
    entry = 0;
  };
  alloc =
      page_alloc_init 100 (record { pages = λ i. 0; curr_free_page_node = 0; num_free_pages = 0 });
  machine = record {
    pd = λ i. record {
      sa = record { reg = λ k. 0; epc = 0; satp = 0 };
      slot_allocated = ltb i 3;
      time_left = 0;
      state = created;
    };
    current_process = 0;
    csr = record { mstatus = 0; mie = 0; mtvec = 0; mepc = 0; mcause = 0; satp = 0 };
  };
}

program-Countable : Countable (scan_file program 100 0 110 0)
program-Countable = subst Countable (sym program-scan) (omega arith, tt)

all_free : Holds some_processes.alloc (page_range 100 num_pages)
all_free =
    page_alloc_init-Holds 100
      (record { pages = λ i. 0; curr_free_page_node = 0; num_free_pages = 0 })

create_process-Created_example :
    Created some_processes
      (λ pid. program_loader instant 2000 3000 100 0 110 0 pid some_processes)
      (scan_file program 100 0 110 0)
      (create_process instant 2000 3000 100 0 110 0 some_processes)
create_process-Created_example =
    create_process-Created instant-Serves 2000 3000 100 0 110 0 some_processes
      (page_range 100 num_pages) (binit-Implements program_io (fresh_disk-Blank program)) all_free
      (omega arith) (omega arith) program-Countable
