-- ===== src/Loader.antt =====
-- kernel/createProcess.c: loading a program from the disk, and the new process that runs it.
pub mod Create
pub mod Load
pub mod Steps
mod Tests
use r5o.Base.{
  ℕ, zero, suc, ◌+◌, ◌-◌, ◌*◌, ◌/◌, ◌%◌, ◌^◌, Bool, true, false, Option, none, some, not, ◌==◌,
  if◌then◌else◌, update, Outcome, ok, halt, fault, hung, Cmd, pure, ◌>>=◌, ◌>>◌, error,
}
use r5o.Disk.{Disk}
use r5o.BlockIo.{Io, bsize}
use r5o.BlockIo.Virtual.{words, read_bytes_virtual}
use r5o.PageAlloc.{Alloc}
use r5o.Paging.{
  Vm, shl, get_virt_page, allocate_page_directory, is_virtual_page_allocated, allocate_virtual_page,
}
use r5o.Elf.{elfsize, Node, max_of, ceil_div}
use r5o.Elf.Reader.{Reader, elf_reader}
use r5o.Process.{Machine, ProcessDescriptor, SaveArea, ready, nproc, time_quantum}

-- The disk, memory and the list of sections, the page allocator, and the process table.
pub record System : Type 0 where
  pub reader : Reader
  pub alloc : Alloc
  pub machine : Machine

abbrev pub on_reader : {A : Type 0} → System → Outcome Reader A → Outcome System A
on_reader s (ok a t) = ok a (record s { reader = t })
on_reader s (halt e) = halt e
on_reader s fault = fault
on_reader s hung = hung

abbrev pub on_memory : {A : Type 0} → System → Outcome Io A → Outcome System A
on_memory s (ok a t) = ok a (record s { reader = record (s.reader) { io = t } })
on_memory s (halt e) = halt e
on_memory s fault = fault
on_memory s hung = hung

-- The bytes of memory that is given by its 64-bit words.
abbrev pub spread : (ℕ → ℕ) → ℕ → ℕ
spread mem a = mem (a - a % 8) / 2 ^ (8 * (a % 8)) % 2 ^ 8

-- The page tables lie in memory: a command of kernel/paging.c runs on its words.
abbrev pub on_tables : {A : Type 0} → System → Outcome Vm A → Outcome System A
on_tables s (ok a t) = ok a (record s {
  alloc = t.alloc;
  reader = record (s.reader) { io = record (s.reader.io) { bytes = spread t.mem } };
})
on_tables s (halt e) = halt e
on_tables s fault = fault
on_tables s hung = hung

abbrev pub paging : {A : Type 0} → Cmd Vm A → Cmd System A
paging m s = on_tables s (m (record { alloc = s.alloc; mem = words s.reader.io.bytes }))

abbrev pub set_process : ℕ → (ProcessDescriptor → ProcessDescriptor) → Cmd System (Unit {0})
set_process pid f s =
    let m = s.machine in
    ok tt (record s { machine = record m { pd = update m.pd pid (f (m.pd pid)) } })

abbrev pub set_area : ℕ → (SaveArea → SaveArea) → Cmd System (Unit {0})
set_area pid f = set_process pid (λ p. record p { sa = f p.sa })

-- The loop over the addresses of a section from `va` on, with `k` of them left. Its counter `i` is an
-- `int`: there is no value after 2^31 - 1.
unfoldable pub page_loop : (pagetable va k i : ℕ) → Cmd System (Unit {0})
page_loop pagetable va zero i s = ok tt s
page_loop pagetable va (suc k) i s =
    let page = get_virt_page ((va + i) % 2 ^ 64) in
    let next = page_loop pagetable va k (i + 1) in
    let rest : Cmd System (Unit {0}) = λ s. if i + 1 == 2 ^ 31 then fault else next s in
    if not (is_virtual_page_allocated (words s.reader.io.bytes) pagetable page)
    then (paging (allocate_virtual_page pagetable page true true true) >> rest) s
    else rest s

-- `pd[pid].slotAllocated = True;` and what follows it.
abbrev pub admit : ℕ → Cmd System ℕ
admit pid =
    set_process pid
      (λ p. record p { slot_allocated = true; state = ready; time_left = time_quantum })
    >> pure pid

-- The search for a free entry, from `pid` on with `k` rounds left; `nproc` if there is none.
unfoldable pub free_slot : ℕ → ℕ → (ℕ → ProcessDescriptor) → ℕ
free_slot zero pid pd = pid
free_slot (suc k) pid pd =
    let rest = free_slot k (pid + 1) pd in if not (pd pid).slot_allocated then pid else rest

module _ (device : Disk → Disk) (elf ph : ℕ) where
  -- A section: its pages, and its bytes on the disk; `stack` is `stackBeginVirtPage`.
  abbrev pub load_section : (start_block start_off pagetable stack : ℕ) → Node → Cmd System ℕ
  load_section start_block start_off pagetable stack node = do
    let off = (node.off + start_off) % 2 ^ 64
    page_loop pagetable node.vaddr node.memsz 0
    λ s. on_memory s (
        read_bytes_virtual device pagetable ((start_block + off / bsize) % 2 ^ 64) (off % bsize)
          node.filesz node.vaddr s.reader.io)
    pure (max_of stack (ceil_div ((node.vaddr + node.memsz) % 2 ^ 64) 4096))

  -- `while(elfNode != NULL)`, with at most `k` rounds.
  unfoldable pub node_loop : (start_block start_off pagetable : ℕ) → ℕ → ℕ → Option ℕ → Cmd System ℕ
  node_loop start_block start_off pagetable k stack none = pure stack
  node_loop start_block start_off pagetable zero stack (some i) = λ s. hung
  node_loop start_block start_off pagetable (suc k) stack (some i) = λ s.
      let node = s.reader.sections.nodes i in
      (load_section start_block start_off pagetable stack node
          >>= (λ stack. node_loop start_block start_off pagetable k stack node.next))
        s

  -- `programLoader` once the list of sections has a head.
  abbrev pub load_program : (start_block start_off pid : ℕ) → ℕ → Cmd System Bool
  load_program start_block start_off pid first = do
    pagetable ← paging allocate_page_directory
    set_area pid (λ a. record a { satp = pagetable })
    λ s. set_area pid (λ a. record a { epc = s.reader.entry }) s
    stack ← node_loop start_block start_off pagetable elfsize 0 (some first)
    paging (allocate_virtual_page pagetable stack true true true)
    paging (allocate_virtual_page pagetable ((stack + 1) % 2 ^ 64) true true true)
    set_area pid (λ a. record a { reg = update a.reg 1 ((shl stack 12 + 2 * 4096) % 2 ^ 64) })
    pure true

  abbrev pub when_listed : (start_block start_off pid : ℕ) → Option ℕ → Cmd System Bool
  when_listed start_block start_off pid none = pure false
  when_listed start_block start_off pid (some first) = load_program start_block start_off pid first

  unfoldable pub program_loader :
      (start_block start_off end_block end_off pid : ℕ) → Cmd System Bool
  program_loader start_block start_off end_block end_off pid = do
    λ s. on_reader s (elf_reader device elf ph start_block start_off end_block end_off s.reader)
    λ s. when_listed start_block start_off pid s.reader.sections.head s

  unfoldable pub create_process : (start_block start_off end_block end_off : ℕ) → Cmd System ℕ
  create_process start_block start_off end_block end_off s =
      let pid = free_slot nproc 0 s.machine.pd in
      if pid == nproc
      then halt "createProcess: Process Table Filled"
      else (program_loader start_block start_off end_block end_off pid >>= (λ loaded.
            if not loaded
            then error "createProcess: Program Loading was unsuccesful"
            else admit pid))
          s
