-- ===== src/Loader/Create.antt =====
-- `createProcess` of kernel/createProcess.c.
use Prim.Native.String.{String}
use r5o.Base.{
  ℕ, zero, suc, ◌+◌, ◌^◌, ◌<◌, ◌≤◌, ◌≡◌, ◌≢◌, refl, Bool, true, false, not, List, ◌==◌,
  if◌then◌else◌, Bool-cases, inl, inr, arith, ==_refl, Outcome, ok, halt, and_then, error, ◌⊎◌, [],
  ◌∷◌,
}
use r5o.Disk.{Disk}
use r5o.Disk.Device.{Serves}
use r5o.BlockIo.{bsize}
use r5o.BlockIo.Flat.{flat, Implements}
use r5o.PageAlloc.Stack.{Holds}
use r5o.Elf.Reader.Image.{Scan, gives, refuses, runs_out, headers_from, scan_file}
use r5o.Elf.Nodes.{Section}
use r5o.Process.{ProcessDescriptor, nproc, time_quantum, runnable}
use r5o.Loader.{System, free_slot, admit, create_process, program_loader}
use r5o.Loader.Steps.{LoadFailure}
use r5o.Loader.Load.{Loaded, whole, empty, refused, short, failed, Countable, program_loader-Loaded}

abbrev pub Allocated : (ℕ → ProcessDescriptor) → ℕ → Type 0
Allocated pd q = (pd q).slot_allocated ≡ true

-- The search ends at the first free entry from `pid` on, or behind the last.
record FirstFree (pd : ℕ → ProcessDescriptor) (k pid found : ℕ) : Type 0 where
  from : pid ≤ found
  to : found ≤ pid + k
  before : (q : ℕ) → pid ≤ q → q < found → Allocated pd q
  free : found < pid + k → (pd found).slot_allocated ≡ false

free_slot-FirstFree :
    (k pid : ℕ) (pd : ℕ → ProcessDescriptor) → FirstFree pd k pid (free_slot k pid pd)
unfolding free_slot
free_slot-FirstFree zero pid pd = record {
  from = omega arith;
  to = omega arith;
  before = λ q le lt. absurd (omega arith);
  free = λ lt. absurd (omega arith);
}
free_slot-FirstFree (suc k) pid pd = elim (Bool-cases (pd pid).slot_allocated) [
  | inl used ↦
      let r = free_slot-FirstFree k (pid + 1) pd in
      rw used (record {
        from = omega (arith, r.from);
        to = omega (arith, r.to);
        before = λ q le lt. elim (Bool-cases (pid == q)) [
          | inl this ↦ let e : q ≡ pid = ground arith in rw e used
          | inr other ↦ r.before q (ground arith) lt
        ];
        free = λ lt. r.free (omega arith);
      })
  | inr unused ↦ rw unused (record {
    from = omega arith;
    to = omega arith;
    before = λ q le lt. absurd (omega arith);
    free = λ lt. unused;
  })
]

-- The first free entry of the table.
pub record First (pd : ℕ → ProcessDescriptor) (pid : ℕ) : Type 0 where
  pub below : pid < nproc
  pub free : (pd pid).slot_allocated ≡ false
  pub before : (q : ℕ) → q < pid → Allocated pd q

-- What `createProcess` comes to, where the program's file gives `r` and `load pid` is what
-- `programLoader` comes to for `pid`. The first free entry holds a process that can run, with a
-- whole quantum, and all else is as the loader left it; or the table was full; or no section was
-- listed; or the loader has stopped.
pub data Created (s : System) (load : ℕ → Outcome System Bool) (r : Scan)
    : Outcome System ℕ → Type 0 where
  created :
      {pid : ℕ} {u t : System} {x : Section} {xs : List Section}
      → First s.machine.pd pid
      → r ≡ gives (x ∷ xs)
      → load pid ≡ ok true u
      → runnable (t.machine.pd pid) ≡ true
      → (t.machine.pd pid).time_left ≡ time_quantum
      → (t.machine.pd pid).sa ≡ (u.machine.pd pid).sa
      → ((q : ℕ) → q ≢ pid → t.machine.pd q ≡ s.machine.pd q)
      → t.machine.current_process ≡ s.machine.current_process
      → t.reader ≡ u.reader
      → t.alloc ≡ u.alloc
      → Implements t.reader.io (flat t.reader.io)
      → (free : List ℕ) → Holds t.alloc free
      → Created s load r (ok pid t)
  full :
      ((q : ℕ) → q < nproc → Allocated s.machine.pd q)
      → Created s load r (halt "createProcess: Process Table Filled")
  unlisted :
      {pid : ℕ}
      → First s.machine.pd pid
      → (r ≡ gives []) ⊎ (r ≡ refuses)
      → Created s load r (halt "createProcess: Program Loading was unsuccesful")
  cut_off :
      {pid : ℕ}
      → First s.machine.pd pid
      → r ≡ runs_out
      → Created s load r (halt "readBytes: block exceeds disk size")
  stopped :
      {pid : ℕ} {e : String} {x : Section} {xs : List Section}
      → First s.machine.pd pid
      → r ≡ gives (x ∷ xs)
      → load pid ≡ halt e
      → LoadFailure e
      → Created s load r (halt e)

module _ {device : Disk → Disk} (serves : Serves device) (elf ph : ℕ) where
  -- `createProcess`, with the driver at rest and the allocator well-formed, where the program starts
  -- in the given block, its headers less than 2^31 bytes behind that block, and each section takes
  -- less than 2^31 bytes of memory. Where no entry of the table is free, it stops with its message
  -- before it does anything. Else, where the file lists a section and `programLoader` returns, it puts
  -- the new process in the first free entry, ready to run, with a whole quantum and as the loader left
  -- it, and changes no other process; where the loader stops, it stops with the loader's
  -- message, one of the four of a mapping, a translation and a transfer. Where
  -- the file lists no section or is refused, it stops with its second message; and with that of
  -- `readBytes` where the disk ends before the headers do.
  pub create_process-Created :
      (block off end_block end_off : ℕ) (s : System) (pages : List ℕ)
      → Implements s.reader.io (flat s.reader.io)
      → Holds s.alloc pages
      → off ≤ bsize
      → headers_from s.reader.io.disk.medium block off < 2 ^ 31
      → Countable (scan_file s.reader.io.disk.medium block off end_block end_off)
      → Created s
          (λ pid. program_loader device elf ph block off end_block end_off pid s)
          (scan_file s.reader.io.disk.medium block off end_block end_off)
          (create_process device elf ph block off end_block end_off s)
  unfolding create_process
  create_process-Created block off end_block end_off s pages i holds le near fits =
      let pid = free_slot nproc 0 s.machine.pd in
      let r = free_slot-FirstFree nproc 0 s.machine.pd in
      elim (Bool-cases (pid == nproc)) [
        | inl none_free ↦ rw none_free (full (λ q lt. r.before q (omega arith) (ground arith)))
        | inr some_free ↦
            let lt : pid < nproc = ground (arith, r.to) in
            rw some_free (
              go pid
                (record {
                  below = lt;
                  free = r.free lt;
                  before = λ q lt. r.before q (omega arith) lt;
                })
                refl
                (program_loader-Loaded serves elf ph block off end_block end_off pid s
                  (record {
                    bytes = i;
                    free = pages;
                    holds = holds;
                    others = λ q ne. refl;
                    current = refl;
                  })
                  le near fits))
      ]
    where
      load : ℕ → Outcome System Bool
      load pid = program_loader device elf ph block off end_block end_off pid s

      go :
          (pid : ℕ) {r : Scan} {o : Outcome System Bool}
          → First s.machine.pd pid
          → load pid ≡ o
          → Loaded s.machine pid r o
          → Created s load r (
              and_then o (λ loaded.
                if not loaded
                then error "createProcess: Program Loading was unsuccesful"
                else admit pid))
      go pid first e (whole {t = u} k) =
          created first refl e (rw (==_refl pid) refl) (rw (==_refl pid) refl)
            (rw (==_refl pid) refl)
            (λ q ne. let apart : (pid == q) ≡ false = ground arith in rw apart (k.others q ne))
            k.current refl refl k.bytes k.free k.holds
      go pid first e (empty k) = unlisted first (inl refl)
      go pid first e (refused k) = unlisted first (inr refl)
      go pid first e short = cut_off first refl
      go pid first e (failed m) = stopped first refl e m
