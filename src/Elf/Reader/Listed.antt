-- ===== src/Elf/Reader/Listed.antt =====
-- `elfReader` of kernel/elfReader.c lists the loadable sections of the program.
use mathlib.Core.Path.{subst}
use r5o.Base.{
  ℕ, ◌+◌, ◌*◌, ◌%◌, ◌^◌, ◌<◌, ◌≤◌, ◌≡◌, refl, sym, ap, ◌∙◌, Bool, true, false, none, List, [], ltb,
  leb, ◌==◌, Bool-cases, inl, inr, little, arith, Outcome, ok, halt, and_then,
}
use r5o.Disk.{Disk}
use r5o.Disk.Device.{Serves}
use r5o.BlockIo.{Io, bsize, disksize}
use r5o.BlockIo.Flat.{flat, Implements}
use r5o.BlockIo.Fetch.{Fetched, fetched, ends, read_bytes-Fetched}
use r5o.Elf.Nodes.{Section}
use r5o.Elf.Reader.{
  Reader, on_io, settle, read_headers, elf_reader, elfhdr_size, no_sections, elf_magic, magic_of,
  entry_of, phoff_of, phnum_of,
}
use r5o.Elf.Reader.Image.{Scan, gives, refuses, runs_out, start, headers_from, scan_file}
use r5o.Elf.Reader.Round.{Calm, Found}
use r5o.Elf.Reader.Scan.{Flagged, flag_set, flag_clear, stopped, LoopFrom, header_loop-Flagged}

-- What `elfReader` comes to, over the bytes `d` of the disk and for the start `p` of the file: the
-- list says the sections, and `entry` is the file's; or the list is NULL; or it stops.
pub data Listed (d : ℕ → ℕ) (p : ℕ) : Scan → Outcome Reader (Unit {0}) → Type 0 where
  listed :
      {s : Reader} {cnt : ℕ} {l : List Section}
      → Found d (entry_of d p) s cnt l
      → Listed d p (gives l) (ok tt s)
  null :
      {s : Reader}
      → Calm d s
      → s.sections.head ≡ none
      → s.sections.tail ≡ none
      → Listed d p refuses (ok tt s)
  too_short : Listed d p runs_out (halt "readBytes: block exceeds disk size")

settle-Listed :
    {d : ℕ → ℕ} {p : ℕ} {r : Scan} {o : Outcome Reader Bool}
    → Flagged d (entry_of d p) r o
    → Listed d p r (and_then o settle)
settle-Listed (flag_set f) = listed f
settle-Listed (flag_clear calm) = null (record { bytes = calm.bytes; disk = calm.disk }) refl refl
settle-Listed stopped = too_short

scan_file-none :
    (d : ℕ → ℕ) (block off end_block end_off : ℕ)
    → leb disksize block ≡ true
    → refuses ≡ scan_file d block off end_block end_off
unfolding scan_file
scan_file-none d block off end_block end_off e = rw e refl

module _ {device : Disk → Disk} (serves : Serves device)
    (elf ph block off end_block end_off : ℕ) where
  limit : ℕ
  limit = (end_block * bsize + end_off) % 2 ^ 64

  after_file_header :
      (d : ℕ → ℕ) (s : Reader) {o : Outcome Io (Unit {0})}
      → Fetched d block off elfhdr_size elf o
      → s.sections.head ≡ none
      → s.sections.tail ≡ none
      → block < disksize
      → headers_from d block off < 2 ^ 31
      → Listed d
          (start block off)
          (scan_file d block off end_block end_off)
          (and_then (on_io s o) (λ _. read_headers device elf ph block off limit))
  unfolding limit scan_file LoopFrom
  after_file_header d s (fetched {s = t} i same reads within) no_head no_tail low near =
      let p = start block off in
      let s' : Reader = record s { io = t } in
      let zero_off : (a : ℕ) → a + 0 ≡ a = λ a. omega arith in
      let magic : magic_of t.bytes elf ≡ magic_of d p =
        ap (little 4 t.bytes) (sym (zero_off elf))
        ∙ reads 4 0 (omega arith)
        ∙ ap (little 4 d) (zero_off p) in
      let entry : entry_of t.bytes elf ≡ entry_of d p = reads 8 24 (omega arith) in
      let phoff : phoff_of t.bytes elf ≡ phoff_of d p = reads 8 32 (omega arith) in
      let phnum : phnum_of t.bytes elf ≡ phnum_of d p = reads 2 56 (omega arith) in
      let exists : leb disksize block ≡ false = ground arith in
      let room : ltb (disksize * bsize) (block * bsize + off + elfhdr_size) ≡ false =
        ground (arith, within) in
      let from : Reader = record s' {
        entry = entry_of t.bytes elf;
        sections = record (s.sections) { cnt = 0 };
      } in
      let found : Found d (entry_of d p) from 0 [] = record {
        calm = record { bytes = i; disk = same };
        entries = [];
        lists = record { linked = (no_tail, no_head); below = tt };
        says = refl;
        count = refl;
        entry = entry;
        inside = tt;
      } in
      let run = settle-Listed (
        header_loop-Flagged serves elf ph limit d (entry_of d p) (phnum_of d p) block
          (headers_from d block off) (omega arith) near 0 [] from found) in
      elim (Bool-cases (magic_of d p == elf_magic)) [
        | inl elf_file ↦ rw (magic, phnum, phoff, exists, room, elf_file) run
        | inr other ↦
            rw (magic, exists, room, other)
              (null (record { bytes = i; disk = same }) no_head no_tail)
      ]
  after_file_header d s (ends out) no_head no_tail low near =
      let exists : leb disksize block ≡ false = ground arith in
      let full : ltb (disksize * bsize) (block * bsize + off + elfhdr_size) ≡ true = ground arith in
      rw (exists, full) too_short

  -- `elfReader` of a program lists the loadable sections that the program headers on the disk name, in
  -- their order, and gives the file's entry point; the list is NULL where there is no such block,
  -- the file is not an ELF file, a header lies beyond the program's end, or a section cannot be
  -- loaded. It stops where the disk ends before a header does. The file starts in the given block, and
  -- says that its headers start less than 2^31 bytes behind that block.
  pub elf_reader-Listed :
      (s : Reader)
      → Implements s.io (flat s.io)
      → off ≤ bsize
      → headers_from s.io.disk.medium block off < 2 ^ 31
      → Listed s.io.disk.medium
          (start block off)
          (scan_file s.io.disk.medium block off end_block end_off)
          (elf_reader device elf ph block off end_block end_off s)
  unfolding elf_reader limit
  elf_reader-Listed s i le near = elim (Bool-cases (leb disksize block)) [
    | inl beyond ↦ rw beyond (
        subst (λ r. Listed s.io.disk.medium (start block off) r (ok tt (no_sections s)))
          (scan_file-none s.io.disk.medium block off end_block end_off beyond)
          (null (record { bytes = i; disk = refl }) refl refl))
    | inr exists ↦
        let small : off % 2 ^ 32 ≡ off = omega arith in
        let nonneg : ltb off (2 ^ 31) ≡ true = ground arith in
        rw (exists, small, nonneg)
          (after_file_header s.io.disk.medium (no_sections s)
            (read_bytes-Fetched serves block off elfhdr_size elf s.io le i) refl refl (ground arith)
            near)
  ]
