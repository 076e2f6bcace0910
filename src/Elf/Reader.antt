-- ===== src/Elf/Reader.antt =====
-- `elfReader` of kernel/elfReader.c: the headers of a program on the disk.
pub mod Image
pub mod Listed
pub mod Round
pub mod Scan
mod Tests
use r5o.Base.{
  ℕ, zero, suc, ◌+◌, ◌-◌, ◌*◌, ◌/◌, ◌%◌, ◌^◌, Bool, true, false, none, not, ltb, leb, ◌==◌,
  if◌then◌else◌, little, Outcome, ok, halt, fault, hung, Cmd, pure, ◌>>=◌, ◌>>◌,
}
use r5o.Disk.{Disk}
use r5o.BlockIo.{Io, bsize, disksize, read_bytes}
use r5o.Elf.{elfsize, Sections, allocate_elf_reader}

-- ELF_MAGIC, ELF_PROG_LOAD, `sizeof(Elfhdr)` and `sizeof(Proghdr)`
abbrev pub elf_magic : ℕ
elf_magic = 0x464C457F

abbrev pub elf_prog_load : ℕ
elf_prog_load = 1

abbrev pub elfhdr_size : ℕ
elfhdr_size = 64

abbrev pub proghdr_size : ℕ
proghdr_size = 56

-- The fields of a `struct Elfhdr` at an address, and those of a `struct Proghdr`.
abbrev pub magic_of : (ℕ → ℕ) → ℕ → ℕ
magic_of bytes a = little 4 bytes a

abbrev pub entry_of : (ℕ → ℕ) → ℕ → ℕ
entry_of bytes a = little 8 bytes (a + 24)

abbrev pub phoff_of : (ℕ → ℕ) → ℕ → ℕ
phoff_of bytes a = little 8 bytes (a + 32)

abbrev pub phnum_of : (ℕ → ℕ) → ℕ → ℕ
phnum_of bytes a = little 2 bytes (a + 56)

abbrev pub type_of : (ℕ → ℕ) → ℕ → ℕ
type_of bytes a = little 4 bytes a

abbrev pub off_of : (ℕ → ℕ) → ℕ → ℕ
off_of bytes a = little 8 bytes (a + 8)

abbrev pub vaddr_of : (ℕ → ℕ) → ℕ → ℕ
vaddr_of bytes a = little 8 bytes (a + 16)

abbrev pub filesz_of : (ℕ → ℕ) → ℕ → ℕ
filesz_of bytes a = little 8 bytes (a + 32)

abbrev pub memsz_of : (ℕ → ℕ) → ℕ → ℕ
memsz_of bytes a = little 8 bytes (a + 40)

-- The transfers, the list of sections, and `elfRead->entry`.
pub record Reader : Type 0 where
  pub io : Io
  pub sections : Sections
  pub entry : ℕ

abbrev pub on_io : {A : Type 0} → Reader → Outcome Io A → Outcome Reader A
on_io s (ok a t) = ok a (record s { io = t })
on_io s (halt e) = halt e
on_io s fault = fault
on_io s hung = hung

abbrev pub on_sections : {A : Type 0} → Reader → Outcome Sections A → Outcome Reader A
on_sections s (ok a t) = ok a (record s { sections = t })
on_sections s (halt e) = halt e
on_sections s fault = fault
on_sections s hung = hung

-- `elfRead -> head = elfRead -> tail = NULL;`
abbrev pub no_sections : Reader → Reader
no_sections s = record s { sections = record (s.sections) { head = none; tail = none } }

-- An `int` is the number below 2^32 that its bits make: as a uint64, and its quotient, as a uint64,
-- and remainder by BSIZE, which C rounds towards 0.
abbrev pub widen : ℕ → ℕ
widen off = if ltb off (2 ^ 31) then off else off + (2 ^ 64 - 2 ^ 32)

abbrev pub quotient : ℕ → ℕ
quotient off = if ltb off (2 ^ 31) then off / bsize else (2 ^ 64 - (2 ^ 32 - off) / bsize) % 2 ^ 64

abbrev pub remainder : ℕ → ℕ
remainder off = if ltb off (2 ^ 31) then off % bsize else (2 ^ 32 - (2 ^ 32 - off) % bsize) % 2 ^ 32

-- `cnt++`
abbrev pub bump : Cmd Reader (Unit {0})
bump s = ok tt (record s { sections = record (s.sections) { cnt = s.sections.cnt + 1 } })

-- `if(flag == 0) elfRead -> head = elfRead -> tail = NULL;`
abbrev pub settle : Bool → Cmd Reader (Unit {0})
settle flag s = ok tt (if flag then s else no_sections s)

-- The addresses of the variables `elf` and `ph`, which the compiler places.
module _ (device : Disk → Disk) (elf ph : ℕ) where
  -- What a round makes of the header in `ph`; the result is `flag`.
  abbrev pub take_section : Cmd Reader Bool
  take_section s =
      let m = s.io.bytes in
      if not (type_of m ph == elf_prog_load)
      then ok true s
      else if ltb (memsz_of m ph) (filesz_of m ph)
      then ok false s
      else if ltb ((vaddr_of m ph + memsz_of m ph) % 2 ^ 64) (vaddr_of m ph)
      then ok false s
      else if not (vaddr_of m ph % 4096 == 0)
      then ok false s
      else if leb elfsize s.sections.cnt
      then ok false s
      else ((λ s. on_sections s (
              allocate_elf_reader (off_of m ph) (vaddr_of m ph) (filesz_of m ph) (memsz_of m ph)
                s.sections))
            >> pure true)
          s

  -- The loop over the program headers, with `k` rounds left; `limit` is where the program ends.
  unfoldable pub header_loop : ℕ → ℕ → ℕ → ℕ → Cmd Reader Bool
  header_loop limit zero block off s = ok true s
  header_loop limit (suc k) block off s =
      let block = (block + quotient off) % 2 ^ 64 in
      let off = remainder off in
      let next : Cmd Reader Bool =
        bump >> header_loop limit k block ((off + proghdr_size) % 2 ^ 32) in
      if ltb limit ((block * bsize + widen off) % 2 ^ 64)
      then ok false s
      else ((λ s. on_io s (read_bytes device block (widen off) proghdr_size ph s.io))
            >> take_section
            >>= (λ flag. if flag then next else pure false))
          s

  -- What follows once the header of the file is in `elf`.
  abbrev pub read_headers : (start_block start_off limit : ℕ) → Cmd Reader (Unit {0})
  read_headers start_block start_off limit s =
      let m = s.io.bytes in
      if not (magic_of m elf == elf_magic)
      then ok tt s
      else (header_loop limit (phnum_of m elf) start_block ((start_off + phoff_of m elf) % 2 ^ 32)
            >>= settle)
          (record s { entry = entry_of m elf; sections = record (s.sections) { cnt = 0 } })

  unfoldable pub elf_reader : (start_block start_off end_block end_off : ℕ) → Cmd Reader (Unit {0})
  elf_reader start_block start_off end_block end_off s =
      if leb disksize start_block
      then ok tt (no_sections s)
      else ((λ s.
              on_io s
                (read_bytes device start_block (widen (start_off % 2 ^ 32)) elfhdr_size elf s.io))
            >> read_headers start_block start_off ((end_block * bsize + end_off) % 2 ^ 64))
          (no_sections s)
