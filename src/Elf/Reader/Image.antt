-- ===== src/Elf/Reader/Image.antt =====
-- What kernel/elfReader.c looks for: the loadable sections of a program, on the bytes of the disk.
use r5o.Base.{
  ℕ, zero, suc, ◌+◌, ◌*◌, ◌%◌, ◌^◌, Bool, List, [], ◌∷◌, not, ltb, leb, ◌==◌, ◌||◌, if◌then◌else◌,
}
use r5o.BlockIo.{bsize, disksize}
use r5o.BlockIo.Flat.{outside}
use r5o.Elf.{elfsize}
use r5o.Elf.Nodes.{Section}
use r5o.Elf.Reader.{
  elf_magic, elf_prog_load, elfhdr_size, proghdr_size, magic_of, phoff_of, phnum_of, type_of,
  off_of, vaddr_of, filesz_of, memsz_of,
}

-- The sections, the last one first; or the file is refused; or the disk ends before the headers do.
pub data Scan : Type 0 where
  gives : List Section → Scan
  refuses : Scan
  runs_out : Scan

abbrev pub section_at : (ℕ → ℕ) → ℕ → Section
section_at d p = record {
  off = off_of d p;
  vaddr = vaddr_of d p;
  filesz = filesz_of d p;
  memsz = memsz_of d p;
}

-- A section that cannot be loaded, with `cnt` of the nodes passed.
abbrev pub unfit : ℕ → Section → Bool
unfit cnt x =
    ltb x.memsz x.filesz
    || (ltb ((x.vaddr + x.memsz) % 2 ^ 64) x.vaddr
        || (not (x.vaddr % 4096 == 0) || leb elfsize cnt))

-- The nodes passed once a section is listed behind `found`.
abbrev pub passed : ℕ → List Section → ℕ
passed cnt [] = 1
passed cnt (x ∷ xs) = cnt + 1

-- `k` program headers of the disk `d`, from byte `p` on.
unfoldable pub scan_headers : (ℕ → ℕ) → ℕ → ℕ → ℕ → ℕ → List Section → Scan
scan_headers d limit zero p cnt found = gives found
scan_headers d limit (suc k) p cnt found =
    let skip = scan_headers d limit k (p + proghdr_size) (cnt + 1) found in
    let take =
      scan_headers d limit k (p + proghdr_size) (passed cnt found + 1) (section_at d p ∷ found) in
    if ltb limit p
    then refuses
    else if ltb (disksize * bsize) (p + proghdr_size)
    then runs_out
    else if not (type_of d p == elf_prog_load)
    then skip
    else if unfit cnt (section_at d p)
    then refuses
    else take

-- Where the file starts, and where it says that its program headers start.
abbrev pub start : ℕ → ℕ → ℕ
start block off = block * bsize + off

abbrev pub headers_from : (ℕ → ℕ) → ℕ → ℕ → ℕ
headers_from d block off = (off + phoff_of d (start block off)) % 2 ^ 32

unfoldable pub scan_file : (ℕ → ℕ) → ℕ → ℕ → ℕ → ℕ → Scan
scan_file d block off end_block end_off =
    if leb disksize block
    then refuses
    else if outside block off elfhdr_size
    then runs_out
    else if not (magic_of d (start block off) == elf_magic)
    then refuses
    else scan_headers d ((end_block * bsize + end_off) % 2 ^ 64) (phnum_of d (start block off))
        (block * bsize + headers_from d block off) 0 []
