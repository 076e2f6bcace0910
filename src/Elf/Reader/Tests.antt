-- ===== src/Elf/Reader/Tests.antt =====
-- Examples for `elfReader` of kernel/elfReader.c.
use r5o.Base.{ℕ, ◌≡◌, refl, ◌==◌, if◌then◌else◌, none, [], ◌∷◌, arith}
use r5o.Disk.Instant.{instant, instant-Serves}
use r5o.BlockIo.Boot.{fresh_disk, fresh_disk-Blank, booted, binit-Implements}
use r5o.Elf.Reader.{Reader, elf_reader}
use r5o.Elf.Reader.Image.{gives, scan_headers, scan_file}
use r5o.Elf.Reader.Listed.{Listed, elf_reader-Listed}

-- A program at the start of block 100: one header, behind that of the file, for 5 bytes from byte 200 on
-- that go to address 4096.
abbrev program : ℕ → ℕ
program a =
    if a == 102400
    then 127
    else if a == 102401
    then 69
    else if a == 102402
    then 76
    else if a == 102403
    then 70
    else if a == 102432
    then 64
    else if a == 102456
    then 1
    else if a == 102464
    then 1
    else if a == 102472
    then 200
    else if a == 102481
    then 16
    else if a == 102496
    then 5
    else if a == 102504
    then 5
    else 0

abbrev before : Reader
before = record {
  io = booted (record { disk = fresh_disk program; bytes = λ a. 0; block_no = 900; off = 0 });
  sections = record {
    nodes = λ i. record { off = 0; vaddr = 0; filesz = 0; memsz = 0; prev = none; next = none };
    head = none;
    tail = none;
    cnt = 0;
  };
  entry = 0;
}

program-scan :
    scan_file program 100 0 110 0
    ≡ gives (record { off = 200; vaddr = 4096; filesz = 5; memsz = 5 } ∷ [])
unfolding scan_file scan_headers
program-scan = refl

elf_reader-Listed_example :
    Listed program 102400
      (scan_file program 100 0 110 0)
      (elf_reader instant 2000 3000 100 0 110 0 before)
elf_reader-Listed_example =
    elf_reader-Listed instant-Serves 2000 3000 100 0 110 0 before
      (binit-Implements
        (record { disk = fresh_disk program; bytes = λ a. 0; block_no = 900; off = 0 })
        (fresh_disk-Blank program))
      (omega arith) (omega arith)
