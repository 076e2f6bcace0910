-- ===== src/Elf/Tests.antt =====
-- Examples for kernel/elfReader.c and kernel/algo.c.
use r5o.Base.{◌+◌, ◌*◌, ◌<◌, ◌≤◌, refl, none, [], arith}
use r5o.Elf.{Sections, ceil_div}
use r5o.Elf.Nodes.{Lists}
use r5o.Elf.Sizes.{ceil_div-page}

abbrev empty : Sections
empty = record {
  nodes = λ i. record { off = 0; vaddr = 0; filesz = 0; memsz = 0; prev = none; next = none };
  head = none;
  tail = none;
  cnt = 4;
}

empty-Lists : Lists empty []
empty-Lists = record { linked = (refl, refl); below = tt }

ceil_div-page_example :
    (4097 ≤ ceil_div 4097 4096 * 4096) × (ceil_div 4097 4096 * 4096 < 4097 + 4096)
ceil_div-page_example = ceil_div-page 4097 (omega arith)
