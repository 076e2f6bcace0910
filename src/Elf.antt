-- ===== src/Elf.antt =====
-- kernel/elfReader.c: the list of program sections, and kernel/algo.c.
pub mod Chain
pub mod Nodes
pub mod Reader
pub mod Sizes
mod Tests
use r5o.Base.{
  ℕ, zero, suc, ◌+◌, ◌-◌, ◌/◌, ◌%◌, ◌^◌, Bool, true, false, Option, none, some, leb, ltb,
  if◌then◌else◌, update, Outcome, ok, fault, Cmd,
}

-- ELFSIZE
abbrev pub elfsize : ℕ
elfsize = 30

-- `struct Elfread`; a pointer is the index of a node in `elfNodes`, or `none` for NULL.
pub record Node : Type 0 where
  pub off : ℕ
  pub vaddr : ℕ
  pub filesz : ℕ
  pub memsz : ℕ
  pub prev : Option ℕ
  pub next : Option ℕ

-- `elfNodes`, the `head` and `tail` of `struct ElfreadList`, and the caller's `cnt`.
pub record Sections : Type 0 where
  pub nodes : ℕ → Node
  pub head : Option ℕ
  pub tail : Option ℕ
  pub cnt : ℕ

abbrev pub link_next : ℕ → Option ℕ → (ℕ → Node) → ℕ → Node
link_next i p f = update f i (record (f i) { next = p })

abbrev pub link_prev : ℕ → Option ℕ → (ℕ → Node) → ℕ → Node
link_prev i p f = update f i (record (f i) { prev = p })

-- The four writes to `elfRead->tail` at the end.
abbrev pub fill_tail : ℕ → ℕ → ℕ → ℕ → ℕ → Sections → Sections
fill_tail t off vaddr filesz memsz s = record s {
  nodes =
      update s.nodes t
        (record (s.nodes t) { off = off; vaddr = vaddr; filesz = filesz; memsz = memsz });
}

-- `allocateELFReader`; `&elfNodes[*cnt]` with `*cnt` past the end of `elfNodes` is a `fault`.
abbrev pub append_node : ℕ → ℕ → ℕ → ℕ → Option ℕ → Option ℕ → Cmd Sections (Unit {0})
append_node off vaddr filesz memsz none tail s =
    let s = record s {
      nodes = link_next 0 none (link_prev 0 none s.nodes);
      head = some 0;
      tail = some 0;
      cnt = 1;
    } in
    ok tt (fill_tail 0 off vaddr filesz memsz s)
append_node off vaddr filesz memsz (some h) none s = fault
append_node off vaddr filesz memsz (some h) (some t) s =
    if leb elfsize s.cnt
    then fault
    else let new = s.cnt in
      let s = record s {
        nodes = link_next new none (link_prev new (some t) (link_next t (some new) s.nodes));
        tail = some new;
        cnt = s.cnt + 1;
      } in
      ok tt (fill_tail new off vaddr filesz memsz s)

unfoldable pub allocate_elf_reader : ℕ → ℕ → ℕ → ℕ → Cmd Sections (Unit {0})
allocate_elf_reader off vaddr filesz memsz s = append_node off vaddr filesz memsz s.head s.tail s

-- `max` and `ceilDiv` of kernel/algo.c, on uint64.
unfoldable pub max_of : ℕ → ℕ → ℕ
max_of x y = if ltb y x then x else y

unfoldable pub ceil_div : ℕ → ℕ → ℕ
ceil_div x y = (x + y + 2 ^ 64 - 1) % 2 ^ 64 / y
