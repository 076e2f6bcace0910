-- ===== src/Elf/Reader/Round.antt =====
-- One program header in the loop of `elfReader`, kernel/elfReader.c.

use r5o.Base.{
  ℕ, ◌+◌, ◌%◌, ◌^◌, ◌<◌, ◌≡◌, refl, sym, ap, ◌∙◌, Bool, true, false, not, List, [], ◌∷◌, ltb, leb,
  ◌==◌, if◌then◌else◌, arith, Outcome, ok, and_then, pure,
}
use r5o.Disk.{Disk}
use r5o.BlockIo.Flat.{flat, Implements}
use r5o.Elf.{elfsize, allocate_elf_reader}
use r5o.Elf.Nodes.{Section, Entry, Below, Lists, next_node, allocate_elf_reader-Lists}
use r5o.Elf.Reader.{
  on_sections, Reader, take_section, elf_prog_load, type_of, off_of, vaddr_of, filesz_of, memsz_of,
}
use r5o.Elf.Reader.Image.{section_at, unfit, passed}

abbrev pub says_of : List Entry → List Section
says_of [] = []
says_of (x ∷ xs) = x.says ∷ says_of xs

-- The driver is at rest, over the disk `d`.
pub record Calm (d : ℕ → ℕ) (s : Reader) : Type 0 where
  pub bytes : Implements s.io (flat s.io)
  pub disk : s.io.disk.medium ≡ d

-- The list says `found`, with `cnt` nodes passed.
pub record Found (d : ℕ → ℕ) (at : ℕ) (s : Reader) (cnt : ℕ) (found : List Section) : Type 0 where
  pub calm : Calm d s
  pub entries : List Entry
  pub lists : Lists s.sections entries
  pub says : says_of entries ≡ found
  pub count : s.sections.cnt ≡ cnt
  pub entry : s.entry ≡ at
  pub inside : Below elfsize entries

-- `bump` leaves the list.
Below-more : (n : ℕ) (l : List Entry) → Below n l → Below (n + 1) l
Below-more n [] b = tt
Below-more n (x ∷ xs) b = (omega arith, b.1)

abbrev pub bumped : Reader → Reader
bumped s = record s { sections = record (s.sections) { cnt = s.sections.cnt + 1 } }

pub bump-Found :
    {d : ℕ → ℕ} {entry cnt : ℕ} {s : Reader} {found : List Section}
    → Found d entry s cnt found
    → Found d entry (bumped s) (cnt + 1) found
bump-Found {s} f = record {
  calm = record { bytes = f.calm.bytes; disk = f.calm.disk };
  entries = f.entries;
  lists = record {
    linked = f.lists.linked;
    below = Below-more s.sections.cnt f.entries f.lists.below;
  };
  says = f.says;
  count = ap (λ n. n + 1) f.count;
  entry = f.entry;
  inside = f.inside;
}

-- The header in memory at `ph` is that on the disk at `p`.
pub record Header (m d : ℕ → ℕ) (ph p : ℕ) : Type 0 where
  pub type : type_of m ph ≡ type_of d p
  pub off : off_of m ph ≡ off_of d p
  pub vaddr : vaddr_of m ph ≡ vaddr_of d p
  pub filesz : filesz_of m ph ≡ filesz_of d p
  pub memsz : memsz_of m ph ≡ memsz_of d p

-- What a round makes of it.
pub data Taken (d : ℕ → ℕ) (entry cnt : ℕ) (found : List Section) (p : ℕ)
    : Outcome Reader Bool → Type 0 where
  skipped :
      {s : Reader}
      → (type_of d p == elf_prog_load) ≡ false
      → Found d entry s cnt found
      → Taken d entry cnt found p (ok true s)
  refused :
      {s : Reader}
      → (type_of d p == elf_prog_load) ≡ true
      → unfit cnt (section_at d p) ≡ true
      → Calm d s
      → Taken d entry cnt found p (ok false s)
  taken :
      {s : Reader}
      → (type_of d p == elf_prog_load) ≡ true
      → unfit cnt (section_at d p) ≡ false
      → Found d entry s (passed cnt found) (section_at d p ∷ found)
      → Taken d entry cnt found p (ok true s)

next_node-lt : (cnt : ℕ) (l : List Entry) → cnt < elfsize → next_node cnt l < elfsize
next_node-lt cnt [] lt = omega arith
next_node-lt cnt (x ∷ xs) lt = lt

passed-eq :
    (cnt : ℕ) (l : List Entry) (found : List Section)
    → says_of l ≡ found
    → next_node cnt l + 1 ≡ passed cnt found
passed-eq cnt [] found e = ap (passed cnt) e
passed-eq cnt (x ∷ xs) found e = ap (passed cnt) e

module _ (device : Disk → Disk) (elf ph : ℕ) where
  pub take_section-Taken :
      {d : ℕ → ℕ} {entry cnt : ℕ} {found : List Section} (p : ℕ) (s : Reader)
      → Found d entry s cnt found
      → Header s.io.bytes d ph p
      → Taken d entry cnt found p (take_section device elf ph s)
  take_section-Taken {d} {entry} {cnt} {found} p s f h =
      rw (h.type, h.off, h.vaddr, h.filesz, h.memsz) (go refl refl refl refl refl)
    where
      x : Section
      x = section_at d p

      go :
          {load small wraps apart full : Bool}
          → (type_of d p == elf_prog_load) ≡ load
          → ltb (memsz_of d p) (filesz_of d p) ≡ small
          → ltb ((vaddr_of d p + memsz_of d p) % 2 ^ 64) (vaddr_of d p) ≡ wraps
          → (vaddr_of d p % 4096 == 0) ≡ apart
          → leb elfsize s.sections.cnt ≡ full
          → Taken d entry cnt found p (
              if not load
              then ok true s
              else if small
              then ok false s
              else if wraps
              then ok false s
              else if not apart
              then ok false s
              else if full
              then ok false s
              else and_then
                  (on_sections s (
                    allocate_elf_reader
                      (off_of d p)
                      (vaddr_of d p)
                      (filesz_of d p)
                      (memsz_of d p)
                      s.sections))
                  (λ _. pure true))
      go {load = false} e e1 e2 e3 e4 = skipped e f
      go {load = true} {small = true} e e1 e2 e3 e4 = refused e (rw e1 refl) f.calm
      go {load = true} {small = false} {wraps = true} e e1 e2 e3 e4 =
          refused e (rw (e1, e2) refl) f.calm
      go {load = true} {small = false} {wraps = false} {apart = false} e e1 e2 e3 e4 =
          refused e (rw (e1, e2, e3) refl) f.calm
      go {load = true} {small = false} {wraps = false} {apart = true} {full = true} e e1 e2 e3 e4 =
          refused e (rw (e1, e2, e3, sym (ap (leb elfsize) f.count) ∙ e4) refl) f.calm
      go {load = true} {small = false} {wraps = false} {apart = true} {full = false} e e1 e2 e3 e4 =
          let (t, e5, l, c) =
            allocate_elf_reader-Lists f.entries (off_of d p) (vaddr_of d p) (filesz_of d p)
              (memsz_of d p) f.lists (ground (arith, f.count)) in
          rw e5 (
            taken e (rw (e1, e2, e3, sym (ap (leb elfsize) f.count) ∙ e4) refl) (record {
              calm = record { bytes = f.calm.bytes; disk = f.calm.disk };
              entries = _;
              lists = l;
              says = ap (λ r. section_at d p ∷ r) f.says;
              count =
                  c
                  ∙ ap (λ n. next_node n f.entries + 1) f.count
                  ∙ passed-eq cnt f.entries found f.says;
              entry = f.entry;
              inside = (next_node-lt s.sections.cnt f.entries (ground arith), l.below.1);
            }))
