-- ===== src/Elf/Nodes.antt =====
-- The sections that `allocateELFReader` of kernel/elfReader.c lists.
use r5o.Base.{
  ℕ, ◌+◌, ◌<◌, ◌≡◌, refl, ap, ◌∙◌, false, Option, none, some, List, [], ◌∷◌, arith, ◌==◌, leb,
  ==_refl, ok, update,
}
use r5o.Elf.{elfsize, Node, Sections, allocate_elf_reader, fill_tail, link_next, link_prev}

-- What a section says: `off`, `vaddr`, `filesz` and `memsz`.
pub record Section : Type 0 where
  pub off : ℕ
  pub vaddr : ℕ
  pub filesz : ℕ
  pub memsz : ℕ

abbrev pub section : Node → Section
section n = record { off = n.off; vaddr = n.vaddr; filesz = n.filesz; memsz = n.memsz }

-- A member of the list: its node, and what it says.
pub record Entry : Type 0 where
  pub node : ℕ
  pub says : Section

-- From pointer `p` back along `prev` to `head`, the nodes say `l`, the last section first; each
-- node's `next` is the node after it, and that of the last is `after`.
abbrev pub Back : (ℕ → Node) → Option ℕ → Option ℕ → Option ℕ → List Entry → Type 0
Back f head after p [] = (p ≡ none) × (head ≡ after)
Back f head after p (x ∷ xs) =
    (p ≡ some x.node)
    × ((f x.node).next ≡ after)
    × (section (f x.node) ≡ x.says)
    × Back f head (some x.node) (f x.node).prev xs

abbrev pub Below : ℕ → List Entry → Type 0
Below n [] = Unit {0}
Below n (x ∷ xs) = (x.node < n) × Below x.node xs

-- The doubly linked list says `l`, in nodes before `cnt` that grow along it.
pub record Lists (s : Sections) (l : List Entry) : Type 0 where
  pub linked : Back s.nodes s.head none s.tail l
  pub below : Below s.cnt l

-- Nodes from `n` on do not matter to a list below it.
Back-same :
    (f g : ℕ → Node) (head after p : Option ℕ) (n : ℕ) (l : List Entry)
    → Below n l
    → ((i : ℕ) → i < n → g i ≡ f i)
    → Back f head after p l
    → Back g head after p l
Back-same f g head after p n [] b same h = h
Back-same f g head after p n (x ∷ xs) b same h =
    let at = same x.node b.0 in
    (
      h.0,
      ap (λ n. n.next) at ∙ h.1,
      ap section at ∙ h.2,
      rw at (
          Back-same f g head (some x.node) (f x.node).prev x.node xs b.1
            (λ i lt. same i (omega arith)) h.3),
    )

module _ (f : ℕ → Node) (off vaddr filesz memsz : ℕ) where
  -- What the handler writes for a list whose last node is `t`, with the next one at `c`.
  appended : ℕ → ℕ → ℕ → Node
  appended t c =
      let g = link_next c none (link_prev c (some t) (link_next t (some c) f)) in
      update g c (record (g c) { off = off; vaddr = vaddr; filesz = filesz; memsz = memsz })

  appended-Back :
      (head : Option ℕ) (x : Entry) (xs : List Entry) (c : ℕ)
      → Below c (x ∷ xs)
      → Back f head none (some x.node) (x ∷ xs)
      → Back (appended x.node c) head none (some c) (
          record {
            node = c;
            says = record { off = off; vaddr = vaddr; filesz = filesz; memsz = memsz };
          }
          ∷ x
          ∷ xs)
  unfolding appended
  appended-Back head x xs c b h =
      let tail_ne : (c == x.node) ≡ false = ground arith in
      let here = ==_refl c in
      let there = ==_refl x.node in
      (
        refl,
        rw here refl,
        rw here refl,
        rw here (
          refl,
          rw (tail_ne, there) refl,
          rw (tail_ne, there) h.2,
          rw (tail_ne, there)
              (Back-same f _ head (some x.node) (f x.node).prev x.node xs b.1
                (λ i lt.
                  let ci : (c == i) ≡ false = ground arith in
                  let xi : (x.node == i) ≡ false = ground arith in rw (ci, xi) refl)
                h.3),
        ),
      )

-- A list with a node after it has a head.
head_some :
    (f : ℕ → Node) (head : Option ℕ) (a : ℕ) (p : Option ℕ) (l : List Entry)
    → Back f head (some a) p l
    → (i : ℕ) × (head ≡ some i)
head_some f head a p [] h = (a, h.1)
head_some f head a p (x ∷ xs) h = head_some f head x.node _ xs h.3

module _ (s : Sections) (off vaddr filesz memsz : ℕ) where
  -- The states that the two branches leave.
  started : Sections
  started = fill_tail 0 off vaddr filesz memsz (record s {
    nodes = link_next 0 none (link_prev 0 none s.nodes);
    head = some 0;
    tail = some 0;
    cnt = 1;
  })

  extended : ℕ → Sections
  extended t = record s {
    nodes = appended s.nodes off vaddr filesz memsz t s.cnt;
    tail = some s.cnt;
    cnt = s.cnt + 1;
  }

-- The node that the next section gets.
abbrev pub next_node : ℕ → List Entry → ℕ
next_node cnt [] = 0
next_node cnt (x ∷ xs) = cnt

-- `allocateELFReader` puts the section at the end of the list, where a node is left: in the first
-- node of an empty list, and else in node `cnt`; `cnt` is then the node after it.
pub allocate_elf_reader-Lists :
    {s : Sections} (l : List Entry) (off vaddr filesz memsz : ℕ)
    → Lists s l
    → s.cnt < elfsize
    → (t : Sections) × (allocate_elf_reader off vaddr filesz memsz s ≡ ok tt t)
      × Lists t (
          record {
            node = next_node s.cnt l;
            says = record { off = off; vaddr = vaddr; filesz = filesz; memsz = memsz };
          }
          ∷ l)
      × (t.cnt ≡ next_node s.cnt l + 1)
unfolding allocate_elf_reader started extended appended
allocate_elf_reader-Lists {s} [] off vaddr filesz memsz h free =
    let empty : s.head ≡ none = h.linked.1 in
    (
      started s off vaddr filesz memsz,
      rw empty refl,
      record { linked = (refl, refl, refl, (refl, refl)); below = (omega arith, tt) },
      refl,
    )
allocate_elf_reader-Lists {s} (x ∷ xs) off vaddr filesz memsz h free =
    let (i, first) = head_some s.nodes s.head x.node _ xs h.linked.3 in
    let room : leb elfsize s.cnt ≡ false = ground arith in
    (
      extended s off vaddr filesz memsz x.node,
      rw (first, h.linked.0, room) refl,
      record {
        linked =
            appended-Back s.nodes off vaddr filesz memsz s.head x xs s.cnt h.below
              (refl, h.linked.1, h.linked.2, h.linked.3);
        below = (omega arith, h.below);
      },
      refl,
    )
