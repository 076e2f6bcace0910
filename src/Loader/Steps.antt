-- ===== src/Loader/Steps.antt =====
-- The steps of `programLoader` in kernel/createProcess.c: none of them runs for ever.
use Prim.Native.String.{String}
use mathlib.Core.Path.{subst}
use r5o.Base.{
  ℕ, zero, suc, ◌+◌, ◌*◌, ◌%◌, ◌^◌, ◌<◌, ◌≤◌, ◌≡◌, ◌≢◌, refl, sym, ap, Bool, true, false, Option,
  some, List, [], ◌∷◌, ◌==◌, Bool-cases, inl, inr, length, arith, update, Outcome, Cmd, ◌>>=◌,
  Refines, leb, both_ok, both_halt, Ends, ends_ok, ends_halt, Ends-bind,
}
use r5o.Disk.{Disk}
use r5o.Disk.Device.{Serves}
use r5o.BlockIo.{Io, bsize, disksize}
use r5o.BlockIo.Flat.{Flat, flat, Implements}
use r5o.BlockIo.Virtual.{words, read_bytes_virtual}
use r5o.BlockIo.Virtual.Refine.{read_bytes_virtual-Refines, read_virtual, at_virtual}
use r5o.BlockIo.Loops.{each_byte}
use r5o.BlockIo.Reads.{fetch_byte}
use r5o.PageAlloc.Stack.{Holds}
use r5o.Paging.{
  Vm, shl, get_virt_page, allocate_page_directory, is_virtual_page_allocated, translate,
}
use r5o.Paging.Ends.{
  Refusal, Stocked, KeepsStock, allocate_page_directory-Ends, allocate_virtual_page-Ends,
}
use r5o.Elf.{elfsize, Node}
use r5o.Elf.Nodes.{Entry, section}
use r5o.Elf.Chain.{Chain, Sized}
use r5o.Elf.Reader.Round.{says_of}
use r5o.Process.{Machine, SaveArea}
use r5o.Loader.{
  System, on_tables, on_memory, paging, set_area, page_loop, load_section, node_loop, load_program,
}

-- The messages with which the loading of a section stops: those of a mapping, that of the
-- transfer, and that of the translation.
pub data LoadFailure : String → Type 0 where
  mapping : {e : String} → Refusal e → LoadFailure e
  disk_ends : LoadFailure "readBytesVirtual: block exceeds disk size"
  unmapped : LoadFailure "virtualToPhysical: virtual address not valid"

each_byte-Ends :
    (pagetable k p va : ℕ) (t : Flat)
    → Ends LoadFailure
        (λ u t. Unit {0})
        (each_byte "readBytesVirtual: block exceeds disk size"
          (at_virtual pagetable fetch_byte)
          k
          p
          va
          t)
unfolding translate
each_byte-Ends pagetable zero p va t = ends_ok tt
each_byte-Ends pagetable (suc k) p va t = elim (Bool-cases (leb (disksize * bsize) p)) [
  | inl beyond ↦ rw beyond (ends_halt disk_ends)
  | inr inside ↦
      elim (Bool-cases (is_virtual_page_allocated (words t.memory) pagetable (get_virt_page va))) [
        | inl found ↦ rw (inside, found) (each_byte-Ends pagetable k (p + 1) (va + 1) _)
        | inr missing ↦ rw (inside, missing) (ends_halt unmapped)
      ]
]

read_virtual-Ends :
    (pagetable n off count va : ℕ) (t : Flat)
    → Ends LoadFailure (λ u t. Unit {0}) (read_virtual pagetable n off count va t)
unfolding read_virtual
read_virtual-Ends pagetable n off count va t = elim (Bool-cases (leb disksize n)) [
  | inl beyond ↦ rw beyond (ends_halt disk_ends)
  | inr exists ↦ rw exists (each_byte-Ends pagetable count (n * bsize + off) va t)
]

-- While process `pid` is loaded: the driver is at rest, the allocator well-formed, and the process
-- table is `m` but for the save area of that process; the nodes of the sections are `nodes`.
pub record Loading (m : Machine) (pid : ℕ) (nodes : ℕ → Node) (s : System) : Type 0 where
  pub bytes : Implements s.reader.io (flat s.reader.io)
  pub free : List ℕ
  pub holds : Holds s.alloc free
  pub same : s.reader.sections.nodes ≡ nodes
  pub others : (q : ℕ) → q ≢ pid → s.machine.pd q ≡ m.pd q
  pub current : s.machine.current_process ≡ m.current_process

abbrev pub Still : Machine → ℕ → (ℕ → Node) → {A : Type 0} → A → System → Type 0
Still m pid nodes a s = Loading m pid nodes s

abbrev Keeps : Machine → ℕ → (ℕ → Node) → {A : Type 0} → Cmd System A → Type 0
Keeps m pid nodes c =
    (s : System) → Loading m pid nodes s → Ends LoadFailure (Still m pid nodes) (c s)

module _ {m : Machine} {pid : ℕ} {nodes : ℕ → Node} where
  Keeps-bind :
      {A B : Type 0} {R : B → System → Type 0} {c : Cmd System A} {f : A → Cmd System B}
      → Keeps m pid nodes c
      → ((a : A) (t : System) → Loading m pid nodes t → Ends LoadFailure R (f a t))
      → (s : System) → Loading m pid nodes s
      → Ends LoadFailure R ((c >>= f) s)
  Keeps-bind {f} k l s h = Ends-bind f (k s h) (λ a t h'. l a t h')

  paging-Ends :
      {A : Type 0} (c : Cmd Vm A) (s : System)
      → KeepsStock c
      → Loading m pid nodes s
      → Ends LoadFailure (Still m pid nodes) (paging c s)
  paging-Ends {A} c s keeps h = go (keeps _ (record { free = h.free; holds = h.holds }))
    where
      go :
          {o : Outcome Vm A}
          → Ends Refusal (λ a t. Stocked t) o
          → Ends LoadFailure (Still m pid nodes) (on_tables s o)
      go (ends_ok k) = ends_ok (record {
        bytes = record { ring = h.bytes.ring; warm = h.bytes.warm; same = refl };
        free = k.free;
        holds = k.holds;
        same = h.same;
        others = h.others;
        current = h.current;
      })
      go (ends_halt e) = ends_halt (mapping e)

  set_area-Ends :
      (f : SaveArea → SaveArea) (s : System)
      → Loading m pid nodes s
      → Ends LoadFailure (Still m pid nodes) (set_area pid f s)
  set_area-Ends f s h = ends_ok (record {
    bytes = h.bytes;
    free = h.free;
    holds = h.holds;
    same = h.same;
    others = λ q ne. let apart : (pid == q) ≡ false = ground arith in rw apart (h.others q ne);
    current = h.current;
  })

  page_loop-Ends :
      (pagetable va k i : ℕ) (s : System)
      → i + k < 2 ^ 31
      → Loading m pid nodes s
      → Ends LoadFailure (Still m pid nodes) (page_loop pagetable va k i s)
  unfolding page_loop
  page_loop-Ends pagetable va zero i s lt h = ends_ok h
  page_loop-Ends pagetable va (suc k) i s lt h =
      let counts : (i + 1 == 2 ^ 31) ≡ false = ground arith in
      elim (Bool-cases (
        is_virtual_page_allocated (words s.reader.io.bytes) pagetable
          (get_virt_page ((va + i) % 2 ^ 64)))) [
            | inl mapped ↦
                rw (mapped, counts) (page_loop-Ends pagetable va k (i + 1) s (omega arith) h)
            | inr missing ↦
                rw (missing, counts)
                  (Ends-bind _
                    (paging-Ends _ s
                      (allocate_virtual_page-Ends pagetable (get_virt_page ((va + i) % 2 ^ 64)) true
                        true true)
                      h)
                    (λ u t h'. page_loop-Ends pagetable va k (i + 1) t (omega arith) h'))
          ]

  module _ {device : Disk → Disk} (serves : Serves device) (elf ph : ℕ) where
    read-Ends :
        (pagetable n off count va : ℕ) (s : System)
        → off ≤ bsize
        → Loading m pid nodes s
        → Ends LoadFailure
            (Still m pid nodes)
            (on_memory s (read_bytes_virtual device pagetable n off count va s.reader.io))
    read-Ends pagetable n off count va s le h =
        go (read_bytes_virtual-Refines serves pagetable n off count va s.reader.io _ le h.bytes)
          (read_virtual-Ends pagetable n off count va (flat s.reader.io))
      where
        go :
            {o : Outcome Io (Unit {0})} {r : Outcome Flat (Unit {0})}
            → Refines Implements o r
            → Ends LoadFailure (λ u t. Unit {0}) r
            → Ends LoadFailure (Still m pid nodes) (on_memory s o)
        go (both_ok i) k = ends_ok (record {
          bytes = record { ring = i.ring; warm = i.warm; same = refl };
          free = h.free;
          holds = h.holds;
          same = h.same;
          others = h.others;
          current = h.current;
        })
        go both_halt (ends_halt e) = ends_halt e

    load_section-Ends :
        (block off pagetable stack : ℕ) (node : Node) (s : System)
        → node.memsz < 2 ^ 31
        → Loading m pid nodes s
        → Ends LoadFailure
            (Still m pid nodes)
            (load_section device elf ph block off pagetable stack node s)
    load_section-Ends block off pagetable stack node s lt h =
        Ends-bind _ (page_loop-Ends pagetable node.vaddr node.memsz 0 s (omega arith) h) (λ u t h1.
          Ends-bind _ (read-Ends pagetable _ _ node.filesz node.vaddr t (omega arith) h1)
            (λ u' t' h2. ends_ok h2))

    node_loop-Ends :
        (block off pagetable k stack : ℕ) (p : Option ℕ) (l : List Entry) (s : System)
        → Chain nodes p l
        → length l ≤ k
        → Sized (says_of l)
        → Loading m pid nodes s
        → Ends LoadFailure
            (Still m pid nodes)
            (node_loop device elf ph block off pagetable k stack p s)
    unfolding node_loop
    node_loop-Ends block off pagetable k stack p [] s c le fit h = rw c (ends_ok h)
    node_loop-Ends block off pagetable zero stack p (x ∷ xs) s c le fit h = absurd (omega arith)
    node_loop-Ends block off pagetable (suc k) stack p (x ∷ xs) s c le fit h =
        let node = s.reader.sections.nodes x.node in
        let rest = subst (λ f. Chain nodes (f x.node).next xs) (sym h.same) c.2 in
        let same : section node ≡ x.says =
          subst (λ f. section (f x.node) ≡ x.says) (sym h.same) c.1 in
        let lt : node.memsz < 2 ^ 31 = rw (ap (λ y. y.memsz) same) fit.0 in
        rw c.0 (
          Ends-bind _ (load_section-Ends block off pagetable stack node s lt h) (λ stack' t h'.
            node_loop-Ends block off pagetable k stack' node.next xs t rest (omega arith) fit.1 h'))

    pub load_program-Ends :
        (block off first : ℕ) (l : List Entry)
        → Chain nodes (some first) l
        → length l ≤ elfsize
        → Sized (says_of l)
        → (s : System) → Loading m pid nodes s
        → Ends LoadFailure
            (λ (loaded : Bool) t. (loaded ≡ true) × Loading m pid nodes t)
            (load_program device elf ph block off pid first s)
    load_program-Ends block off first l c le fit =
        Keeps-bind (λ s h. paging-Ends allocate_page_directory s allocate_page_directory-Ends h)
          (λ pagetable.
            Keeps-bind (λ s h. set_area-Ends (λ (a : SaveArea). record a { satp = pagetable }) s h)
              (λ u1.
                Keeps-bind
                  (λ s h. set_area-Ends (λ (a : SaveArea). record a { epc = s.reader.entry }) s h)
                  (λ u2.
                    Keeps-bind
                      (λ s h.
                        node_loop-Ends block off pagetable elfsize 0 (some first) l s c le fit h)
                      (λ stack.
                        Keeps-bind
                          (λ s h.
                            paging-Ends _ s
                              (allocate_virtual_page-Ends pagetable stack true true true) h)
                          (λ u3.
                            Keeps-bind
                              (λ s h.
                                paging-Ends _ s
                                  (allocate_virtual_page-Ends pagetable ((stack + 1) % 2 ^ 64) true
                                    true true)
                                  h)
                              (λ u4.
                                Keeps-bind
                                  (λ s h.
                                    set_area-Ends
                                      (λ (a : SaveArea). record a {
                                        reg = update a.reg 1 ((shl stack 12 + 2 * 4096) % 2 ^ 64);
                                      })
                                      s h)
                                  (λ u5 s h. ends_ok (refl, h))))))))
