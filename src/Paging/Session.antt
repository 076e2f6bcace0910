-- ===== src/Paging/Session.antt =====
-- A page table of kernel/paging.c from `allocatePageTable` on, through calls of
-- `allocateVirtualPage`.
use r5o.Base.{
  ℕ, ◌+◌, ◌*◌, ◌%◌, ◌^◌, ◌<◌, ◌≡◌, Bool, true, false, Option, none, some, List, [], ◌∷◌, ◌==◌,
  if◌then◌else◌, has, Distinct, ok, Cmd, pure, ◌>>=◌, ◌>>◌, Ends,
}
use r5o.PageAlloc.Stack.{Holds}
use r5o.Paging.{
  Vm, is_valid, get_virt_page, allocate_page_directory, allocate_virtual_page, virtual_to_physical,
}
use r5o.Paging.Tree.{entry_of}
use r5o.Paging.Fill.{Inv}

-- What the code asks `allocateVirtualPage` for: a virtual page, and whether it can be read, written
-- and executed.
pub record Wish : Type 0 where
  pub page : ℕ
  pub read : Bool
  pub write : Bool
  pub exec : Bool

-- The wishes in order, on one page table.
abbrev pub allocations : ℕ → List Wish → Cmd Vm (Unit {0})
allocations pagetable [] = pure tt
allocations pagetable (c ∷ cs) =
    allocate_virtual_page pagetable c.page c.read c.write c.exec >> allocations pagetable cs

-- A new page table, and the wishes on it.
abbrev pub table_with : List Wish → Cmd Vm ℕ
table_with cs =
    allocate_page_directory >>= (λ pagetable. allocations pagetable cs >> pure pagetable)

-- The free pages are different, have numbers of 44 bits, and hold no valid entry.
pub record CleanStock (free : List ℕ) (s : Vm) : Type 0 where
  pub holds : Holds s.alloc free
  pub distinct : Distinct free
  pub small : (p : ℕ) → has p free ≡ true → p < 2 ^ 44
  pub clean : (p k : ℕ) → has p free ≡ true → k < 512 → is_valid (s.mem (entry_of p k)) ≡ false

-- Addresses that the table translates into one physical page lie in one virtual page.
abbrev pub Injective : ℕ → Vm → Type 0
Injective pagetable s =
    (va va' p : ℕ)
    → virtual_to_physical pagetable va s ≡ ok (p * 4096 + va % 4096) s
    → virtual_to_physical pagetable va' s ≡ ok (p * 4096 + va' % 4096) s
    → get_virt_page va ≡ get_virt_page va'

-- There is a table at page `root`.
record Tree (root : ℕ) (s : Vm) : Type 0 where
  own : ℕ → Option (List ℕ)
  free : List ℕ
  inv : Inv own root free s

abbrev only : ℕ → ℕ → Option (List ℕ)
only root p = if p == root then some [] else none
