-- ===== src/Paging.antt =====
-- kernel/paging.c: three-level page tables in physical memory, with pages from the allocator.
pub mod Fields
pub mod Allocate
pub mod Deallocate
pub mod Directory
pub mod Ends
pub mod Entry
pub mod Fill
pub mod Held
pub mod Map
pub mod Session
pub mod Sweep
pub mod Translate
pub mod Tree
mod Tests
use r5o.Base.{
  ℕ, zero, suc, ◌+◌, ◌*◌, ◌/◌, ◌%◌, ◌^◌, Bool, true, false, bit_and, bit_or, ◌==◌, if◌then◌else◌,
  not, update, Outcome, ok, halt, fault, hung, Cmd, pure, ◌>>=◌, ◌>>◌,
}
use r5o.Cpu.{complement}
use r5o.PageAlloc.{Alloc}
use r5o.PageAlloc

-- NUM_PTE
abbrev pub num_pte : ℕ
num_pte = 512

unfoldable pub get_offset : ℕ → ℕ
get_offset addr = bit_and addr 0x0000000000000fff

unfoldable pub get_virt_page : ℕ → ℕ
get_virt_page va = bit_and va 0x0000007ffffff000 / 2 ^ 12

unfoldable pub get_phy_page : ℕ → ℕ
get_phy_page pa = bit_and pa 0x00fffffffffff000 / 2 ^ 12

unfoldable pub get_l2 : ℕ → ℕ
get_l2 va = bit_and va 0x0000007fc0000000 / 2 ^ 30

unfoldable pub get_l1 : ℕ → ℕ
get_l1 va = bit_and va 0x000000003fe00000 / 2 ^ 21

unfoldable pub get_l0 : ℕ → ℕ
get_l0 va = bit_and va 0x00000000001ff000 / 2 ^ 12

unfoldable pub get_flags : ℕ → ℕ
get_flags pte = bit_and pte 0x00000000000003ff

unfoldable pub get_page_num : ℕ → ℕ
get_page_num pte = bit_and pte 0x003ffffffffffc00 / 2 ^ 10

-- PTE_V, PTE_R, PTE_W and PTE_X
abbrev pub pte_v : ℕ
pte_v = 2 ^ 0

abbrev pub pte_r : ℕ
pte_r = 2 ^ 1

abbrev pub pte_w : ℕ
pte_w = 2 ^ 2

abbrev pub pte_x : ℕ
pte_x = 2 ^ 3

-- The allocator and physical memory: the 64-bit word at each address that 8 divides.
pub record Vm : Type 0 where
  pub alloc : Alloc
  pub mem : ℕ → ℕ

-- A call of the allocator.
abbrev pub lifted : {A : Type 0} → Vm → Outcome Alloc A → Outcome Vm A
lifted s (ok a t) = ok a (record s { alloc = t })
lifted s (halt e) = halt e
lifted s fault = fault
lifted s hung = hung

abbrev pub call : {A : Type 0} → Cmd Alloc A → Cmd Vm A
call m s = lifted s (m s.alloc)

abbrev pub load : ℕ → Cmd Vm ℕ
load a s = ok (s.mem a) s

abbrev pub store : ℕ → ℕ → Cmd Vm (Unit {0})
store a v s = ok tt (record s { mem = update s.mem a v })

-- `x << k` on uint64.
abbrev pub shl : ℕ → ℕ → ℕ
shl x k = x * 2 ^ k % 2 ^ 64

-- The address of `dir->pageTableEntry[i]`.
abbrev pub entry_at : ℕ → ℕ → ℕ
entry_at dir i = dir + 8 * i

-- What `setFlags` makes of an entry: it adds flags, and takes none away.
unfoldable pub add_flags : ℕ → Bool → Bool → Bool → ℕ
add_flags v r w x =
    let v = if r then bit_or v pte_r else v in
    let v = if w then bit_or v pte_w else v in if x then bit_or v pte_x else v

unfoldable pub set_flags : ℕ → Bool → Bool → Bool → Cmd Vm (Unit {0})
set_flags a r w x = do v ← load a; store a (add_flags v r w x)

-- What `setPageNum` makes of an entry.
unfoldable pub with_page_num : ℕ → ℕ → ℕ
with_page_num v p = bit_or (shl p 10) (get_flags v)

unfoldable pub set_page_num : ℕ → ℕ → Cmd Vm (Unit {0})
set_page_num a p = do v ← load a; store a (with_page_num v p)

-- The loop of `allocatePageDirectory`, from entry `i` with `k` rounds left.
unfoldable pub clear_loop : ℕ → ℕ → ℕ → Cmd Vm (Unit {0})
clear_loop dir zero i = pure tt
clear_loop dir (suc k) i = do
  v ← load (entry_at dir i)
  store (entry_at dir i) (bit_and v (complement pte_v))
  clear_loop dir k (i + 1)

-- `allocatePageDirectory`, and `allocatePageTable`, which casts its result.
unfoldable pub allocate_page_directory : Cmd Vm ℕ
allocate_page_directory = do
  p ← call PageAlloc.allocate_page
  clear_loop (shl p 12) num_pte 0
  pure (shl p 12)

-- `getFlags(pte) & PTE_V`
unfoldable pub is_valid : ℕ → Bool
is_valid pte = not (bit_and (get_flags pte) pte_v == 0)

-- The directory that an entry names.
abbrev pub dir_of : ℕ → ℕ
dir_of pte = shl (get_page_num pte) 12

unfoldable pub is_virtual_page_allocated : (ℕ → ℕ) → ℕ → ℕ → Bool
is_virtual_page_allocated mem pagetable vpn =
    let va = shl vpn 12 in
    let pte2 = mem (entry_at pagetable (get_l2 va)) in
    let pte1 = mem (entry_at (dir_of pte2) (get_l1 va)) in
    let pte0 = mem (entry_at (dir_of pte1) (get_l0 va)) in
    if not (is_valid pte2)
    then false
    else if not (is_valid pte1)
    then false
    else if not (is_valid pte0)
    then false
    else true

-- Each of the three parts of `mapVirtualPage`: a missing entry gets a new page.
unfoldable pub fill_entry : ℕ → Bool → Bool → Bool → Cmd Vm (Unit {0})
fill_entry a r w x s =
    if not (is_valid (s.mem a))
    then (do p ← call PageAlloc.allocate_page; store a (bit_or (shl p 10) pte_v); set_flags a r w x)
        s
    else ok tt s

-- The code never reads its argument `physicalPageNum`.
unfoldable pub map_virtual_page : ℕ → ℕ → ℕ → Bool → Bool → Bool → Cmd Vm (Unit {0})
map_virtual_page pagetable vpn ppn r w x = do
  let va = shl vpn 12
  fill_entry (entry_at pagetable (get_l2 va)) true false false
  pte2 ← load (entry_at pagetable (get_l2 va))
  fill_entry (entry_at (dir_of pte2) (get_l1 va)) true false false
  pte1 ← load (entry_at (dir_of pte2) (get_l1 va))
  fill_entry (entry_at (dir_of pte1) (get_l0 va)) r w x

unfoldable pub allocate_virtual_page : ℕ → ℕ → Bool → Bool → Bool → Cmd Vm (Unit {0})
allocate_virtual_page pagetable vpn r w x s =
    if is_virtual_page_allocated s.mem pagetable vpn
    then halt "allocateVirtualPage: Virtual Page Already given a physical page"
    else (do p ← call PageAlloc.allocate_page; map_virtual_page pagetable vpn p r w x) s

-- `virtualToPhysical` in any state, over the words of its memory.
unfoldable pub translate : {S : Type 0} → (ℕ → ℕ) → ℕ → ℕ → Cmd S ℕ
translate mem pagetable va s =
    let pte2 = mem (entry_at pagetable (get_l2 va)) in
    let pte1 = mem (entry_at (dir_of pte2) (get_l1 va)) in
    let pte0 = mem (entry_at (dir_of pte1) (get_l0 va)) in
    if not (is_virtual_page_allocated mem pagetable (get_virt_page va))
    then halt "virtualToPhysical: virtual address not valid"
    else ok (bit_or (shl (get_page_num pte0) 12) (get_offset va)) s

unfoldable pub virtual_to_physical : ℕ → ℕ → Cmd Vm ℕ
virtual_to_physical pagetable va s = translate s.mem pagetable va s

-- One of the three nested loops of `deallocatePageTable`, at entry `i` of `dir` with `k` rounds
-- left; `inner` is the loop inside it, over the directory that a valid entry names.
unfoldable pub sweep : (ℕ → Cmd Vm (Unit {0})) → ℕ → ℕ → ℕ → Cmd Vm (Unit {0})
sweep inner dir zero i = pure tt
sweep inner dir (suc k) i = λ s.
    let rest = sweep inner dir k (i + 1) in
    if is_valid (s.mem (entry_at dir i))
    then (do
      inner (dir_of (s.mem (entry_at dir i)))
      pte ← load (entry_at dir i)
      call (PageAlloc.free_page (get_page_num pte))
      store (entry_at dir i) 0
      rest)
        s
    else rest s

unfoldable pub sweep_l0 : ℕ → Cmd Vm (Unit {0})
sweep_l0 level0 = sweep (λ _. pure tt) level0 num_pte 0

unfoldable pub sweep_l1 : ℕ → Cmd Vm (Unit {0})
sweep_l1 level1 = sweep sweep_l0 level1 num_pte 0

unfoldable pub deallocate_page_table : ℕ → Cmd Vm (Unit {0})
deallocate_page_table pagetable = do
  sweep sweep_l1 pagetable num_pte 0
  call (PageAlloc.free_page (pagetable / 2 ^ 12))
