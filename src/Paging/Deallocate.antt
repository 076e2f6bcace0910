-- ===== src/Paging/Deallocate.antt =====
-- `deallocatePageTable` of kernel/paging.c gives back what the table holds.

use r5o.Base.{ℕ, ◌+◌, ◌/◌, ◌^◌, ◌≤◌, ◌<◌, ◌≡◌, refl, false, List, ◌∷◌, arith, All, length, ok}
use r5o.PageAlloc.{Alloc, num_pages, free_page}
use r5o.PageAlloc.Stack.{Holds, free_page-cons}
use r5o.Paging.{Vm, num_pte, entry_at, is_valid, sweep, sweep_l0, sweep_l1, deallocate_page_table}
use r5o.Paging.Held.{Walk, pushed_on, all_pages, all_dirs, nothing, AllApart, Outside, all-Local}
use r5o.Paging.Sweep.{length-pushed_on, pure-Frees, nothing-Local, sweep-Frees, sweep-Swept, Frees}

-- The pages of the last two levels, and of a whole table but its root, and their directories.
abbrev pub l0_pages : Walk
l0_pages = all_pages nothing

abbrev pub l0_dirs : Walk
l0_dirs = all_dirs nothing

abbrev pub l1_pages : Walk
l1_pages = all_pages l0_pages

abbrev pub l1_dirs : Walk
l1_dirs = all_dirs l0_dirs

l0-Frees : Frees sweep_l0 l0_pages l0_dirs
unfolding sweep_l0
l0-Frees = sweep-Frees pure-Frees nothing-Local

l1-Frees : Frees sweep_l1 l1_pages l1_dirs
unfolding sweep_l1
l1-Frees = sweep-Frees l0-Frees (all-Local nothing-Local)

root_freed :
    (root : ℕ) (s s1 : Vm) (t : Alloc)
    → sweep sweep_l1 root num_pte 0 s ≡ ok tt s1
    → free_page (root / 2 ^ 12) s1.alloc ≡ ok tt t
    → deallocate_page_table root s ≡ ok tt (record s1 { alloc = t })
unfolding deallocate_page_table
root_freed root s s1 t e f = rw (e, f) refl

-- `deallocatePageTable`, on a table none of whose directories overlap, with room in the allocator for
-- its pages, returns. It gives back, in this order, the pages that are mapped below each entry of
-- each directory, the directory itself behind those below it, and the page of the root last; it leaves the
-- root with no valid entry, and writes to nothing but entries of the table's directories.
pub deallocate_page_table-Freed :
    (root : ℕ) (s : Vm) (free : List ℕ)
    → Holds s.alloc free
    → length (all_pages l1_pages s.mem root) + 1 + length free ≤ num_pages
    → AllApart (all_dirs l1_dirs s.mem root)
    → (s' : Vm) × (deallocate_page_table root s ≡ ok tt s')
      × Holds s'.alloc (root / 2 ^ 12 ∷ pushed_on (all_pages l1_pages s.mem root) free)
      × ((j : ℕ) → j < num_pte → is_valid (s'.mem (entry_at root j)) ≡ false)
      × ((a : ℕ) → All (Outside a) (all_dirs l1_dirs s.mem root) → s'.mem a ≡ s.mem a)
deallocate_page_table-Freed root s free h room (own, apart) =
    let (s1, e, w) =
      sweep-Swept l1-Frees (all-Local (all-Local nothing-Local)) root num_pte 0 s free (record {
        inside = omega arith;
        holds = h;
        room = omega arith;
        own = own;
        apart = apart;
      }) in
    let given = pushed_on (all_pages l1_pages s.mem root) free in
    let (t, f, h2) =
      free_page-cons (root / 2 ^ 12) given w.holds
        (omega (arith, length-pushed_on (all_pages l1_pages s.mem root) free)) in
    (
      record s1 { alloc = t },
      root_freed root s s1 t e f,
      h2,
      (λ j lt. w.invalid j (omega arith) lt),
      (λ a out. w.elsewhere a (λ j le lt. out.0 j lt) out.1),
    )
