-- ===== src/Paging/Ends.antt =====
-- The commands of kernel/paging.c end: they return, or stop because no page is free.
use Prim.Native.String.{String}
use r5o.Base.{
  ℕ, zero, suc, ◌+◌, Bool, true, false, List, [], ◌∷◌, Bool-cases, inl, inr, Cmd, Ends, ends_ok,
  ends_halt, Ends-bind,
}
use r5o.PageAlloc.{Alloc}
use r5o.PageAlloc
use r5o.PageAlloc.Stack.{Holds, allocate_page-cons, allocate_page-nil}
use r5o.Paging.{
  Vm, call, clear_loop, allocate_page_directory, set_flags, is_valid, is_virtual_page_allocated,
  fill_entry, map_virtual_page, allocate_virtual_page,
}

-- The two messages of kernel/paging.c and the allocator with which a mapping stops.
pub data Refusal : String → Type 0 where
  no_page : Refusal "allocatePage: No Free Page"
  given : Refusal "allocateVirtualPage: Virtual Page Already given a physical page"

-- The allocator's stack is well-formed.
pub record Stocked (s : Vm) : Type 0 where
  pub free : List ℕ
  pub holds : Holds s.alloc free

abbrev pub KeepsStock : {A : Type 0} → Cmd Vm A → Type 0
KeepsStock m = (s : Vm) → Stocked s → Ends Refusal (λ a t. Stocked t) (m s)

allocate_page-Ends : KeepsStock (call PageAlloc.allocate_page)
allocate_page-Ends s k = go k.free k.holds
  where
    go :
        (l : List ℕ)
        → Holds s.alloc l
        → Ends Refusal (λ a t. Stocked t) (call PageAlloc.allocate_page s)
    go [] h = rw (allocate_page-nil h) (ends_halt no_page)
    go (x ∷ xs) h =
        let (t, e, h') = allocate_page-cons x xs h in
        rw e (ends_ok (record { free = xs; holds = h' }))

clear_loop-Ends : (dir k i : ℕ) → KeepsStock (clear_loop dir k i)
unfolding clear_loop
clear_loop-Ends dir zero i s h = ends_ok h
clear_loop-Ends dir (suc k) i s h =
    clear_loop-Ends dir k (i + 1) _ (record { free = h.free; holds = h.holds })

pub allocate_page_directory-Ends : KeepsStock allocate_page_directory
unfolding allocate_page_directory
allocate_page_directory-Ends s h =
    Ends-bind _ (allocate_page-Ends s h)
      (λ p t h'. Ends-bind _ (clear_loop-Ends _ _ _ t h') (λ u t' h''. ends_ok h''))

fill_entry-Ends : (a : ℕ) (r w x : Bool) → KeepsStock (fill_entry a r w x)
unfolding fill_entry set_flags
fill_entry-Ends a r w x s h = elim (Bool-cases (is_valid (s.mem a))) [
  | inl valid ↦ rw valid (ends_ok h)
  | inr empty ↦ rw empty (
      Ends-bind _ (allocate_page-Ends s h)
        (λ p t h'. ends_ok (record { free = h'.free; holds = h'.holds })))
]

map_virtual_page-Ends :
    (pagetable vpn ppn : ℕ) (r w x : Bool) → KeepsStock (map_virtual_page pagetable vpn ppn r w x)
unfolding map_virtual_page
map_virtual_page-Ends pagetable vpn ppn r w x s h =
    Ends-bind _ (fill_entry-Ends _ true false false s h) (λ u t h'.
      Ends-bind _ (fill_entry-Ends _ true false false t h')
        (λ u' t' h''. fill_entry-Ends _ r w x t' h''))

pub allocate_virtual_page-Ends :
    (pagetable vpn : ℕ) (r w x : Bool) → KeepsStock (allocate_virtual_page pagetable vpn r w x)
unfolding allocate_virtual_page
allocate_virtual_page-Ends pagetable vpn r w x s h =
    elim (Bool-cases (is_virtual_page_allocated s.mem pagetable vpn)) [
      | inl mapped ↦ rw mapped (ends_halt given)
      | inr free ↦ rw free (
          Ends-bind _ (allocate_page-Ends s h)
            (λ p t h'. map_virtual_page-Ends pagetable vpn p r w x t h'))
    ]
