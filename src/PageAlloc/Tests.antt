-- ===== src/PageAlloc/Tests.antt =====
-- Examples for kernel/memoryAllocator.c.
use r5o.Base.{◌≡◌, ◌==◌, if◌then◌else◌, refl, [], ◌∷◌, ok, Refines}
use r5o.PageAlloc.{Alloc, num_pages, page_alloc_init, allocate_page, free_page}
use r5o.PageAlloc.Stack.{
  Holds, pop, push, allocate_page-cons, allocate_page-Refines, free_page-Refines,
}
use r5o.PageAlloc.Init.{page_range, page_alloc_init-Holds}
use r5o.PageAlloc.Owners.{Reach, Step, Owned, Reach-Owned}

-- Two free pages, 7 on top of 9.
abbrev two_free : Alloc
two_free = record {
  pages = λ i. if i == 498 then 7 else 9;
  curr_free_page_node = 498;
  num_free_pages = 2;
}

two_free-Holds : Holds two_free (7 ∷ 9 ∷ [])
two_free-Holds = record { count = refl; fits = refl; window = (refl, (refl, tt)) }

allocate_page-Refines_example : Refines Holds (allocate_page two_free) (pop (7 ∷ 9 ∷ []))
allocate_page-Refines_example = allocate_page-Refines (7 ∷ 9 ∷ []) two_free-Holds

free_page-Refines_example : Refines Holds (free_page 4 two_free) (push 4 (7 ∷ 9 ∷ []))
free_page-Refines_example = free_page-Refines 4 (7 ∷ 9 ∷ []) two_free-Holds

abbrev zeroed : Alloc
zeroed = record { pages = λ i. 0; curr_free_page_node = 0; num_free_pages = 0 }

page_alloc_init-Holds_example : Holds (page_alloc_init 100 zeroed) (page_range 100 num_pages)
page_alloc_init-Holds_example = page_alloc_init-Holds 100 zeroed

-- After boot, a client takes a page.
first_take :
    (t : Alloc) × (allocate_page (page_alloc_init 100 zeroed) ≡ ok 100 t)
    × Holds t (page_range 101 499)
first_take = allocate_page-cons 100 (page_range 101 499) (page_alloc_init-Holds 100 zeroed)

one_held : Reach 100 (100 ∷ []) first_take.0
one_held = Reach.next (Reach.booted zeroed) (Step.taken first_take.1)

Reach-Owned_example : Owned 100 (100 ∷ []) first_take.0
Reach-Owned_example = Reach-Owned one_held
