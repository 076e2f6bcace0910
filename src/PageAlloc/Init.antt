-- ===== src/PageAlloc/Init.antt =====
-- `pageAllocInit` of kernel/memoryAllocator.c.
use r5o.Base.{
  ℕ, zero, suc, ◌+◌, ◌<◌, ◌≡◌, refl, List, [], ◌∷◌, arith, ltb, if◌then◌else◌, length, update,
}
use mathlib.Core.Path.{subst}
use native.Mathlib.Nat.{add_assoc, add-zero}
use r5o.PageAlloc.{num_pages, Alloc, init_loop, page_alloc_init}
use r5o.PageAlloc.Stack.{Window, Holds}

-- `start`, `start + 1`, …: the pages that the allocator is given.
abbrev pub page_range : ℕ → ℕ → List ℕ
page_range start zero = []
page_range start (suc n) = start ∷ page_range (start + 1) n

pub length-page_range : (start n : ℕ) → length (page_range start n) ≡ n
length-page_range start zero = refl
length-page_range start (suc n) = omega (arith, length-page_range (start + 1) n)

init_loop-get :
    (start k i : ℕ) (f : ℕ → ℕ) (j : ℕ)
    → init_loop start k i f j ≡ (if ltb j i then f j else if ltb j (i + k) then start + j else f j)
unfolding init_loop
init_loop-get start zero i f j = ground arith
init_loop-get start (suc k) i f j =
    ground (arith, init_loop-get start k (i + 1) (update f i (start + i)) j)

Window-range :
    (f : ℕ → ℕ) (start : ℕ) (n i : ℕ)
    → ((j : ℕ) → j < i + n → f j ≡ start + j)
    → Window f i (page_range (start + i) n)
Window-range f start zero i h = tt
Window-range f start (suc n) i h = (
  h i (omega arith),
  rw (add_assoc start i 1) (Window-range f start n (i + 1) λ j lt. h j (omega arith)),
)

Window-init_loop : (start n : ℕ) (f : ℕ → ℕ) → Window (init_loop start n 0 f) 0 (page_range start n)
Window-init_loop start n f =
    subst (λ m. Window (init_loop start n 0 f) 0 (page_range m n)) (add-zero start)
      (Window-range (init_loop start n 0 f) start n 0
        λ j lt. ground (arith, init_loop-get start n 0 f j))

-- After `pageAllocInit` the free pages are START_PAGE, START_PAGE + 1, … in this order, all 500.
pub page_alloc_init-Holds :
    (start : ℕ) (s : Alloc) → Holds (page_alloc_init start s) (page_range start num_pages)
unfolding page_alloc_init
page_alloc_init-Holds start s = record {
  count = omega (arith, length-page_range start num_pages);
  fits = refl;
  window = Window-init_loop start num_pages s.pages;
}
