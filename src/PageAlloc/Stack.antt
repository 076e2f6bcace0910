-- ===== src/PageAlloc/Stack.antt =====
-- The allocator of kernel/memoryAllocator.c against a bounded stack of page numbers.
use r5o.Base.{
  ℕ, ◌+◌, ◌<◌, ◌≡◌, ◌≢◌, List, [], ◌∷◌, arith, ltb, ◌==◌, if◌then◌else◌, length, take, drop, update,
  ok, halt, Cmd, Refines, both_ok, both_halt, Bool-cases, inl, inr,
}
use r5o.PageAlloc.{num_pages, Alloc, inc, dec, allocate_page, free_page}

-- `pages[i]`, `pages[i + 1]`, … are the numbers of `l`.
abbrev pub Window : (ℕ → ℕ) → ℕ → List ℕ → Type 0
Window f i [] = Unit {0}
Window f i (x ∷ xs) = (f i ≡ x) × Window f (i + 1) xs

-- The free pages, the top of the stack first, fill the array to its end.
pub record Holds (s : Alloc) (l : List ℕ) : Type 0 where
  pub count : s.num_free_pages ≡ length l
  pub fits : s.curr_free_page_node + s.num_free_pages ≡ num_pages
  pub window : Window s.pages s.curr_free_page_node l

-- The stack that the allocator is: at most `num_pages` numbers.
unfoldable pub pop : Cmd (List ℕ) ℕ
pop [] = halt "allocatePage: No Free Page"
pop (x ∷ xs) = ok x xs

unfoldable pub push : ℕ → Cmd (List ℕ) (Unit {0})
push p l =
    if length l == num_pages
    then halt "freePage: All Free pages were already returned"
    else ok tt (p ∷ l)

unfoldable pub pop_many : ℕ → Cmd (List ℕ) (List ℕ)
pop_many n l =
    if n == 0
    then halt "allocatePages: Invalid n value"
    else if ltb (length l) n
    then halt "allocatePages: Less than n pages"
    else ok (take n l) (drop n l)

-- Writing below a window leaves it.
Window-update :
    (f : ℕ → ℕ) (i j v : ℕ) (l : List ℕ) → j < i → Window f i l → Window (update f j v) i l
Window-update f i j v [] h w = tt
Window-update f i j v (x ∷ xs) h w =
    (ground arith, Window-update f (i + 1) j v xs (omega arith) w.1)

-- What `allocatePage` leaves, where a page is free, and what `freePage` leaves, where one is not.
abbrev popped : Alloc → Alloc
popped s = record s {
  curr_free_page_node = inc s.curr_free_page_node;
  num_free_pages = dec s.num_free_pages;
}

abbrev pushed : ℕ → Alloc → Alloc
pushed p s = record {
  pages = update s.pages (dec s.curr_free_page_node) p;
  curr_free_page_node = dec s.curr_free_page_node;
  num_free_pages = inc s.num_free_pages;
}

module _ {s : Alloc} where
  popped-Holds : (x : ℕ) (xs : List ℕ) → Holds s (x ∷ xs) → Holds (popped s) xs
  popped-Holds x xs h =
      let e : inc s.curr_free_page_node ≡ s.curr_free_page_node + 1 = omega arith in
      record { count = omega arith; fits = omega arith; window = rw e h.window.1 }

  pub allocate_page-cons :
      (x : ℕ) (xs : List ℕ)
      → Holds s (x ∷ xs)
      → (t : Alloc) × (allocate_page s ≡ ok x t) × Holds t xs
  unfolding allocate_page
  allocate_page-cons x xs h = (popped s, ground arith, popped-Holds x xs h)

  pub allocate_page-nil : Holds s [] → allocate_page s ≡ halt "allocatePage: No Free Page"
  unfolding allocate_page
  allocate_page-nil h = ground arith

  pushed-Holds :
      (p : ℕ) (l : List ℕ) → length l ≢ num_pages → Holds s l → Holds (pushed p s) (p ∷ l)
  pushed-Holds p l ne h =
      let e : dec s.curr_free_page_node + 1 ≡ s.curr_free_page_node = omega arith in
      record {
        count = omega arith;
        fits = omega arith;
        window = (
          ground arith,
          rw e (
              Window-update s.pages s.curr_free_page_node (dec s.curr_free_page_node) p l
                (omega arith) h.window),
        );
      }

  pub free_page-cons :
      (p : ℕ) (l : List ℕ)
      → Holds s l
      → length l ≢ num_pages
      → (t : Alloc) × (free_page p s ≡ ok tt t) × Holds t (p ∷ l)
  unfolding free_page
  free_page-cons p l h ne = (pushed p s, ground arith, pushed-Holds p l ne h)

  free_page-full :
      (p : ℕ) (l : List ℕ)
      → Holds s l
      → length l ≡ num_pages
      → free_page p s ≡ halt "freePage: All Free pages were already returned"
  unfolding free_page
  free_page-full p l h e = ground arith

-- `allocatePage` does what `pop` does to the stack of free pages: it returns the top page and
-- leaves the others, or stops with its message when no page is free. It reads inside `pages`.
pub allocate_page-Refines :
    {s : Alloc} (l : List ℕ) → Holds s l → Refines Holds (allocate_page s) (pop l)
unfolding pop
allocate_page-Refines [] h = rw (allocate_page-nil h) both_halt
allocate_page-Refines (x ∷ xs) h = let (t, e, k) = allocate_page-cons x xs h in rw e (both_ok k)

-- `freePage` does what `push` does to the stack of free pages: it puts the page on top, or stops
-- with its message when all pages are free. It writes inside `pages`.
pub free_page-Refines :
    {s : Alloc} (p : ℕ) (l : List ℕ) → Holds s l → Refines Holds (free_page p s) (push p l)
unfolding push
free_page-Refines p l h = elim (Bool-cases (length l == num_pages)) [
  | inl full ↦ rw (full, free_page-full p l h (ground arith)) both_halt
  | inr room ↦ let (t, e, k) = free_page-cons p l h (ground arith) in rw (room, e) (both_ok k)
]
