-- ===== src/PageAlloc.antt =====
-- kernel/memoryAllocator.c: a stack of free page numbers in a fixed array.
pub mod Init
pub mod Many
pub mod Owners
pub mod Stack
mod Tests
use r5o.Base.{
  ℕ, zero, suc, ◌+◌, ◌-◌, ◌%◌, ◌^◌, Bool, true, false, List, [], ◌∷◌, ltb, leb, ◌==◌, if◌then◌else◌,
  update, ok, halt, fault, Cmd, pure, ◌>>=◌, ◌>>◌,
}

-- NUM_PAGES
abbrev pub num_pages : ℕ
num_pages = 500

-- The globals `pages`, `currFreePageNode` and `numFreePages`.
pub record Alloc : Type 0 where
  pub pages : ℕ → ℕ
  pub curr_free_page_node : ℕ
  pub num_free_pages : ℕ

-- The loop of `pageAllocInit`, with `k` rounds left, at index `i`. `start` is START_PAGE, which
-- the linker's symbol `end` determines.
init_loop : ℕ → ℕ → ℕ → (ℕ → ℕ) → ℕ → ℕ
init_loop start zero i pages = pages
init_loop start (suc k) i pages = init_loop start k (i + 1) (update pages i (start + i))

unfoldable pub page_alloc_init : ℕ → Alloc → Alloc
unfolding init_loop
page_alloc_init start s = record {
  pages = init_loop start num_pages 0 s.pages;
  curr_free_page_node = 0;
  num_free_pages = num_pages;
}

-- `pages[i]`
read_page : ℕ → Cmd Alloc ℕ
read_page i s = if ltb i num_pages then ok (s.pages i) s else fault

-- `pages[i] = v`
write_page : ℕ → ℕ → Cmd Alloc (Unit {0})
write_page i v s =
    if ltb i num_pages then ok tt (record s { pages = update s.pages i v }) else fault

-- The two counters are uint64.
abbrev pub inc : ℕ → ℕ
inc n = (n + 1) % 2 ^ 64

abbrev pub dec : ℕ → ℕ
dec n = (n + 2 ^ 64 - 1) % 2 ^ 64

move : (ℕ → ℕ) → (ℕ → ℕ) → Cmd Alloc (Unit {0})
move node count s = ok tt (record s {
  curr_free_page_node = node s.curr_free_page_node;
  num_free_pages = count s.num_free_pages;
})

unfoldable pub allocate_page : Cmd Alloc ℕ
unfolding read_page move
allocate_page s =
    if s.num_free_pages == 0
    then halt "allocatePage: No Free Page"
    else (do p ← read_page s.curr_free_page_node; move inc dec; pure p) s

-- The loop of `allocatePages`: what it writes to `allocatedPages`, in order.
take_loop : ℕ → Cmd Alloc (List ℕ)
take_loop zero = pure []
take_loop (suc k) = do p ← allocate_page; ps ← take_loop k; pure (p ∷ ps)

unfoldable pub allocate_pages : ℕ → Cmd Alloc (List ℕ)
unfolding take_loop
allocate_pages n s =
    if n == 0
    then halt "allocatePages: Invalid n value"
    else if ltb s.num_free_pages n
    then halt "allocatePages: Less than n pages"
    else take_loop n s

unfoldable pub free_page : ℕ → Cmd Alloc (Unit {0})
unfolding write_page move
free_page p s =
    if s.num_free_pages == num_pages
    then halt "freePage: All Free pages were already returned"
    else (do move dec (λ n. n); write_page (dec s.curr_free_page_node) p; move (λ i. i) inc) s

-- The loop of `freePages`, from index `i` with `k` rounds left.
free_loop : ℕ → ℕ → (ℕ → ℕ) → Cmd Alloc (Unit {0})
free_loop zero i ps = pure tt
free_loop (suc k) i ps = free_page (ps i) >> free_loop k (i + 1) ps

unfoldable pub free_pages : ℕ → (ℕ → ℕ) → Cmd Alloc (Unit {0})
unfolding free_loop
free_pages n ps s = if n == 0 then halt "allocatePages: Invalid n value" else free_loop n 0 ps s
