-- ===== src/PageAlloc/Many.antt =====
-- `allocatePages` and `freePages` of kernel/memoryAllocator.c against the bounded stack.
use r5o.Base.{
  ℕ, zero, suc, ◌+◌, ◌≤◌, ◌≡◌, List, [], ◌∷◌, arith, ltb, ◌==◌, if◌then◌else◌, length, take, drop,
  ok, halt, Cmd, pure, ◌>>◌, Refines, both_ok, both_halt, Refines-bind, Bool-cases, inl, inr, true,
  false,
}
use r5o.PageAlloc.{Alloc, take_loop, allocate_pages, free_loop, free_pages}
use r5o.PageAlloc.Stack.{Holds, push, pop_many, allocate_page-cons, free_page-Refines}

-- The loop of `allocatePages`, where enough pages are free.
take_loop-take :
    (n : ℕ) {s : Alloc} (l : List ℕ)
    → Holds s l
    → n ≤ length l
    → Refines Holds (take_loop n s) (ok (take n l) (drop n l))
unfolding take_loop
take_loop-take zero l h fits = both_ok h
take_loop-take (suc n) [] h fits = absurd (omega arith)
take_loop-take (suc n) (x ∷ xs) h fits =
    let (t, e, k) = allocate_page-cons x xs h in
    rw e (
      Refines-bind (λ ps. pure (x ∷ ps)) (λ ps. pure (x ∷ ps)) (take_loop-take n xs k (omega arith))
        λ ps u m r. both_ok r)

-- `allocatePages(n, out)` writes the `n` top pages to `out`, the top first, and pops them. It stops
-- with its message for `n = 0`, and for more pages than are free; then it takes none.
pub allocate_pages-Refines :
    {s : Alloc} (n : ℕ) (l : List ℕ) → Holds s l → Refines Holds (allocate_pages n s) (pop_many n l)
unfolding allocate_pages pop_many
allocate_pages-Refines {s} n l h = elim (Bool-cases (n == 0)) [
  | inl none_asked ↦ rw none_asked both_halt
  | inr asked ↦ rw asked (elim (Bool-cases (ltb (length l) n)) [
    | inl short ↦ let e : ltb s.num_free_pages n ≡ true = ground arith in rw (e, short) both_halt
    | inr enough ↦
        let e : ltb s.num_free_pages n ≡ false = ground arith in
        rw (e, enough) (take_loop-take n l h (ground arith))
  ])
]

-- `pages[0..n)` taken as a list, from index `i` on.
abbrev pub listed : ℕ → ℕ → (ℕ → ℕ) → List ℕ
listed zero i ps = []
listed (suc k) i ps = ps i ∷ listed k (i + 1) ps

-- Pushes of a list in turn.
unfoldable pub push_all : List ℕ → Cmd (List ℕ) (Unit {0})
push_all [] = pure tt
push_all (p ∷ ps) = push p >> push_all ps

unfoldable pub push_many : ℕ → (ℕ → ℕ) → Cmd (List ℕ) (Unit {0})
push_many n ps l =
    if n == 0 then halt "allocatePages: Invalid n value" else push_all (listed n 0 ps) l

free_loop-push_all :
    (k i : ℕ) (ps : ℕ → ℕ) {s : Alloc} (l : List ℕ)
    → Holds s l
    → Refines Holds (free_loop k i ps s) (push_all (listed k i ps) l)
unfolding free_loop push_all
free_loop-push_all zero i ps l h = both_ok h
free_loop-push_all (suc k) i ps l h =
    Refines-bind (λ _. free_loop k (i + 1) ps) (λ _. push_all (listed k (i + 1) ps))
      (free_page-Refines (ps i) l h) λ _ u m r. free_loop-push_all k (i + 1) ps m r

-- `freePages(n, in)` pushes `in[0]`, …, `in[n - 1]` in this order, and stops where the stack is full
-- or `n = 0`.
pub free_pages-Refines :
    {s : Alloc} (n : ℕ) (ps : ℕ → ℕ) (l : List ℕ)
    → Holds s l
    → Refines Holds (free_pages n ps s) (push_many n ps l)
unfolding free_pages push_many
free_pages-Refines n ps l h = elim (Bool-cases (n == 0)) [
  | inl none_asked ↦ rw none_asked both_halt
  | inr asked ↦ rw asked (free_loop-push_all n 0 ps l h)
]
