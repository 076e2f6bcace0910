-- ===== src/PageAlloc/Owners.antt =====
-- Who owns the pages of kernel/memoryAllocator.c: clients that take pages with `allocatePage` and
-- return with `freePage` only pages that they hold.
use mathlib.Core.List.{
  Mem, Nodup, Perm, Nodup-cons, Nodup-nil, mem-cons, mem-append, perm_middle, not-mem-nil,
}
use mathlib.Core.List.Perm
use mathlib.Core.Logic.Or
use mathlib.Core.Path.{subst}
use native.Mathlib.Bridge.{le_prop}
use r5o.Base.{
  ℕ, zero, suc, ◌+◌, ◌≤◌, ◌≡◌, sym, ap, ◌∙◌, ◌≢◌, List, [], ◌∷◌, ◌++◌, arith, length, length-append,
  ok, ok-injective,
}
use r5o.PageAlloc.{num_pages, Alloc, page_alloc_init, allocate_page, free_page}
use r5o.PageAlloc.Stack.{Holds, allocate_page-cons, allocate_page-nil, free_page-cons}
use r5o.PageAlloc.Init.{page_range, length-page_range, page_alloc_init-Holds}

-- One call: the clients hold `held` before it and `held'` after it.
pub data Step : List ℕ → Alloc → List ℕ → Alloc → Type 0 where
  taken :
      {held : List ℕ} {s t : Alloc} {p : ℕ} → allocate_page s ≡ ok p t → Step held s (p ∷ held) t
  given :
      {held : List ℕ} {s t : Alloc} (xs : List ℕ) (p : ℕ) (ys : List ℕ)
      → held ≡ xs ++ (p ∷ ys)
      → free_page p s ≡ ok tt t
      → Step held s (xs ++ ys) t

pub data Reach (start : ℕ) : List ℕ → Alloc → Type 0 where
  booted : (s : Alloc) → Reach start [] (page_alloc_init start s)
  next :
      {held held' : List ℕ} {s t : Alloc}
      → Reach start held s
      → Step held s held' t
      → Reach start held' t

-- The free pages and the held ones are all the pages, each of them once.
pub record Shares (start : ℕ) (held : List ℕ) (s : Alloc) (free : List ℕ) : Type 0 where
  pub holds : Holds s free
  pub parts : Perm (held ++ free) (page_range start num_pages)
  pub total : length held + length free ≡ num_pages

abbrev pub Owned : ℕ → List ℕ → Alloc → Type 0
Owned start held s = (free : List ℕ) × Shares start held s free

module _ {start : ℕ} where
  Owned-taken :
      {held : List ℕ} {s t : Alloc} {p : ℕ} (free : List ℕ)
      → Shares start held s free
      → allocate_page s ≡ ok p t
      → Owned start (p ∷ held) t
  Owned-taken [] h e = cc (sym (allocate_page-nil h.holds) ∙ e)
  Owned-taken {held} {s} {t} {p} (x ∷ xs) h e =
      let (u, e', k) = allocate_page-cons x xs h.holds in
      let same : (x ≡ p) × (u ≡ t) = ok-injective (sym e' ∙ e) in
      (
        xs,
        record {
          holds = subst (λ a. Holds a xs) same.1 k;
          parts =
              subst (λ a. Perm (a ∷ held ++ xs) (page_range start num_pages)) same.0
                (Perm.trans (Perm.symm (perm_middle held xs)) h.parts);
          total = omega (arith, h.total);
        },
      )

  -- Who holds a page leaves fewer than all pages free.
  not_full :
      {held free : List ℕ} {s : Alloc} (xs : List ℕ) (p : ℕ) (ys : List ℕ)
      → Shares start held s free
      → held ≡ xs ++ (p ∷ ys)
      → length free ≢ num_pages
  not_full xs p ys h e = omega (arith, h.total, ap length e, length-append xs (p ∷ ys))

  Owned-given :
      {held : List ℕ} {s t : Alloc} (xs : List ℕ) (p : ℕ) (ys : List ℕ) (free : List ℕ)
      → Shares start held s free
      → held ≡ xs ++ (p ∷ ys)
      → free_page p s ≡ ok tt t
      → Owned start (xs ++ ys) t
  Owned-given xs p ys free h m e =
      let (u, e', k) = free_page-cons p free h.holds (not_full xs p ys h m) in
      (
        p ∷ free,
        record {
          holds = subst (λ a. Holds a (p ∷ free)) (ok-injective (sym e' ∙ e)).1 k;
          parts = Perm.trans (perm_middle (xs ++ ys) free) (
              Perm.trans (Perm.append_right free (Perm.symm (perm_middle xs ys)))
                (subst (λ l. Perm (l ++ free) (page_range start num_pages)) m h.parts));
          total =
              omega (arith, h.total, ap length m, length-append xs (p ∷ ys), length-append xs ys);
        },
      )

  Step-Owned :
      {held held' : List ℕ} {s t : Alloc}
      → Step held s held' t
      → Owned start held s
      → Owned start held' t
  Step-Owned (taken e) (free, h) = Owned-taken free h e
  Step-Owned (given xs p ys m e) (free, h) = Owned-given xs p ys free h m e

  -- From `pageAllocInit` on, after any calls of clients that return only pages they hold, the free
  -- pages and the held ones together are the 500 pages from START_PAGE on, each of them once.
  pub Reach-Owned : {held : List ℕ} {s : Alloc} → Reach start held s → Owned start held s
  Reach-Owned (booted s) = (
    page_range start num_pages,
    record {
      holds = page_alloc_init-Holds start s;
      parts = Perm.refl _;
      total = omega (arith, length-page_range start num_pages);
    },
  )
  Reach-Owned (next r st) = Step-Owned st (Reach-Owned r)

-- All numbers of a range lie from its start on.
le_of_mem-page_range : (start n : ℕ) {a : ℕ} → Mem a (page_range start n) → start ≤ a
le_of_mem-page_range start zero m = absurd (not-mem-nil m)
le_of_mem-page_range start (suc n) m =
    Or.elim le_prop (mem-cons.0 m) (λ e. omega arith)
      λ m'. let h = le_of_mem-page_range (start + 1) n m' in omega arith

Nodup-page_range : (start n : ℕ) → Nodup (page_range start n)
Nodup-page_range start zero = Nodup-nil
Nodup-page_range start (suc n) = Nodup-cons.1 (
  (λ m. let h = le_of_mem-page_range (start + 1) n m in absurd (omega arith)),
  Nodup-page_range (start + 1) n,
)

module _ {start : ℕ} {held : List ℕ} {s : Alloc} where
  -- After any such calls a page that `allocatePage` returns is held by nobody.
  pub allocate_page-fresh :
      {p : ℕ} {t : Alloc} → Reach start held s → allocate_page s ≡ ok p t → ¬ (Mem p held)
  allocate_page-fresh r e m =
      let (free, h) = Reach-Owned r in
      let (free', h') = Owned-taken free h e in
      let once = Perm.nodup (Perm.symm h'.parts) (Nodup-page_range start num_pages) in
      (Nodup-cons.0 once).0 (mem-append.1 (Or.inl m))

  -- After any such calls `freePage` of a page that is held returns: it neither stops nor writes
  -- outside its array.
  pub free_page-held :
      (xs : List ℕ) (p : ℕ) (ys : List ℕ)
      → Reach start held s
      → held ≡ xs ++ (p ∷ ys)
      → (t : Alloc) × (free_page p s ≡ ok tt t)
  free_page-held xs p ys r m =
      let (free, h) = Reach-Owned r in
      let (t, e, k) = free_page-cons p free h.holds (not_full xs p ys h m) in (t, e)
