-- ===== src/Buffers/Coherent.antt =====
-- The buffer cache of kernel/buffer.c keeps one buffer for each block in use.
use mathlib.Core.Path.{fun_ext}
use r5o.Base.{
  first, first-has, first-none, first-fewer, first-only, ℕ, ◌<◌, ◌≤◌, ◌≡◌, Bool, true, false, List,
  arith, ◌==◌, has, length, none, some, ◌∙◌, sym, ap, Bool-cases, inl, inr, update, ==_refl,
}
use r5o.Buffers.{nbuf, Ptr, head, Cache, holds_block, set_refcnt, inc32}
use r5o.Buffers.Linked.{Linked-eq}
use r5o.Buffers.Ring.{IsRing, set_refcnt-IsRing}

abbrev pub blocks : Cache → ℕ → Ptr → Bool
blocks c m j = holds_block m (c j)

-- The cache at work: a ring of at most 30 buffers, where every referenced buffer is the first that
-- holds its block.
pub record IsCache (c : Cache) (l : List Ptr) : Type 0 where
  pub ring : IsRing c l
  pub size : length l ≤ nbuf
  pub leading :
      (i : Ptr) (m : ℕ)
      → has i l ≡ true
      → 0 < (c i).refcnt
      → (c i).blockno ≡ m
      → first (blocks c m) l ≡ some i

pub blocks-eq :
    (c c' : Cache) (m : ℕ) (l : List Ptr)
    → ((j : Ptr) → (c' j).blockno ≡ (c j).blockno)
    → first (blocks c' m) l ≡ first (blocks c m) l
blocks-eq c c' m l h =
    ap (λ f. first f l) (fun_ext {f = blocks c' m} {g = blocks c m} λ j. ap (λ b. b == m) (h j))

-- `b->refcnt++` on the first buffer that holds its block.
pub hit-IsCache :
    (n : ℕ) (c : Cache) (l : List Ptr) (b : Ptr)
    → IsCache c l
    → first (blocks c n) l ≡ some b
    → IsCache (set_refcnt c b (inc32 (c b).refcnt)) l
hit-IsCache n c l b h e =
    let c' = set_refcnt c b (inc32 (c b).refcnt) in
    let same : (j : Ptr) → (c' j).blockno ≡ (c j).blockno = λ j. ground arith in
    record {
      ring = set_refcnt-IsRing b (inc32 (c b).refcnt) c l h.ring;
      size = h.size;
      leading = λ i m mem live is. blocks-eq c c' m l same ∙ (elim (Bool-cases (b == i)) [
        | inl this ↦
            let at_b : (c b).blockno ≡ n = ground (arith, first-has (blocks c n) l b e) in
            let at : m ≡ n = ground (arith, same i) in rw at (e ∙ ap some (ground arith))
        | inr other ↦ h.leading i m mem (ground arith) (sym (same i) ∙ is)
      ]);
    }

-- A buffer that nobody references is given to a block that no buffer holds.
pub recycle-IsCache :
    (n : ℕ) (c : Cache) (l : List Ptr) (b : Ptr)
    → IsCache c l
    → first (blocks c n) l ≡ none
    → has b l ≡ true
    → (c b).refcnt ≡ 0
    → IsCache (update c b (record (c b) { valid = false; blockno = n; refcnt = 1 })) l
recycle-IsCache n c l b h e mem unref =
    let c' = update c b (record (c b) { valid = false; blockno = n; refcnt = 1 }) in
    record {
      ring = record {
        chain =
            Linked-eq head l head (fun_ext λ i. ground arith) (fun_ext λ i. ground arith)
              h.ring.chain;
        distinct = h.ring.distinct;
      };
      size = h.size;
      leading = λ i m mem' live is. elim (Bool-cases (b == i)) [
        | inl this ↦
            let at : m ≡ n = ground arith in
            rw at (
              first-only (blocks c' n) l b (ground (arith, ==_refl n)) mem
                (λ j mj ne. ground (arith, first-none (blocks c n) l j e mj))
              ∙ ap some (ground arith))
        | inr other ↦
            let free = first-none (blocks c n) l i e mem' in
            first-fewer (blocks c m) (blocks c' m) l i (λ j mj f. ground arith)
              (ground (arith, ==_refl m)) (h.leading i m mem' (ground arith) (ground arith))
      ];
    }
