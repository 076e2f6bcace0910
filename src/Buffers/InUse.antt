-- ===== src/Buffers/InUse.antt =====
-- `bget` and `brelse` of kernel/buffer.c at work: what they return and what they keep.
use mathlib.Core.Path.{subst}
use mathlib.Core.List.{reverse}
use r5o.Base.{
  has-append, first, first-has, first-none, first-skip, ℕ, ◌<◌, ◌≡◌, ◌≢◌, refl, Bool, true, false,
  List, [], ◌∷◌, ◌++◌, arith, ◌==◌, if◌then◌else◌, has, length-append, Option, none, some, ok, halt,
  ok-injective, ◌∙◌, sym, Bool-cases, inl, inr, ==_refl, Outcome, ◌^◌, ◌&&◌,
}
use r5o.Buffers.{nbuf, Ptr, Cache, unused, bget, brelse, set_refcnt, inc32, dec32, binit}
use r5o.Buffers.Search.{replaced, choose, get_block, bget_lem, has-reverse_aux}
use r5o.Buffers.Release.{Released, brelse-Released}
use r5o.Buffers.Init.{stacked, binit-IsRing}
use r5o.Buffers.Coherent.{IsCache, blocks, blocks-eq, hit-IsCache, recycle-IsCache}

-- What `bget(n)` comes to: a buffer for block `n` with one reference more, no other buffer changed,
-- contents only if they were that block's before, and another block's buffer only if no buffer held
-- block `n`; or the message, when every buffer is
-- referenced and none holds the block.
pub data Got (n : ℕ) (l : List Ptr) (c : Cache) : Outcome Cache Ptr → Type 0 where
  got :
      {b : Ptr} {c' : Cache}
      → IsCache c' l
      → has b l ≡ true
      → (c' b).blockno ≡ n
      → (c' b).refcnt ≡ inc32 (c b).refcnt
      → (c' b).valid ≡ ((c b).valid && ((c b).blockno == n))
      → (c' b).block ≡ (c b).block
      → ((i : Ptr) → c' i ≡ (if i == b then c' b else c i))
      → ((c b).blockno ≢ n → (i : Ptr) → has i l ≡ true → (c i).blockno ≢ n)
      → Got n l c (ok b c')
  none_left :
      ((i : Ptr) → has i l ≡ true → (0 < (c i).refcnt) × ((c i).blockno ≢ n))
      → Got n l c (halt "bget: no buffers")

reverse-has : (a : Ptr) (l : List Ptr) → has a (reverse l) ≡ has a l
reverse-has a l = has-reverse_aux a l [] ∙ ground arith

choose-Got :
    (n : ℕ) (c : Cache) (l : List Ptr) (o spare : Option Ptr)
    → IsCache c l
    → first (blocks c n) l ≡ o
    → first (λ i. unused (c i)) (reverse l) ≡ spare
    → Got n l c (choose n o spare c)
unfolding choose replaced
choose-Got n c l (some b) spare h e f =
    let hits = first-has (blocks c n) l b e in
    got (hit-IsCache n c l b h e) hits.0 (ground arith) (ground arith) (ground arith) (ground arith)
      (λ i. ground arith) (λ ne. absurd (ne (ground arith)))
choose-Got n c l none (some b) h e f =
    let free = first-has (λ i. unused (c i)) (reverse l) b f in
    let mem : has b l ≡ true = sym (reverse-has b l) ∙ free.0 in
    got (recycle-IsCache n c l b h e mem (ground arith)) mem (ground (arith, ==_refl b))
      (ground (arith, ==_refl b)) (ground (arith, ==_refl b, first-none (blocks c n) l b e mem))
      (ground arith) (λ i. ground arith)
      (λ ne i mi. ground (arith, first-none (blocks c n) l i e mi))
choose-Got n c l none none h e f = none_left (λ i mem.
    let used = first-none (λ i. unused (c i)) (reverse l) i f (reverse-has i l ∙ mem) in
    let other = first-none (blocks c n) l i e mem in (ground arith, ground arith))

-- `bget` returns a buffer for the block that it is asked for, and takes one from another block only
-- if no buffer holds that block; or it stops because every buffer is referenced. It keeps the ring,
-- and keeps one buffer for each block in use.
pub bget-Got : (n : ℕ) (c : Cache) (l : List Ptr) → IsCache c l → Got n l c (bget n c)
unfolding get_block
bget-Got n c l h =
    rw (bget_lem n c l h.ring h.size)
      (choose-Got n c l (first (blocks c n) l) (first (λ i. unused (c i)) (reverse l)) h refl refl)

-- Two referenced buffers of the ring that hold the same block are the same buffer.
pub one_buffer :
    (c : Cache) (l : List Ptr) (i j : Ptr)
    → IsCache c l
    → has i l ≡ true
    → has j l ≡ true
    → 0 < (c i).refcnt
    → 0 < (c j).refcnt
    → (c i).blockno ≡ (c j).blockno
    → i ≡ j
one_buffer c l i j h mi mj li lj e =
    let p = h.leading i (c j).blockno mi li e in
    let q = h.leading j (c j).blockno mj lj refl in cc (p, q)

-- The order of the ring after `brelse` of its member `b`.
abbrev pub reordered : List Ptr → Ptr → List Ptr → Cache → List Ptr
reordered xs b ys c = if dec32 (c b).refcnt == 0 then b ∷ (xs ++ ys) else xs ++ (b ∷ ys)

-- The list without `b` in front has the same first member as before, if `b` fails the test.
pub first-to_front :
    (p : Ptr → Bool) (xs : List Ptr) (b : Ptr) (ys : List Ptr)
    → p b ≡ false
    → first p (b ∷ (xs ++ ys)) ≡ first p (xs ++ (b ∷ ys))
first-to_front p xs b ys f = ground (arith, first-skip p xs b ys f)

module _ (c : Cache) (xs : List Ptr) (b : Ptr) (ys : List Ptr)
    (h : IsCache c (xs ++ (b ∷ ys))) where
  -- While `b` is referenced, no other referenced buffer holds its block.
  other_block :
      (i : Ptr) (m : ℕ)
      → 0 < (c b).refcnt
      → first (blocks c m) (xs ++ (b ∷ ys)) ≡ some i
      → i ≢ b
      → blocks c m b ≡ false
  other_block i m live e ne = elim (Bool-cases (blocks c m b)) [
    | inl same ↦
        let mem : has b (xs ++ (b ∷ ys)) ≡ true =
          ground (arith, has-append b xs (b ∷ ys), ==_refl b) in
        let e' = h.leading b m mem live (ground arith) in absurd (ne (ground arith))
    | inr other ↦ other
  ]

  leading_after :
      (i : Ptr) (m : ℕ)
      → 0 < (c b).refcnt
      → has i (reordered xs b ys c) ≡ true
      → 0 < (set_refcnt c b (dec32 (c b).refcnt) i).refcnt
      → (c i).blockno ≡ m
      → first (blocks c m) (reordered xs b ys c) ≡ some i
  leading_after i m live mem li is = elim (Bool-cases (dec32 (c b).refcnt == 0)) [
    | inl free ↦
        let ne : i ≢ b = ground arith in
        let mem' : has i (xs ++ (b ∷ ys)) ≡ true =
          ground (arith, has-append i xs (b ∷ ys), has-append i xs ys) in
        let e = h.leading i m mem' (ground arith) is in
        rw free (first-to_front (blocks c m) xs b ys (other_block i m live e ne) ∙ e)
    | inr used ↦
        let mem' : has i (xs ++ (b ∷ ys)) ≡ true = ground arith in
        rw used (h.leading i m mem' (ground arith) is)
  ]

block_kept :
    {xs : List Ptr} {b : Ptr} {ys : List Ptr} {c c' : Cache}
    → Released xs b ys c c'
    → (j : Ptr) → (c' j).blockno ≡ (c j).blockno
block_kept r j = (r.fields j).2 ∙ ground arith

-- `brelse` of a referenced buffer keeps the ring, and keeps one buffer for each block in use.
pub brelse-IsCache :
    (c : Cache) (xs : List Ptr) (b : Ptr) (ys : List Ptr)
    → IsCache c (xs ++ (b ∷ ys))
    → 0 < (c b).refcnt
    → (c b).refcnt < 2 ^ 32
    → IsCache (brelse b c) (reordered xs b ys c)
brelse-IsCache c xs b ys h live small =
    let r = brelse-Released b c xs ys h.ring in
    record {
      ring = r.ring;
      size = ground (arith, h.size, length-append xs (b ∷ ys), length-append xs ys);
      leading = λ i m mem li is.
          blocks-eq c (brelse b c) m (reordered xs b ys c) (λ j. block_kept r j)
          ∙ leading_after c xs b ys h i m live mem (omega (arith, (r.fields i).3))
              (sym (block_kept r i) ∙ is);
    }

-- What the kernel does with the cache: `bget`, and `brelse` of a buffer that is referenced. All
-- reference counts are 0 when `binit` runs, since `bcache` is zeroed at boot.
pub data Reach : Cache → List Ptr → Type 0 where
  booted : (c : Cache) → ((i : Ptr) → (c i).refcnt ≡ 0) → Reach (binit c) (stacked nbuf 0 [])
  gets :
      {c c' : Cache} {l : List Ptr} {b : Ptr} (n : ℕ) → Reach c l → bget n c ≡ ok b c' → Reach c' l
  drops :
      {c : Cache} {l : List Ptr} (xs : List Ptr) (b : Ptr) (ys : List Ptr)
      → Reach c l
      → l ≡ xs ++ (b ∷ ys)
      → 0 < (c b).refcnt
      → (c b).refcnt < 2 ^ 32
      → Reach (brelse b c) (reordered xs b ys c)

Got-IsCache :
    {n : ℕ} {l : List Ptr} {c c' : Cache} {b : Ptr} {o : Outcome Cache Ptr}
    → Got n l c o
    → o ≡ ok b c'
    → IsCache c' l
Got-IsCache {l} (got h m a r v k o f) e = subst (λ d. IsCache d l) (ok-injective e).1 h
Got-IsCache (none_left f) e = cc

pub booted-IsCache :
    (c : Cache) → ((i : Ptr) → (c i).refcnt ≡ 0) → IsCache (binit c) (stacked nbuf 0 [])
booted-IsCache c zeroed =
    let b = binit-IsRing c in
    record {
      ring = b.0;
      size = omega arith;
      leading = λ i m mem live is. absurd (omega (arith, (b.1 i).3, zeroed i));
    }

-- From boot on, every cache that `bget` and `brelse` lead to is a ring of the buffers in which each
-- referenced buffer is the first that holds its block.
pub Reach-IsCache : {c : Cache} {l : List Ptr} → Reach c l → IsCache c l
Reach-IsCache (booted c z) = booted-IsCache c z
Reach-IsCache (gets {c} {l} n r e) = Got-IsCache (bget-Got n c l (Reach-IsCache r)) e
Reach-IsCache (drops {c} xs b ys r e live small) =
    brelse-IsCache c xs b ys (subst (λ k. IsCache c k) e (Reach-IsCache r)) live small

-- From boot on, two referenced buffers of the ring that hold the same block are the same buffer.
pub one_buffer_for_block :
    {c : Cache} {l : List Ptr} (i j : Ptr)
    → Reach c l
    → has i l ≡ true
    → has j l ≡ true
    → 0 < (c i).refcnt
    → 0 < (c j).refcnt
    → (c i).blockno ≡ (c j).blockno
    → i ≡ j
one_buffer_for_block {c} {l} i j r = one_buffer c l i j (Reach-IsCache r)
