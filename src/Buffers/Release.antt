-- ===== src/Buffers/Release.antt =====
-- `brelse` of kernel/buffer.c.

use r5o.Base.{
  has-append, Bool-cases, inl, inr, ◌≡◌, refl, true, false, List, ◌∷◌, ◌++◌, arith, ◌==◌,
  if◌then◌else◌, ◌∙◌,
}
use r5o.Buffers.{Ptr, head, Cache, set_refcnt, insert_front, unlink, brelse, dec32}
use r5o.Buffers.Ring.{
  IsRing, SameFields, insert_front-SameFields, insert_front-IsRing, unlink-SameFields,
  unlink-IsRing, set_refcnt-IsRing, Distinct-middle, Distinct-remove,
}

-- What `brelse` makes of the cache, and of the ring `xs ++ b ∷ ys`.
pub record Released (xs : List Ptr) (b : Ptr) (ys : List Ptr) (c c' : Cache) : Type 0 where
  pub ring : IsRing c' (if dec32 (c b).refcnt == 0 then b ∷ (xs ++ ys) else xs ++ (b ∷ ys))
  pub fields : (i : Ptr) → SameFields (c' i) (set_refcnt c b (dec32 (c b).refcnt) i)

module _ (b : Ptr) (c : Cache) (xs ys : List Ptr) where
  to_front : IsRing c (xs ++ (b ∷ ys)) → IsRing (insert_front b (unlink b c)) (b ∷ (xs ++ ys))
  to_front r =
      insert_front-IsRing b (unlink b c) (xs ++ ys) (unlink-IsRing b c xs ys r)
        (Distinct-middle xs b ys r.distinct.1, Distinct-remove xs b ys r.distinct.1)
        (λ e. ground (arith, r.distinct, has-append head xs (b ∷ ys)))

  to_front-SameFields : (i : Ptr) → SameFields (insert_front b (unlink b c) i) (c i)
  to_front-SameFields i =
      let h = insert_front-SameFields b (unlink b c) i in
      let g = unlink-SameFields b c i in (h.0 ∙ g.0, h.1 ∙ g.1, h.2 ∙ g.2, h.3 ∙ g.3, h.4 ∙ g.4)

module _ (b : Ptr) (c : Cache) where
  brelse-free :
      (dec32 (c b).refcnt == 0) ≡ true
      → brelse b c ≡ insert_front b (unlink b (set_refcnt c b (dec32 (c b).refcnt)))
  unfolding brelse
  brelse-free h = ground arith

  brelse-used : (dec32 (c b).refcnt == 0) ≡ false → brelse b c ≡ set_refcnt c b (dec32 (c b).refcnt)
  unfolding brelse
  brelse-used h = ground arith

-- `brelse` of a buffer of the ring counts one reference less. With none left it moves the buffer to
-- the front of the ring, and otherwise leaves the order. It changes nothing else of any buffer.
pub brelse-Released :
    (b : Ptr) (c : Cache) (xs ys : List Ptr)
    → IsRing c (xs ++ (b ∷ ys))
    → Released xs b ys c (brelse b c)
brelse-Released b c xs ys r =
    let n = dec32 (c b).refcnt in
    let c1 = set_refcnt c b n in
    let r1 = set_refcnt-IsRing b n c (xs ++ (b ∷ ys)) r in
    elim (Bool-cases (n == 0)) [
      | inl free ↦ record {
        ring = rw (brelse-free b c free, free) (to_front b c1 xs ys r1);
        fields = rw (brelse-free b c free) (to_front-SameFields b c1 xs ys);
      }
      | inr used ↦ record {
        ring = rw (brelse-used b c used, used) r1;
        fields = rw (brelse-used b c used) (λ i. (refl, refl, refl, refl, refl));
      }
    ]
