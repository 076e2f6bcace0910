-- ===== src/Buffers/Ring.antt =====
-- The ring of the buffer cache: `binit` builds it and `brelse` reorders it.
use mathlib.Core.Path.{fun_ext}
use r5o.Base.{has-append, ℕ, ◌≡◌, ◌≢◌, false, List, [], ◌∷◌, ◌++◌, arith, has, Distinct, update}
use r5o.Buffers.{Ptr, head, Buffer, Cache, set_refcnt, insert_front, unlink}
use r5o.Buffers.Linked.{Linked, Linked-eq, Linked-insert, Linked-unlink}

abbrev pub nexts : Cache → Ptr → Ptr
nexts c i = (c i).next

abbrev pub prevs : Cache → Ptr → Ptr
prevs c i = (c i).prev

-- The ring leads from `head` through the buffers `l` back to `head`, both ways.
pub record IsRing (c : Cache) (l : List Ptr) : Type 0 where
  pub chain : Linked (nexts c) (prevs c) head l head
  pub distinct : Distinct (head ∷ l)

-- What a write to the pointers leaves of a buffer.
abbrev pub SameFields : Buffer → Buffer → Type 0
SameFields a b =
    (a.valid ≡ b.valid)
    × (a.disk ≡ b.disk)
    × (a.blockno ≡ b.blockno)
    × (a.refcnt ≡ b.refcnt)
    × (a.block ≡ b.block)

pub insert_front-SameFields :
    (b : Ptr) (c : Cache) (i : Ptr) → SameFields (insert_front b c i) (c i)
unfolding insert_front
insert_front-SameFields b c i = ground arith

pub unlink-SameFields : (b : Ptr) (c : Cache) (i : Ptr) → SameFields (unlink b c i) (c i)
unfolding unlink
unlink-SameFields b c i = ground arith

-- A list without one of its members.
has-remove :
    (a : ℕ) (xs : List ℕ) (b : ℕ) (ys : List ℕ)
    → has a (xs ++ (b ∷ ys)) ≡ false
    → has a (xs ++ ys) ≡ false
has-remove a xs b ys h = ground (arith, has-append a xs (b ∷ ys), has-append a xs ys)

pub Distinct-remove :
    (xs : List ℕ) (b : ℕ) (ys : List ℕ) → Distinct (xs ++ (b ∷ ys)) → Distinct (xs ++ ys)
Distinct-remove [] b ys d = d.1
Distinct-remove (x ∷ xs) b ys d = (has-remove x xs b ys d.0, Distinct-remove xs b ys d.1)

-- The members of a list differ from each other.
pub Distinct-middle :
    (xs : List ℕ) (b : ℕ) (ys : List ℕ) → Distinct (xs ++ (b ∷ ys)) → has b (xs ++ ys) ≡ false
Distinct-middle [] b ys d = d.0
Distinct-middle (x ∷ xs) b ys d =
    ground (arith, Distinct-middle xs b ys d.1, has-append x xs (b ∷ ys))

module _ (b : Ptr) (c : Cache) where
  nexts-insert_front :
      b ≢ head → nexts (insert_front b c) ≡ update (update (nexts c) b (nexts c head)) head b
  unfolding insert_front
  nexts-insert_front ne = fun_ext λ i. ground arith

  prevs-insert_front :
      b ≢ head
      → prevs (insert_front b c)
        ≡ update (update (prevs c) b head) (update (nexts c) b (nexts c head) head) b
  unfolding insert_front
  prevs-insert_front ne = fun_ext λ i. ground arith

  nexts-unlink : nexts (unlink b c) ≡ update (nexts c) (prevs c b) (nexts c b)
  unfolding unlink
  nexts-unlink = fun_ext λ i. ground arith

  prevs-unlink : prevs (unlink b c) ≡ update (prevs c) (nexts c b) (prevs c b)
  unfolding unlink
  prevs-unlink = fun_ext λ i. ground arith

  -- A buffer outside the ring is put in front.
  pub insert_front-IsRing :
      (l : List Ptr) → IsRing c l → Distinct (b ∷ l) → b ≢ head → IsRing (insert_front b c) (b ∷ l)
  insert_front-IsRing l r d ne = record {
    chain = Linked-eq head (b ∷ l) head (nexts-insert_front ne) (prevs-insert_front ne) (
        Linked-insert (nexts c) (prevs c) head b l head r.chain d (ground arith) r.distinct.0
          (ground (arith, r.distinct)));
    distinct = ground (arith, r.distinct);
  }

  -- A buffer of the ring is taken out.
  pub unlink-IsRing :
      (xs ys : List Ptr) → IsRing c (xs ++ (b ∷ ys)) → IsRing (unlink b c) (xs ++ ys)
  unlink-IsRing xs ys r = record {
    chain =
        Linked-eq head (xs ++ ys) head nexts-unlink prevs-unlink
          (Linked-unlink (nexts c) (prevs c) head xs b ys head r.chain r.distinct r.distinct.0);
    distinct = Distinct-remove (head ∷ xs) b ys r.distinct;
  }

pub set_refcnt-IsRing :
    (b : Ptr) (n : ℕ) (c : Cache) (l : List Ptr) → IsRing c l → IsRing (set_refcnt c b n) l
set_refcnt-IsRing b n c l r = record {
  chain = Linked-eq head l head (fun_ext λ i. ground arith) (fun_ext λ i. ground arith) r.chain;
  distinct = r.distinct;
}
