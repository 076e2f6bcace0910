-- ===== src/Buffers/Init.antt =====
-- `binit` of kernel/buffer.c.

use r5o.Base.{ℕ, zero, suc, ◌+◌, ◌<◌, ◌≤◌, ◌≡◌, refl, false, List, [], ◌∷◌, arith, has, All, ◌∙◌}
use r5o.Buffers.{nbuf, Ptr, head, Cache, set_next, set_prev, insert_front, init_loop, binit}
use r5o.Buffers.Ring.{IsRing, SameFields, insert_front-SameFields, insert_front-IsRing}

-- The buffers that `binit` has put in front of `l`, after its rounds from `i` on.
abbrev pub stacked : ℕ → ℕ → List Ptr → List Ptr
stacked zero i l = l
stacked (suc k) i l = stacked k (i + 1) (i ∷ l)

All-lt-suc : (i : ℕ) (l : List ℕ) → All (λ x. x < i) l → All (λ x. x < i + 1) l
All-lt-suc i [] h = tt
All-lt-suc i (x ∷ xs) h = (omega arith, All-lt-suc i xs h.1)

not-has_of_All-lt : (i : ℕ) (l : List ℕ) → All (λ x. x < i) l → has i l ≡ false
not-has_of_All-lt i [] h = refl
not-has_of_All-lt i (x ∷ xs) h = ground (arith, not-has_of_All-lt i xs h.1)

init_loop-IsRing :
    (k i : ℕ) (c : Cache) (l : List Ptr)
    → i + k ≤ nbuf
    → All (λ x. x < i) l
    → IsRing c l
    → IsRing (init_loop k i c) (stacked k i l)
unfolding init_loop
init_loop-IsRing zero i c l fits below r = r
init_loop-IsRing (suc k) i c l fits below r =
    init_loop-IsRing k (i + 1) (insert_front i c) (i ∷ l) (omega arith)
      (omega arith, All-lt-suc i l below)
      (insert_front-IsRing i c l r (not-has_of_All-lt i l below, r.distinct.1)
        (λ e. absurd (omega arith)))

init_loop-SameFields : (k i : ℕ) (c : Cache) (j : Ptr) → SameFields (init_loop k i c j) (c j)
unfolding init_loop
init_loop-SameFields zero i c j = (refl, refl, refl, refl, refl)
init_loop-SameFields (suc k) i c j =
    let h = init_loop-SameFields k (i + 1) (insert_front i c) j in
    let g = insert_front-SameFields i c j in (h.0 ∙ g.0, h.1 ∙ g.1, h.2 ∙ g.2, h.3 ∙ g.3, h.4 ∙ g.4)

-- `binit` makes a ring of all 30 buffers, the last one in front, and changes nothing else of any
-- buffer.
pub binit-IsRing :
    (c : Cache) → IsRing (binit c) (stacked nbuf 0 []) × ((j : Ptr) → SameFields (binit c j) (c j))
unfolding binit
binit-IsRing c = (
  init_loop-IsRing nbuf 0 (set_next (set_prev c head head) head head) [] (omega arith) tt
      (record { chain = (refl, refl); distinct = (refl, tt) }),
  λ j.
      let h = init_loop-SameFields nbuf 0 (set_next (set_prev c head head) head head) j in
      ground arith,
)
