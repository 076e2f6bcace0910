-- ===== src/Buffers/Linked.antt =====
-- Doubly linked segments: pointers `nx` and `pv` through the nodes of a list.
use r5o.Base.{
  has-append, ℕ, ◌≡◌, ◌≢◌, true, false, List, [], ◌∷◌, ◌++◌, arith, has, Distinct, update,
}
use mathlib.Core.Path.{subst₂, sym}
use mathlib.Core.List.{reverse, reverse_aux}

-- From `a` the `nx` pointers lead through `l` to `e`, and the `pv` pointers lead back.
abbrev pub Linked : (nx pv : ℕ → ℕ) → ℕ → List ℕ → ℕ → Type 0
Linked nx pv a [] e = (nx a ≡ e) × (pv e ≡ a)
Linked nx pv a (x ∷ xs) e = (nx a ≡ x) × (pv x ≡ a) × Linked nx pv x xs e

module _ (nx pv nx' pv' : ℕ → ℕ) where
  -- A segment survives changes elsewhere.
  pub Linked-frame :
      (a : ℕ) (l : List ℕ) (e : ℕ)
      → ((i : ℕ) → has i (a ∷ l) ≡ true → nx' i ≡ nx i)
      → ((i : ℕ) → has i l ≡ true → pv' i ≡ pv i)
      → pv' e ≡ pv e
      → Linked nx pv a l e
      → Linked nx' pv' a l e
  Linked-frame a [] e n p q h = (ground (arith, n a), ground arith)
  Linked-frame a (x ∷ xs) e n p q h = (
    ground (arith, n a),
    ground (arith, p x),
    Linked-frame x xs e (λ i m. n i (ground arith)) (λ i m. p i (ground arith)) q h.2,
  )

module _ (nx pv : ℕ → ℕ) where
  -- The node before `b`, and the one behind it.
  pub before :
      (a : ℕ) (xs : List ℕ) (b : ℕ) (ys : List ℕ) (e : ℕ)
      → Linked nx pv a (xs ++ (b ∷ ys)) e
      → has (pv b) (a ∷ xs) ≡ true
  before a [] b ys e h = ground arith
  before a (x ∷ xs) b ys e h = ground (arith, before x xs b ys e h.2)

  pub behind :
      (a : ℕ) (xs : List ℕ) (b : ℕ) (ys : List ℕ) (e : ℕ)
      → Linked nx pv a (xs ++ (b ∷ ys)) e
      → has (nx b) (e ∷ ys) ≡ true
  behind a [] b [] e h = ground arith
  behind a [] b (y ∷ ys) e h = ground arith
  behind a (x ∷ xs) b ys e h = behind x xs b ys e h.2

  -- Taking `b` out.
  pub Linked-unlink :
      (a : ℕ) (xs : List ℕ) (b : ℕ) (ys : List ℕ) (e : ℕ)
      → Linked nx pv a (xs ++ (b ∷ ys)) e
      → Distinct (a ∷ xs ++ (b ∷ ys))
      → has e (xs ++ (b ∷ ys)) ≡ false
      → Linked (update nx (pv b) (nx b)) (update pv (nx b) (pv b)) a (xs ++ ys) e
  Linked-unlink a [] b [] e h d out = (ground arith, ground arith)
  Linked-unlink a [] b (y ∷ ys) e h d out = (
    ground arith,
    ground arith,
    Linked-frame nx pv _ _ y ys e (λ i m. ground arith) (λ i m. ground arith) (ground arith) h.2.2,
  )
  Linked-unlink a (x ∷ xs) b ys e h d out = (
    ground (arith, before x xs b ys e h.2, has-append a xs (b ∷ ys)),
    ground (arith, behind x xs b ys e h.2, has-append x xs (b ∷ ys)),
    Linked-unlink x xs b ys e h.2 d.1 (ground arith),
  )

  -- Putting `b` behind `a`.
  pub Linked-insert :
      (a b : ℕ) (l : List ℕ) (e : ℕ)
      → Linked nx pv a l e
      → Distinct (b ∷ l)
      → a ≢ b
      → has a l ≡ false
      → has e (b ∷ l) ≡ false
      → Linked
          (update (update nx b (nx a)) a b)
          (update (update pv b a) (update nx b (nx a) a) b)
          a
          (b ∷ l)
          e
  Linked-insert a b [] e h d ne out last = ground arith
  Linked-insert a b (x ∷ xs) e h d ne out last = (
    ground arith,
    ground arith,
    (
      ground arith,
      ground arith,
      Linked-frame nx pv _ _ x xs e (λ i m. ground arith) (λ i m. ground arith) (ground arith) h.2,
    ),
  )

  -- The ring read backwards.
  pub Linked-append :
      (a : ℕ) (xs : List ℕ) (b : ℕ) (ys : List ℕ) (e : ℕ)
      → Linked nx pv a xs b
      → Linked nx pv b ys e
      → Linked nx pv a (xs ++ (b ∷ ys)) e
  Linked-append a [] b ys e h k = (h.0, h.1, k)
  Linked-append a (x ∷ xs) b ys e h k = (h.0, h.1, Linked-append x xs b ys e h.2 k)

module _ (nx pv : ℕ → ℕ) where
  Linked-reverse_aux :
      (a : ℕ) (xs : List ℕ) (m : ℕ) (ys : List ℕ) (e : ℕ)
      → Linked pv nx m ys e
      → Linked nx pv m xs a
      → Linked pv nx a (reverse_aux xs (m ∷ ys)) e
  Linked-reverse_aux a [] m ys e k h = (h.1, h.0, k)
  Linked-reverse_aux a (x ∷ xs) m ys e k h = Linked-reverse_aux a xs x (m ∷ ys) e (h.1, h.0, k) h.2

  -- A closed ring read backwards.
  pub Linked-reverse : (a : ℕ) (l : List ℕ) → Linked nx pv a l a → Linked pv nx a (reverse l) a
  Linked-reverse a [] h = (h.1, h.0)
  Linked-reverse a (x ∷ xs) h = Linked-reverse_aux a xs x [] a (h.1, h.0) h.2

-- The same pointers, written otherwise.
pub Linked-eq :
    {nx pv nx' pv' : ℕ → ℕ} (a : ℕ) (l : List ℕ) (e : ℕ)
    → nx ≡ nx'
    → pv ≡ pv'
    → Linked nx' pv' a l e
    → Linked nx pv a l e
Linked-eq a l e p q h = subst₂ (λ f g. Linked f g a l e) (sym p) (sym q) h
