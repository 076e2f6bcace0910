-- ===== src/Base/First.antt =====
-- The first member of a list that passes a test.
use Prim.Native.Nat.{ℕ}
use mathlib.Core.Path.{◌≡◌}
use mathlib.Core.Logic.{◌≢◌, inl, inr}
use mathlib.Core.Bool.{Bool, true, false}
use mathlib.Core.Option.{Option, none, some}
use mathlib.Core.List.{List, [], ◌∷◌, ◌++◌}
use native.Mathlib.Omega.{arith}
use r5o.Base.Tests.{◌==◌, if◌then◌else◌, ==_refl, Bool-cases}
use r5o.Base.Lists.{has}

abbrev pub first : (ℕ → Bool) → List ℕ → Option ℕ
first p [] = none
first p (x ∷ xs) = if p x then some x else first p xs

module _ (p : ℕ → Bool) where
  pub first-has : (l : List ℕ) (i : ℕ) → first p l ≡ some i → (has i l ≡ true) × (p i ≡ true)
  first-has [] i e = cc
  first-has (x ∷ xs) i e = elim (Bool-cases (p x)) [
    | inl this ↦ ground arith
    | inr other ↦ ground (arith, first-has xs i)
  ]

  pub first-none : (l : List ℕ) (i : ℕ) → first p l ≡ none → has i l ≡ true → p i ≡ false
  first-none [] i e m = cc
  first-none (x ∷ xs) i e m = ground (arith, first-none xs i)

  -- A member that fails the test may be left out, or put in.
  pub first-skip :
      (xs : List ℕ) (b : ℕ) (ys : List ℕ)
      → p b ≡ false
      → first p (xs ++ (b ∷ ys)) ≡ first p (xs ++ ys)
  first-skip [] b ys h = rw h
  first-skip (x ∷ xs) b ys h = ground (arith, first-skip xs b ys h)

-- Where fewer members pass, the first stays the first.
pub first-fewer :
    (p q : ℕ → Bool) (l : List ℕ) (i : ℕ)
    → ((j : ℕ) → has j l ≡ true → p j ≡ false → q j ≡ false)
    → q i ≡ true
    → first p l ≡ some i
    → first q l ≡ some i
first-fewer p q [] i h t e = cc
first-fewer p q (x ∷ xs) i h t e = elim (Bool-cases (p x)) [
  | inl this ↦ ground arith
  | inr other ↦
      let fails = h x (ground (arith, ==_refl x)) other in
      let rest = first-fewer p q xs i (λ j m f. h j (ground arith) f) t (ground arith) in
      ground arith
]

-- The only member that passes is the first.
pub first-only :
    (p : ℕ → Bool) (l : List ℕ) (b : ℕ)
    → p b ≡ true
    → has b l ≡ true
    → ((j : ℕ) → has j l ≡ true → j ≢ b → p j ≡ false)
    → first p l ≡ some b
first-only p [] b t m h = cc
first-only p (x ∷ xs) b t m h = elim (Bool-cases (x == b)) [
  | inl this ↦ ground arith
  | inr other ↦
      let fails = h x (ground (arith, ==_refl x)) (ground arith) in
      let rest = first-only p xs b t (ground arith) (λ j m' ne. h j (ground arith) ne) in
      ground arith
]
