-- ===== src/Base/Lists.antt =====
-- Lists measured by native numbers, and C arrays as functions of the index.
use Prim.Native.Nat.{ℕ, zero, suc, ◌+◌, ◌*◌}
use mathlib.Core.Path.{◌≡◌, refl, ap}
use mathlib.Core.Bool.{Bool, true, false, ◌||◌, or_assoc}
use mathlib.Core.List.{List, [], ◌∷◌, ◌++◌}
use mathlib.Core.Logic.{inl, inr}
use native.Mathlib.Omega.{arith}
use r5o.Base.Tests.{◌==◌, if◌then◌else◌, Bool-cases}

module _ {ℓ} {A : Type ℓ} where
  abbrev pub length : List A → ℕ
  length [] = 0
  length (x ∷ xs) = suc (length xs)

  pub length-append : (xs ys : List A) → length (xs ++ ys) ≡ length xs + length ys
  length-append [] ys = omega arith
  length-append (x ∷ xs) ys = omega (arith, length-append xs ys)

  -- A C array: its element at each index. The bound is checked where the code indexes it.
  abbrev pub update : (ℕ → A) → ℕ → A → ℕ → A
  update f i v j = if i == j then v else f j

-- The number that `k` bytes from `a` on make, the lowest byte first.
abbrev pub little : ℕ → (ℕ → ℕ) → ℕ → ℕ
little zero bytes a = 0
little (suc k) bytes a = bytes a + 256 * little k bytes (a + 1)

-- Membership of numbers as a test.
abbrev pub has : ℕ → List ℕ → Bool
has a [] = false
has a (x ∷ xs) = (a == x) || has a xs

pub has-append : (a : ℕ) (xs ys : List ℕ) → has a (xs ++ ys) ≡ (has a xs || has a ys)
has-append a [] ys = refl
has-append a (x ∷ xs) ys = rw (has-append a xs ys, or_assoc)

-- A list at one of its members.
pub has-split :
    (a : ℕ) (l : List ℕ) → has a l ≡ true → (xs : List ℕ) × (ys : List ℕ) × (l ≡ xs ++ (a ∷ ys))
has-split a [] h = cc
has-split a (x ∷ l) h = elim (Bool-cases (a == x)) [
  | inl this ↦ let e : x ≡ a = ground arith in ([], l, ap (λ y. y ∷ l) e)
  | inr other ↦ let (xs, ys, e) = has-split a l (ground arith) in (x ∷ xs, ys, ap (λ m. x ∷ m) e)
]

-- The numbers of a list are pairwise different.
abbrev pub Distinct : List ℕ → Type 0
Distinct [] = Unit
Distinct (x ∷ xs) = (has x xs ≡ false) × Distinct xs

abbrev pub All {ℓ κ} : {A : Type ℓ} → (A → Type κ) → List A → Type κ
All P [] = Unit
All P (x ∷ xs) = P x × All P xs

module _ {ℓ} {A : Type ℓ} where
  abbrev pub take : ℕ → List A → List A
  take zero xs = []
  take (suc n) [] = []
  take (suc n) (x ∷ xs) = x ∷ take n xs

  abbrev pub drop : ℕ → List A → List A
  drop zero xs = xs
  drop (suc n) [] = []
  drop (suc n) (x ∷ xs) = drop n xs
