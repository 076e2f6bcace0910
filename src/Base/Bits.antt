-- ===== src/Base/Bits.antt =====
-- The bits of a number: `&` and `|` read bit by bit, and with masks as arithmetic.
use Prim.Native.Nat.{
  ℕ, zero, suc, ◌+◌, ◌-◌, ◌*◌, ◌/◌, ◌%◌, ◌^◌, ◌≤◌, ◌<◌, min, max, bit_and, bit_or, digits,
  bit_and-bitwise, bit_or-bitwise,
}
use mathlib.Core.Path.{◌≡◌, refl, ap, ◌∙◌}
use native.Mathlib.Nat.{pow-suc, one-le-pow}
use native.Mathlib.Omega.{arith}
use r5o.Base.Tests.{◌==◌, if◌then◌else◌}

-- Both operations are one recursion on binary digits; more fuel than digits changes nothing.
module _ (z : ℕ → ℕ) (f : ℕ → ℕ → ℕ) where
  digits_enough : (j k a b : ℕ) → a ≤ j → a ≤ k → digits z f j a b ≡ digits z f k a b
  digits_enough zero zero a b p q = refl
  digits_enough zero (suc k) zero b p q = refl
  digits_enough zero (suc k) (suc a) b p q = absurd (omega arith)
  digits_enough (suc j) zero zero b p q = refl
  digits_enough (suc j) zero (suc a) b p q = absurd (omega arith)
  digits_enough (suc j) (suc k) zero b p q = refl
  digits_enough (suc j) (suc k) (suc a) b p q =
      rw (digits_enough j k (suc a / 2) (b / 2) (omega arith) (omega arith))

-- The lowest bit and the others.
pub bit_and_halves : (a b : ℕ) → bit_and a b ≡ bit_and (a / 2) (b / 2) * 2 + min (a % 2) (b % 2)
bit_and_halves zero b = simp bit_and-bitwise (omega arith)
bit_and_halves (suc a) b =
    let e =
      digits_enough (λ y. 0) min a (suc a / 2) (suc a / 2) (b / 2) (omega arith) (omega arith) in
    simp bit_and-bitwise (omega (arith, e))

pub bit_or_halves : (a b : ℕ) → bit_or a b ≡ bit_or (a / 2) (b / 2) * 2 + max (a % 2) (b % 2)
bit_or_halves zero b = simp bit_or-bitwise (omega arith)
bit_or_halves (suc a) b =
    let e =
      digits_enough (λ y. y) max a (suc a / 2) (suc a / 2) (b / 2) (omega arith) (omega arith) in
    simp bit_or-bitwise (omega (arith, e))

-- Bit `i` of `a`.
abbrev pub bit : ℕ → ℕ → ℕ
bit a zero = a % 2
bit a (suc i) = bit (a / 2) i

pub bit-bit_and : (a b i : ℕ) → bit (bit_and a b) i ≡ min (bit a i) (bit b i)
bit-bit_and a b zero = omega (arith, bit_and_halves a b)
bit-bit_and a b (suc i) =
    let e : bit_and a b / 2 ≡ bit_and (a / 2) (b / 2) = omega (arith, bit_and_halves a b) in
    ap (λ n. bit n i) e ∙ bit-bit_and (a / 2) (b / 2) i

pub bit-bit_or : (a b i : ℕ) → bit (bit_or a b) i ≡ max (bit a i) (bit b i)
bit-bit_or a b zero = omega (arith, bit_or_halves a b)
bit-bit_or a b (suc i) =
    let e : bit_or a b / 2 ≡ bit_or (a / 2) (b / 2) = omega (arith, bit_or_halves a b) in
    ap (λ n. bit n i) e ∙ bit-bit_or (a / 2) (b / 2) i

bit_and_nothing : (k a : ℕ) → a ≤ k → bit_and a 0 ≡ 0
bit_and_nothing k zero h = refl
bit_and_nothing zero (suc a) h = absurd (omega arith)
bit_and_nothing (suc k) (suc a) h =
    omega (arith, bit_and_halves (suc a) 0, bit_and_nothing k (suc a / 2) (omega arith))

pub bit_or_nothing : (k a : ℕ) → a ≤ k → bit_or a 0 ≡ a
bit_or_nothing k zero h = refl
bit_or_nothing zero (suc a) h = absurd (omega arith)
bit_or_nothing (suc k) (suc a) h =
    omega (arith, bit_or_halves (suc a) 0, bit_or_nothing k (suc a / 2) (omega arith))

-- `q * 2 ^ (k + 1)` in halves.
twice-pow : (q k : ℕ) → q * 2 ^ suc k ≡ 2 * (q * 2 ^ k)
twice-pow q k = omega (arith, ap (λ (t : ℕ). q * t) (pow-suc 2 k))

-- The two parts of a number at bit `k`, and the lower one by a mask.
pub bit_and_low : (k q r : ℕ) → r < 2 ^ k → bit_and (q * 2 ^ k + r) (2 ^ k - 1) ≡ r
bit_and_low zero q r h = bit_and_nothing (q * 1 + r) (q * 1 + r) (omega arith) ∙ omega arith
bit_and_low (suc k) q r h =
    let half : (q * 2 ^ suc k + r) / 2 ≡ q * 2 ^ k + r / 2 = omega (arith, twice-pow q k) in
    let ones : (2 ^ suc k - 1) / 2 ≡ 2 ^ k - 1 = omega (arith, pow-suc 2 k, one-le-pow k 2) in
    bit_and_halves (q * 2 ^ suc k + r) (2 ^ suc k - 1)
    ∙ rw (half, ones, bit_and_low k q (r / 2) (omega (arith, pow-suc 2 k)))
        (omega (arith, twice-pow q k, pow-suc 2 k, one-le-pow k 2))

-- A mask that lies `s` bits up reads what lies there.
pub bit_and_up :
    (s m n lo : ℕ) → lo < 2 ^ s → bit_and (m * 2 ^ s + lo) (n * 2 ^ s) ≡ bit_and m n * 2 ^ s
bit_and_up zero m n lo h =
    let a : m * 1 + lo ≡ m = omega arith in
    let b : n * 1 ≡ n = omega arith in rw (a, b) (omega arith)
bit_and_up (suc s) m n lo h =
    let half : (m * 2 ^ suc s + lo) / 2 ≡ m * 2 ^ s + lo / 2 = omega (arith, twice-pow m s) in
    let mask : (n * 2 ^ suc s) / 2 ≡ n * 2 ^ s = omega (arith, twice-pow n s) in
    bit_and_halves (m * 2 ^ suc s + lo) (n * 2 ^ suc s)
    ∙ rw (half, mask, bit_and_up s m n (lo / 2) (omega (arith, pow-suc 2 s)))
        (omega (arith, twice-pow n s, twice-pow (bit_and m n) s))

-- `|` of fields that do not meet.
pub bit_or_low : (k q r : ℕ) → r < 2 ^ k → bit_or (q * 2 ^ k) r ≡ q * 2 ^ k + r
bit_or_low zero q r h =
    let a : r ≡ 0 = omega arith in rw a (bit_or_nothing (q * 1) (q * 1) (omega arith) ∙ omega arith)
bit_or_low (suc k) q r h =
    let half : (q * 2 ^ suc k) / 2 ≡ q * 2 ^ k = omega (arith, twice-pow q k) in
    bit_or_halves (q * 2 ^ suc k) r
    ∙ rw (half, bit_or_low k q (r / 2) (omega (arith, pow-suc 2 k))) (omega (arith, twice-pow q k))

bit-zero : (i : ℕ) → bit 0 i ≡ 0
bit-zero zero = refl
bit-zero (suc i) = bit-zero i

pub bit-le-one : (a i : ℕ) → bit a i ≤ 1
bit-le-one a zero = omega arith
bit-le-one a (suc i) = bit-le-one (a / 2) i

-- The only bit of a power of 2.
pub bit-pow : (k i : ℕ) → bit (2 ^ k) i ≡ (if i == k then 1 else 0)
bit-pow zero zero = refl
bit-pow zero (suc i) = bit-zero i ∙ ground arith
bit-pow (suc k) zero = ground (arith, pow-suc 2 k)
bit-pow (suc k) (suc i) =
    let half : 2 ^ suc k / 2 ≡ 2 ^ k = omega (arith, pow-suc 2 k) in
    ap (λ n. bit n i) half ∙ bit-pow k i ∙ ground arith

-- `~x` on a word of `k` bits.
pub bit-complement : (k a i : ℕ) → a < 2 ^ k → i < k → bit (2 ^ k - 1 - a) i ≡ 1 - bit a i
bit-complement zero a i h lt = absurd (omega arith)
bit-complement (suc k) a zero h lt = omega (arith, pow-suc 2 k, one-le-pow k 2)
bit-complement (suc k) a (suc i) h lt =
    let half : (2 ^ suc k - 1 - a) / 2 ≡ 2 ^ k - 1 - a / 2 = omega (arith, pow-suc 2 k) in
    ap (λ n. bit n i) half ∙ bit-complement k (a / 2) i (omega (arith, pow-suc 2 k)) (omega arith)

-- A mask of one bit tests that bit.
pub bit_and-pow : (a k : ℕ) → bit_and a (2 ^ k) ≡ bit a k * 2 ^ k
bit_and-pow a zero =
    omega (arith, bit_and_halves a 1, bit_and_nothing (a / 2) (a / 2) (omega arith))
bit_and-pow a (suc k) =
    let half : 2 ^ suc k / 2 ≡ 2 ^ k = omega (arith, pow-suc 2 k) in
    bit_and_halves a (2 ^ suc k)
    ∙ rw (half, bit_and-pow (a / 2) k) (omega (arith, pow-suc 2 k, twice-pow (bit (a / 2) k) k))

-- `|` with a number below bit `k` leaves what lies above.
pub bit_or_within :
    (k q r m : ℕ) → r < 2 ^ k → m < 2 ^ k → bit_or (q * 2 ^ k + r) m ≡ q * 2 ^ k + bit_or r m
bit_or_within zero q r m h g =
    let a : r ≡ 0 = omega arith in
    let b : m ≡ 0 = omega arith in rw (a, b) (bit_or_nothing (q * 1 + 0) (q * 1 + 0) (omega arith))
bit_or_within (suc k) q r m h g =
    let half : (q * 2 ^ suc k + r) / 2 ≡ q * 2 ^ k + r / 2 = omega (arith, twice-pow q k) in
    bit_or_halves (q * 2 ^ suc k + r) m
    ∙ rw
        (
          half,
          bit_or_within k q (r / 2) (m / 2) (omega (arith, pow-suc 2 k))
              (omega (arith, pow-suc 2 k)),
        )
        (omega (arith, twice-pow q k, bit_or_halves r m))
