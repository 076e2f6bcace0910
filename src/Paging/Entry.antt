-- ===== src/Paging/Entry.antt =====
-- Page table entries of kernel/paging.c: page number and flags.
use r5o.Base.{
  ℕ, ◌+◌, ◌*◌, ◌%◌, ◌^◌, ◌<◌, ◌≡◌, Bool, true, false, ◌&&◌, ◌||◌, not, ◌==◌, if◌then◌else◌, arith,
  bit_and, bit_or, ◌∙◌, refl,
}
use r5o.Base.Bits.{bit_and-pow, bit, bit_or_low, bit_or_within}
use r5o.Cpu.Switches.{bit-set}
use r5o.Paging.{get_flags, get_page_num, add_flags, with_page_num, is_valid, shl, pte_v}
use r5o.Paging.Fields.{get_flags_lem, get_page_num_lem}

-- The entry that `mapVirtualPage` writes for page `p`.
abbrev pub new_entry : ℕ → Bool → Bool → Bool → ℕ
new_entry p r w x = add_flags (bit_or (shl p 10) pte_v) r w x

abbrev pub one_if : Bool → ℕ → ℕ
one_if true n = n
one_if false n = 0

-- The flags V, and those of R, W and X that are asked for.
abbrev pub flags_for : Bool → Bool → Bool → ℕ
flags_for r w x = 1 + one_if r 2 + one_if w 4 + one_if x 8

flag-bit :
    (c : Bool) (v k i : ℕ)
    → bit (if c then bit_or v (2 ^ k) else v) i ≡ (if c && (i == k) then 1 else bit v i)
flag-bit true v k i = bit-set v k i
flag-bit false v k i = refl

-- `setFlags` sets bit 1, 2 or 3 as asked, and changes no other bit: it clears none.
pub add_flags-bits :
    (v : ℕ) (r w x : Bool) (i : ℕ)
    → bit (add_flags v r w x) i
      ≡ (if (r && (i == 1)) || ((w && (i == 2)) || (x && (i == 3))) then 1 else bit v i)
unfolding add_flags
add_flags-bits v r w x i =
    let v1 = if r then bit_or v (2 ^ 1) else v in
    let v2 = if w then bit_or v1 (2 ^ 2) else v1 in
    flag-bit x v2 3 i ∙ joined (flag-bit w v1 2 i ∙ joined' (flag-bit r v 1 i))
  where
    joined :
        {n : ℕ}
        → n ≡ (if (r && (i == 1)) || (w && (i == 2)) then 1 else bit v i)
        → (if x && (i == 3) then 1 else n)
          ≡ (if (r && (i == 1)) || ((w && (i == 2)) || (x && (i == 3))) then 1 else bit v i)
    joined e = ground arith

    joined' :
        {n : ℕ}
        → n ≡ (if r && (i == 1) then 1 else bit v i)
        → (if w && (i == 2) then 1 else n)
          ≡ (if (r && (i == 1)) || (w && (i == 2)) then 1 else bit v i)
    joined' e = ground arith

new_entry_lem :
    (p : ℕ) (r w x : Bool)
    → p < 2 ^ 44
    → new_entry p r w x ≡ p * 2 ^ 10 + (1 + one_if r 2 + one_if w 4 + one_if x 8)
unfolding add_flags
new_entry_lem p r w x h =
    let shifted : shl p 10 ≡ p * 2 ^ 10 = omega arith in
    let base = bit_or_low 10 p 1 (omega arith) in rw (shifted, base) (flags r w x)
  where
    over : (n m : ℕ) → n < 2 ^ 10 → m < 2 ^ 10 → bit_or (p * 2 ^ 10 + n) m ≡ p * 2 ^ 10 + bit_or n m
    over n m hn hm = bit_or_within 10 p n m hn hm

    flags :
        (r w x : Bool)
        → add_flags (p * 2 ^ 10 + 1) r w x ≡ p * 2 ^ 10 + (1 + one_if r 2 + one_if w 4 + one_if x 8)
    flags false false false = refl
    flags true false false = over 1 2 (omega arith) (omega arith)
    flags false true false = over 1 4 (omega arith) (omega arith)
    flags false false true = over 1 8 (omega arith) (omega arith)
    flags true true false =
        rw (over 1 2 (omega arith) (omega arith)) (over 3 4 (omega arith) (omega arith))
    flags true false true =
        rw (over 1 2 (omega arith) (omega arith)) (over 3 8 (omega arith) (omega arith))
    flags false true true =
        rw (over 1 4 (omega arith) (omega arith)) (over 5 8 (omega arith) (omega arith))
    flags true true true =
        rw (over 1 2 (omega arith) (omega arith), over 3 4 (omega arith) (omega arith))
          (over 7 8 (omega arith) (omega arith))

flags-lt : (r w x : Bool) → 1 + one_if r 2 + one_if w 4 + one_if x 8 < 16
flags-lt r w x = ground arith

flags-odd : (r w x : Bool) → (1 + one_if r 2 + one_if w 4 + one_if x 8) % 2 ≡ 1
flags-odd r w x = ground arith

pub valid_lem : (pte : ℕ) → is_valid pte ≡ not (pte % 2 == 0)
unfolding is_valid
valid_lem pte =
    let e : bit_and (get_flags pte) pte_v ≡ pte % 2 =
      omega (arith, bit_and-pow (get_flags pte) 0, get_flags_lem pte) in
    rw e

-- The entry that `mapVirtualPage` writes for page `p` is valid, names `p`, and has the flags V and
-- those of R, W and X that are asked for.
pub new_entry-parts :
    (p : ℕ) (r w x : Bool)
    → p < 2 ^ 44
    → (is_valid (new_entry p r w x) ≡ true)
      × (get_page_num (new_entry p r w x) ≡ p)
      × (get_flags (new_entry p r w x) ≡ 1 + one_if r 2 + one_if w 4 + one_if x 8)
new_entry-parts p r w x h =
    let e = new_entry_lem p r w x h in
    let odd : new_entry p r w x % 2 ≡ 1 = omega (arith, e, flags-odd r w x) in
    (
      valid_lem (new_entry p r w x) ∙ rw odd,
      omega (arith, e, get_page_num_lem (new_entry p r w x), flags-lt r w x),
      omega (arith, e, get_flags_lem (new_entry p r w x), flags-lt r w x),
    )

-- `setPageNum` makes the entry name page `p`, and keeps its flags.
pub with_page_num-parts :
    (v p : ℕ)
    → p < 2 ^ 44
    → (get_page_num (with_page_num v p) ≡ p) × (get_flags (with_page_num v p) ≡ get_flags v)
unfolding with_page_num
with_page_num-parts v p h =
    let shifted : shl p 10 ≡ p * 2 ^ 10 = omega arith in
    let e = bit_or_low 10 p (get_flags v) (omega (arith, get_flags_lem v)) in
    rw (shifted, e)
      (
        omega (arith, get_page_num_lem (p * 2 ^ 10 + get_flags v), get_flags_lem v),
        omega (arith, get_flags_lem (p * 2 ^ 10 + get_flags v), get_flags_lem v),
      )
