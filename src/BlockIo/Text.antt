-- ===== src/BlockIo/Text.antt =====
-- A text in an array of bytes, character by character: what `logData` of kernel/debug.c promises.
use mathlib.Core.Path.{fun_ext}
use r5o.Base.{
  ℕ, suc, ◌+◌, ◌-◌, ◌*◌, ◌/◌, ◌%◌, ◌<◌, ◌≡◌, refl, ap, false, List, ◌∷◌, arith, ◌==◌, leb, ltb,
  if◌then◌else◌, Bool-cases, inl, inr, update, length,
}
use r5o.BlockIo.{bsize, disksize}
use r5o.BlockIo.Flat.{Flat, copied, nth, append}

-- The first character that is put in, and the rest.
pub text-first :
    (f : ℕ → ℕ) (p c : ℕ) (cs : List ℕ) (k : ℕ)
    → copied (update f p c) (p + 1) (nth cs) 0 k ≡ copied f p (nth (c ∷ cs)) 0 (suc k)
text-first f p c cs k =
    fun_ext {f = copied (update f p c) (p + 1) (nth cs) 0 k}
      {g = copied f p (nth (c ∷ cs)) 0 (suc k)}
      λ x. elim (Bool-cases (p == x)) [
        | inl this ↦ let e : x - p ≡ 0 = ground arith in ground (arith, ap (nth (c ∷ cs)) e)
        | inr other ↦ elim (Bool-cases (leb (p + 1) x)) [
          | inl behind ↦
              let e : x - p ≡ suc (x - (p + 1)) = ground arith in
              ground (arith, ap (nth (c ∷ cs)) e)
          | inr before ↦ ground arith
        ]
      ]

-- The bytes and the position after one character.
abbrev pub after_char : ℕ → Flat → Flat
after_char c t = record t { disk = update t.disk (t.block_no * bsize + t.off) c; off = t.off + 1 }

pub append-char :
    (c : ℕ) (cs : List ℕ) (t : Flat)
    → t.off < bsize
    → append cs (after_char c t) ≡ append (c ∷ cs) t
unfolding append
append-char c cs t lt =
    let k = length cs in
    let p = t.block_no * bsize + t.off in
    let e : ltb (disksize * bsize) (t.block_no * bsize + (t.off + 1) + k)
        ≡ ltb (disksize * bsize) (p + suc k) =
      ground arith in
    let at : t.block_no * bsize + (t.off + 1) ≡ p + 1 = omega arith in
    let block : (if k == 0 then t.block_no else (t.block_no * bsize + (t.off + 1) + k - 1) / bsize)
        ≡ (p + suc k - 1) / bsize =
      ground arith in
    let off : (if k == 0 then t.off + 1 else (t.block_no * bsize + (t.off + 1) + k - 1) % bsize + 1)
        ≡ (p + suc k - 1) % bsize + 1 =
      ground arith in
    let nonempty : (suc k == 0) ≡ false = ground arith in
    rw (e, block, off, at, nonempty, text-first t.disk p c cs k) refl

-- The end of a block is the start of the next.
pub append-turn :
    (c : ℕ) (cs : List ℕ) (t : Flat)
    → append (c ∷ cs) (record t { block_no = t.block_no + 1; off = 0 })
      ≡ append (c ∷ cs) (record t { off = bsize })
unfolding append
append-turn c cs t =
    let e : (t.block_no + 1) * bsize + 0 ≡ t.block_no * bsize + bsize = omega arith in
    let nonempty : (suc (length cs) == 0) ≡ false = ground arith in rw (e, nonempty) refl
