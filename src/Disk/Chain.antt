-- ===== src/Disk/Chain.antt =====
-- The descriptors that `alloc3_desc` of kernel/disk.c takes.
use r5o.Base.{
  ℕ, zero, suc, ◌+◌, ◌≤◌, ◌<◌, ◌≡◌, ◌≢◌, refl, true, false, Option, none, some, List, [], ◌∷◌,
  arith, ◌==◌, leb, ==_refl, Bool-cases, inl, inr, ◌⊎◌, update, Outcome, ok,
}
use r5o.Disk.{
  Disk, null, num, alloc_loop, alloc_desc, free_desc, free_all, alloc3_loop, alloc3_desc,
}

abbrev pub taken : Disk → ℕ → Disk
taken s d = record s { free = update s.free d false }

-- `alloc_desc` takes a free descriptor, or none is free.
alloc_loop-cases :
    (k i : ℕ) (s : Disk)
    → ((d : ℕ) × (i ≤ d)
        × (d < i + k)
        × (s.free d ≡ true)
        × (alloc_loop k i s ≡ ok (some d) (taken s d)))
      ⊎ (((j : ℕ) → i ≤ j → j < i + k → s.free j ≡ false) × (alloc_loop k i s ≡ ok none s))
unfolding alloc_loop
alloc_loop-cases zero i s = inr ((λ j le lt. ground arith), refl)
alloc_loop-cases (suc k) i s = elim (Bool-cases (s.free i)) [
  | inl free ↦ inl (i, omega arith, omega arith, free, rw free refl)
  | inr used ↦ elim (alloc_loop-cases k (i + 1) s) [
    | inl (d, le, lt, f, e) ↦ inl (d, omega arith, omega arith, f, rw used e)
    | inr (all, e) ↦ inr (
      (λ j le lt. elim (Bool-cases (i == j)) [
        | inl same ↦ ground arith
        | inr other ↦ all j (ground arith) (omega arith)
      ]),
      rw used e,
    )
  ]
]

alloc_desc-cases :
    (s : Disk)
    → ((d : ℕ) × (d < num) × (s.free d ≡ true) × (alloc_desc s ≡ ok (some d) (taken s d)))
      ⊎ (((j : ℕ) → j < num → s.free j ≡ false) × (alloc_desc s ≡ ok none s))
unfolding alloc_desc
alloc_desc-cases s = elim (alloc_loop-cases num 0 s) [
  | inl (d, le, lt, f, e) ↦ inl (d, lt, f, e)
  | inr (all, e) ↦ inr ((λ j lt. all j (omega arith) lt), e)
]

abbrev pub freed : Disk → ℕ → Disk
freed s d = record s {
  desc = update s.desc d (record (s.desc d) { addr = null });
  free = update s.free d true;
}

pub free_desc-taken :
    (d : ℕ) (s : Disk) → d < num → s.free d ≡ false → free_desc d s ≡ ok tt (freed s d)
unfolding free_desc
free_desc-taken d s lt f = rw (f, not_past) refl
  where
    not_past : leb num d ≡ false
    not_past = ground arith

-- What `alloc3_desc` comes to: three different descriptors that were free, now taken; or, where all
-- free descriptors are among two, -1, with the same descriptors free as before.
pub data Three (s : Disk) : Outcome Disk (Option (List ℕ)) → Type 0 where
  three :
      (a b c : ℕ)
      → (a < num) × (b < num) × (c < num)
      → (s.free a ≡ true) × (s.free b ≡ true) × (s.free c ≡ true)
      → (a ≢ b) × (a ≢ c) × (b ≢ c)
      → Three s (ok (some (a ∷ b ∷ c ∷ [])) (taken (taken (taken s a) b) c))
  too_few :
      {s' : Disk} (p q : ℕ)
      → ((j : ℕ) → j < num → s.free j ≡ true → (j ≡ p) ⊎ (j ≡ q))
      → ((j : ℕ) → s'.free j ≡ s.free j)
      → Three s (ok none s')

third-Three :
    (s : Disk) (a b : ℕ)
    → a < num
    → b < num
    → s.free a ≡ true
    → (taken s a).free b ≡ true
    → Three s (alloc3_loop 1 (a ∷ b ∷ []) (taken (taken s a) b))
unfolding alloc3_loop free_all
third-Three s a b la lb fa fb =
    let ne : a ≢ b = ground arith in
    let free_b : s.free b ≡ true = ground arith in
    elim (alloc_desc-cases (taken (taken s a) b)) [
      | inl (c, lc, fc, e) ↦
          rw e
            (three a b c (la, lb, lc) (fa, free_b, ground arith) (ne, ground arith, ground arith))
      | inr (all, e) ↦
          let s1 = taken (taken s a) b in
          rw (e, free_desc-taken a s1 la (ground (arith, ==_refl a)))
            (rw (free_desc-taken b (freed s1 a) lb (ground (arith, ==_refl b))) (
              too_few a b
                (λ j lt f. elim (Bool-cases (a == j)) [
                  | inl same ↦ inl (ground arith)
                  | inr other ↦ inr (let held = all j lt in ground arith)
                ])
                (λ j. ground arith)))
    ]

-- `alloc3_desc` takes three different free descriptors, or takes none, where at most two are free.
pub alloc3_desc-Three : (s : Disk) → Three s (alloc3_desc s)
unfolding alloc3_desc alloc3_loop free_all
alloc3_desc-Three s = elim (alloc_desc-cases s) [
  | inr (all, e) ↦ rw e (too_few 0 0 (λ j lt f. let held = all j lt in cc) (λ j. refl))
  | inl (a, la, fa, e) ↦ elim (alloc_desc-cases (taken s a)) [
    | inl (b, lb, fb, e') ↦ rw (e, e') (third-Three s a b la lb fa fb)
    | inr (all, e') ↦
        rw (e, e', free_desc-taken a (taken s a) la (ground (arith, ==_refl a)))
          (too_few a a
            (λ j lt f. elim (Bool-cases (a == j)) [
              | inl same ↦ inl (ground arith)
              | inr other ↦ let held = all j lt in cc
            ])
            (λ j. ground arith))
  ]
]
