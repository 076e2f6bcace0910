-- ===== src/Paging/Directory.antt =====
-- A whole new directory of kernel/paging.c: `allocatePageDirectory`.

use r5o.Base.{
  ℕ, zero, suc, ◌+◌, ◌%◌, ◌≤◌, ◌<◌, ◌≡◌, ◌≢◌, refl, ap, ◌∙◌, false, List, [], ◌∷◌, arith, ◌==◌,
  ==_refl, update, bit_and, Bool-cases, inl, inr, Outcome, ok, halt,
}
use r5o.Cpu.{complement}
use r5o.Cpu.Switches.{bit-clear}
use r5o.PageAlloc.Stack.{Holds, allocate_page-cons, allocate_page-nil}
use r5o.Paging.{Vm, pte_v, num_pte, shl, entry_at, is_valid, clear_loop, allocate_page_directory}
use r5o.Paging.Entry.{valid_lem}

cleared : (v : ℕ) → is_valid (bit_and v (complement pte_v)) ≡ false
cleared v =
    let w = bit_and v (complement pte_v) in
    let even : w % 2 ≡ 0 = ground (arith, bit-clear v pte_v 0 (omega arith) (omega arith)) in
    valid_lem w ∙ rw even refl

-- The entries from `i` on, `k` of them, are invalid after code that writes nothing else.
pub record Emptied (dir i k : ℕ) (mem mem' : ℕ → ℕ) : Type 0 where
  pub invalid : (j : ℕ) → i ≤ j → j < i + k → is_valid (mem' (entry_at dir j)) ≡ false
  pub elsewhere : (a : ℕ) → ((j : ℕ) → i ≤ j → j < i + k → a ≢ entry_at dir j) → mem' a ≡ mem a

Emptied-suc :
    (dir i k : ℕ) (mem mem1 mem' : ℕ → ℕ)
    → is_valid (mem1 (entry_at dir i)) ≡ false
    → ((a : ℕ) → a ≢ entry_at dir i → mem1 a ≡ mem a)
    → Emptied dir (i + 1) k mem1 mem'
    → Emptied dir i (suc k) mem mem'
Emptied-suc dir i k mem mem1 mem' bad same e = record {
  invalid = λ j le lt. elim (Bool-cases (i == j)) [
    | inl here ↦
        let at : j ≡ i = ground arith in
        let kept = e.elsewhere (entry_at dir i) (λ m le' lt'. omega arith) in
        rw at (ap is_valid kept ∙ bad)
    | inr other ↦ e.invalid j (ground arith) (omega arith)
  ];
  elsewhere = λ a out.
      e.elsewhere a (λ j le lt. out j (omega arith) (omega arith))
      ∙ same a (out i (omega arith) (omega arith));
}

-- A new value at an entry, and nothing else.
pub update-elsewhere : (mem : ℕ → ℕ) (b v a : ℕ) → a ≢ b → update mem b v a ≡ mem a
update-elsewhere mem b v a ne = ground arith

pub update-here : (mem : ℕ → ℕ) (b v : ℕ) → update mem b v b ≡ v
update-here mem b v = rw (==_refl b) refl

clear_loop-Emptied :
    (dir k i : ℕ) (s : Vm)
    → (mem' : ℕ → ℕ) × (clear_loop dir k i s ≡ ok tt (record s { mem = mem' }))
      × Emptied dir i k s.mem mem'
unfolding clear_loop
clear_loop-Emptied dir zero i s =
    (s.mem, refl, record { invalid = λ j le lt. absurd (omega arith); elsewhere = λ a out. refl })
clear_loop-Emptied dir (suc k) i s =
    let v = bit_and (s.mem (entry_at dir i)) (complement pte_v) in
    let s' = record s { mem = update s.mem (entry_at dir i) v } in
    let (mem', e, f) = clear_loop-Emptied dir k (i + 1) s' in
    let a = entry_at dir i in
    (
      mem',
      e,
      Emptied-suc dir i k s.mem s'.mem mem'
          (ap is_valid (update-here s.mem a v) ∙ cleared (s.mem a)) (update-elsewhere s.mem a v) f,
    )

-- What `allocatePageDirectory` comes to: the address of the first free page, now taken, with 512
-- invalid entries and nothing else written; or the message, where no page is free.
pub data NewDirectory (free : List ℕ) (s : Vm) : Outcome Vm ℕ → Type 0 where
  new_directory :
      {s' : Vm} (p : ℕ) (rest : List ℕ)
      → free ≡ p ∷ rest
      → Holds s'.alloc rest
      → Emptied (shl p 12) 0 num_pte s.mem s'.mem
      → NewDirectory free s (ok (shl p 12) s')
  no_directory : free ≡ [] → NewDirectory free s (halt "allocatePage: No Free Page")

-- `allocatePageDirectory` returns a taken page with no valid entry, and writes nothing else, or
-- stops with the message because no page is free.
pub allocate_page_directory-NewDirectory :
    (s : Vm) (free : List ℕ) → Holds s.alloc free → NewDirectory free s (allocate_page_directory s)
unfolding allocate_page_directory
allocate_page_directory-NewDirectory s [] h = rw (allocate_page-nil h) (no_directory refl)
allocate_page_directory-NewDirectory s (p ∷ rest) h =
    let (t, e, h') = allocate_page-cons p rest h in
    let (mem', f, empty) = clear_loop-Emptied (shl p 12) num_pte 0 (record s { alloc = t }) in
    rw (e, f) (new_directory p rest refl h' empty)

-- An entry of zero.
pub zero_invalid : is_valid 0 ≡ false
zero_invalid = valid_lem 0
