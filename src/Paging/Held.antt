-- ===== src/Paging/Held.antt =====
-- The pages that a page table of kernel/paging.c holds, and the directories that they are found in.
use mathlib.Core.Path.{subst}
use r5o.Base.{
  ℕ, zero, suc, ◌+◌, ◌*◌, ◌≤◌, ◌<◌, ◌≡◌, ◌≢◌, refl, ap, ◌∙◌, true, false, List, [], ◌∷◌, ◌++◌,
  arith, if◌then◌else◌, Bool-cases, inl, inr, ◌⊎◌, All,
}
use r5o.Paging.{num_pte, entry_at, is_valid, get_page_num, dir_of}

-- What an entry that is valid leads to, in memory: pages or directories.
abbrev pub Walk : Type 0
Walk = (ℕ → ℕ) → ℕ → List ℕ

-- Below `k` entries from `i` on, in the order in which `deallocatePageTable` gives pages back: the
-- pages below each valid entry, and then the one that it names.
abbrev pub pages_below : Walk → (ℕ → ℕ) → ℕ → ℕ → ℕ → List ℕ
pages_below pages mem dir zero i = []
pages_below pages mem dir (suc k) i =
    if is_valid (mem (entry_at dir i))
    then pages mem (dir_of (mem (entry_at dir i)))
      ++ (get_page_num (mem (entry_at dir i)) ∷ pages_below pages mem dir k (i + 1))
    else pages_below pages mem dir k (i + 1)

-- The directories below them.
abbrev pub dirs_below : Walk → (ℕ → ℕ) → ℕ → ℕ → ℕ → List ℕ
dirs_below dirs mem dir zero i = []
dirs_below dirs mem dir (suc k) i =
    if is_valid (mem (entry_at dir i))
    then dirs mem (dir_of (mem (entry_at dir i))) ++ dirs_below dirs mem dir k (i + 1)
    else dirs_below dirs mem dir k (i + 1)

module _ (below : Walk) (mem : ℕ → ℕ) (dir k i : ℕ) where
  pub pages_below_valid :
      is_valid (mem (entry_at dir i)) ≡ true
      → pages_below below mem dir (suc k) i
        ≡ below mem (dir_of (mem (entry_at dir i)))
          ++ (get_page_num (mem (entry_at dir i)) ∷ pages_below below mem dir k (i + 1))
  pages_below_valid valid = rw valid refl

  pub pages_below_invalid :
      is_valid (mem (entry_at dir i)) ≡ false
      → pages_below below mem dir (suc k) i ≡ pages_below below mem dir k (i + 1)
  pages_below_invalid invalid = rw invalid refl

  pub dirs_below_valid :
      is_valid (mem (entry_at dir i)) ≡ true
      → dirs_below below mem dir (suc k) i
        ≡ below mem (dir_of (mem (entry_at dir i))) ++ dirs_below below mem dir k (i + 1)
  dirs_below_valid valid = rw valid refl

  pub dirs_below_invalid :
      is_valid (mem (entry_at dir i)) ≡ false
      → dirs_below below mem dir (suc k) i ≡ dirs_below below mem dir k (i + 1)
  dirs_below_invalid invalid = rw invalid refl

-- A stack of pages after pushing some in turn.
abbrev pub pushed_on : List ℕ → List ℕ → List ℕ
pushed_on [] free = free
pushed_on (p ∷ ps) free = pushed_on ps (p ∷ free)

-- Both of a whole directory.
abbrev pub all_pages : Walk → Walk
all_pages pages mem dir = pages_below pages mem dir num_pte 0

abbrev pub all_dirs : Walk → Walk
all_dirs dirs mem dir = dir ∷ dirs_below dirs mem dir num_pte 0

abbrev pub nothing : Walk
nothing mem dir = []

-- Two directories do not overlap, and none of a list do.
abbrev pub Apart : ℕ → ℕ → Type 0
Apart d e = (d + 8 * num_pte ≤ e) ⊎ (e + 8 * num_pte ≤ d)

abbrev pub AllApart : List ℕ → Type 0
AllApart [] = Unit
AllApart (d ∷ ds) = All (Apart d) ds × AllApart ds

-- The address is in none of the directory's entries.
abbrev pub Outside : ℕ → ℕ → Type 0
Outside a d = (j : ℕ) → j < num_pte → a ≢ entry_at d j

-- Both memories have the same entries in a directory.
abbrev pub Same : (ℕ → ℕ) → (ℕ → ℕ) → ℕ → Type 0
Same mem mem' d = (j : ℕ) → j < num_pte → mem' (entry_at d j) ≡ mem (entry_at d j)

pub All-append : (P : ℕ → Type 0) (xs ys : List ℕ) → All P (xs ++ ys) → All P xs × All P ys
All-append P [] ys a = (tt, a)
All-append P (x ∷ xs) ys (p, a) = let (l, r) = All-append P xs ys a in ((p, l), r)

pub All-map : {P Q : ℕ → Type 0} (xs : List ℕ) → ((x : ℕ) → P x → Q x) → All P xs → All Q xs
All-map [] f a = tt
All-map (x ∷ xs) f (p, a) = (f x p, All-map xs f a)

pub All-zip : (P Q : ℕ → Type 0) (xs : List ℕ) → All P xs → All Q xs → All (λ x. P x × Q x) xs
All-zip P Q [] a b = tt
All-zip P Q (x ∷ xs) (p, a) (q, b) = ((p, q), All-zip P Q xs a b)

-- The directories of two lists are apart from each other.
pub AllApart-append :
    (xs ys : List ℕ)
    → AllApart (xs ++ ys)
    → AllApart xs × AllApart ys × All (λ y. All (Apart y) xs) ys
AllApart-append [] ys a = (tt, a, All-map ys (λ y u. tt) (All-units ys))
  where
    All-units : (ys : List ℕ) → All (λ y. Unit {0}) ys
    All-units [] = tt
    All-units (y ∷ ys) = (tt, All-units ys)
AllApart-append (x ∷ xs) ys (p, a) =
    let (l, r) = All-append (Apart x) xs ys p in
    let (b, c, d) = AllApart-append xs ys a in ((l, b), c, both ys r d)
  where
    both :
        (ys : List ℕ)
        → All (Apart x) ys
        → All (λ y. All (Apart y) xs) ys
        → All (λ y. All (Apart y) (x ∷ xs)) ys
    both [] p q = tt
    both (y ∷ ys) (p, ps) (q, qs) = ((elim p [ inl l ↦ inr l | inr r ↦ inl r ], q), both ys ps qs)

-- An entry of a directory is outside the directories that are apart from it.
pub Apart-Outside :
    (d j : ℕ) (ds : List ℕ) → j < num_pte → All (Apart d) ds → All (Outside (entry_at d j)) ds
Apart-Outside d j ds lt a =
    All-map ds (λ e apart i small. elim apart [ inl l ↦ omega arith | inr r ↦ omega arith ]) a

-- What is below depends on the entries of the directories only.
abbrev pub Local : Walk → Walk → Type 0
Local pages dirs =
    (mem mem' : ℕ → ℕ) (dir : ℕ)
    → All (Same mem mem') (dirs mem dir)
    → (pages mem' dir ≡ pages mem dir) × (dirs mem' dir ≡ dirs mem dir)

pub below-Local :
    {pages dirs : Walk}
    → Local pages dirs
    → (mem mem' : ℕ → ℕ) (dir k i : ℕ)
    → ((j : ℕ) → i ≤ j → j < i + k → mem' (entry_at dir j) ≡ mem (entry_at dir j))
    → All (Same mem mem') (dirs_below dirs mem dir k i)
    → (pages_below pages mem' dir k i ≡ pages_below pages mem dir k i)
      × (dirs_below dirs mem' dir k i ≡ dirs_below dirs mem dir k i)
below-Local loc mem mem' dir zero i own a = (refl, refl)
below-Local {pages} {dirs} loc mem mem' dir (suc k) i own a =
    elim (Bool-cases (is_valid (mem (entry_at dir i)))) [
      | inl valid ↦
          let here = own i (omega arith) (omega arith) in
          let split =
            All-append (Same mem mem') (dirs mem (dir_of (mem (entry_at dir i))))
              (dirs_below dirs mem dir k (i + 1))
              (subst (All (Same mem mem')) (dirs_below_valid dirs mem dir k i valid) a) in
          let (p, d) = loc mem mem' (dir_of (mem (entry_at dir i))) split.0 in
          let (ps, ds) =
            below-Local loc mem mem' dir k (i + 1) (λ j le lt. own j (omega arith) (omega arith))
              split.1 in
          rw (here, valid)
            (
              ap
                    (λ l.
                      l
                      ++ (get_page_num (mem (entry_at dir i))
                          ∷ pages_below pages mem' dir k (i + 1)))
                    p
                  ∙ ap
                      (λ l.
                        pages mem (dir_of (mem (entry_at dir i)))
                        ++ (get_page_num (mem (entry_at dir i)) ∷ l))
                      ps,
              ap (λ l. l ++ dirs_below dirs mem' dir k (i + 1)) d
                  ∙ ap (λ l. dirs mem (dir_of (mem (entry_at dir i))) ++ l) ds,
            )
      | inr other ↦
          let here = own i (omega arith) (omega arith) in
          rw (here, other)
            (below-Local loc mem mem' dir k (i + 1) (λ j le lt. own j (omega arith) (omega arith))
              (subst (All (Same mem mem')) (dirs_below_invalid dirs mem dir k i other) a))
    ]

pub all-Local : {pages dirs : Walk} → Local pages dirs → Local (all_pages pages) (all_dirs dirs)
all-Local loc mem mem' dir (own, a) =
    let (p, d) = below-Local loc mem mem' dir num_pte 0 (λ j le lt. own j lt) a in
    (p, ap (λ l. dir ∷ l) d)
