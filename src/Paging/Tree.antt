-- ===== src/Paging/Tree.antt =====
-- The tree of directories that a page table of kernel/paging.c is, and what one new entry does to
-- it.
use native.Mathlib.Decide.{ℕ_discrete}
use r5o.Base.{
  ℕ, ◌^◌, ◌≤◌, ◌<◌, ◌≡◌, ◌≢◌, refl, sym, ap, ◌∙◌, true, false, Option, none, some, List, [], ◌∷◌,
  arith, ◌==◌, if◌then◌else◌, All, length, ==_iff, ==_refl, Bool-cases, inl, inr,
}
use r5o.Paging.{entry_at, shl, is_valid, get_page_num}
use r5o.Paging.Fields.{get_page_num_lem}

-- Entry `i` of the directory that fills page `p`.
abbrev pub entry_of : ℕ → ℕ → ℕ
entry_of p i = entry_at (shl p 12) i

-- The page that a page's entry names, if it is valid.
abbrev pub follow : (ℕ → ℕ) → ℕ → Option ℕ → Option ℕ
follow mem i none = none
follow mem i (some p) =
    if is_valid (mem (entry_of p i)) then some (get_page_num (mem (entry_of p i))) else none

-- The page at the end of a path of indices from the root page, the last index first: `[]` leads to
-- the root itself, one index to a middle directory, two to a final one and three to a mapped page.
abbrev pub reach : (ℕ → ℕ) → ℕ → List ℕ → Option ℕ
reach mem root [] = some root
reach mem root (i ∷ path) = follow mem i (reach mem root path)

-- The entry at the end of a path: 0 where there is none.
abbrev pub leaf_in : (ℕ → ℕ) → ℕ → Option ℕ → ℕ
leaf_in mem i none = 0
leaf_in mem i (some p) = mem (entry_of p i)

abbrev pub leaf : (ℕ → ℕ) → ℕ → List ℕ → ℕ
leaf mem root [] = 0
leaf mem root (i ∷ path) = leaf_in mem i (reach mem root path)

-- At most three indices, each below NUM_PTE.
abbrev pub IsPath : List ℕ → Type 0
IsPath path = All (λ i. i < 512) path × (length path ≤ 3)

pub path-discrete : Discrete (List ℕ)
path-discrete = hlevel ℕ_discrete

-- Every page in the tree is at the end of one path only, which `own` says.
abbrev pub Owned : (ℕ → Option (List ℕ)) → (ℕ → ℕ) → ℕ → Type 0
Owned own mem root =
    (path : List ℕ) (p : ℕ) → IsPath path → reach mem root path ≡ some p → own p ≡ some path

-- A new page `p` at index `i` of the directory page `dir` at the end of `path`: `mem'` has the entry
-- `v` there. The page is in no tree, and has no valid entries.
pub record Grows (own : ℕ → Option (List ℕ)) (mem mem' : ℕ → ℕ) (root dir i p v : ℕ) (path : List ℕ)
    : Type 0 where
  pub owned : Owned own mem root
  pub root_small : root < 2 ^ 44
  pub at_path : reach mem root path ≡ some dir
  pub is_path : IsPath (i ∷ path)
  pub unowned : own p ≡ none
  pub clean : (k : ℕ) → k < 512 → is_valid (mem (entry_of p k)) ≡ false
  pub small : p < 2 ^ 44
  pub vacant : is_valid (mem (entry_of dir i)) ≡ false
  pub write : (a : ℕ) → mem' a ≡ (if entry_of dir i == a then v else mem a)
  pub valid : is_valid v ≡ true
  pub names : get_page_num v ≡ p

pub reach-small :
    (mem : ℕ → ℕ) (root : ℕ) (path : List ℕ) (p : ℕ)
    → root < 2 ^ 44
    → reach mem root path ≡ some p
    → p < 2 ^ 44
reach-small mem root [] p h e = ground arith
reach-small mem root (i ∷ path) p h e = go (reach mem root path) e
  where
    go : (o : Option ℕ) → follow mem i o ≡ some p → p < 2 ^ 44
    go none f = cc
    go (some q) f = ground (arith, get_page_num_lem (mem (entry_of q i)))

pub some_inj : {A : Type 0} {a b : A} → some a ≡ some b → a ≡ b
some_inj e = cc

-- Different entries have different addresses.
pub entry_of-injective :
    (p i q k : ℕ)
    → p < 2 ^ 44
    → q < 2 ^ 44
    → i < 512
    → k < 512
    → entry_of p i ≡ entry_of q k
    → (p ≡ q) × (i ≡ k)
entry_of-injective p i q k hp hq hi hk e = omega arith

module _ {own : ℕ → Option (List ℕ)} {mem mem' : ℕ → ℕ} {root dir i p v : ℕ} {path : List ℕ}
    (g : Grows own mem mem' root dir i p v path) where
  pub IsPath-ok : IsPath path
  IsPath-ok = (g.is_path.0.1, omega (arith, g.is_path.1))

  -- The page at the end of one path is at the end of no other.
  one_path :
      (k q : ℕ) (tail : List ℕ)
      → IsPath tail
      → reach mem root tail ≡ some q
      → dir ≡ q
      → i ≡ k
      → (k ∷ tail) ≡ (i ∷ path)
  one_path k q tail is e at_q at_k =
      let there = g.owned tail q is e in
      let here = g.owned path dir IsPath-ok g.at_path in
      let same : tail ≡ path = some_inj (sym there ∙ ap own (sym at_q) ∙ here) in cc

  -- The step at any other entry of the tree is as before.
  follow-kept :
      (k q : ℕ) (tail : List ℕ)
      → IsPath (k ∷ tail)
      → reach mem root tail ≡ some q
      → (k ∷ tail) ≢ (i ∷ path)
      → follow mem' k (some q) ≡ follow mem k (some q)
  follow-kept k q tail is e ne = elim (Bool-cases (entry_of dir i == entry_of q k)) [
    | inl same ↦
        let (at_q, at_k) =
          entry_of-injective dir i q k (reach-small mem root path dir g.root_small g.at_path)
            (reach-small mem root tail q g.root_small e) g.is_path.0.0 is.0.0
            ((==_iff _ _).0 same) in
        absurd (ne (one_path k q tail (is.0.1, omega (arith, is.1)) e at_q at_k))
    | inr other ↦
        let w : mem' (entry_of q k) ≡ mem (entry_of q k) = g.write (entry_of q k) ∙ rw other in rw w
  ]

  follow-other :
      (k : ℕ) (tail : List ℕ) (o : Option ℕ)
      → IsPath (k ∷ tail)
      → reach mem root tail ≡ o
      → (k ∷ tail) ≢ (i ∷ path)
      → follow mem' k o ≡ follow mem k o
  follow-other k tail none is e ne = refl
  follow-other k tail (some q) is e ne = follow-kept k q tail is e ne

  -- Paths that are no longer than the one to the directory are as before.
  pub reach-prefix :
      (q : List ℕ) → IsPath q → length q ≤ length path → reach mem' root q ≡ reach mem root q
  reach-prefix [] is short = refl
  reach-prefix (k ∷ q) is short =
      let ih = reach-prefix q (is.0.1, omega (arith, is.1)) (omega arith) in
      ap (follow mem' k) ih
      ∙ follow-other k q (reach mem root q) is refl (λ e. omega (arith, ap (length {A = ℕ}) e))

  -- The new path leads to the new page.
  pub reach-new : reach mem' root (i ∷ path) ≡ some p
  reach-new =
      let to_dir = reach-prefix path IsPath-ok (omega arith) ∙ g.at_path in
      let w : mem' (entry_of dir i) ≡ v =
        g.write (entry_of dir i) ∙ rw (==_refl (entry_of dir i)) in
      ap (follow mem' i) to_dir ∙ rw (w, g.valid, g.names)

  -- Below the new page there is nothing.
  follow-new : (k : ℕ) → k < 512 → follow mem' k (some p) ≡ none
  follow-new k lt = elim (Bool-cases (entry_of dir i == entry_of p k)) [
    | inl same ↦
        let at_p =
          entry_of-injective dir i p k (reach-small mem root path dir g.root_small g.at_path)
            g.small g.is_path.0.0 lt ((==_iff _ _).0 same) in
        let here = g.owned path dir IsPath-ok g.at_path in cc (sym here ∙ ap own at_p.0 ∙ g.unowned)
    | inr other ↦
        let w : mem' (entry_of p k) ≡ mem (entry_of p k) = g.write (entry_of p k) ∙ rw other in
        rw (w, g.clean k lt)
  ]

  -- All other paths are as before.
  pub reach-kept : (q : List ℕ) → IsPath q → q ≢ (i ∷ path) → reach mem' root q ≡ reach mem root q
  reach-kept [] is ne = refl
  reach-kept (k ∷ q) is ne = elim (path-discrete q (i ∷ path)) [
    | yes e ↦
        let after = ap (follow mem' k) (ap (reach mem' root) e ∙ reach-new) ∙ follow-new k is.0.0 in
        let before : reach mem root (i ∷ path) ≡ none = ap (follow mem i) g.at_path ∙ rw g.vacant in
        after ∙ sym (ap (follow mem k) (ap (reach mem root) e ∙ before))
    | no other ↦
        ap (follow mem' k) (reach-kept q (is.0.1, omega (arith, is.1)) other)
        ∙ follow-other k q (reach mem root q) is refl ne
  ]
