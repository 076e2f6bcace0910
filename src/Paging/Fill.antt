-- ===== src/Paging/Fill.antt =====
-- What one part of `mapVirtualPage` in kernel/paging.c does to the tree and to the allocator.

use r5o.Base.{
  ℕ, ◌^◌, ◌<◌, ◌≡◌, ◌≢◌, refl, sym, ap, ◌∙◌, Bool, true, false, Option, none, some, List, [], ◌∷◌,
  arith, ◌==◌, if◌then◌else◌, has, Distinct, ==_iff, ==_refl, Bool-cases, inl, inr, update, Outcome,
  ok, halt, bit_or,
}
use r5o.PageAlloc.{Alloc}
use r5o.PageAlloc.Stack.{Holds, allocate_page-cons, allocate_page-nil}
use r5o.Paging.{Vm, shl, is_valid, get_page_num, get_flags, fill_entry, set_flags, pte_v}
use r5o.Paging.Entry.{new_entry, new_entry-parts, flags_for}
use r5o.Paging.Tree.{
  entry_of, follow, reach, leaf, IsPath, IsPath-ok, reach-prefix, Owned, Grows, reach-new,
  reach-kept, path-discrete, some_inj, entry_of-injective, reach-small,
}

-- The tree from the page `root`, and the free pages `free`, which are in no tree, have no valid
-- entry in them, and have numbers of 44 bits.
pub record Inv (own : ℕ → Option (List ℕ)) (root : ℕ) (free : List ℕ) (s : Vm) : Type 0 where
  pub holds : Holds s.alloc free
  pub owned : Owned own s.mem root
  pub root_small : root < 2 ^ 44
  pub unowned : (p : ℕ) → has p free ≡ true → own p ≡ none
  pub clean : (p k : ℕ) → has p free ≡ true → k < 512 → is_valid (s.mem (entry_of p k)) ≡ false
  pub small : (p : ℕ) → has p free ≡ true → p < 2 ^ 44
  pub distinct : Distinct free

abbrev pub owns : (ℕ → Option (List ℕ)) → ℕ → List ℕ → ℕ → Option (List ℕ)
owns own p path q = if p == q then some path else own q

-- Memory after a part of `mapVirtualPage` has given entry `i` of page `dir` the page `p`.
abbrev written : (ℕ → ℕ) → ℕ → ℕ → ℕ → Bool → Bool → Bool → ℕ → ℕ
written mem dir i p r w x =
    let a = entry_of dir i in update (update mem a (bit_or (shl p 10) pte_v)) a (new_entry p r w x)

first_has : (p : ℕ) (rest : List ℕ) → has p (p ∷ rest) ≡ true
first_has p rest = ground (arith, ==_refl p)

later_has : (p q : ℕ) (rest : List ℕ) → has q rest ≡ true → has q (p ∷ rest) ≡ true
later_has p q rest h = ground arith

later_ne : (p q : ℕ) (rest : List ℕ) → Distinct (p ∷ rest) → has q rest ≡ true → (p == q) ≡ false
later_ne p q rest d h = ground arith

module _ (own : ℕ → Option (List ℕ)) (root dir i p : ℕ) (path rest : List ℕ) (s : Vm) (r w x : Bool)
    (inv : Inv own root (p ∷ rest) s) (is : IsPath (i ∷ path))
    (here : reach s.mem root path ≡ some dir)
    (vacant : is_valid (s.mem (entry_of dir i)) ≡ false) where
  written-Grows :
      Grows own s.mem (written s.mem dir i p r w x) root dir i p (new_entry p r w x) path
  written-Grows =
      let parts = new_entry-parts p r w x (inv.small p (first_has p rest)) in
      record {
        owned = inv.owned;
        root_small = inv.root_small;
        at_path = here;
        is_path = is;
        unowned = inv.unowned p (first_has p rest);
        clean = λ k lt. inv.clean p k (first_has p rest) lt;
        small = inv.small p (first_has p rest);
        vacant = vacant;
        write = λ a. ground arith;
        valid = parts.0;
        names = parts.1;
      }

  written-flags : get_flags (leaf (written s.mem dir i p r w x) root (i ∷ path)) ≡ flags_for r w x
  written-flags =
      let parts = new_entry-parts p r w x (inv.small p (first_has p rest)) in
      let to_dir = reach-prefix written-Grows path (IsPath-ok written-Grows) (omega arith) ∙ here in
      rw (to_dir, ==_refl (entry_of dir i)) parts.2

  written-Owned : Owned (owns own p (i ∷ path)) (written s.mem dir i p r w x) root
  written-Owned q k iq e = elim (path-discrete q (i ∷ path)) [
    | yes same ↦
        let at : p ≡ k = some_inj (
          sym (reach-new written-Grows)
          ∙ ap (reach (written s.mem dir i p r w x) root) (sym same)
          ∙ e) in
        ground arith
    | no other ↦
        let old = inv.owned q k iq (sym (reach-kept written-Grows q iq other) ∙ e) in
        ground (arith, inv.unowned p (first_has p rest))
  ]

  written-clean :
      (q k : ℕ)
      → has q rest ≡ true
      → k < 512
      → is_valid (written s.mem dir i p r w x (entry_of q k)) ≡ false
  written-clean q k h lt = elim (Bool-cases (entry_of dir i == entry_of q k)) [
    | inl same ↦
        let at_q =
          entry_of-injective dir i q k (reach-small s.mem root path dir inv.root_small here)
            (inv.small q (later_has p q rest h)) is.0.0 lt ((==_iff _ _).0 same) in
        let on_path = inv.owned path dir (is.0.1, omega (arith, is.1)) here in
        cc (sym on_path ∙ ap own at_q.0 ∙ inv.unowned q (later_has p q rest h))
    | inr other ↦ rw other (inv.clean q k (later_has p q rest h) lt)
  ]

  written-Inv :
      (t : Alloc)
      → Holds t rest
      → Inv
          (owns own p (i ∷ path))
          root
          rest
          (record { alloc = t; mem = written s.mem dir i p r w x })
  written-Inv t h = record {
    holds = h;
    owned = written-Owned;
    root_small = inv.root_small;
    unowned = λ q m. rw (later_ne p q rest inv.distinct m) (inv.unowned q (later_has p q rest m));
    clean = written-clean;
    small = λ q m. inv.small q (later_has p q rest m);
    distinct = inv.distinct.1;
  }

-- What the part comes to, for the entry at the end of `target`: the path leads to a page, one that
-- was there or the first free one, with an entry that has `flags`; no other path changes; or no page is free and it stops.
pub data Filled (own : ℕ → Option (List ℕ)) (root : ℕ) (free : List ℕ) (s : Vm) (target : List ℕ)
    (flags : ℕ) : Outcome Vm (Unit {0}) → Type 0 where
  was_there :
      (p : ℕ) → reach s.mem root target ≡ some p → Filled own root free s target flags (ok tt s)
  new_page :
      {s' : Vm} (p : ℕ) (rest : List ℕ)
      → free ≡ p ∷ rest
      → reach s.mem root target ≡ none
      → Inv (owns own p target) root rest s'
      → reach s'.mem root target ≡ some p
      → ((q : List ℕ) → IsPath q → q ≢ target → reach s'.mem root q ≡ reach s.mem root q)
      → get_flags (leaf s'.mem root target) ≡ flags
      → Filled own root free s target flags (ok tt s')
  no_page :
      free ≡ []
      → reach s.mem root target ≡ none
      → Filled own root free s target flags (halt "allocatePage: No Free Page")

module _ (own : ℕ → Option (List ℕ)) (root dir i : ℕ) (path : List ℕ) (s : Vm) (r w x : Bool)
    (is : IsPath (i ∷ path)) (here : reach s.mem root path ≡ some dir) where
  fill_vacant :
      (free : List ℕ)
      → Inv own root free s
      → is_valid (s.mem (entry_of dir i)) ≡ false
      → Filled own root free s (i ∷ path) (flags_for r w x) (fill_entry (entry_of dir i) r w x s)
  unfolding fill_entry set_flags
  fill_vacant [] inv vacant =
      rw (vacant, allocate_page-nil inv.holds) (no_page refl (ap (follow s.mem i) here ∙ rw vacant))
  fill_vacant (p ∷ rest) inv vacant =
      let (t, e, h) = allocate_page-cons p rest inv.holds in
      rw (vacant, e, ==_refl (entry_of dir i))
        (new_page p rest refl (ap (follow s.mem i) here ∙ rw vacant)
          (written-Inv own root dir i p path rest s r w x inv is here vacant t h)
          (reach-new (written-Grows own root dir i p path rest s r w x inv is here vacant))
          (reach-kept (written-Grows own root dir i p path rest s r w x inv is here vacant))
          (written-flags own root dir i p path rest s r w x inv is here vacant))

  -- A part of `mapVirtualPage` makes its path lead to a page, and keeps the tree.
  pub fill_entry-Filled :
      (free : List ℕ)
      → Inv own root free s
      → Filled own root free s (i ∷ path) (flags_for r w x) (fill_entry (entry_of dir i) r w x s)
  unfolding fill_entry
  fill_entry-Filled free inv = elim (Bool-cases (is_valid (s.mem (entry_of dir i)))) [
    | inl valid ↦
        rw valid
          (was_there (get_page_num (s.mem (entry_of dir i))) (ap (follow s.mem i) here ∙ rw valid))
    | inr vacant ↦ fill_vacant free inv vacant
  ]
