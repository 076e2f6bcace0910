-- ===== src/Paging/Allocate.antt =====
-- `allocateVirtualPage` of kernel/paging.c, and what a program sees of a new mapping.
use r5o.Base.{
  ℕ, ◌≤◌, ◌<◌, ◌≡◌, ◌≢◌, refl, sym, ap, ◌∙◌, Bool, false, Option, none, some, List, [], ◌∷◌, ◌++◌,
  arith, length, has, has-append, ◌||◌, ==_refl, inl, inr, Outcome, ok, halt,
}
use r5o.PageAlloc.{Alloc}
use r5o.PageAlloc.Stack.{Holds, allocate_page-cons, allocate_page-nil}
use r5o.Paging.{Vm, shl, get_flags, allocate_virtual_page}
use r5o.Paging.Entry.{flags_for}
use r5o.Paging.Tree.{reach, leaf, IsPath}
use r5o.Paging.Fill.{Inv}
use r5o.Paging.Map.{path_of, Part, part, stopped, map_virtual_page-Part}
use r5o.Paging.Translate.{is_some, is_virtual_page_allocated-reach}

-- What `allocateVirtualPage` comes to. Where it returns, the page leads to a physical page by an entry with `flags`, no other
-- virtual page changes, and at most three pages are used; but the first free page, `lost`, is
-- neither in the tree nor free any more. It stops for a page that is there, or when pages run out.
pub data Allocated (root : ℕ) (target : List ℕ) (flags : ℕ) (free : List ℕ) (s : Vm)
    : Outcome Vm (Unit {0}) → Type 0 where
  there_already :
      (p : ℕ)
      → reach s.mem root target ≡ some p
      → Allocated root target flags free s
          (halt "allocateVirtualPage: Virtual Page Already given a physical page")
  none_left :
      length free < 4
      → reach s.mem root target ≡ none
      → Allocated root target flags free s (halt "allocatePage: No Free Page")
  placed :
      {s' : Vm} (own : ℕ → Option (List ℕ)) (lost : ℕ) (used free' : List ℕ) (p : ℕ)
      → free ≡ lost ∷ (used ++ free')
      → length used ≤ 3
      → Inv own root free' s'
      → reach s.mem root target ≡ none
      → reach s'.mem root target ≡ some p
      → ((q : List ℕ)
          → IsPath q
          → length q ≡ 3
          → q ≢ target
          → reach s'.mem root q ≡ reach s.mem root q)
      → ((q : List ℕ) → IsPath q → reach s'.mem root q ≢ some lost)
      → has lost free' ≡ false
      → get_flags (leaf s'.mem root target) ≡ flags
      → Allocated root target flags free s (ok tt s')

module _ {own : ℕ → Option (List ℕ)} {root : ℕ} {s : Vm} where
  popped-Inv :
      (x : ℕ) (rest : List ℕ) (t : Alloc)
      → Inv own root (x ∷ rest) s
      → Holds t rest
      → Inv own root rest (record s { alloc = t })
  popped-Inv x rest t inv h = record {
    holds = h;
    owned = inv.owned;
    root_small = inv.root_small;
    unowned = λ p m. inv.unowned p (ground arith);
    clean = λ p k m lt. inv.clean p k (ground arith) lt;
    small = λ p m. inv.small p (ground arith);
    distinct = inv.distinct.1;
  }

  Part-Allocated :
      (x : ℕ) (rest : List ℕ) (t : Alloc) (target : List ℕ) {flags : ℕ} {o : Outcome Vm (Unit {0})}
      → Inv own root (x ∷ rest) s
      → reach s.mem root target ≡ none
      → Part root target flags 3 rest (record s { alloc = t }) o
      → Allocated root target flags (x ∷ rest) s o
  Part-Allocated x rest t target inv before
        (part own' used free' p e n inv' r grown kept from bits) =
      let apart : (has x used || has x free') ≡ false =
        sym (has-append x used free') ∙ ap (has x) (sym e) ∙ inv.distinct.0 in
      placed own' x used free' p (ap (λ l. x ∷ l) e) n inv' before r kept
        (λ q is at. elim (from q x is at) [
          | inl old ↦
              let vacant = inv.unowned x (ground (arith, ==_refl x)) in
              cc (sym vacant ∙ inv.owned q x is old)
          | inr taken ↦ ground arith
        ])
        (ground arith) (bits before)
  Part-Allocated x rest t target inv before (stopped few) = none_left (omega arith) before

  -- `allocateVirtualPage`, where each page of the table is at the end of one path only, and the free
  -- pages are different, have numbers of 44 bits, are in no table and hold no valid entry. It makes an
  -- unmapped virtual page lead to a physical page, by an entry with the flags V and those of R, W and X
  -- that are asked for, and changes no other virtual page; the page that it takes from the allocator
  -- first ends up neither in the table nor free. For a mapped page it stops with its message. Or it
  -- stops for want of pages, which it does only where fewer than four are free.
  pub allocate_virtual_page-Allocated :
      (free : List ℕ) (vpn : ℕ) (r w x : Bool)
      → Inv own root free s
      → Allocated root
          (path_of (shl vpn 12))
          (flags_for r w x)
          free
          s
          (allocate_virtual_page (shl root 12) vpn r w x s)
  unfolding allocate_virtual_page
  allocate_virtual_page-Allocated free vpn r w x inv = go (reach s.mem root target) refl free inv
    where
      target : List ℕ
      target = path_of (shl vpn 12)

      go :
          (o : Option ℕ)
          → reach s.mem root target ≡ o
          → (l : List ℕ) → Inv own root l s
          → Allocated root target
              (flags_for r w x)
              l
              s
              (allocate_virtual_page (shl root 12) vpn r w x s)
      go (some p) e l inv =
          rw (is_virtual_page_allocated-reach s.mem root vpn ∙ ap is_some e) (there_already p e)
      go none e [] inv =
          rw
            (
              is_virtual_page_allocated-reach s.mem root vpn ∙ ap is_some e,
              allocate_page-nil inv.holds,
            )
            (none_left (omega arith) e)
      go none e (p ∷ rest) inv =
          let (t, f, h) = allocate_page-cons p rest inv.holds in
          rw (is_virtual_page_allocated-reach s.mem root vpn ∙ ap is_some e, f)
            (Part-Allocated p rest t target inv e
              (map_virtual_page-Part vpn p r w x (popped-Inv p rest t inv h)))
