-- ===== src/Paging/Map.antt =====
-- `mapVirtualPage` of kernel/paging.c against the tree of the page table.
use mathlib.Core.List.{append_assoc}
use r5o.Base.{
  ℕ, ◌+◌, ◌≤◌, ◌<◌, ◌≡◌, ◌≢◌, refl, sym, ap, ◌∙◌, Bool, true, false, Option, none, some, List, [],
  ◌∷◌, ◌++◌, arith, length, length-append, has, has-append, inl, inr, ◌⊎◌, Outcome, ok, halt, Cmd,
  and_then,
}
use r5o.Paging.{Vm, shl, get_flags, get_page_num, get_l0, get_l1, get_l2, map_virtual_page}
use r5o.Paging.Entry.{flags_for}
use r5o.Paging.Fields.{get_l2_lem, get_l1_lem, get_l0_lem}
use r5o.Paging.Tree.{path-discrete, some_inj, entry_of, follow, reach, leaf, IsPath}
use r5o.Paging.Fill.{Inv, owns, Filled, was_there, new_page, no_page, fill_entry-Filled}

-- The path of a virtual address.
abbrev pub path_of : ℕ → List ℕ
path_of va = get_l0 va ∷ get_l1 va ∷ get_l2 va ∷ []

-- What code that makes `target` lead to a page comes to, with at most `k` pages taken from the top
-- of the free ones: every path that led to a page leads to the same one, and no other path to a
-- mapped page appears; where `target` led to no page, its entry now has `flags`; a page in the tree was there or is one of those taken; or it stops, when fewer than `k` pages are free.
pub data Part (root : ℕ) (target : List ℕ) (flags k : ℕ) (free : List ℕ) (s : Vm)
    : Outcome Vm (Unit {0}) → Type 0 where
  part :
      {s' : Vm} (own : ℕ → Option (List ℕ)) (used free' : List ℕ) (p : ℕ)
      → free ≡ used ++ free'
      → length used ≤ k
      → Inv own root free' s'
      → reach s'.mem root target ≡ some p
      → ((q : List ℕ) (n : ℕ)
          → IsPath q
          → reach s.mem root q ≡ some n
          → reach s'.mem root q ≡ some n)
      → ((q : List ℕ)
          → IsPath q
          → length q ≡ 3
          → q ≢ target
          → reach s'.mem root q ≡ reach s.mem root q)
      → ((q : List ℕ) (n : ℕ)
          → IsPath q
          → reach s'.mem root q ≡ some n
          → (reach s.mem root q ≡ some n) ⊎ (has n used ≡ true))
      → (reach s.mem root target ≡ none → get_flags (leaf s'.mem root target) ≡ flags)
      → Part root target flags k free s (ok tt s')
  stopped : length free < k → Part root target flags k free s (halt "allocatePage: No Free Page")

module _ {own : ℕ → Option (List ℕ)} {root : ℕ} {free : List ℕ} {s : Vm} {target : List ℕ}
    {flags : ℕ} where
  Filled-Part :
      {o : Outcome Vm (Unit {0})}
      → Inv own root free s
      → Filled own root free s target flags o
      → Part root target flags 1 free s o
  Filled-Part inv (was_there p e) =
      part own [] free p refl (omega arith) inv e (λ q n is r. r) (λ q is l ne. refl)
        (λ q n is r. inl r) (λ no. cc (sym no ∙ e))
  Filled-Part inv (new_page {s'} p rest f before inv' e kept bits) =
      part (owns own p target) (p ∷ []) rest p f (omega arith) inv' e
        (λ q n is r. kept q is (λ same. cc (sym before ∙ ap (reach s.mem root) (sym same) ∙ r)) ∙ r)
        (λ q is l ne. kept q is ne)
        (λ q n is r. elim (path-discrete q target) [
          | yes same ↦
              let at : p ≡ n = some_inj (sym e ∙ ap (reach s'.mem root) (sym same) ∙ r) in
              inr (ground arith)
          | no other ↦ inl (sym (kept q is other) ∙ r)
        ])
        (λ no. bits)
  Filled-Part inv (no_page f before) = stopped (omega (arith, ap (length {A = ℕ}) f))

module _ {root : ℕ} {free : List ℕ} {s : Vm} {first second : List ℕ} {bits flags j k : ℕ} where
  -- One part after another.
  Part-bind :
      {o : Outcome Vm (Unit {0})} (f : Cmd Vm (Unit {0}))
      → length first < 3
      → length second ≡ 3
      → IsPath second
      → Part root first bits j free s o
      → ((own : ℕ → Option (List ℕ)) (free' : List ℕ) (s' : Vm) (p : ℕ)
          → Inv own root free' s'
          → reach s'.mem root first ≡ some p
          → ((q : List ℕ) (n : ℕ)
              → IsPath q
              → reach s.mem root q ≡ some n
              → reach s'.mem root q ≡ some n)
          → Part root second flags k free' s' (f s'))
      → Part root second flags (j + k) free s (and_then o (λ _. f))
  Part-bind f short full valid (stopped few) next = stopped (omega arith)
  Part-bind f short full valid (part {s'} own used free' p e n inv r grown kept from _) next =
      join (next own free' s' p inv r grown)
    where
      join :
          {o : Outcome Vm (Unit {0})}
          → Part root second flags k free' s' o
          → Part root second flags (j + k) free s o
      join (stopped few) = stopped (omega (arith, ap (length {A = ℕ}) e, length-append used free'))
      join (part own2 used2 free2 p2 e2 n2 inv2 r2 grown2 kept2 from2 bits2) =
          part own2 (used ++ used2) free2 p2
            (e ∙ ap (λ l. used ++ l) e2 ∙ sym (append_assoc used used2 free2))
            (omega (arith, length-append used used2)) inv2 r2
            (λ q n is before. grown2 q n is (grown q n is before))
            (λ q is l ne.
              kept2 q is l ne ∙ kept q is l (λ same. omega (arith, ap (length {A = ℕ}) same)))
            (λ q m is r3. elim (from2 q m is r3) [
              | inl before ↦ elim (from q m is before) [
                | inl old ↦ inl old
                | inr taken ↦ inr (ground (arith, has-append m used used2))
              ]
              | inr taken ↦ inr (ground (arith, has-append m used used2))
            ])
            (λ no.
              bits2 (kept second valid full (λ same. omega (arith, ap (length {A = ℕ}) same)) ∙ no))

-- A step of a path goes to the page that the entry names.
follow-named :
    (mem : ℕ → ℕ) (i d : ℕ) (o : Option ℕ) (p : ℕ)
    → o ≡ some d
    → follow mem i o ≡ some p
    → follow mem i o ≡ some (get_page_num (mem (entry_of d i)))
follow-named mem i d none p e f = cc
follow-named mem i d (some q) p e f = ground arith

pub path_of-IsPath : (va : ℕ) → IsPath (path_of va)
path_of-IsPath va = (
  (
    omega (arith, get_l0_lem va),
    (omega (arith, get_l1_lem va), (omega (arith, get_l2_lem va), tt)),
  ),
  omega arith,
)

-- `mapVirtualPage`, where each page of the table is at the end of one path only, and the free pages
-- are different, have numbers of 44 bits, are in no table and hold no valid entry. It makes the
-- virtual page lead to a page, taking at most three free ones in order; where the virtual page led to
-- none, its entry has the flags V and those of R, W and X that are asked for. No other virtual page
-- changes, and no page gets two places in the table. Or it stops, for want of pages, which it does
-- only where fewer than three are free.
pub map_virtual_page-Part :
    {own : ℕ → Option (List ℕ)} {root : ℕ} {free : List ℕ} {s : Vm} (vpn ppn : ℕ) (r w x : Bool)
    → Inv own root free s
    → Part root
        (path_of (shl vpn 12))
        (flags_for r w x)
        3
        free
        s
        (map_virtual_page (shl root 12) vpn ppn r w x s)
unfolding map_virtual_page
map_virtual_page-Part {own} {root} {free} {s} vpn ppn r w x inv =
    let va = shl vpn 12 in
    let is3 = path_of-IsPath va in
    let is2 : IsPath (get_l1 va ∷ get_l2 va ∷ []) = (is3.0.1, omega arith) in
    let is1 : IsPath (get_l2 va ∷ []) = (is3.0.1.1, omega arith) in
    Part-bind _ (omega arith) refl is3
      (Filled-Part inv
        (fill_entry-Filled own root root (get_l2 va) [] s true false false is1 refl free inv))
      λ own1 free1 s1 p1 inv1 to1 grown1.
        let to1' = follow-named s1.mem (get_l2 va) root (some root) p1 refl to1 in
        let d1 = get_page_num (s1.mem (entry_of root (get_l2 va))) in
        Part-bind _ (omega arith) refl is3
          (Filled-Part inv1 (
            fill_entry-Filled own1 root d1 (get_l1 va) (get_l2 va ∷ []) s1 true false false is2 to1'
              free1 inv1))
          λ own2 free2 s2 p2 inv2 to2 grown2.
            let to1'' = grown2 (get_l2 va ∷ []) d1 is1 to1' in
            let to2' = follow-named s2.mem (get_l1 va) d1 _ p2 to1'' to2 in
            Filled-Part inv2 (
              fill_entry-Filled own2 root _ (get_l0 va) (get_l1 va ∷ get_l2 va ∷ []) s2 r w x is3
                to2' free2 inv2)
