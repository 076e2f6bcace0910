-- ===== src/Paging/Translate.antt =====
-- Translation of addresses and allocation of virtual pages in kernel/paging.c.
use r5o.Base.{
  ℕ, ◌+◌, ◌*◌, ◌%◌, ◌^◌, ◌≡◌, refl, sym, ap, ◌∙◌, Bool, true, false, Option, none, some, List, [],
  ◌∷◌, arith, ok, halt, ok-injective, Cmd, bit_or,
}
use r5o.Base.Bits.{bit_or_low}
use r5o.Paging.{
  Vm, entry_at, shl, dir_of, get_page_num, get_offset, get_virt_page, get_l0, get_l1, get_l2,
  is_virtual_page_allocated, translate, virtual_to_physical,
}
use r5o.Paging.Fields.{
  address_parts, get_l2_lem, get_l1_lem, get_l0_lem, get_offset_lem, get_virt_page_lem,
  get_page_num_lem,
}
use r5o.Paging.Tree.{entry_of, reach, some_inj}
use r5o.Paging.Fill.{Inv}
use r5o.Paging.Map.{path_of, path_of-IsPath}

abbrev pub is_some : Option ℕ → Bool
is_some none = false
is_some (some p) = true

-- `isVirtualPageAllocated` says whether the path of the virtual page leads to a page.
pub is_virtual_page_allocated-reach :
    (mem : ℕ → ℕ) (root vpn : ℕ)
    → is_virtual_page_allocated mem (shl root 12) vpn
      ≡ is_some (reach mem root (path_of (shl vpn 12)))
unfolding is_virtual_page_allocated
is_virtual_page_allocated-reach mem root vpn = ground arith

-- The path of an address is that of its virtual page.
pub path_of-page : (va : ℕ) → path_of (shl (get_virt_page va) 12) ≡ path_of va
path_of-page va =
    let v = shl (get_virt_page va) 12 in
    let e0 : get_l0 v ≡ get_l0 va =
      omega (arith, get_l0_lem v, get_l0_lem va, get_virt_page_lem va) in
    let e1 : get_l1 v ≡ get_l1 va =
      omega (arith, get_l1_lem v, get_l1_lem va, get_virt_page_lem va) in
    let e2 : get_l2 v ≡ get_l2 va =
      omega (arith, get_l2_lem v, get_l2_lem va, get_virt_page_lem va) in
    cc

-- The answer of a translation: the page at the end of the path, and the offset.
abbrev pub translated : {S : Type 0} → Option ℕ → ℕ → Cmd S ℕ
translated none va s = halt "virtualToPhysical: virtual address not valid"
translated (some p) va s = ok (p * 4096 + va % 4096) s

-- The last entry of a path names the page at its end.
last_named :
    (mem : ℕ → ℕ) (root i j k p : ℕ)
    → reach mem root (k ∷ j ∷ i ∷ []) ≡ some p
    → get_page_num (mem (entry_at (dir_of (mem (entry_at (dir_of (mem (entry_of root i))) j))) k))
      ≡ p
last_named mem root i j k p e = ground arith

joined :
    (pte va p : ℕ)
    → get_page_num pte ≡ p
    → bit_or (shl (get_page_num pte) 12) (get_offset va) ≡ p * 4096 + va % 4096
joined pte va p e =
    let shifted : shl (get_page_num pte) 12 ≡ p * 2 ^ 12 = omega (arith, get_page_num_lem pte) in
    rw shifted (
      bit_or_low 12 p (get_offset va) (omega (arith, get_offset_lem va))
      ∙ omega (arith, get_offset_lem va))

-- The translation reads the page at the end of the address's path.
pub translate-reach :
    {S : Type 0} (mem : ℕ → ℕ) (root va : ℕ) (s : S)
    → translate mem (shl root 12) va s ≡ translated (reach mem root (path_of va)) va s
unfolding translate
translate-reach mem root va s = go (reach mem root (path_of va)) refl
  where
    tested :
        is_virtual_page_allocated mem (shl root 12) (get_virt_page va)
        ≡ is_some (reach mem root (path_of va))
    tested =
        is_virtual_page_allocated-reach mem root (get_virt_page va)
        ∙ ap (λ q. is_some (reach mem root q)) (path_of-page va)

    go :
        (o : Option ℕ)
        → reach mem root (path_of va) ≡ o
        → translate mem (shl root 12) va s ≡ translated o va s
    go none e = rw (tested ∙ ap is_some e)
    go (some p) e = rw (tested ∙ ap is_some e) (
        ap (λ n. ok n s)
          (joined _ va p (last_named mem root (get_l2 va) (get_l1 va) (get_l0 va) p e)))

-- `virtualToPhysical` is the page at the end of the address's path, with the offset; it stops with
-- its message where the path leads to no page.
pub virtual_to_physical-reach :
    (root va : ℕ) (s : Vm)
    → virtual_to_physical (shl root 12) va s ≡ translated (reach s.mem root (path_of va)) va s
unfolding virtual_to_physical
virtual_to_physical-reach root va s = translate-reach s.mem root va s

-- Where each page of the table is at the end of one path only, addresses that the table translates into the same
-- physical page lie in the same virtual page.
pub virtual_pages-apart :
    {own : ℕ → Option (List ℕ)} {root : ℕ} {free : List ℕ} {s : Vm} (va va' p : ℕ)
    → Inv own root free s
    → virtual_to_physical (shl root 12) va s ≡ ok (p * 4096 + va % 4096) s
    → virtual_to_physical (shl root 12) va' s ≡ ok (p * 4096 + va' % 4096) s
    → get_virt_page va ≡ get_virt_page va'
virtual_pages-apart {root} {s} va va' p inv e e' =
    let r =
      back (reach s.mem root (path_of va)) va (sym (virtual_to_physical-reach root va s) ∙ e) in
    let r' =
      back (reach s.mem root (path_of va')) va' (sym (virtual_to_physical-reach root va' s) ∙ e') in
    let o = inv.owned (path_of va) p (path_of-IsPath va) r in
    let o' = inv.owned (path_of va') p (path_of-IsPath va') r' in
    let same : path_of va ≡ path_of va' = some_inj (sym o ∙ o') in
    let e0 : get_l0 va ≡ get_l0 va' = cc in
    let e1 : get_l1 va ≡ get_l1 va' = cc in
    let e2 : get_l2 va ≡ get_l2 va' = cc in
    omega (arith, (address_parts va).1, (address_parts va').1)
  where
    back : (o : Option ℕ) (v : ℕ) → translated o v s ≡ ok (p * 4096 + v % 4096) s → o ≡ some p
    back none v f = cc
    back (some q) v f = ap some (omega (arith, (ok-injective f).0))
