-- ===== src/Paging/Tests.antt =====
-- Examples for kernel/paging.c.
use mathlib.Core.Path.{subst}
use r5o.Base.{
  ℕ, ◌+◌, ◌-◌, ◌*◌, ◌%◌, ◌^◌, ◌<◌, ◌≡◌, ◌==◌, if◌then◌else◌, refl, sym, ap, ◌∙◌, false, true,
  Option, none, some, List, [], ◌∷◌, arith, ok, All, inl, Ends,
}
use r5o.Paging.{
  num_pte, entry_at, deallocate_page_table, allocate_page_directory, Vm, shl, virtual_to_physical,
  map_virtual_page, allocate_virtual_page, get_virt_page, is_valid, get_l2, get_l1, get_l0,
  get_offset, get_page_num, get_flags,
}
use r5o.Base.{length}
use r5o.Paging.Fields.{address_parts}
use r5o.Paging.Tree.{follow, reach, IsPath}
use r5o.Paging.Fill.{Inv}
use r5o.Paging.Map.{path_of, Part, map_virtual_page-Part}
use r5o.PageAlloc.Stack.{Holds}
use r5o.Paging.Held.{all_pages, all_dirs, AllApart, Outside, pushed_on}
use r5o.Paging.Deallocate.{l1_pages, l1_dirs, deallocate_page_table-Freed}
use r5o.Paging.Directory.{NewDirectory, allocate_page_directory-NewDirectory}
use r5o.Paging.Allocate.{Allocated, allocate_virtual_page-Allocated}
use r5o.Paging.Translate.{translated, virtual_to_physical-reach}
use r5o.Paging.Session.{Wish}

-- A table in page 1 with no entry, and the pages 2 to 5 free.
abbrev bare : Vm
bare = record {
  alloc = record {
    pages = λ i. if i == 496 then 2 else if i == 497 then 3 else if i == 498 then 4 else 5;
    curr_free_page_node = 496;
    num_free_pages = 4;
  };
  mem = λ a. 0;
}

abbrev owners : ℕ → Option (List ℕ)
owners p = if p == 1 then some [] else none

abbrev free_list : List ℕ
free_list = 2 ∷ 3 ∷ 4 ∷ 5 ∷ []

zero_invalid : is_valid 0 ≡ false
unfolding is_valid get_flags
zero_invalid = refl

nothing_mapped : (i : ℕ) (o : Option ℕ) → follow bare.mem i o ≡ none
unfolding is_valid get_flags
nothing_mapped i none = refl
nothing_mapped i (some d) = refl

bare-owned :
    (path : List ℕ) (p : ℕ) → IsPath path → reach bare.mem 1 path ≡ some p → owners p ≡ some path
bare-owned [] p is e = ground arith
bare-owned (i ∷ path) p is e = cc (sym (nothing_mapped i (reach bare.mem 1 path)) ∙ e)

bare-Inv : Inv owners 1 free_list bare
bare-Inv = record {
  holds = record { count = refl; fits = refl; window = (refl, (refl, (refl, (refl, tt)))) };
  owned = bare-owned;
  root_small = omega arith;
  unowned = λ p m. ground arith;
  clean = λ p k m lt. zero_invalid;
  small = λ p m. ground arith;
  distinct = (refl, (refl, (refl, (refl, tt))));
}

map_virtual_page-Part_example :
    Part 1
      (path_of (shl 7 12))
      7
      3
      free_list
      bare
      (map_virtual_page (shl 1 12) 7 9 true true false bare)
map_virtual_page-Part_example = map_virtual_page-Part 7 9 true true false bare-Inv

allocate_virtual_page-Allocated_example :
    Allocated 1
      (path_of (shl 7 12))
      7
      free_list
      bare
      (allocate_virtual_page (shl 1 12) 7 true true false bare)
allocate_virtual_page-Allocated_example =
    allocate_virtual_page-Allocated free_list 7 true true false bare-Inv

virtual_to_physical-reach_example :
    virtual_to_physical (shl 1 12) 28677 bare
    ≡ translated (reach bare.mem 1 (path_of 28677)) 28677 bare
virtual_to_physical-reach_example = virtual_to_physical-reach 1 28677 bare

-- The pages 2 to 10 free: one is for the table, and four go for virtual page 7, two for virtual
-- page 8.
abbrev stocked : Vm
stocked = record {
  alloc = record { pages = λ i. i - 489; curr_free_page_node = 491; num_free_pages = 9 };
  mem = λ a. 0;
}

abbrev stock : List ℕ
stock = 2 ∷ 3 ∷ 4 ∷ 5 ∷ 6 ∷ 7 ∷ 8 ∷ 9 ∷ 10 ∷ []

abbrev wishes : List Wish
wishes =
    record { page = 7; read = true; write = true; exec = false }
    ∷ record { page = 8; read = true; write = false; exec = true }
    ∷ []

address_parts_example :
    (((get_l2 28677 * 512 + get_l1 28677) * 512 + get_l0 28677) * 4096 + get_offset 28677
      ≡ 28677 % 2 ^ 39)
    × (get_virt_page 28677 ≡ (get_l2 28677 * 512 + get_l1 28677) * 512 + get_l0 28677)
    × (get_l2 28677 < 512)
    × (get_l1 28677 < 512)
    × (get_l0 28677 < 512)
    × (get_offset 28677 < 4096)
address_parts_example = address_parts 28677

allocate_page_directory-NewDirectory_example :
    NewDirectory free_list bare (allocate_page_directory bare)
allocate_page_directory-NewDirectory_example =
    allocate_page_directory-NewDirectory bare free_list bare-Inv.holds

-- Page 1 is a table with one entry, which leads by way of the pages 6 and 7 to page 9.
abbrev one_mapped : Vm
one_mapped = record bare {
  mem = λ a.
      if a == 4096
      then 6 * 1024 + 1
      else if a == 6 * 4096
      then 7 * 1024 + 1
      else if a == 7 * 4096 + 40
      then 9 * 1024 + 1
      else 0;
}

its_pages : all_pages l1_pages one_mapped.mem 4096 ≡ 9 ∷ 7 ∷ 6 ∷ []
unfolding is_valid get_flags get_page_num
its_pages = refl

its_dirs : all_dirs l1_dirs one_mapped.mem 4096 ≡ 4096 ∷ 24576 ∷ 28672 ∷ []
unfolding is_valid get_flags get_page_num
its_dirs = refl

its_dirs-AllApart : AllApart (4096 ∷ 24576 ∷ 28672 ∷ [])
its_dirs-AllApart =
    ((inl (omega arith), (inl (omega arith), tt)), ((inl (omega arith), tt), (tt, tt)))

deallocate_page_table-Freed_example :
    (s' : Vm) × (deallocate_page_table 4096 one_mapped ≡ ok tt s')
    × Holds s'.alloc (1 ∷ pushed_on (all_pages l1_pages one_mapped.mem 4096) free_list)
    × ((j : ℕ) → j < num_pte → is_valid (s'.mem (entry_at 4096 j)) ≡ false)
    × ((a : ℕ)
        → All (Outside a) (all_dirs l1_dirs one_mapped.mem 4096)
        → s'.mem a ≡ one_mapped.mem a)
deallocate_page_table-Freed_example =
    deallocate_page_table-Freed 4096 one_mapped free_list bare-Inv.holds
      (omega (arith, ap (length {A = ℕ}) its_pages))
      (subst AllApart (sym its_dirs) its_dirs-AllApart)
