-- ===== src/Paging/Fields.antt =====
-- The fields of addresses and page table entries in kernel/paging.c, as arithmetic.
use native.Mathlib.Nat.{div-add-mod', mod-lt, mul-div_cancel, one-le-pow}
use r5o.Base.{ℕ, ◌+◌, ◌-◌, ◌*◌, ◌/◌, ◌%◌, ◌^◌, ◌<◌, ◌≡◌, arith, bit_and, ◌∙◌, ap, sym}
use r5o.Base.Bits.{bit_and_low, bit_and_up}
use r5o.Paging.{
  get_offset, get_virt_page, get_phy_page, get_l2, get_l1, get_l0, get_flags, get_page_num,
}

-- `(x & mask) >> s`, where the mask has `k` bits from bit `s` on.
field : (k s x : ℕ) → bit_and x ((2 ^ k - 1) * 2 ^ s) / 2 ^ s ≡ x / 2 ^ s % 2 ^ k
field k s x =
    let q = x / 2 ^ s in
    let split : x ≡ (q / 2 ^ k * 2 ^ k + q % 2 ^ k) * 2 ^ s + x % 2 ^ s =
      sym (ap (λ n. n * 2 ^ s + x % 2 ^ s) (div-add-mod' q (2 ^ k)) ∙ div-add-mod' x (2 ^ s)) in
    let masked =
      ap (λ n. bit_and n ((2 ^ k - 1) * 2 ^ s)) split
      ∙ bit_and_up s (q / 2 ^ k * 2 ^ k + q % 2 ^ k) (2 ^ k - 1) (x % 2 ^ s)
          (mod-lt x (one-le-pow s 2 (omega arith)))
      ∙ ap (λ n. n * 2 ^ s)
          (bit_and_low k (q / 2 ^ k) (q % 2 ^ k) (mod-lt q (one-le-pow k 2 (omega arith)))) in
    ap (λ n. n / 2 ^ s) masked ∙ mul-div_cancel (q % 2 ^ k) (one-le-pow s 2 (omega arith))

pub get_offset_lem : (a : ℕ) → get_offset a ≡ a % 2 ^ 12
unfolding get_offset
get_offset_lem a = omega (arith, field 12 0 a)

pub get_virt_page_lem : (va : ℕ) → get_virt_page va ≡ va / 2 ^ 12 % 2 ^ 27
unfolding get_virt_page
get_virt_page_lem va = field 27 12 va

get_phy_page_lem : (pa : ℕ) → get_phy_page pa ≡ pa / 2 ^ 12 % 2 ^ 44
unfolding get_phy_page
get_phy_page_lem pa = field 44 12 pa

pub get_l2_lem : (va : ℕ) → get_l2 va ≡ va / 2 ^ 30 % 2 ^ 9
unfolding get_l2
get_l2_lem va = field 9 30 va

pub get_l1_lem : (va : ℕ) → get_l1 va ≡ va / 2 ^ 21 % 2 ^ 9
unfolding get_l1
get_l1_lem va = field 9 21 va

pub get_l0_lem : (va : ℕ) → get_l0 va ≡ va / 2 ^ 12 % 2 ^ 9
unfolding get_l0
get_l0_lem va = field 9 12 va

pub get_flags_lem : (pte : ℕ) → get_flags pte ≡ pte % 2 ^ 10
unfolding get_flags
get_flags_lem pte = omega (arith, field 10 0 pte)

pub get_page_num_lem : (pte : ℕ) → get_page_num pte ≡ pte / 2 ^ 10 % 2 ^ 44
unfolding get_page_num
get_page_num_lem pte = field 44 10 pte

ruleset fields = (
  arith, get_offset_lem, get_virt_page_lem, get_phy_page_lem, get_l2_lem, get_l1_lem, get_l0_lem,
  get_flags_lem, get_page_num_lem,
)

-- The three indices and the offset are a virtual address below bit 39, the indices alone are its
-- virtual page number, and each index is below 512.
pub address_parts :
    (va : ℕ)
    → (((get_l2 va * 512 + get_l1 va) * 512 + get_l0 va) * 4096 + get_offset va ≡ va % 2 ^ 39)
      × (get_virt_page va ≡ (get_l2 va * 512 + get_l1 va) * 512 + get_l0 va)
      × (get_l2 va < 512)
      × (get_l1 va < 512)
      × (get_l0 va < 512)
      × (get_offset va < 4096)
address_parts va = omega fields

-- A physical address below bit 56 is its page number and its offset.
pub physical_parts : (pa : ℕ) → get_phy_page pa * 4096 + get_offset pa ≡ pa % 2 ^ 56
physical_parts pa = omega fields
