-- ===== src/Cpu/Switches.antt =====
-- What the interrupt switches of kernel/functions.h do to each bit of `mie` and `mstatus`.
use r5o.Base.{
  ℕ, ◌<◌, ◌≡◌, ◌^◌, true, false, ◌||◌, arith, ◌==◌, if◌then◌else◌, bit_and, bit_or, ◌∙◌, not, refl,
}
use r5o.Base.Bits.{bit, bit-bit_and, bit-bit_or, bit-pow, bit-complement, bit-le-one, bit_and-pow}
use r5o.Cpu.{
  Csr, complement, intr_all_on, intr_timer_on, intr_software_on, intr_dev_on, intr_all_off,
  intr_get,
}

-- `x | 2 ^ k` sets bit `k`.
pub bit-set : (x k i : ℕ) → bit (bit_or x (2 ^ k)) i ≡ (if i == k then 1 else bit x i)
bit-set x k i = bit-bit_or x (2 ^ k) i ∙ ground (arith, bit-pow k i, bit-le-one x i)

-- `x & ~m` clears the bits of `m`.
pub bit-clear :
    (x m i : ℕ)
    → m < 2 ^ 64
    → i < 64
    → bit (bit_and x (complement m)) i ≡ (if bit m i == 0 then bit x i else 0)
bit-clear x m i small lt =
    bit-bit_and x (complement m) i
    ∙ ground (arith, bit-complement 64 m i small lt, bit-le-one x i, bit-le-one m i)

-- `intr_dev_on` sets the device bit of `mie` and the global bit of `mstatus`, and no other bit.
pub intr_dev_on-bits :
    (c : Csr) (i : ℕ)
    → (bit (intr_dev_on c).mie i ≡ (if i == 11 then 1 else bit c.mie i))
      × (bit (intr_dev_on c).mstatus i ≡ (if i == 3 then 1 else bit c.mstatus i))
unfolding intr_dev_on
intr_dev_on-bits c i = (bit-set c.mie 11 i, bit-set c.mstatus 3 i)

-- `intr_all_on` sets bits 11, 7 and 3 of `mie` and bit 3 of `mstatus`, and no other bit.
pub intr_all_on-bits :
    (c : Csr) (i : ℕ)
    → (bit (intr_all_on c).mie i ≡ (if i == 3 || (i == 7 || i == 11) then 1 else bit c.mie i))
      × (bit (intr_all_on c).mstatus i ≡ (if i == 3 then 1 else bit c.mstatus i))
unfolding intr_all_on
intr_all_on-bits c i = (
  bit-set (bit_or (bit_or c.mie (2 ^ 11)) (2 ^ 7)) 3 i
      ∙ ground (arith, bit-set (bit_or c.mie (2 ^ 11)) 7 i, bit-set c.mie 11 i),
  bit-set c.mstatus 3 i,
)

-- `intr_all_off` clears bits 11, 7 and 3 of `mie` and bits 3 and 7 of `mstatus`, and no other of
-- the 64 bits.
pub intr_all_off-bits :
    (c : Csr) (i : ℕ)
    → i < 64
    → (bit (intr_all_off c).mie i ≡ (if i == 3 || (i == 7 || i == 11) then 0 else bit c.mie i))
      × (bit (intr_all_off c).mstatus i ≡ (if i == 3 || i == 7 then 0 else bit c.mstatus i))
unfolding intr_all_off
intr_all_off-bits c i lt = (
  bit-clear c.mie (bit_or (bit_or (2 ^ 11) (2 ^ 7)) (2 ^ 3)) i (omega arith) lt
      ∙ ground (arith, bit-set (bit_or (2 ^ 11) (2 ^ 7)) 3 i, bit-set (2 ^ 11) 7 i, bit-pow 11 i),
  bit-clear c.mstatus (bit_or (2 ^ 3) (2 ^ 7)) i (omega arith) lt
      ∙ ground (arith, bit-set (2 ^ 3) 7 i, bit-pow 3 i),
)

-- `intr_get` reads the global bit.
intr_get-bit : (c : Csr) → intr_get c ≡ not (bit c.mstatus 3 == 0)
unfolding intr_get
intr_get-bit c = ground (arith, bit_and-pow c.mstatus 3)

-- `intr_get` says no after `intr_all_off`, and yes after each of the four switches that turn
-- interrupts on.
pub intr_get_lem :
    (c : Csr)
    → (intr_get (intr_all_off c) ≡ false)
      × (intr_get (intr_all_on c) ≡ true)
      × (intr_get (intr_dev_on c) ≡ true)
      × (intr_get (intr_timer_on c) ≡ true)
      × (intr_get (intr_software_on c) ≡ true)
unfolding intr_timer_on intr_software_on
intr_get_lem c = (
  ground (arith, intr_get-bit (intr_all_off c), intr_all_off-bits c 3),
  ground (arith, intr_get-bit (intr_all_on c), intr_all_on-bits c 3),
  ground (arith, intr_get-bit (intr_dev_on c), intr_dev_on-bits c 3),
  intr_get-bit (intr_timer_on c) ∙ ground (arith, bit-set c.mstatus 3 3),
  intr_get-bit (intr_software_on c) ∙ ground (arith, bit-set c.mstatus 3 3),
)

-- The interrupts of a core are off, and nothing else has changed: bits 11, 7 and 3 of `mie` and bits 3
-- and 7 of `mstatus` are clear.
pub record IntrOff (old new : Csr) : Type 0 where
  pub mie :
      (i : ℕ)
      → i < 64
      → bit new.mie i ≡ (if i == 3 || (i == 7 || i == 11) then 0 else bit old.mie i)
  pub mstatus :
      (i : ℕ) → i < 64 → bit new.mstatus i ≡ (if i == 3 || i == 7 then 0 else bit old.mstatus i)
  pub mtvec : new.mtvec ≡ old.mtvec
  pub mepc : new.mepc ≡ old.mepc
  pub mcause : new.mcause ≡ old.mcause
  pub satp : new.satp ≡ old.satp

pub intr_all_off-IntrOff : (c : Csr) → IntrOff c (intr_all_off c)
unfolding intr_all_off
intr_all_off-IntrOff c = record {
  mie = λ i lt. (intr_all_off-bits c i lt).0;
  mstatus = λ i lt. (intr_all_off-bits c i lt).1;
  mtvec = refl;
  mepc = refl;
  mcause = refl;
  satp = refl;
}

-- No interrupt is taken: the bits of the three kinds in `mie` are clear, and so are the two of
-- `mstatus`.
pub record Quiet (c : Csr) : Type 0 where
  pub software : bit c.mie 3 ≡ 0
  pub timer : bit c.mie 7 ≡ 0
  pub external : bit c.mie 11 ≡ 0
  pub global : bit c.mstatus 3 ≡ 0
  pub previous : bit c.mstatus 7 ≡ 0

pub intr_all_off-Quiet : (c : Csr) → Quiet (intr_all_off c)
intr_all_off-Quiet c = record {
  software = (intr_all_off-bits c 3 (omega arith)).0;
  timer = (intr_all_off-bits c 7 (omega arith)).0;
  external = (intr_all_off-bits c 11 (omega arith)).0;
  global = (intr_all_off-bits c 3 (omega arith)).1;
  previous = (intr_all_off-bits c 7 (omega arith)).1;
}
