-- ===== src/Cpu.antt =====
-- The machine-mode registers of kernel/functions.h, and the interrupt switches there. A register
-- holds what is written to it.
pub mod Switches
use r5o.Base.{ℕ, ◌-◌, ◌*◌, ◌^◌, Bool, not, bit_and, bit_or, ◌==◌}

pub record Csr : Type 0 where
  pub mstatus : ℕ
  pub mie : ℕ
  pub mtvec : ℕ
  pub mepc : ℕ
  pub mcause : ℕ
  pub satp : ℕ

-- `~x` on uint64.
abbrev pub complement : ℕ → ℕ
complement x = 2 ^ 64 - 1 - x

-- The masks of kernel/declarations.h.
abbrev pub mstatus_mpp : ℕ
mstatus_mpp = 3 * 2 ^ 11

abbrev pub mstatus_mie : ℕ
mstatus_mie = 2 ^ 3

abbrev pub mstatus_mpie : ℕ
mstatus_mpie = 2 ^ 7

abbrev pub mie_meie : ℕ
mie_meie = 2 ^ 11

abbrev pub mie_mtie : ℕ
mie_mtie = 2 ^ 7

abbrev pub mie_msie : ℕ
mie_msie = 2 ^ 3

unfoldable pub intr_all_on : Csr → Csr
intr_all_on c = record c {
  mie = bit_or (bit_or (bit_or c.mie mie_meie) mie_mtie) mie_msie;
  mstatus = bit_or c.mstatus mstatus_mie;
}

unfoldable pub intr_dev_on : Csr → Csr
intr_dev_on c = record c { mie = bit_or c.mie mie_meie; mstatus = bit_or c.mstatus mstatus_mie }

unfoldable pub intr_timer_on : Csr → Csr
intr_timer_on c = record c { mie = bit_or c.mie mie_mtie; mstatus = bit_or c.mstatus mstatus_mie }

unfoldable pub intr_software_on : Csr → Csr
intr_software_on c = record c {
  mie = bit_or c.mie mie_msie;
  mstatus = bit_or c.mstatus mstatus_mie;
}

unfoldable pub intr_all_off : Csr → Csr
intr_all_off c = record c {
  mstatus = bit_and c.mstatus (complement (bit_or mstatus_mie mstatus_mpie));
  mie = bit_and c.mie (complement (bit_or (bit_or mie_meie mie_mtie) mie_msie));
}

unfoldable pub intr_get : Csr → Bool
intr_get c = not (bit_and c.mstatus mstatus_mie == 0)
