-- ===== src/Elf/Sizes.antt =====
-- kernel/algo.c.
use r5o.Base.{ℕ, ◌+◌, ◌*◌, ◌^◌, ◌≤◌, ◌<◌, arith}
use r5o.Elf.{ceil_div}

-- `ceilDiv` by the page size is the least number of pages that hold `x` bytes, where `x` is not so
-- near 2^64 that the sum wraps round.
pub ceil_div-page :
    (x : ℕ) → x + 4095 < 2 ^ 64 → (x ≤ ceil_div x 4096 * 4096) × (ceil_div x 4096 * 4096 < x + 4096)
unfolding ceil_div
ceil_div-page x lt = (omega arith, omega arith)
