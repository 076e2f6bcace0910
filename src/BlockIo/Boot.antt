-- ===== src/BlockIo/Boot.antt =====
-- The buffer cache and the driver of kernel/buffer.c and kernel/disk.c when the kernel starts.
use r5o.Base.{ℕ, ◌<◌, ◌≡◌, refl, ◌∙◌, true, false, none, [], arith}
use r5o.Buffers.{nbuf, Ptr, binit}
use r5o.Buffers.Init.{stacked, binit-IsRing}
use r5o.Buffers.InUse.{booted-IsCache}
use r5o.Cpu.{Csr}
use r5o.Cpu.Switches.{Quiet}
use r5o.Disk.{Disk, null, num}
use r5o.Disk.Device.{Idle}
use r5o.BlockIo.{Io}
use r5o.BlockIo.Warm.{Warm, nobody}
use r5o.BlockIo.Bread.{with_cache}
use r5o.BlockIo.Flat.{flat, Implements}

-- The buffers as they are when `binit` runs: no buffer is valid or referenced, and the core takes no
-- interrupts.
pub record Blank (d : Disk) : Type 0 where
  pub refcnt : (i : Ptr) → (d.cache i).refcnt ≡ 0
  pub valid : (i : Ptr) → (d.cache i).valid ≡ false
  pub idle : Idle d
  pub free : (j : ℕ) → j < num → d.free j ≡ true

abbrev pub booted : Io → Io
booted s = record s { disk = with_cache s.disk (binit s.disk.cache) }

booted-Warm : (d : Disk) → Blank d → Warm nobody (with_cache d (binit d.cache)) (stacked nbuf 0 [])
booted-Warm d z =
    let fields = (binit-IsRing d.cache).1 in
    let invalid : (i : Ptr) → (binit d.cache i).valid ≡ false = λ i. (fields i).0 ∙ z.valid i in
    record {
      cache = booted-IsCache d.cache z.refcnt;
      idle = record { seen = z.idle.seen; below = z.idle.below; off = z.idle.off };
      free = z.free;
      member = (0, refl);
      counts = λ i m. (fields i).3 ∙ z.refcnt i;
      leads = λ i m v. absurd (cc (invalid i, v));
      small = λ i m v. absurd (cc (invalid i, v));
      agrees = λ i m out v x lt. absurd (cc (invalid i, v));
    }

-- After `binit`, the empty cache and the idle driver stand for the bytes that the disk has.
pub binit-Implements : (s : Io) → Blank s.disk → Implements (booted s) (flat s)
binit-Implements s z = record { ring = stacked nbuf 0 []; warm = booted-Warm s.disk z; same = refl }

-- The registers of a core that takes no interrupts.
abbrev pub asleep : Csr
asleep = record { mstatus = 0; mie = 0; mtvec = 0; mepc = 0; mcause = 0; satp = 0 }

pub asleep-Quiet : Quiet asleep
asleep-Quiet = record {
  software = refl;
  timer = refl;
  external = refl;
  global = refl;
  previous = refl;
}

-- The variables of both files as the kernel finds them, all zero, with the descriptors that
-- `diskInit` makes free, and a disk with the bytes `medium`.
abbrev pub fresh_disk : (ℕ → ℕ) → Disk
fresh_disk medium = record {
  desc = λ i. record { addr = null; len = 0; flags = 0; next = 0 };
  avail = λ i. 0;
  used_id = 0;
  elems = λ i. 0;
  free = λ i. true;
  used_idx = 0;
  info_b = λ i. none;
  info_status = λ i. 0;
  header_type = 0;
  header_sector = 0;
  cache = λ b. record {
    valid = false;
    disk = false;
    blockno = 0;
    refcnt = 0;
    prev = 0;
    next = 0;
    block = λ i. 0;
  };
  csr = asleep;
  medium = medium;
}

pub fresh_disk-Blank : (medium : ℕ → ℕ) → Blank (fresh_disk medium)
fresh_disk-Blank medium = record {
  refcnt = λ i. refl;
  valid = λ i. refl;
  idle = record { seen = refl; below = omega arith; off = asleep-Quiet };
  free = λ j lt. refl;
}
