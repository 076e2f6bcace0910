-- ===== src/Disk/Device.antt =====
-- The device that kernel/disk.c drives, the interrupt that it raises, and the end of a request.
use r5o.Base.{
  ℕ, suc, ◌+◌, ◌-◌, ◌%◌, ◌<◌, ◌≡◌, ◌≢◌, refl, ◌∙◌, Bool, true, false, some, arith, ◌==◌, ◌*◌, leb,
  ltb, ◌&&◌, leb, if◌then◌else◌, ==_refl, ok, bit_and,
}
use r5o.Buffers.{Ptr}
use r5o.Cpu.Switches.{Quiet}
use r5o.Base.Bits.{bit}
use r5o.Disk.{
  Disk, header, status_of, data_of, num, f_next, f_write, set_owner, intr_loop, disk_intr,
  chain_loop,
}
use r5o.Disk.Chain.{freed, free_desc-taken}

-- The first descriptor of the chain that the driver put in the ring last.
abbrev pub posted : Disk → ℕ
posted s = s.avail (2 + (s.avail 1 + num - 1) % num)

-- The bytes of a disk, once a block is written from `start` on.
abbrev pub stored : (ℕ → ℕ) → ℕ → (ℕ → ℕ) → ℕ → ℕ
stored medium start block a =
    if leb start a && ltb a (start + 1024) then block (a - start) else medium a

-- The chain that is posted is a request for buffer `b` as the virtio block device documents it: the
-- request header of 16 bytes, which it reads; the data of 1024 bytes, which it writes for a read and reads for a
-- write; and the status byte of the chain, which it writes. The last descriptor has no successor. The core takes external interrupts.
pub record Request (s : Disk) (b : Ptr) (write : Bool) : Type 0 where
  pub first :
      s.desc (posted s)
      ≡ record { addr = header; len = 16; flags = f_next; next = (s.desc (posted s)).next }
  pub second : s.desc (s.desc (posted s)).next ≡ record {
    addr = data_of b;
    len = 1024;
    flags = if write then f_next else f_write + f_next;
    next = (s.desc (s.desc (posted s)).next).next;
  }
  pub third :
      s.desc (s.desc (s.desc (posted s)).next).next
      ≡ record { addr = status_of (posted s); len = 1; flags = f_write; next = 0 }
  pub type : s.header_type ≡ (if write then 1 else 0)
  pub enabled : bit s.csr.mie 11 ≡ 1
  pub global : bit s.csr.mstatus 3 ≡ 1

-- What a device that works does between the notification of one request and its interrupt: it
-- leaves what the driver alone writes, puts the chain's first descriptor in the next used element,
-- and reports success; of the buffers it changes only the contents of the one that the request names. A read
-- fills that buffer from the sectors of the request, and a write puts it there. The interrupt changes neither
-- the trap vector nor the page table register.
pub record Serves (device : Disk → Disk) : Type 0 where
  pub desc : (s : Disk) → (device s).desc ≡ s.desc
  pub free : (s : Disk) → (device s).free ≡ s.free
  pub info_b : (s : Disk) → (device s).info_b ≡ s.info_b
  pub used_idx : (s : Disk) → (device s).used_idx ≡ s.used_idx
  pub mtvec : (s : Disk) → (device s).csr.mtvec ≡ s.csr.mtvec
  pub satp : (s : Disk) → (device s).csr.satp ≡ s.csr.satp
  pub used_id :
      (s : Disk) (b : Ptr) (write : Bool)
      → Request s b write
      → s.used_id % num ≡ s.used_idx
      → (device s).used_id % num ≡ (s.used_idx + 1) % num
  pub elem :
      (s : Disk) (b : Ptr) (write : Bool)
      → Request s b write
      → (device s).elems s.used_idx ≡ posted s
  pub status :
      (s : Disk) (b : Ptr) (write : Bool)
      → Request s b write
      → (device s).info_status (posted s) ≡ 0
  pub buffer :
      (s : Disk) (b : Ptr) (write : Bool)
      → Request s b write
      → (contents : ℕ → ℕ) × ((device s).cache b ≡ record (s.cache b) { block = contents })
  pub others :
      (s : Disk) (b q : Ptr) (write : Bool)
      → Request s b write
      → q ≢ b
      → (device s).cache q ≡ s.cache q
  pub reads :
      (s : Disk) (b : Ptr)
      → Request s b false
      → ((x : ℕ) → x < 1024 → ((device s).cache b).block x ≡ s.medium (s.header_sector * 512 + x))
        × ((device s).medium ≡ s.medium)
  pub writes :
      (s : Disk) (b : Ptr)
      → Request s b true
      → (((device s).cache b).block ≡ (s.cache b).block)
        × ((a : ℕ)
            → (device s).medium a ≡ stored s.medium (s.header_sector * 512) (s.cache b).block a)

-- No request is under way, and the core takes no interrupts.
pub record Idle (s : Disk) : Type 0 where
  pub seen : s.used_id % num ≡ s.used_idx
  pub below : s.used_idx < num
  pub off : Quiet s.csr

-- The interrupt's handler finds the one request that was served.
pub disk_intr-one :
    (s : Disk) (i : ℕ) (b : Ptr)
    → i < num
    → s.used_idx < num
    → s.used_id % num ≡ (s.used_idx + 1) % num
    → s.elems s.used_idx ≡ i
    → s.info_status i ≡ 0
    → s.info_b i ≡ some b
    → disk_intr s ≡ ok tt (record (set_owner b false s) { used_idx = (s.used_idx + 1) % num })
unfolding disk_intr intr_loop
disk_intr-one s i b known lt next elem status info =
    let pending : (s.used_idx % num == s.used_id % num) ≡ false = ground arith in
    let inside : (leb (s.used_idx + 1) num && leb (i + 1) num) ≡ true = ground arith in
    let done : ((s.used_idx + 1) % num % num == s.used_id % num) ≡ true = ground arith in
    rw (elem, pending, inside, status, info, done) refl

-- A round of `free_chain`, and the last one.
module _ (k a : ℕ) (s : Disk) (lt : a < num) (used : s.free a ≡ false) where
  chain_loop-step :
      (b : ℕ)
      → bit_and (s.desc a).flags f_next ≡ 1
      → (s.desc a).next ≡ b
      → chain_loop (suc k) a s ≡ chain_loop k b (freed s a)
  unfolding chain_loop
  chain_loop-step b flag next = rw (free_desc-taken a s lt used, ==_refl a, flag, next) refl

  chain_loop-last : bit_and (s.desc a).flags f_next ≡ 0 → chain_loop (suc k) a s ≡ ok tt (freed s a)
  unfolding chain_loop
  chain_loop-last flag = rw (free_desc-taken a s lt used, ==_refl a, flag) refl

-- Freeing a chain of three taken descriptors.
pub chain_loop-three :
    (k a b c : ℕ) (s : Disk)
    → (a < num) × (b < num) × (c < num)
    → (s.free a ≡ false) × (s.free b ≡ false) × (s.free c ≡ false)
    → (a ≢ b) × (a ≢ c) × (b ≢ c)
    → (bit_and (s.desc a).flags f_next ≡ 1) × ((s.desc a).next ≡ b)
    → (bit_and (s.desc b).flags f_next ≡ 1) × ((s.desc b).next ≡ c)
    → bit_and (s.desc c).flags f_next ≡ 0
    → chain_loop (suc (suc (suc k))) a s ≡ ok tt (freed (freed (freed s a) b) c)
chain_loop-three k a b c s lt used ne to_b to_c last =
    let ab : (a == b) ≡ false = ground (arith, ne.0) in
    let ac : (a == c) ≡ false = ground (arith, ne.1) in
    let bc : (b == c) ≡ false = ground (arith, ne.2) in
    chain_loop-step (suc (suc k)) a s lt.0 used.0 b to_b.0 to_b.1
    ∙ chain_loop-step (suc k) b (freed s a) lt.1 (rw ab used.1) c (rw ab to_c.0) (rw ab to_c.1)
    ∙ chain_loop-last k c (freed (freed s a) b) lt.2 (rw (ac, bc) used.2) (rw (ac, bc) last)
