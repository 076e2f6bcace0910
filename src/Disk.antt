-- ===== src/Disk.antt =====
-- kernel/disk.c: the descriptors of the virtio queue, and the transfer of one block.
pub mod Answers
pub mod Chain
pub mod Device
pub mod Instant
pub mod Transfer
mod Tests
use r5o.Base.{
  ℕ, zero, suc, ◌+◌, ◌*◌, ◌%◌, ◌^◌, Bool, true, false, not, ◌&&◌, Option, none, some, List, [], ◌∷◌,
  ◌++◌, bit_and, bit_or, ◌==◌, leb, if◌then◌else◌, update, Outcome, ok, halt, hung, fault, Cmd, ◌/◌,
  pure, ◌>>=◌, ◌>>◌, error,
}
use r5o.Buffers.{Ptr, Buffer, Cache}
use r5o.Cpu.{Csr, intr_dev_on, intr_all_off}

-- NUM
abbrev pub num : ℕ
num = 8

-- What a descriptor's `addr` points to: nothing, `buf0`, a buffer's `data`, or an `info`'s `status`.
pub data Place : Type 0 where
  null : Place
  header : Place
  data_of : Ptr → Place
  status_of : ℕ → Place

-- `struct VRingDesc`
pub record Desc : Type 0 where
  pub addr : Place
  pub len : ℕ
  pub flags : ℕ
  pub next : ℕ

-- `struct Disk`, with `buf0` of `diskRW`, the buffers that it points to, the registers of the core, and
-- the bytes on the disk, which only the device reads and writes.
pub record Disk : Type 0 where
  pub desc : ℕ → Desc
  pub avail : ℕ → ℕ
  pub used_id : ℕ
  pub elems : ℕ → ℕ
  pub free : ℕ → Bool
  pub used_idx : ℕ
  pub info_b : ℕ → Option Ptr
  pub info_status : ℕ → ℕ
  pub header_type : ℕ
  pub header_sector : ℕ
  pub cache : Cache
  pub csr : Csr
  pub medium : ℕ → ℕ

-- VRING_DESC_F_NEXT and VRING_DESC_F_WRITE
abbrev pub f_next : ℕ
f_next = 1

abbrev pub f_write : ℕ
f_write = 2

-- The loop of `alloc_desc`, from `i` with `k` rounds left; `none` stands for -1.
unfoldable pub alloc_loop : ℕ → ℕ → Cmd Disk (Option ℕ)
alloc_loop zero i s = ok none s
alloc_loop (suc k) i s =
    let rest = alloc_loop k (i + 1) s in
    if s.free i then ok (some i) (record s { free = update s.free i false }) else rest

unfoldable pub alloc_desc : Cmd Disk (Option ℕ)
alloc_desc = alloc_loop num 0

unfoldable pub free_desc : ℕ → Cmd Disk (Unit {0})
free_desc i s =
    if leb num i
    then halt "virtio_disk_intr 1"
    else if s.free i
    then halt "virtio_disk_intr 2"
    else ok tt (record s {
      desc = update s.desc i (record (s.desc i) { addr = null });
      free = update s.free i true;
    })

-- The loop of `free_chain`, with at most `k` rounds. A round makes a descriptor free, or stops.
unfoldable pub chain_loop : ℕ → ℕ → Cmd Disk (Unit {0})
chain_loop zero i = λ _. hung
chain_loop (suc k) i = do
  free_desc i
  λ s.
      let rest = chain_loop k (s.desc i).next s in
      if bit_and (s.desc i).flags f_next == 0 then ok tt s else rest

unfoldable pub free_chain : ℕ → Cmd Disk (Unit {0})
free_chain i = chain_loop (num + 1) i

-- `for(int j = 0; j < i; j++) free_desc(idx[j]);`
unfoldable pub free_all : List ℕ → Cmd Disk (Unit {0})
free_all [] = pure tt
free_all (d ∷ ds) = free_desc d >> free_all ds

-- One round of `alloc3_desc`, once `alloc_desc` has returned, and what follows it.
abbrev pub next_desc :
    List ℕ → (List ℕ → Cmd Disk (Option (List ℕ))) → Option ℕ → Cmd Disk (Option (List ℕ))
next_desc idx rest none = free_all idx >> pure none
next_desc idx rest (some d) = rest (idx ++ (d ∷ []))

-- The loop of `alloc3_desc` with `k` rounds left and `idx` filled so far.
unfoldable pub alloc3_loop : ℕ → List ℕ → Cmd Disk (Option (List ℕ))
alloc3_loop zero idx = pure (some idx)
alloc3_loop (suc k) idx = alloc_desc >>= next_desc idx (λ l. alloc3_loop k l)

unfoldable pub alloc3_desc : Cmd Disk (Option (List ℕ))
alloc3_desc = alloc3_loop 3 []

abbrev pub set_desc : ℕ → Desc → Disk → Disk
set_desc i d s = record s { desc = update s.desc i d }

abbrev pub set_owner : Ptr → Bool → Disk → Disk
set_owner b f s = record s { cache = update s.cache b (record (s.cache b) { disk = f }) }

-- What `diskRW` writes before it notifies the device: the request, its three descriptors, and the
-- place of the chain in the ring.
unfoldable pub post : Ptr → Bool → ℕ → ℕ → ℕ → Disk → Disk
post b write i0 i1 i2 s =
    let s = record s {
      header_type = if write then 1 else 0;
      header_sector = (s.cache b).blockno * (1024 / 512) % 2 ^ 32;
    } in
    let s = set_desc i0 (record { addr = header; len = 16; flags = f_next; next = i1 }) s in
    let s =
      set_desc i1
        (record {
          addr = data_of b;
          len = 1024;
          flags = bit_or (if write then 0 else f_write) f_next;
          next = i2;
        })
        s in
    let s = record s { info_status = update s.info_status i0 0 } in
    let s = set_desc i2 (record { addr = status_of i0; len = 1; flags = f_write; next = 0 }) s in
    let s = set_owner b true s in
    let s = record s { info_b = update s.info_b i0 (some b) } in
    let s = record s { avail = update s.avail (2 + s.avail 1 % num) i0 } in
    record s { avail = update s.avail 1 ((s.avail 1 + 1) % 2 ^ 16) }

-- `disk.info[id].b->disk = 0`
abbrev pub disown : Option Ptr → Cmd Disk (Unit {0})
disown none = λ _. fault
disown (some b) = λ s. ok tt (set_owner b false s)

-- The loop of `diskIntr`, with at most `k` rounds.
unfoldable pub intr_loop : ℕ → Cmd Disk (Unit {0})
intr_loop zero s = hung
intr_loop (suc k) s =
    let id = s.elems s.used_idx in
    let rest =
      (disown (s.info_b id) >> (λ s. intr_loop k (record s { used_idx = (s.used_idx + 1) % num })))
        s in
    if s.used_idx % num == s.used_id % num
    then ok tt s
    else if not (leb (s.used_idx + 1) num && leb (id + 1) num)
    then fault
    else if not (s.info_status id == 0)
    then halt "diskIntr status"
    else rest

unfoldable pub disk_intr : Cmd Disk (Unit {0})
disk_intr = intr_loop (num + 1)

abbrev pub switch : (Csr → Csr) → Disk → Disk
switch f s = record s { csr = f s.csr }

-- `diskRW` from the descriptors on. The device works from the notification to its interrupt, which
-- ends the `wfi`, and whose handler runs `diskIntr`.
abbrev pub transfer : (Disk → Disk) → Ptr → Bool → Option (List ℕ) → Cmd Disk (Unit {0})
transfer device b write (some (i0 ∷ i1 ∷ i2 ∷ [])) = do
  λ s. ok tt (device (switch intr_dev_on (post b write i0 i1 i2 s)))
  disk_intr
  λ s. ok tt (switch intr_all_off s)
  λ s. ok tt (record s { info_b = update s.info_b i0 none })
  free_chain i0
transfer device b write (some other) = λ _. fault
transfer device b write none = λ _. hung

-- Where no three descriptors are free, the code tries again in the same state, for ever: `hung`.
unfoldable pub disk_rw : (Disk → Disk) → Ptr → Bool → Cmd Disk (Unit {0})
disk_rw device b write = alloc3_desc >>= transfer device b write
