-- ===== src/Disk/Tests.antt =====
-- Examples for kernel/disk.c.
use r5o.Base.{
  ℕ, ◌*◌, ◌%◌, ◌≡◌, ◌==◌, if◌then◌else◌, refl, true, false, none, some, [], ◌∷◌, has, ok, arith,
}
use r5o.Disk.{Disk, null, disk_rw, alloc3_desc, disk_intr}
use r5o.Disk.Answers.{disk_intr-Answers}
use r5o.Disk.Chain.{Three, alloc3_desc-Three}
use r5o.Disk.Transfer.{Transferred, disk_rw-Transferred}
use r5o.BlockIo.Boot.{asleep, asleep-Quiet}
use r5o.Disk.Instant.{instant, instant-Serves}

-- The driver after `diskInit`, with one buffer for block 7.
abbrev idle_disk : Disk
idle_disk = record {
  desc = λ i. record { addr = null; len = 0; flags = 0; next = 0 };
  avail = λ i. 0;
  used_id = 0;
  elems = λ i. 0;
  free = λ i. true;
  used_idx = 0;
  info_b = λ i. none;
  info_status = λ i. 1;
  header_type = 0;
  header_sector = 0;
  cache = λ b. record {
    valid = false;
    disk = false;
    blockno = 7;
    refcnt = 1;
    prev = 0;
    next = 0;
    block = λ i. i;
  };
  csr = asleep;
  medium = λ a. a % 256;
}

alloc3_desc-Three_example : Three idle_disk (alloc3_desc idle_disk)
alloc3_desc-Three_example = alloc3_desc-Three idle_disk

disk_rw-Transferred_example : Transferred idle_disk 2 true (disk_rw instant 2 true idle_disk)
disk_rw-Transferred_example =
    disk_rw-Transferred idle_disk 2 true instant-Serves
      (record { seen = refl; below = omega arith; off = asleep-Quiet })

-- Requests for buffers 2 and 5 are answered.
abbrev answered_disk : Disk
answered_disk = record idle_disk {
  used_id = 2;
  elems = λ i. i * 3;
  info_b = λ i. if i == 0 then some 2 else some 5;
  info_status = λ i. 0;
  cache = λ b. record (idle_disk.cache b) { disk = true };
}

disk_intr-Answers_example :
    (t : Disk) × (disk_intr answered_disk ≡ ok tt t)
    × (t.used_idx ≡ 2)
    × ((q : ℕ)
        → t.cache q ≡ (
            if has q (2 ∷ 5 ∷ [])
            then record (answered_disk.cache q) { disk = false }
            else answered_disk.cache q))
disk_intr-Answers_example = disk_intr-Answers answered_disk (2 ∷ 5 ∷ []) (omega arith) (
  (λ e. omega arith),
  omega arith,
  refl,
  refl,
  ((λ e. omega arith), omega arith, refl, refl, refl),
)
