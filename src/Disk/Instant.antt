-- ===== src/Disk/Instant.antt =====
-- A device for kernel/disk.c that serves every request at once.
use r5o.Base.{
  ℕ, ◌+◌, ◌*◌, ◌%◌, ◌^◌, ◌<◌, ◌≡◌, ◌≢◌, ◌==◌, if◌then◌else◌, Bool-cases, inl, inr, refl, ap, Bool,
  true, false, update, arith, ==_refl,
}
use r5o.Buffers.{Ptr}
use r5o.Disk.{Disk, Place, data_of}
use r5o.Disk.Device.{Serves, Request, posted, stored}

abbrev moved : Place → Disk → Disk
moved (data_of b) s =
    if s.header_type == 0
    then record s {
      cache =
          update s.cache b
            (record (s.cache b) { block = λ x. s.medium (s.header_sector * 512 + x) });
    }
    else record s { medium = stored s.medium (s.header_sector * 512) (s.cache b).block }
moved other s = s

abbrev pub instant : Disk → Disk
instant s =
    let t = moved (s.desc (s.desc (posted s)).next).addr s in
    record s {
      used_id = (s.used_id + 1) % 2 ^ 16;
      elems = update s.elems s.used_idx (posted s);
      info_status = update s.info_status (posted s) 0;
      cache = t.cache;
      medium = t.medium;
    }

-- What it does for a request that names buffer `b`.
module _ (s : Disk) (b : Ptr) where
  moved-block :
      (contents : ℕ → ℕ) × ((moved (data_of b) s).cache b ≡ record (s.cache b) { block = contents })
  moved-block = elim (Bool-cases (s.header_type == 0)) [
    | inl read ↦ ((λ x. s.medium (s.header_sector * 512 + x)), rw (read, ==_refl b) refl)
    | inr write ↦ ((s.cache b).block, rw write refl)
  ]

  moved-others : (q : Ptr) → q ≢ b → (moved (data_of b) s).cache q ≡ s.cache q
  moved-others q ne =
      let apart : (b == q) ≡ false = ground arith in
      elim (Bool-cases (s.header_type == 0)) [
        | inl read ↦ rw (read, apart) refl
        | inr write ↦ rw write refl
      ]

  moved-read :
      s.header_type ≡ 0
      → ((x : ℕ)
          → x < 1024
          → ((moved (data_of b) s).cache b).block x ≡ s.medium (s.header_sector * 512 + x))
        × ((moved (data_of b) s).medium ≡ s.medium)
  moved-read e = ((λ x lt. rw (e, ==_refl b) refl), rw e refl)

  moved-write :
      s.header_type ≡ 1
      → (((moved (data_of b) s).cache b).block ≡ (s.cache b).block)
        × ((a : ℕ)
            → (moved (data_of b) s).medium a
              ≡ stored s.medium (s.header_sector * 512) (s.cache b).block a)
  moved-write e = (rw e refl, λ a. rw e refl)

-- The device looks at the request as it stands.
module _ (s : Disk) (b : Ptr) (write : Bool) (r : Request s b write) where
  names : (s.desc (s.desc (posted s)).next).addr ≡ data_of b
  names = ap (λ d. d.addr) r.second

pub instant-Serves : Serves instant
instant-Serves = record {
  desc = λ s. refl;
  free = λ s. refl;
  info_b = λ s. refl;
  used_idx = λ s. refl;
  mtvec = λ s. refl;
  satp = λ s. refl;
  used_id = λ s b w r e. omega arith;
  elem = λ s b w r. rw (==_refl s.used_idx) refl;
  status = λ s b w r. rw (==_refl (posted s)) refl;
  buffer = λ s b w r. rw (names s b w r) (moved-block s b);
  others = λ s b q w r ne. rw (names s b w r) (moved-others s b q ne);
  reads = λ s b r. rw (names s b false r) (moved-read s b r.type);
  writes = λ s b r. rw (names s b true r) (moved-write s b r.type);
}
