-- ===== src/Disk/Transfer.antt =====
-- `diskRW` of kernel/disk.c with a device that works.
use r5o.Base.{
  ℕ, ◌+◌, ◌%◌, ◌<◌, ◌≡◌, ◌≢◌, refl, sym, ap, ◌∙◌, Bool, true, false, Option, none, some, List, [],
  ◌∷◌, arith, ◌==◌, ◌*◌, ◌^◌, if◌then◌else◌, ==_refl, ◌⊎◌, update, Outcome, ok, hung, and_then,
  bit_and, bit_or,
}
use mathlib.Core.Path.{subst}
use r5o.Buffers.{Ptr, Buffer}
use r5o.Cpu.{intr_dev_on, intr_all_off}
use r5o.Cpu.Switches.{intr_dev_on-bits, intr_all_off-Quiet}
use r5o.Disk.{
  Disk, switch, header, data_of, status_of, num, f_next, f_write, set_owner, post, disk_intr,
  free_chain, transfer, disk_rw,
}
use r5o.Disk.Chain.{Three, three, too_few, alloc3_desc-Three, taken, freed}
use r5o.Disk.Device.{posted, stored, Request, Serves, Idle, disk_intr-one, chain_loop-three}

abbrev disowned : Buffer → Buffer
disowned x = record x { disk = false }

-- Where the block of the buffer lies on the disk: two sectors of 512 bytes for each block number.
abbrev pub place : Disk → Ptr → ℕ
place s b = (s.cache b).blockno * 2 % 2 ^ 32 * 512

-- A write leaves the buffer and puts its contents on the disk; a read leaves the disk and fills the
-- buffer from it.
abbrev pub Moved : Disk → Ptr → Disk → Bool → Type 0
Moved s b s' true =
    ((s'.cache b).block ≡ (s.cache b).block)
    × ((a : ℕ) → s'.medium a ≡ stored s.medium (place s b) (s.cache b).block a)
Moved s b s' false =
    ((x : ℕ) → x < 1024 → (s'.cache b).block x ≡ s.medium (place s b + x)) × (s'.medium ≡ s.medium)

-- What `diskRW` comes to. Where it returns, no request is under way, the same descriptors are free
-- as before, and no buffer has changed but for the contents and the `disk` flag of the one that
-- was given; the block has moved as asked; interrupts are off, and the trap vector and the page table
-- register are as before. It is stuck where all free descriptors are among two.
pub data Transferred (s : Disk) (b : Ptr) (write : Bool) : Outcome Disk (Unit {0}) → Type 0 where
  done :
      {s' : Disk} (contents : ℕ → ℕ)
      → Idle s'
      → ((j : ℕ) → s'.free j ≡ s.free j)
      → s'.cache b ≡ record (s.cache b) { disk = false; block = contents }
      → ((q : Ptr) → q ≢ b → s'.cache q ≡ s.cache q)
      → Moved s b s' write
      → s'.csr.mtvec ≡ s.csr.mtvec
      → s'.csr.satp ≡ s.csr.satp
      → Transferred s b write (ok tt s')
  waits :
      (p q : ℕ)
      → ((j : ℕ) → j < num → s.free j ≡ true → (j ≡ p) ⊎ (j ≡ q))
      → Transferred s b write hung

module _ {device : Disk → Disk} (serves : Serves device) (s : Disk) (b : Ptr) (write : Bool)
    (idle : Idle s) (i j k : ℕ) (lt : (i < num) × (j < num) × (k < num))
    (free : (s.free i ≡ true) × (s.free j ≡ true) × (s.free k ≡ true))
    (ne : (i ≢ j) × (i ≢ k) × (j ≢ k)) where
  sent : Disk
  sent = switch intr_dev_on (post b write i j k (taken (taken (taken s i) j) k))

  ji : (j == i) ≡ false
  ji = ground (arith, ne.0)

  ki : (k == i) ≡ false
  ki = ground (arith, ne.1)

  kj : (k == j) ≡ false
  kj = ground (arith, ne.2)

  -- The chain that `diskRW` has posted.
  sent-first : sent.desc i ≡ record { addr = header; len = 16; flags = f_next; next = j }
  unfolding sent post
  sent-first = rw (ki, ji, ==_refl i) refl

  sent-second : sent.desc j ≡ record {
    addr = data_of b;
    len = 1024;
    flags = bit_or (if write then 0 else f_write) f_next;
    next = k;
  }
  unfolding sent post
  sent-second = rw (kj, ==_refl j) refl

  sent-third : sent.desc k ≡ record { addr = status_of i; len = 1; flags = f_write; next = 0 }
  unfolding sent post
  sent-third = rw (==_refl k) refl

  sent-posted : posted sent ≡ i
  unfolding sent post
  sent-posted = ground arith

  both_flags : bit_and (bit_or (if write then 0 else f_write) f_next) f_next ≡ 1
  both_flags = elim write as (λ w. bit_and (bit_or (if w then 0 else f_write) f_next) f_next ≡ 1) [
    | true ↦ refl
    | false ↦ refl
  ]

  data_flags :
      bit_or (if write then 0 else f_write) f_next ≡ (if write then f_next else f_write + f_next)
  data_flags =
      elim write
        as (λ w.
          bit_or (if w then 0 else f_write) f_next ≡ (if w then f_next else f_write + f_next)) [
            | true ↦ refl
            | false ↦ refl
          ]

  sent-Request : Request sent b write
  unfolding sent post
  sent-Request = record {
    first = rw (sent-posted, sent-first) refl;
    second = rw (sent-posted, sent-first, sent-second, data_flags) refl;
    third = rw (sent-posted, sent-first, sent-second, sent-third) refl;
    type = refl;
    enabled = (intr_dev_on-bits s.csr 11).0;
    global = (intr_dev_on-bits s.csr 3).1;
  }

  -- The state once the device and the interrupt's handler are done.
  answered : Disk
  answered = record (set_owner b false (device sent)) {
    csr = intr_all_off (device sent).csr;
    used_idx = ((device sent).used_idx + 1) % num;
    info_b = update (device sent).info_b i none;
  }

  answered-interrupt :
      disk_intr (device sent)
      ≡ ok tt (record (set_owner b false (device sent)) {
        used_idx = ((device sent).used_idx + 1) % num;
      })
  unfolding sent post
  answered-interrupt =
      disk_intr-one (device sent) i b lt.0 (rw (serves.used_idx sent) idle.below)
        (serves.used_id sent b write sent-Request idle.seen
          ∙ ap (λ n. (n + 1) % num) (sym (serves.used_idx sent)))
        (ap (device sent).elems (serves.used_idx sent)
          ∙ serves.elem sent b write sent-Request
          ∙ sent-posted)
        (ap (device sent).info_status (sym sent-posted) ∙ serves.status sent b write sent-Request)
        (ap (λ f. f i) (serves.info_b sent) ∙ rw (==_refl i) refl)

  sent-used : (sent.free i ≡ false) × (sent.free j ≡ false) × (sent.free k ≡ false)
  unfolding sent post
  sent-used = (rw (ki, ji, ==_refl i) refl, rw (kj, ==_refl j) refl, rw (==_refl k) refl)

  answered-chain : free_chain i answered ≡ ok tt (freed (freed (freed answered i) j) k)
  unfolding free_chain answered
  answered-chain =
      chain_loop-three 6 i j k answered lt (rw (serves.free sent) sent-used) ne
        (rw (serves.desc sent, sent-first) (refl, refl))
        (rw (serves.desc sent, sent-second) (both_flags, refl))
        (rw (serves.desc sent, sent-third) refl)

  answered-free : (q : ℕ) → (freed (freed (freed answered i) j) k).free q ≡ s.free q
  unfolding answered sent post
  answered-free q = rw (serves.free sent) (ground (arith, free.0, free.1, free.2))

  answered-Idle : Idle (freed (freed (freed answered i) j) k)
  unfolding answered sent post
  answered-Idle = record {
    seen =
        serves.used_id sent b write sent-Request idle.seen
        ∙ ap (λ n. (n + 1) % num) (sym (serves.used_idx sent));
    below = omega arith;
    off = intr_all_off-Quiet (device sent).csr;
  }

  answered-block :
      ((freed (freed (freed answered i) j) k).cache b).block ≡ ((device sent).cache b).block
  unfolding answered
  answered-block = ap (λ x. x.block) (update-here (device sent).cache b)
    where
      update-here : (c : Ptr → Buffer) (p : Ptr) → update c p (disowned (c p)) p ≡ disowned (c p)
      update-here c p = rw (==_refl p) refl

  sent-block : (sent.cache b).block ≡ (s.cache b).block
  unfolding sent post
  sent-block = rw (==_refl b) refl

  sent-Moved : Moved s b (freed (freed (freed answered i) j) k) write
  unfolding answered sent post
  sent-Moved = go write refl
    where
      go : (w : Bool) → write ≡ w → Moved s b (freed (freed (freed answered i) j) k) w
      go true e =
          let (kept, put) = serves.writes sent b (subst (Request sent b) e sent-Request) in
          (
            answered-block ∙ kept ∙ sent-block,
            λ a. put a ∙ ap (λ f. stored s.medium (place s b) f a) sent-block,
          )
      go false e =
          let (filled, kept) = serves.reads sent b (subst (Request sent b) e sent-Request) in
          ((λ x lt. ap (λ f. f x) answered-block ∙ filled x lt), kept)

  transfer-Transferred :
      Transferred s b write
        (transfer device b write (some (i ∷ j ∷ k ∷ [])) (taken (taken (taken s i) j) k))
  unfolding answered sent post intr_all_off intr_dev_on
  transfer-Transferred =
      let (contents, e) = serves.buffer sent b write sent-Request in
      rw (answered-interrupt, answered-chain)
        (done contents answered-Idle answered-free
          (rw (==_refl b) (ap disowned e ∙ rw (==_refl b) refl))
          (λ q other.
            let ne_b : (b == q) ≡ false = ground arith in
            rw ne_b (serves.others sent b q write sent-Request other ∙ rw ne_b refl))
          sent-Moved (serves.mtvec sent) (serves.satp sent))

-- `diskRW`, with a device that works, no request under way and the interrupts off, writes the buffer to its block or
-- reads it from there, as asked, frees the descriptors that it took, and returns with the
-- interrupts off; or it waits for ever,
-- because at most two descriptors are free.
pub disk_rw-Transferred :
    {device : Disk → Disk} (s : Disk) (b : Ptr) (write : Bool)
    → Serves device
    → Idle s
    → Transferred s b write (disk_rw device b write s)
unfolding disk_rw
disk_rw-Transferred {device} s b write serves idle = go (alloc3_desc-Three s)
  where
    go :
        {o : Outcome Disk (Option (List ℕ))}
        → Three s o
        → Transferred s b write (and_then o (transfer device b write))
    go (three i j k lt free ne) = transfer-Transferred serves s b write idle i j k lt free ne
    go (too_few p q few same) = waits p q few
