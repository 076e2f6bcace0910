-- ===== src/BlockIo/Bread.antt =====
-- `bread` of kernel/buffer.c on a cache that agrees with the disk.
use r5o.Base.{
  ℕ, ◌+◌, ◌*◌, ◌<◌, ◌≡◌, ◌≢◌, refl, sym, ap, ◌∙◌, true, false, List, arith, ◌==◌, if◌then◌else◌,
  has, first-fewer, Bool-cases, inl, inr, Outcome, ok, update, ==_refl, and_then,
}
use r5o.Buffers.{Ptr, Cache, bget}
use r5o.Buffers.Coherent.{IsCache, blocks}
use r5o.Buffers.InUse.{Got, got, none_left, bget-Got}
use r5o.Disk.{Disk}
use r5o.Disk.Device.{Serves}
use r5o.Disk.Transfer.{Transferred, done, waits, disk_rw-Transferred, place}
use r5o.BlockIo.{Io, bsize, disksize, fetch, bread, on_disk, set_valid}
use r5o.BlockIo.Warm.{Warm, nobody, one, Touches, Warm-touch}

-- Buffer `b` is referenced once, no other is, and it has the contents `f` of block `n`.
pub record Held (d : Disk) (l : List Ptr) (b : Ptr) (n : ℕ) (f : ℕ → ℕ) : Type 0 where
  pub warm : Warm (one b) d l
  pub mem : has b l ≡ true
  pub at : (d.cache b).blockno ≡ n
  pub low : n < disksize
  pub valid : (d.cache b).valid ≡ true
  pub holds : (x : ℕ) → x < bsize → (d.cache b).block x ≡ f x

abbrev pub with_cache : Disk → Cache → Disk
with_cache d c = record d { cache = c }

-- Buffer `b` is the one for block `n`; if it is valid it has the contents of that block.
pub record Opened (l : List Ptr) (b : Ptr) (n : ℕ) (d : Disk) : Type 0 where
  pub warm : Warm (one b) d l
  pub mem : has b l ≡ true
  pub at : (d.cache b).blockno ≡ n
  pub low : n < disksize
  pub known :
      (d.cache b).valid ≡ true
      → (x : ℕ) → x < bsize
      → (d.cache b).block x ≡ d.medium (n * bsize + x)

module _ (n : ℕ) (d : Disk) (l : List Ptr) (w : Warm nobody d l) (low : n < disksize) where
  opened :
      {b : Ptr} {c' : Cache}
      → IsCache c' l
      → has b l ≡ true
      → (c' b).blockno ≡ n
      → (c' b).refcnt ≡ 1
      → ((c' b).valid ≡ true → ((d.cache b).valid ≡ true) × ((d.cache b).blockno ≡ n))
      → (c' b).block ≡ (d.cache b).block
      → ((i : Ptr) → c' i ≡ (if i == b then c' b else d.cache i))
      → ((d.cache b).blockno ≢ n → (i : Ptr) → has i l ≡ true → (d.cache i).blockno ≢ n)
      → Opened l b n (with_cache d c')
  opened {b} {c'} h mem at counted was block each fresh =
      let other : (i : Ptr) → (i == b) ≡ false → c' i ≡ d.cache i = λ i ne. each i ∙ rw ne refl in
      let warm : Warm (one b) (with_cache d c') l = record {
        cache = h;
        idle = record { seen = w.idle.seen; below = w.idle.below; off = w.idle.off };
        free = w.free;
        member = w.member;
        counts = λ i mi. elim (Bool-cases (i == b)) [
          | inl this ↦ let e : i ≡ b = ground arith in rw (this, e) counted
          | inr ne ↦ rw (ne, other i ne) (w.counts i mi)
        ];
        leads = λ i mi v. elim (Bool-cases (i == b)) [
          | inl this ↦
              let e : i ≡ b = ground arith in
              rw e (h.leading b (c' b).blockno mem (omega (arith, counted)) refl)
          | inr ne ↦
              let v' : (d.cache i).valid ≡ true = cc (other i ne, v) in
              let lead = w.leads i mi v' in
              rw (other i ne) (
                first-fewer (blocks d.cache (d.cache i).blockno) (blocks c' (d.cache i).blockno) l i
                  (λ j mj f. elim (Bool-cases (j == b)) [
                    | inl that ↦
                        let e : j ≡ b = ground arith in
                        let was_other : n ≡ (d.cache i).blockno → (d.cache b).blockno ≢ n =
                          λ q p. ground arith in
                        let ne_n : n ≢ (d.cache i).blockno =
                          λ q. fresh (was_other q) i mi (sym q) in
                        ground (arith, at)
                    | inr nj ↦ ground (arith, other j nj)
                  ])
                  (ground (arith, other i ne, ==_refl (d.cache i).blockno)) lead)
        ];
        small = λ i mi v. elim (Bool-cases (i == b)) [
          | inl this ↦ let e : i ≡ b = ground arith in rw (e, at) low
          | inr ne ↦
              let v' : (d.cache i).valid ≡ true = cc (other i ne, v) in
              rw (other i ne) (w.small i mi v')
        ];
        agrees = λ i mi out v x lt.
            let ne : (i == b) ≡ false = ground arith in
            let v' : (d.cache i).valid ≡ true = cc (other i ne, v) in
            rw (other i ne) (w.agrees i mi refl v' x lt);
      } in
      record {
        warm = warm;
        mem = mem;
        at = at;
        low = low;
        known = λ v x lt.
            let (v', e) = was v in
            ap (λ f. f x) block
            ∙ w.agrees b mem refl v' x lt
            ∙ ap (λ m. d.medium (m * bsize + x)) e;
      }

  -- `bget` finds a buffer, as nobody references any.
  bget-Opened :
      (b : Ptr) × (c' : Cache) × (bget n d.cache ≡ ok b c') × Opened l b n (with_cache d c')
  bget-Opened = go (bget-Got n d.cache l w.cache)
    where
      go :
          {o : Outcome Cache Ptr}
          → Got n l d.cache o
          → (b : Ptr) × (c' : Cache) × (o ≡ ok b c') × Opened l b n (with_cache d c')
      go (got {b} {c'} h mem at counted valid block each fresh) = (
        b,
        c',
        refl,
        opened h mem at (ground (arith, w.counts b mem)) (λ v. (ground arith, ground arith)) block
            each fresh,
      )
      go (none_left f) = let (i, mi) = w.member in absurd (omega (arith, w.counts i mi, (f i mi).0))

-- The block number is far from where the sector number would wrap around.
pub place-eq :
    (d : Disk) (b : Ptr) (n : ℕ) → (d.cache b).blockno ≡ n → n < disksize → place d b ≡ n * bsize
place-eq d b n e lt = omega arith

module _ {device : Disk → Disk} (serves : Serves device) where
  -- `fetch` makes the buffer valid, and leaves the disk.
  fetch-Held :
      (b n : ℕ) (l : List Ptr) (s : Io)
      → Opened l b n s.disk
      → (d : Disk) × (fetch device b s ≡ ok tt (record s { disk = d }))
        × Held d l b n (λ x. s.disk.medium (n * bsize + x))
        × (d.medium ≡ s.disk.medium)
  fetch-Held b n l s o = elim (Bool-cases (s.disk.cache b).valid) [
    | inl valid ↦ (
      s.disk,
      rw valid refl,
      record {
        warm = o.warm;
        mem = o.mem;
        at = o.at;
        low = o.low;
        valid = valid;
        holds = o.known valid;
      },
      refl,
    )
    | inr invalid ↦ rw invalid (go (disk_rw-Transferred s.disk b false serves o.warm.idle))
  ]
    where
      go :
          {r : Outcome Disk (Unit {0})}
          → Transferred s.disk b false r
          → (d : Disk) × (and_then (on_disk s r) (λ _. set_valid b) ≡ ok tt (record s { disk = d }))
            × Held d l b n (λ x. s.disk.medium (n * bsize + x))
            × (d.medium ≡ s.disk.medium)
      go (done {s' = d} contents idle free this others moved trap root) =
          let c' = update d.cache b (record (d.cache b) { valid = true }) in
          let mine : c' b ≡ record (d.cache b) { valid = true } = rw (==_refl b) refl in
          let t : Touches b s.disk (with_cache d c') = record {
            idle = record { seen = idle.seen; below = idle.below; off = idle.off };
            free = free;
            others = λ q ne. ground (arith, others q ne);
            kept = rw (mine, this) (refl, refl, refl, refl);
            medium = λ m x ne lt. ap (λ f. f (m * bsize + x)) moved.1;
          } in
          (
            with_cache d c',
            refl,
            record {
              warm = Warm-touch b s.disk l o.warm o.mem (with_cache d c') t (rw o.at o.low);
              mem = o.mem;
              at = rw (mine, this) o.at;
              low = o.low;
              valid = rw mine refl;
              holds = λ x lt.
                  rw mine (
                    moved.0 x lt
                    ∙ ap (λ a. s.disk.medium (a + x)) (place-eq s.disk b n o.at o.low));
            },
            moved.1,
          )
      go (waits p q few) =
          let f0 = few 0 (omega arith) (o.warm.free 0 (omega arith)) in
          let f1 = few 1 (omega arith) (o.warm.free 1 (omega arith)) in
          let f2 = few 2 (omega arith) (o.warm.free 2 (omega arith)) in absurd (omega arith)

  -- `bread` returns a buffer with the contents of the block, and leaves the disk.
  pub bread-Held :
      (n : ℕ) (l : List Ptr) (s : Io)
      → Warm nobody s.disk l
      → n < disksize
      → (b : Ptr) × (d : Disk) × (bread device n s ≡ ok b (record s { disk = d }))
        × Held d l b n (λ x. s.disk.medium (n * bsize + x))
        × (d.medium ≡ s.disk.medium)
  unfolding bread
  bread-Held n l s w low =
      let (b, c', e, o) = bget-Opened n s.disk l w low in
      let (d, e', h, m) = fetch-Held b n l (record s { disk = with_cache s.disk c' }) o in
      (b, d, rw (e, e') refl, h, m)
