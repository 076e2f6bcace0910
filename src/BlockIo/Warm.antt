-- ===== src/BlockIo/Warm.antt =====
-- The buffer cache of kernel/buffer.c over the disk: what each valid buffer holds.
use mathlib.Core.Path.{fun_ext}
use r5o.Base.{
  ℕ, ◌+◌, ◌*◌, ◌<◌, ◌≡◌, ◌≢◌, sym, ◌∙◌, true, some, List, arith, ◌==◌, if◌then◌else◌, has, first,
  Bool-cases, inl, inr,
}
use r5o.Buffers.{Ptr, head, Cache}
use r5o.Buffers.Linked.{Linked-eq}
use r5o.Buffers.Coherent.{IsCache, blocks, blocks-eq}
use r5o.Disk.{Disk, num}
use r5o.Disk.Device.{Idle}
use r5o.BlockIo.{bsize, disksize}

-- Between two transfers: the driver is idle with all descriptors free, each buffer of the ring has
-- the references that `refs` says, a valid buffer is the first that holds its block, and a valid
-- buffer that nobody references has the contents of that block on the disk.
pub record Warm (refs : Ptr → ℕ) (d : Disk) (l : List Ptr) : Type 0 where
  pub cache : IsCache d.cache l
  pub idle : Idle d
  pub free : (j : ℕ) → j < num → d.free j ≡ true
  pub member : (i : Ptr) × (has i l ≡ true)
  pub counts : (i : Ptr) → has i l ≡ true → (d.cache i).refcnt ≡ refs i
  pub leads :
      (i : Ptr)
      → has i l ≡ true
      → (d.cache i).valid ≡ true
      → first (blocks d.cache (d.cache i).blockno) l ≡ some i
  pub small : (i : Ptr) → has i l ≡ true → (d.cache i).valid ≡ true → (d.cache i).blockno < disksize
  pub agrees :
      (i : Ptr)
      → has i l ≡ true
      → refs i ≡ 0
      → (d.cache i).valid ≡ true
      → (x : ℕ) → x < bsize
      → (d.cache i).block x ≡ d.medium ((d.cache i).blockno * bsize + x)

-- Nobody references a buffer, and somebody references `b` once and no other.
abbrev pub nobody : Ptr → ℕ
nobody i = 0

abbrev pub one : Ptr → Ptr → ℕ
one b i = if i == b then 1 else 0

-- A buffer with other contents and flags.
abbrev SameShape : Cache → Cache → Ptr → Type 0
SameShape c c' q =
    ((c' q).blockno ≡ (c q).blockno)
    × ((c' q).refcnt ≡ (c q).refcnt)
    × ((c' q).prev ≡ (c q).prev)
    × ((c' q).next ≡ (c q).next)

pub IsCache-same :
    (c c' : Cache) (l : List Ptr) → ((q : Ptr) → SameShape c c' q) → IsCache c l → IsCache c' l
IsCache-same c c' l k h = record {
  ring = record {
    chain = Linked-eq head l head (fun_ext λ i. (k i).3) (fun_ext λ i. (k i).2) h.ring.chain;
    distinct = h.ring.distinct;
  };
  size = h.size;
  leading = λ i m mem live is.
      blocks-eq c c' m l (λ j. (k j).0)
      ∙ h.leading i m mem (omega (arith, (k i).1)) (sym (k i).0 ∙ is);
}

-- A step that changes the contents and flags of `b`, and on the disk at most its block.
pub record Touches (b : Ptr) (d d' : Disk) : Type 0 where
  pub idle : Idle d'
  pub free : (j : ℕ) → d'.free j ≡ d.free j
  pub others : (q : Ptr) → q ≢ b → d'.cache q ≡ d.cache q
  pub kept : SameShape d.cache d'.cache b
  pub medium :
      (m x : ℕ)
      → m ≢ (d.cache b).blockno
      → x < bsize
      → d'.medium (m * bsize + x) ≡ d.medium (m * bsize + x)

module _ (b : Ptr) (d : Disk) (l : List Ptr) (w : Warm (one b) d l) (mem : has b l ≡ true) where
  referenced : 0 < (d.cache b).refcnt
  referenced = ground (arith, w.counts b mem)

  -- No other valid buffer holds the block of `b`.
  pub apart :
      (i : Ptr)
      → has i l ≡ true
      → i ≢ b
      → (d.cache i).valid ≡ true
      → (d.cache i).blockno ≢ (d.cache b).blockno
  apart i mi ne v e =
      let p = w.cache.leading b (d.cache i).blockno mem referenced (sym e) in
      let q = w.leads i mi v in ne (cc (p, q))

  module _ (d' : Disk) (t : Touches b d d') where
    everywhere : (q : Ptr) → SameShape d.cache d'.cache q
    everywhere q = elim (Bool-cases (q == b)) [
      | inl this ↦ let at : q ≡ b = ground arith in rw at t.kept
      | inr other ↦ let at = t.others q (ground arith) in (cc at, cc at, cc at, cc at)
    ]

    same_blocks : (m : ℕ) → first (blocks d'.cache m) l ≡ first (blocks d.cache m) l
    same_blocks m = blocks-eq d.cache d'.cache m l (λ j. (everywhere j).0)

    pub Warm-touch : (d.cache b).blockno < disksize → Warm (one b) d' l
    Warm-touch low = record {
      cache = IsCache-same d.cache d'.cache l everywhere w.cache;
      idle = t.idle;
      free = λ j lt. t.free j ∙ w.free j lt;
      member = w.member;
      counts = λ i mi. (everywhere i).1 ∙ w.counts i mi;
      leads = λ i mi v. elim (Bool-cases (i == b)) [
        | inl this ↦
            let at : i ≡ b = ground arith in
            same_blocks (d'.cache i).blockno
            ∙ rw at (w.cache.leading b (d'.cache b).blockno mem referenced (sym (everywhere b).0))
        | inr other ↦
            let at = t.others i (ground arith) in
            same_blocks (d'.cache i).blockno ∙ rw at (w.leads i mi (cc (at, v)))
      ];
      small = λ i mi v. elim (Bool-cases (i == b)) [
        | inl this ↦ let at : i ≡ b = ground arith in rw (at, t.kept.0) low
        | inr other ↦ let at = t.others i (ground arith) in rw at (w.small i mi (cc (at, v)))
      ];
      agrees = λ i mi out v x lt.
          let ne : i ≢ b = ground arith in
          let at = t.others i ne in
          let v' : (d.cache i).valid ≡ true = cc (at, v) in
          rw at (
            w.agrees i mi out v' x lt ∙ sym (t.medium (d.cache i).blockno x (apart i mi ne v') lt));
    }
