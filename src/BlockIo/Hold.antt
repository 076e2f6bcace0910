-- ===== src/BlockIo/Hold.antt =====
-- What kernel/buffer.c does with a buffer that it holds: a byte, `bwrite` and `brelse`.
use mathlib.Core.Path.{subst}
use r5o.Base.{
  ℕ, ◌+◌, ◌-◌, ◌*◌, ◌<◌, ◌≡◌, ◌≢◌, refl, sym, ap, ◌∙◌, true, false, some, List, ◌∷◌, ◌++◌, arith,
  ◌==◌, leb, has, has-append, has-split, first, Bool-cases, inl, inr, Outcome, ok, update, ==_refl,
}
use r5o.Buffers.{Ptr, brelse, set_refcnt, dec32}
use r5o.Buffers.Ring.{SameFields}
use r5o.Buffers.Coherent.{IsCache, blocks, blocks-eq}
use r5o.Buffers.Release.{brelse-Released}
use r5o.Buffers.InUse.{brelse-IsCache, reordered, first-to_front}
use r5o.Disk.{Disk}
use r5o.Disk.Device.{Serves, stored}
use r5o.Disk.Transfer.{Transferred, done, waits, disk_rw-Transferred}
use r5o.BlockIo.{Io, bsize, disksize, put_byte, get_byte, bwrite, on_disk}
use r5o.BlockIo.Warm.{Warm, nobody, one, Touches, Warm-touch, apart}
use r5o.BlockIo.Bread.{Held, with_cache, place-eq}

module _ {l : List Ptr} {b n : ℕ} {f : ℕ → ℕ} (s : Io) (h : Held s.disk l b n f) where
  pub get_byte-Held : (pos : ℕ) → pos < bsize → get_byte b pos s ≡ ok (f pos) s
  get_byte-Held pos lt =
      let inside : leb bsize pos ≡ false = ground arith in rw (inside, h.holds pos lt) refl

  pub put_byte-Held :
      (pos v : ℕ)
      → pos < bsize
      → (d : Disk) × (put_byte b pos v s ≡ ok tt (record s { disk = d }))
        × Held d l b n (update f pos v)
        × (d.medium ≡ s.disk.medium)
  put_byte-Held pos v lt =
      let inside : leb bsize pos ≡ false = ground arith in
      let c = s.disk.cache in
      let c' = update c b (record (c b) { block = update (c b).block pos v }) in
      let mine : c' b ≡ record (c b) { block = update (c b).block pos v } = rw (==_refl b) refl in
      let t : Touches b s.disk (with_cache s.disk c') = record {
        idle = record { seen = h.warm.idle.seen; below = h.warm.idle.below; off = h.warm.idle.off };
        free = λ j. refl;
        others = λ q ne. ground arith;
        kept = rw mine (refl, refl, refl, refl);
        medium = λ m x ne lt. refl;
      } in
      (
        with_cache s.disk c',
        rw inside refl,
        record {
          warm = Warm-touch b s.disk l h.warm h.mem (with_cache s.disk c') t (rw h.at h.low);
          mem = h.mem;
          at = rw mine h.at;
          low = h.low;
          valid = rw mine h.valid;
          holds = λ x lt'. rw mine (ground (arith, h.holds x lt'));
        },
        refl,
      )

  module _ {device : Disk → Disk} (serves : Serves device) where
    -- `bwrite` puts the contents on the disk, and leaves all other blocks.
    pub bwrite-Held :
        (d : Disk) × (bwrite device b s ≡ ok tt (record s { disk = d }))
        × Held d l b n f
        × ((a : ℕ) → d.medium a ≡ stored s.disk.medium (n * bsize) f a)
    unfolding bwrite
    bwrite-Held = go (disk_rw-Transferred s.disk b true serves h.warm.idle)
      where
        go :
            {r : Outcome Disk (Unit {0})}
            → Transferred s.disk b true r
            → (d : Disk) × (on_disk s r ≡ ok tt (record s { disk = d }))
              × Held d l b n f
              × ((a : ℕ) → d.medium a ≡ stored s.disk.medium (n * bsize) f a)
        go (done {s' = d} contents idle free this others moved trap root) =
            let put : (a : ℕ) → d.medium a ≡ stored s.disk.medium (n * bsize) f a = λ a.
              moved.1 a
              ∙ ap (λ p. stored s.disk.medium p (s.disk.cache b).block a)
                  (place-eq s.disk b n h.at h.low)
              ∙ ground (arith, h.holds (a - n * bsize)) in
            let t : Touches b s.disk d = record {
              idle = idle;
              free = free;
              others = others;
              kept = rw this (refl, refl, refl, refl);
              medium = λ m x ne lt.
                  let ne' : m ≢ n = λ e. ne (e ∙ sym h.at) in put (m * bsize + x) ∙ ground arith;
            } in
            (
              d,
              refl,
              record {
                warm = Warm-touch b s.disk l h.warm h.mem d t (rw h.at h.low);
                mem = h.mem;
                at = rw this h.at;
                low = h.low;
                valid = rw this h.valid;
                holds = λ x lt. ap (λ g. g x) moved.0 ∙ h.holds x lt;
              },
              put,
            )
        go (waits p q few) =
            let f0 = few 0 (omega arith) (h.warm.free 0 (omega arith)) in
            let f1 = few 1 (omega arith) (h.warm.free 1 (omega arith)) in
            let f2 = few 2 (omega arith) (h.warm.free 2 (omega arith)) in absurd (omega arith)

-- `brelse` of the buffer that is held, in a ring that is split there.
module _ (d : Disk) (xs : List Ptr) (b : Ptr) (ys : List Ptr) (w : Warm (one b) d (xs ++ (b ∷ ys)))
    (mem : has b (xs ++ (b ∷ ys)) ≡ true) where
  counted : (d.cache b).refcnt ≡ 1
  counted = w.counts b mem ∙ rw (==_refl b) refl

  moved_front : reordered xs b ys d.cache ≡ b ∷ (xs ++ ys)
  moved_front = rw counted refl

  fields :
      (i : Ptr)
      → SameFields (brelse b d.cache i) (set_refcnt d.cache b (dec32 (d.cache b).refcnt) i)
  fields = (brelse-Released b d.cache xs ys w.cache.ring).fields

  was_member : (i : Ptr) → has i (b ∷ (xs ++ ys)) ≡ true → has i (xs ++ (b ∷ ys)) ≡ true
  was_member i m = ground (arith, has-append i xs (b ∷ ys), has-append i xs ys)

  first_at_front :
      (i : Ptr)
      → has i (xs ++ (b ∷ ys)) ≡ true
      → (d.cache i).valid ≡ true
      → first (blocks d.cache (d.cache i).blockno) (b ∷ (xs ++ ys)) ≡ some i
  first_at_front i mi v = elim (Bool-cases (i == b)) [
    | inl this ↦ let e : i ≡ b = ground arith in rw (e, ==_refl (d.cache b).blockno) refl
    | inr other ↦
        let ne = apart b d (xs ++ (b ∷ ys)) w mem i mi (ground arith) v in
        first-to_front (blocks d.cache (d.cache i).blockno) xs b ys (ground arith) ∙ w.leads i mi v
  ]

  released :
      ((x : ℕ) → x < bsize → (d.cache b).block x ≡ d.medium ((d.cache b).blockno * bsize + x))
      → ((d.cache b).blockno < disksize)
      → Warm nobody (with_cache d (brelse b d.cache)) (b ∷ (xs ++ ys))
  released same low =
      let was_valid : (i : Ptr) → (brelse b d.cache i).valid ≡ true → (d.cache i).valid ≡ true =
        λ i v. ground (arith, (fields i).0) in
      let at : (i : Ptr) → (brelse b d.cache i).blockno ≡ (d.cache i).blockno =
        λ i. (fields i).2 ∙ ground arith in
      record {
        cache =
            subst (λ l. IsCache (brelse b d.cache) l) moved_front
              (brelse-IsCache d.cache xs b ys w.cache (omega (arith, counted))
                (omega (arith, counted)));
        idle = record { seen = w.idle.seen; below = w.idle.below; off = w.idle.off };
        free = w.free;
        member = (b, rw (==_refl b) refl);
        counts = λ i m. (fields i).3 ∙ ground (arith, counted, w.counts i (was_member i m));
        leads = λ i m v.
            blocks-eq d.cache (brelse b d.cache) (brelse b d.cache i).blockno (b ∷ (xs ++ ys)) at
            ∙ ap (λ k. first (blocks d.cache k) (b ∷ (xs ++ ys))) (at i)
            ∙ first_at_front i (was_member i m) (was_valid i v);
        small = λ i m v. rw (at i) (w.small i (was_member i m) (was_valid i v));
        agrees = λ i m out v x lt.
            let block : (brelse b d.cache i).block ≡ (d.cache i).block =
              (fields i).4 ∙ ground arith in
            ap (λ f. f x) block ∙ elim (Bool-cases (i == b)) [
              | inl this ↦ let e : i ≡ b = ground arith in rw (at i, e) (same x lt)
              | inr other ↦
                  rw (at i) (w.agrees i (was_member i m) (rw other refl) (was_valid i v) x lt)
            ];
      }

-- Once its contents are on the disk, the buffer that is held can be released.
pub release-Warm :
    (d : Disk) (l : List Ptr) (b n : ℕ) (f : ℕ → ℕ)
    → Held d l b n f
    → ((x : ℕ) → x < bsize → f x ≡ d.medium (n * bsize + x))
    → (l' : List Ptr) × Warm nobody (with_cache d (brelse b d.cache)) l'
release-Warm d l b n f h same =
    let (xs, ys, e) = has-split b l h.mem in
    (
      b ∷ (xs ++ ys),
      released d xs b ys (subst (λ m. Warm (one b) d m) e h.warm)
          (subst (λ m. has b m ≡ true) e h.mem) (λ x lt. rw h.at (h.holds x lt ∙ same x lt))
          (rw h.at h.low),
    )
