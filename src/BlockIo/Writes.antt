-- ===== src/BlockIo/Writes.antt =====
-- `writeBytes` of kernel/buffer.c over any number of blocks.
use Prim.Native.String.{String}
use mathlib.Core.Path.{subst, fun_ext}
use r5o.Base.{
  ℕ, zero, suc, ◌+◌, ◌-◌, ◌*◌, ◌<◌, ◌≤◌, ◌≡◌, refl, sym, ap, ap₂, ◌∙◌, true, false, List, arith,
  ◌==◌, leb, ltb, if◌then◌else◌, Bool-cases, inl, inr, ok, halt, update, Cmd, ◌>>=◌, ◌>>◌, Refines,
  both_ok,
}
use r5o.Buffers.{Ptr}
use r5o.Disk.{Disk}
use r5o.Disk.Device.{Serves}
use r5o.BlockIo.{
  Io, bsize, disksize, put_byte, copy_out, write_loop, write_bytes, open_block, release, bwrite,
}
use r5o.BlockIo.Bread.{Held}
use r5o.BlockIo.Hold.{put_byte-Held}
use r5o.BlockIo.Flat.{Flat, flat, copied, write, Implements}
use r5o.BlockIo.Turn.{block_of, dirty, dirty-fresh, flush}
use r5o.BlockIo.Reads.{copied-none}
use r5o.BlockIo.Loops.{block_loop, each_byte, Moves, transfer-Refines}

abbrev message : String
message = "writeBytes: block exceeds disk size"

-- The first byte that is put in, and the rest.
pub put_in-first :
    (f g : ℕ → ℕ) (p a k : ℕ)
    → copied (update f p (g a)) (p + 1) g (a + 1) k ≡ copied f p g a (suc k)
put_in-first f g p a k =
    fun_ext {f = copied (update f p (g a)) (p + 1) g (a + 1) k} {g = copied f p g a (suc k)} λ x.
      elim (Bool-cases (p == x)) [
        | inl this ↦
            let e : a + (x - p) ≡ a = ground arith in
            let e' : x ≡ p = ground arith in ground (arith, ap g e)
        | inr other ↦ elim (Bool-cases (leb (p + 1) x)) [
          | inl behind ↦
              let e : a + 1 + (x - (p + 1)) ≡ a + (x - p) = ground arith in ground (arith, ap g e)
          | inr before ↦ ground arith
        ]
      ]

-- A byte put in the buffer of block `n` is a byte of the disk to be.
pub dirty-byte :
    (s s' : Io) (n pos v : ℕ) (f : ℕ → ℕ)
    → pos < bsize
    → s'.disk.medium ≡ s.disk.medium
    → (x : ℕ)
    → (dirty s' n (update f pos v)).disk x ≡ update (dirty s n f).disk (n * bsize + pos) v x
dirty-byte s s' n pos v f lt e x = rw e (elim (Bool-cases (n * bsize + pos == x)) [
  | inl this ↦ let at : x - n * bsize ≡ pos = ground arith in ground arith
  | inr other ↦ elim (Bool-cases (leb (n * bsize) x)) [
    | inl behind ↦ ground arith
    | inr before ↦ ground arith
  ]
])

-- In the middle of a block that is written: the disk is to be as its buffer has it.
pub record Writing (n : ℕ) (b : Ptr) (s : Io) (t : Flat) : Type 0 where
  pub ring : List Ptr
  pub contents : ℕ → ℕ
  pub held : Held s.disk ring b n contents
  pub same : dirty s n contents ≡ t

pub fresh-Writing :
    (n : ℕ) (b : Ptr) (l : List Ptr) (s : Io) (t : Flat)
    → Held s.disk l b n (block_of s.disk.medium n)
    → flat s ≡ t
    → Writing n b s t
fresh-Writing n b l s t h same = record {
  ring = l;
  contents = block_of s.disk.medium n;
  held = h;
  same = dirty-fresh s n ∙ same;
}

-- A byte put at a place on the disk.
abbrev pub put_at : ℕ → ℕ → Flat → Flat
put_at p v t = record t { disk = update t.disk p v }

pub put_byte-Writing :
    (n pos v : ℕ) (b : Ptr) (s : Io) (t : Flat)
    → pos < bsize
    → Writing n b s t
    → (s' : Io) × (put_byte b pos v s ≡ ok tt s') × Writing n b s' (put_at (n * bsize + pos) v t)
put_byte-Writing n pos v b s t lt mid =
    let (d, e, h, m) = put_byte-Held s mid.held pos v lt in
    let s' : Io = record s { disk = d } in
    (
      s',
      e,
      record {
        ring = mid.ring;
        contents = update mid.contents pos v;
        held = h;
        same =
            ap (λ (g : ℕ → ℕ). record (flat s) { disk = g })
              (fun_ext (dirty-byte s s' n pos v mid.contents lt m))
            ∙ ap (put_at (n * bsize + pos) v) mid.same;
      },
    )

pub flush-Writing :
    {device : Disk → Disk} (serves : Serves device) (n : ℕ) (b : Ptr) (s : Io) (t : Flat)
    → Writing n b s t
    → (s' : Io) × ((bwrite device b >> release b) s ≡ ok tt s') × Implements s' t
flush-Writing serves n b s t mid =
    let (s', e, i) = flush serves b n mid.contents mid.ring s mid.held in
    (s', e, record { ring = i.ring; warm = i.warm; same = i.same ∙ mid.same })

-- A byte of memory put on the disk.
abbrev pub store_byte : ℕ → ℕ → Cmd Flat (Unit {0})
store_byte p a t = ok tt (put_at p (t.memory a) t)

each_byte-write :
    (k p a : ℕ) (t : Flat)
    → p ≤ disksize * bsize
    → each_byte message store_byte k p a t ≡ (
        if ltb (disksize * bsize) (p + k)
        then halt message
        else ok tt (record t { disk = copied t.disk p t.memory a k }))
each_byte-write zero p a t le =
    let inside : ltb (disksize * bsize) (p + 0) ≡ false = ground arith in
    rw (inside, copied-none t.disk t.memory p a) refl
each_byte-write (suc k) p a t le = elim (Bool-cases (leb (disksize * bsize) p)) [
  | inl end ↦
      let out : ltb (disksize * bsize) (p + suc k) ≡ true = ground arith in rw (end, out) refl
  | inr more ↦
      let e : p + 1 + k ≡ p + suc k = omega arith in
      rw more (
        each_byte-write k (p + 1) (a + 1) (put_at p (t.memory a) t) (ground arith)
        ∙ rw (e, put_in-first t.disk t.memory p a k) refl)
]

module _ {device : Disk → Disk} (serves : Serves device) where
  write_loop-block_loop :
      (k n pos a : ℕ) (b : Ptr)
      → write_loop device k n pos a b
        ≡ block_loop device message
            (λ b. bwrite device b >> release b)
            (copy_out device)
            k
            n
            pos
            a
            b
  unfolding write_loop block_loop
  write_loop-block_loop zero n pos a b = refl
  write_loop-block_loop (suc k) n pos a b =
      ap₂
        (λ (f : Ptr → Cmd Io (Unit {0})) (g : Cmd Io (Unit {0})).
          if pos == bsize
          then ((bwrite device b >> release b) >> open_block device message (n + 1))
            >>= (λ b. copy_out device b 0 a >> f b)
          else copy_out device b pos a >> g)
        (fun_ext (write_loop-block_loop k (n + 1) 1 (a + 1)))
        (write_loop-block_loop k n (pos + 1) (a + 1) b)

  copy_out-Moves : Moves (λ b. bwrite device b >> release b) (copy_out device) store_byte Writing
  copy_out-Moves = record {
    low = λ n b s t mid. mid.held.low;
    opens = fresh-Writing;
    steps = λ n pos a b s t lt mid.
        let (s', e, w) = put_byte-Writing n pos (s.bytes a) b s t lt mid in
        let at : s.bytes a ≡ t.memory a = ap (λ (t : Flat). t.memory a) mid.same in
        subst (λ o. Refines (λ s t. Writing n b s t) o (store_byte (n * bsize + pos) a t)) (sym e)
          (both_ok (subst (λ v. Writing n b s' (put_at (n * bsize + pos) v t)) at w));
    ends = flush-Writing serves;
  }

  -- `writeBytes` from an offset within a block copies memory to the bytes of the disk from there
  -- on, over as many blocks as it takes, leaves all other bytes, and keeps the cache in step with
  -- the disk; or it stops with its message where there is no such block or the bytes go beyond the
  -- last block.
  pub write_bytes-Refines :
      (n offset count a : ℕ) (s : Io) (t : Flat)
      → offset ≤ bsize
      → Implements s t
      → Refines Implements (write_bytes device n offset count a s) (write n offset count a t)
  unfolding write_bytes write
  write_bytes-Refines n offset count a s t le i =
      rw (fun_ext (write_loop-block_loop count n offset a)) (
        subst
          (λ r.
            Refines Implements
              ((open_block device message n
                  >>= block_loop device message (λ b. bwrite device b >> release b)
                      (copy_out device) count n offset a)
                s)
              r)
          closed (transfer-Refines serves message copy_out-Moves count n offset a s t le i))
    where
      closed :
          (if leb disksize n
            then halt message
            else each_byte message store_byte count (n * bsize + offset) a t)
          ≡ write n offset count a t
      closed = elim (Bool-cases (leb disksize n)) [
        | inl beyond ↦ rw beyond refl
        | inr within ↦ rw within (each_byte-write count (n * bsize + offset) a t (ground arith))
      ]
