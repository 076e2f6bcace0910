-- ===== src/BlockIo/Reads.antt =====
-- `readBytes` of kernel/buffer.c over any number of blocks.
use Prim.Native.String.{String}
use mathlib.Core.Path.{subst, fun_ext}
use r5o.Base.{
  ℕ, zero, suc, ◌+◌, ◌-◌, ◌*◌, ◌≤◌, ◌≡◌, refl, ap, ap₂, ◌∙◌, true, false, List, arith, ◌==◌, leb,
  ltb, if◌then◌else◌, Bool-cases, inl, inr, ok, halt, update, Cmd, ◌>>=◌, ◌>>◌, Refines, both_ok,
}
use r5o.Buffers.{Ptr}
use r5o.Disk.{Disk}
use r5o.Disk.Device.{Serves}
use r5o.BlockIo.{Io, bsize, disksize, copy_in, read_loop, read_bytes, open_block, release}
use r5o.BlockIo.Bread.{Held}
use r5o.BlockIo.Hold.{get_byte-Held}
use r5o.BlockIo.Flat.{Flat, flat, copied, read, Implements}
use r5o.BlockIo.Turn.{block_of, drop}
use r5o.BlockIo.Loops.{block_loop, each_byte, Moves, transfer-Refines}

abbrev message : String
message = "readBytes: block exceeds disk size"

-- The first byte of a copy, and the rest.
pub copied-first :
    (f g : ℕ → ℕ) (a pos k : ℕ)
    → copied (update f a (g pos)) (a + 1) g (pos + 1) k ≡ copied f a g pos (suc k)
copied-first f g a pos k =
    fun_ext {f = copied (update f a (g pos)) (a + 1) g (pos + 1) k} {g = copied f a g pos (suc k)}
      λ x. elim (Bool-cases (a == x)) [
        | inl this ↦
            let e : pos + (x - a) ≡ pos = ground arith in
            let e' : x ≡ a = ground arith in ground (arith, ap g e)
        | inr other ↦ elim (Bool-cases (leb (a + 1) x)) [
          | inl behind ↦
              let e : pos + 1 + (x - (a + 1)) ≡ pos + (x - a) = ground arith in
              ground (arith, ap g e)
          | inr before ↦ ground arith
        ]
      ]

pub copied-none : (f g : ℕ → ℕ) (a pos : ℕ) → copied f a g pos 0 ≡ f
copied-none f g a pos = fun_ext {f = copied f a g pos 0} {g = f} λ x. ground arith

-- In the middle of a block that is read: its buffer is as the disk has it.
pub record Reading (n : ℕ) (b : Ptr) (s : Io) (t : Flat) : Type 0 where
  pub ring : List Ptr
  pub held : Held s.disk ring b n (block_of s.disk.medium n)
  pub same : flat s ≡ t

-- A byte of the disk put in memory.
abbrev pub fetch_byte : ℕ → ℕ → Cmd Flat (Unit {0})
fetch_byte p a t = ok tt (record t { memory = update t.memory a (t.disk p) })

each_byte-read :
    (k p a : ℕ) (t : Flat)
    → p ≤ disksize * bsize
    → each_byte message fetch_byte k p a t ≡ (
        if ltb (disksize * bsize) (p + k)
        then halt message
        else ok tt (record t { memory = copied t.memory a t.disk p k }))
each_byte-read zero p a t le =
    let inside : ltb (disksize * bsize) (p + 0) ≡ false = ground arith in
    rw (inside, copied-none t.memory t.disk a p) refl
each_byte-read (suc k) p a t le = elim (Bool-cases (leb (disksize * bsize) p)) [
  | inl end ↦
      let out : ltb (disksize * bsize) (p + suc k) ≡ true = ground arith in rw (end, out) refl
  | inr more ↦
      let e : p + 1 + k ≡ p + suc k = omega arith in
      rw more (
        each_byte-read k (p + 1) (a + 1) (record t { memory = update t.memory a (t.disk p) })
          (ground arith)
        ∙ rw (e, copied-first t.memory t.disk a p k) refl)
]

module _ {device : Disk → Disk} (serves : Serves device) where
  read_loop-block_loop :
      (k n pos a : ℕ) (b : Ptr)
      → read_loop device k n pos a b
        ≡ block_loop device message release (copy_in device) k n pos a b
  unfolding read_loop block_loop
  read_loop-block_loop zero n pos a b = refl
  read_loop-block_loop (suc k) n pos a b =
      ap₂
        (λ (f : Ptr → Cmd Io (Unit {0})) (g : Cmd Io (Unit {0})).
          if pos == bsize
          then (release b >> open_block device message (n + 1))
            >>= (λ b. copy_in device b 0 a >> f b)
          else copy_in device b pos a >> g)
        (fun_ext (read_loop-block_loop k (n + 1) 1 (a + 1)))
        (read_loop-block_loop k n (pos + 1) (a + 1) b)

  copy_in-Moves : Moves release (copy_in device) fetch_byte Reading
  copy_in-Moves = record {
    low = λ n b s t mid. mid.held.low;
    opens = λ n b l s t h same. record { ring = l; held = h; same = same };
    steps = λ n pos a b s t lt mid. rw (get_byte-Held s mid.held pos lt) (
        both_ok (record {
          ring = mid.ring;
          held = mid.held;
          same =
              ap (λ (t : Flat). record t { memory = update t.memory a (t.disk (n * bsize + pos)) })
                mid.same;
        }));
    ends = λ n b s t mid.
        let (s', e, i) = drop serves b n mid.ring s mid.held in
        (s', e, record { ring = i.ring; warm = i.warm; same = i.same ∙ mid.same });
  }

  -- `readBytes` from an offset within a block copies the bytes of the disk from there on to memory,
  -- over as many blocks as it takes, and keeps the cache in step with the disk; or it stops with its
  -- message where there is no such block or the bytes go beyond the last block.
  pub read_bytes-Refines :
      (n offset count a : ℕ) (s : Io) (t : Flat)
      → offset ≤ bsize
      → Implements s t
      → Refines Implements (read_bytes device n offset count a s) (read n offset count a t)
  unfolding read_bytes read
  read_bytes-Refines n offset count a s t le i =
      rw (fun_ext (read_loop-block_loop count n offset a)) (
        subst
          (λ r.
            Refines Implements
              ((open_block device message n
                  >>= block_loop device message release (copy_in device) count n offset a)
                s)
              r)
          closed (transfer-Refines serves message copy_in-Moves count n offset a s t le i))
    where
      closed :
          (if leb disksize n
            then halt message
            else each_byte message fetch_byte count (n * bsize + offset) a t)
          ≡ read n offset count a t
      closed = elim (Bool-cases (leb disksize n)) [
        | inl beyond ↦ rw beyond refl
        | inr within ↦ rw within (each_byte-read count (n * bsize + offset) a t (ground arith))
      ]
