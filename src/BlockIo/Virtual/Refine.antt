-- ===== src/BlockIo/Virtual/Refine.antt =====
-- The transfers of kernel/buffer.c to and from virtual addresses, on the bytes of the disk.

use mathlib.Core.Path.{subst, fun_ext}
use r5o.Base.{
  ℕ, zero, suc, ◌+◌, ◌*◌, ◌≤◌, ◌≡◌, refl, sym, ap, ap₂, ◌∙◌, ◌==◌, leb, if◌then◌else◌, Bool-cases,
  inl, inr, halt, update, Cmd, ◌>>=◌, ◌>>◌, Refines, both_ok, both_halt, Refines-bind,
}
use r5o.Buffers.{Ptr}
use r5o.Disk.{Disk}
use r5o.Disk.Device.{Serves}
use r5o.Paging.{translate, is_virtual_page_allocated, get_virt_page}
use r5o.BlockIo.{Io, bsize, disksize, open_block, release, bwrite}
use r5o.BlockIo.Hold.{get_byte-Held}
use r5o.BlockIo.Flat.{Flat, Implements}
use r5o.BlockIo.Turn.{drop}
use r5o.BlockIo.Loops.{block_loop, each_byte, Moves, transfer-Refines}
use r5o.BlockIo.Reads.{Reading, fetch_byte}
use r5o.BlockIo.Writes.{Writing, fresh-Writing, put_byte-Writing, flush-Writing, store_byte, put_at}
use r5o.BlockIo.Virtual.{
  words, virtual_in, virtual_out, virtual_read_loop, read_bytes_virtual, virtual_write_loop,
  write_bytes_virtual,
}

-- A translation comes to the same in related states.
translate-Refines :
    {S T : Type 0} {R : S → T → Type 0} (mem : ℕ → ℕ) (pagetable va : ℕ) (s : S) (t : T)
    → R s t
    → Refines R (translate mem pagetable va s) (translate mem pagetable va t)
unfolding translate
translate-Refines mem pagetable va s t r =
    elim (Bool-cases (is_virtual_page_allocated mem pagetable (get_virt_page va))) [
      | inl allocated ↦ rw allocated (both_ok r)
      | inr missing ↦ rw missing both_halt
    ]

-- Where memory is one: over the bytes of the disk and memory, with the table that memory holds.
abbrev pub at_virtual : ℕ → (ℕ → ℕ → Cmd Flat (Unit {0})) → ℕ → ℕ → Cmd Flat (Unit {0})
at_virtual pagetable move p va t = (translate (words t.memory) pagetable va >>= (λ a. move p a)) t

-- Byte by byte: the address is translated by the table as memory holds it then, and the byte
-- moved.
unfoldable pub read_virtual : ℕ → ℕ → ℕ → ℕ → ℕ → Cmd Flat (Unit {0})
read_virtual pagetable n offset count va t =
    if leb disksize n
    then halt "readBytesVirtual: block exceeds disk size"
    else each_byte "readBytesVirtual: block exceeds disk size" (at_virtual pagetable fetch_byte)
        count (n * bsize + offset) va t

unfoldable pub write_virtual : ℕ → ℕ → ℕ → ℕ → ℕ → Cmd Flat (Unit {0})
write_virtual pagetable n offset count va t =
    if leb disksize n
    then halt "writeBytesVirtual: block exceeds disk size"
    else each_byte "writeBytesVirtual: block exceeds disk size" (at_virtual pagetable store_byte)
        count (n * bsize + offset) va t

module _ {device : Disk → Disk} (serves : Serves device) (pagetable : ℕ) where
  read_as_block_loop :
      (k n pos va : ℕ) (b : Ptr)
      → virtual_read_loop device pagetable k n pos va b
        ≡ block_loop device "readBytesVirtual: block exceeds disk size" release
            (virtual_in device pagetable)
            k
            n
            pos
            va
            b
  unfolding virtual_read_loop block_loop
  read_as_block_loop zero n pos va b = refl
  read_as_block_loop (suc k) n pos va b =
      ap₂
        (λ (f : Ptr → Cmd Io (Unit {0})) (g : Cmd Io (Unit {0})).
          if pos == bsize
          then (release b >> open_block device "readBytesVirtual: block exceeds disk size" (n + 1))
            >>= (λ b. virtual_in device pagetable b 0 va >> f b)
          else virtual_in device pagetable b pos va >> g)
        (fun_ext (read_as_block_loop k (n + 1) 1 (va + 1)))
        (read_as_block_loop k n (pos + 1) (va + 1) b)

  virtual_in-Moves :
      Moves release (virtual_in device pagetable) (at_virtual pagetable fetch_byte) Reading
  virtual_in-Moves = record {
    low = λ n b s t mid. mid.held.low;
    opens = λ n b l s t h same. record { ring = l; held = h; same = same };
    steps = λ n pos va b s t lt mid.
        let same : words s.bytes ≡ words t.memory = ap (λ (t : Flat). words t.memory) mid.same in
        rw same (
          Refines-bind _ _
            (translate-Refines {R = λ s' t'. (s' ≡ s) × (t' ≡ t)} (words t.memory) pagetable va s t
              (refl, refl))
            (λ a s' t' e.
              rw (e.0, e.1, get_byte-Held s mid.held pos lt)
                (both_ok (record {
                  ring = mid.ring;
                  held = mid.held;
                  same =
                      ap
                        (λ (t : Flat). record t {
                          memory = update t.memory a (t.disk (n * bsize + pos));
                        })
                        mid.same;
                }))));
    ends = λ n b s t mid.
        let (s', e, i) = drop serves b n mid.ring s mid.held in
        (s', e, record { ring = i.ring; warm = i.warm; same = i.same ∙ mid.same });
  }

  -- `readBytesVirtual` from an offset within a block moves bytes from the disk to memory one by one,
  -- each to where the page table, as memory holds it then, translates its address, and keeps the
  -- cache in step with the disk; it stops with the message of the translation at the first address
  -- that has none, and with its own where there is no such block or the disk ends.
  pub read_bytes_virtual-Refines :
      (n offset count va : ℕ) (s : Io) (t : Flat)
      → offset ≤ bsize
      → Implements s t
      → Refines Implements
          (read_bytes_virtual device pagetable n offset count va s)
          (read_virtual pagetable n offset count va t)
  unfolding read_bytes_virtual read_virtual
  read_bytes_virtual-Refines n offset count va s t le i =
      rw (fun_ext (read_as_block_loop count n offset va)) (
        transfer-Refines serves "readBytesVirtual: block exceeds disk size" virtual_in-Moves count n
          offset va s t le i)

  write_as_block_loop :
      (k n pos va : ℕ) (b : Ptr)
      → virtual_write_loop device pagetable k n pos va b
        ≡ block_loop device "writeBytesVirtual: block exceeds disk size"
            (λ b. bwrite device b >> release b)
            (virtual_out device pagetable)
            k
            n
            pos
            va
            b
  unfolding virtual_write_loop block_loop
  write_as_block_loop zero n pos va b = refl
  write_as_block_loop (suc k) n pos va b =
      ap₂
        (λ (f : Ptr → Cmd Io (Unit {0})) (g : Cmd Io (Unit {0})).
          if pos == bsize
          then ((bwrite device b >> release b)
              >> open_block device "writeBytesVirtual: block exceeds disk size" (n + 1))
            >>= (λ b. virtual_out device pagetable b 0 va >> f b)
          else virtual_out device pagetable b pos va >> g)
        (fun_ext (write_as_block_loop k (n + 1) 1 (va + 1)))
        (write_as_block_loop k n (pos + 1) (va + 1) b)

  virtual_out-Moves :
      Moves
        (λ b. bwrite device b >> release b)
        (virtual_out device pagetable)
        (at_virtual pagetable store_byte)
        Writing
  virtual_out-Moves = record {
    low = λ n b s t mid. mid.held.low;
    opens = fresh-Writing;
    steps = λ n pos va b s t lt mid.
        let same : words s.bytes ≡ words t.memory = ap (λ (t : Flat). words t.memory) mid.same in
        rw same (
          Refines-bind _ _
            (translate-Refines {R = λ s' t'. (s' ≡ s) × (t' ≡ t)} (words t.memory) pagetable va s t
              (refl, refl))
            (λ a s' t' e.
              let (s2, e', w) = put_byte-Writing n pos (s.bytes a) b s t lt mid in
              let at : s.bytes a ≡ t.memory a = ap (λ (t : Flat). t.memory a) mid.same in
              rw (e.0, e.1)
                (subst (λ o. Refines (λ s t. Writing n b s t) o (store_byte (n * bsize + pos) a t))
                  (sym e')
                  (both_ok (subst (λ v. Writing n b s2 (put_at (n * bsize + pos) v t)) at w)))));
    ends = flush-Writing serves;
  }

  -- `writeBytesVirtual` from an offset within a block moves bytes from memory to the disk one by
  -- one, each from where the page table translates its address, and keeps the cache in step with the
  -- disk; it stops with the message of the translation at the first address that has none, and with
  -- its own where there is no such block or the disk ends.
  pub write_bytes_virtual-Refines :
      (n offset count va : ℕ) (s : Io) (t : Flat)
      → offset ≤ bsize
      → Implements s t
      → Refines Implements
          (write_bytes_virtual device pagetable n offset count va s)
          (write_virtual pagetable n offset count va t)
  unfolding write_bytes_virtual write_virtual
  write_bytes_virtual-Refines n offset count va s t le i =
      rw (fun_ext (write_as_block_loop count n offset va)) (
        transfer-Refines serves "writeBytesVirtual: block exceeds disk size" virtual_out-Moves count
          n offset va s t le i)
