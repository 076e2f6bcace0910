-- ===== src/BlockIo/Virtual.antt =====
-- `readBytesVirtual` and `writeBytesVirtual` of kernel/buffer.c, which translate each address.
pub mod Refine
use Prim.Native.String.{String}
use r5o.Base.{ℕ, zero, suc, ◌+◌, ◌*◌, ◌^◌, ◌==◌, if◌then◌else◌, little, Cmd, ◌>>=◌, ◌>>◌}
use r5o.Buffers.{Ptr}
use r5o.Disk.{Disk}
use r5o.Paging.{translate}
use r5o.BlockIo.{Io, bsize, get_byte, put_byte, get_memory, put_memory, release, bwrite, open_block}

-- The 64-bit word at an address of memory.
abbrev pub words : (ℕ → ℕ) → ℕ → ℕ
words bytes a = little 8 bytes a

-- `virtualToPhysical(pagetable, va)`
abbrev pub locate : ℕ → ℕ → Cmd Io ℕ
locate pagetable va s = translate (words s.bytes) pagetable va s

module _ (device : Disk → Disk) (pagetable : ℕ) where
  -- `*physicalAddrLocation = (b -> data)[nextBytePosToRead];`
  abbrev pub virtual_in : Ptr → ℕ → ℕ → Cmd Io (Unit {0})
  virtual_in b pos va = locate pagetable va >>= (λ a. get_byte b pos >>= put_memory a)

  -- `(b -> data)[nextBytePosToWrite] = *physicalAddrLocation;`
  abbrev pub virtual_out : Ptr → ℕ → ℕ → Cmd Io (Unit {0})
  virtual_out b pos va = locate pagetable va >>= (λ a. get_memory a >>= put_byte b pos)

  -- The loop of `readBytesVirtual`, with `k` bytes left.
  unfoldable pub virtual_read_loop : ℕ → ℕ → ℕ → ℕ → Ptr → Cmd Io (Unit {0})
  virtual_read_loop zero n pos va b = release b
  virtual_read_loop (suc k) n pos va b =
      if pos == bsize
      then (release b >> open_block device "readBytesVirtual: block exceeds disk size" (n + 1))
        >>= (λ b. virtual_in b 0 va >> virtual_read_loop k (n + 1) 1 (va + 1) b)
      else virtual_in b pos va >> virtual_read_loop k n (pos + 1) (va + 1) b

  unfoldable pub read_bytes_virtual : ℕ → ℕ → ℕ → ℕ → Cmd Io (Unit {0})
  read_bytes_virtual n offset count va =
      open_block device "readBytesVirtual: block exceeds disk size" n
      >>= (λ b. virtual_read_loop count n offset va b)

  -- The loop of `writeBytesVirtual`, with `k` bytes left.
  unfoldable pub virtual_write_loop : ℕ → ℕ → ℕ → ℕ → Ptr → Cmd Io (Unit {0})
  virtual_write_loop zero n pos va b = bwrite device b >> release b
  virtual_write_loop (suc k) n pos va b =
      if pos == bsize
      then ((bwrite device b >> release b)
          >> open_block device "writeBytesVirtual: block exceeds disk size" (n + 1))
        >>= (λ b. virtual_out b 0 va >> virtual_write_loop k (n + 1) 1 (va + 1) b)
      else virtual_out b pos va >> virtual_write_loop k n (pos + 1) (va + 1) b

  unfoldable pub write_bytes_virtual : ℕ → ℕ → ℕ → ℕ → Cmd Io (Unit {0})
  write_bytes_virtual n offset count va =
      open_block device "writeBytesVirtual: block exceeds disk size" n
      >>= (λ b. virtual_write_loop count n offset va b)
