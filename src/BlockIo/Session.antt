-- ===== src/BlockIo/Session.antt =====
-- Any sequence of calls of `readBytes`, `writeBytes` and `logData` in kernel/buffer.c and
-- kernel/debug.c.
use r5o.Base.{
  ℕ, ◌+◌, ◌*◌, ◌<◌, ◌≤◌, List, [], ◌∷◌, arith, ltb, ◌==◌, All, Bool-cases, inl, inr, Cmd, Outcome,
  ok, pure, ◌>>◌, Refines, both_ok, both_halt, Refines-bind, length,
}
use r5o.Disk.{Disk}
use r5o.Disk.Device.{Serves}
use r5o.BlockIo.{Io, bsize, disksize, read_bytes, write_bytes, log_data}
use r5o.BlockIo.Flat.{Flat, read, write, append, outside, Implements}
use r5o.BlockIo.Reads.{read_bytes-Refines}
use r5o.BlockIo.Writes.{write_bytes-Refines}
use r5o.BlockIo.Log.{log_data-Refines}

-- A call, with its arguments: block, offset, count and address, or the text.
pub data Call : Type 0 where
  reads : ℕ → ℕ → ℕ → ℕ → Call
  writes : ℕ → ℕ → ℕ → ℕ → Call
  logs : List ℕ → Call

-- The offset lies in the block.
abbrev pub Allowed : Call → Type 0
Allowed (reads n offset count a) = offset ≤ bsize
Allowed (writes n offset count a) = offset ≤ bsize
Allowed (logs text) = Unit

abbrev pub perform : (Disk → Disk) → Call → Cmd Io (Unit {0})
perform device (reads n offset count a) = read_bytes device n offset count a
perform device (writes n offset count a) = write_bytes device n offset count a
perform device (logs text) = log_data device text

abbrev pub promised : Call → Cmd Flat (Unit {0})
promised (reads n offset count a) = read n offset count a
promised (writes n offset count a) = write n offset count a
promised (logs text) = append text

abbrev pub all_of : {S : Type 0} → (Call → Cmd S (Unit {0})) → List Call → Cmd S (Unit {0})
all_of f [] = pure tt
all_of f (c ∷ cs) = f c >> all_of f cs

-- The position of the log lies on the disk.
pub record Serving (s : Io) (t : Flat) : Type 0 where
  pub bytes : Implements s t
  pub block : t.block_no < disksize
  pub off : t.off ≤ bsize

-- Wherever a run returns, the position of the log lies on the disk.
abbrev InBounds : Outcome Flat (Unit {0}) → Type 0
InBounds (ok u t) = (t.block_no < disksize) × (t.off ≤ bsize)
InBounds other = Unit

in_bounds :
    {o : Outcome Io (Unit {0})} {r : Outcome Flat (Unit {0})}
    → Refines Implements o r
    → InBounds r
    → Refines Serving o r
in_bounds (both_ok i) (block, off) = both_ok (record { bytes = i; block = block; off = off })
in_bounds both_halt keeps = both_halt

promised-InBounds :
    (c : Call) (t : Flat) → t.block_no < disksize → t.off ≤ bsize → InBounds (promised c t)
unfolding read write append
promised-InBounds (reads n offset count a) t block off =
    elim (Bool-cases (outside n offset count)) [
      | inl out ↦ rw out tt
      | inr within ↦ rw within (block, off)
    ]
promised-InBounds (writes n offset count a) t block off =
    elim (Bool-cases (outside n offset count)) [
      | inl out ↦ rw out tt
      | inr within ↦ rw within (block, off)
    ]
promised-InBounds (logs text) t block off =
    let k = length text in
    elim (Bool-cases (ltb (disksize * bsize) (t.block_no * bsize + t.off + k))) [
      | inl out ↦ rw out tt
      | inr within ↦ rw within (elim (Bool-cases (k == 0)) [
        | inl none ↦ rw none (block, off)
        | inr some ↦ rw some (ground arith, ground arith)
      ])
    ]

module _ {device : Disk → Disk} (serves : Serves device) where
  perform-Refines :
      (c : Call) (s : Io) (t : Flat)
      → Allowed c
      → Serving s t
      → Refines Implements (perform device c s) (promised c t)
  perform-Refines (reads n offset count a) s t le h =
      read_bytes-Refines serves n offset count a s t le h.bytes
  perform-Refines (writes n offset count a) s t le h =
      write_bytes-Refines serves n offset count a s t le h.bytes
  perform-Refines (logs text) s t le h = log_data-Refines serves text s t h.block h.off h.bytes

  -- With a device that works, whatever sequence of reads, writes and log entries is called, from
  -- offsets within a block, does on the buffers, the driver and the disk what it does on one array
  -- of bytes: it returns with the same memory and disk, or stops with the same message.
  pub calls-Refines :
      (cs : List Call) (s : Io) (t : Flat)
      → All Allowed cs
      → Serving s t
      → Refines Serving (all_of (perform device) cs s) (all_of promised cs t)
  calls-Refines [] s t allowed h = both_ok h
  calls-Refines (c ∷ cs) s t (le, allowed) h =
      Refines-bind (λ _. all_of (perform device) cs) (λ _. all_of promised cs)
        (in_bounds (perform-Refines c s t le h) (promised-InBounds c t h.block h.off))
        (λ u s' t' h'. calls-Refines cs s' t' allowed h')
