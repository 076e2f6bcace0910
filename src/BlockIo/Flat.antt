-- ===== src/BlockIo/Flat.antt =====
-- What kernel/buffer.c and kernel/debug.c promise: the disk is one array of bytes.
use r5o.Base.{
  ℕ, zero, suc, ◌+◌, ◌-◌, ◌*◌, ◌/◌, ◌%◌, ◌≡◌, List, [], ◌∷◌, Bool, leb, ltb, ◌&&◌, ◌||◌, ◌==◌,
  if◌then◌else◌, length, Outcome, ok, halt,
}
use r5o.Buffers.{Ptr}
use r5o.BlockIo.{Io, bsize, disksize}
use r5o.BlockIo.Warm.{Warm, nobody}

-- The disk and memory by byte, and the position of the log, without buffers and driver.
pub record Flat : Type 0 where
  pub disk : ℕ → ℕ
  pub memory : ℕ → ℕ
  pub block_no : ℕ
  pub off : ℕ

abbrev pub flat : Io → Flat
flat s = record { disk = s.disk.medium; memory = s.bytes; block_no = s.block_no; off = s.off }

-- `f`, with the `k` values of `g` from `pos` on put in from `a` on.
abbrev pub copied : (ℕ → ℕ) → ℕ → (ℕ → ℕ) → ℕ → ℕ → ℕ → ℕ
copied f a g pos k x = if leb a x && ltb x (a + k) then g (pos + (x - a)) else f x

-- No block `n`, or the `k` bytes from `pos` in it on reach beyond the last block.
abbrev pub outside : ℕ → ℕ → ℕ → Bool
outside n pos k = leb disksize n || ltb (disksize * bsize) (n * bsize + pos + k)

unfoldable pub read : ℕ → ℕ → ℕ → ℕ → Flat → Outcome Flat (Unit {0})
read n pos k a t =
    if outside n pos k
    then halt "readBytes: block exceeds disk size"
    else ok tt (record t { memory = copied t.memory a t.disk (n * bsize + pos) k })

unfoldable pub write : ℕ → ℕ → ℕ → ℕ → Flat → Outcome Flat (Unit {0})
write n pos k a t =
    if outside n pos k
    then halt "writeBytes: block exceeds disk size"
    else ok tt (record t { disk = copied t.disk (n * bsize + pos) t.memory a k })

-- The byte at an index of a text.
abbrev pub nth : List ℕ → ℕ → ℕ
nth [] i = 0
nth (c ∷ cs) zero = c
nth (c ∷ cs) (suc i) = nth cs i

-- The text goes to the position of the log, which then stands behind the last byte, in that byte's
-- block.
unfoldable pub append : List ℕ → Flat → Outcome Flat (Unit {0})
append text t =
    let k = length text in
    let last = t.block_no * bsize + t.off + k - 1 in
    if ltb (disksize * bsize) (t.block_no * bsize + t.off + k)
    then halt "logData"
    else ok tt (record t {
      disk = copied t.disk (t.block_no * bsize + t.off) (nth text) 0 k;
      block_no = if k == 0 then t.block_no else last / bsize;
      off = if k == 0 then t.off else last % bsize + 1;
    })

-- Between two calls, the buffers and the driver stand for the array of bytes.
pub record Implements (s : Io) (t : Flat) : Type 0 where
  pub ring : List Ptr
  pub warm : Warm nobody s.disk ring
  pub same : flat s ≡ t
