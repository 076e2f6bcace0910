-- ===== src/BlockIo/Loops.antt =====
-- The loop that the four transfers of kernel/buffer.c share: a byte at a time, block after block.
use Prim.Native.String.{String}
use mathlib.Core.Path.{subst}
use r5o.Base.{
  ℕ, zero, suc, ◌+◌, ◌*◌, ◌<◌, ◌≤◌, ◌≡◌, sym, true, false, List, arith, ◌==◌, leb, if◌then◌else◌,
  Bool-cases, inl, inr, Outcome, ok, halt, Cmd, and_then, ◌>>=◌, ◌>>◌, Refines, both_ok, both_halt,
  Refines-bind,
}
use r5o.Buffers.{Ptr}
use r5o.Disk.{Disk}
use r5o.Disk.Device.{Serves}
use r5o.BlockIo.{Io, bsize, disksize, open_block}
use r5o.BlockIo.Bread.{Held}
use r5o.BlockIo.Flat.{Flat, flat, Implements}
use r5o.BlockIo.Turn.{Next, turned, ended, block_of, open_block-Next}

module _ (device : Disk → Disk) (message : String) (finish : Ptr → Cmd Io (Unit {0}))
    (byte : Ptr → ℕ → ℕ → Cmd Io (Unit {0})) where
  -- `finish` ends the work on a block, and `byte` moves the byte at a position in it.
  unfoldable pub block_loop : ℕ → ℕ → ℕ → ℕ → Ptr → Cmd Io (Unit {0})
  block_loop zero n pos a b = finish b
  block_loop (suc k) n pos a b =
      if pos == bsize
      then (finish b >> open_block device message (n + 1))
        >>= (λ b. byte b 0 a >> block_loop k (n + 1) 1 (a + 1) b)
      else byte b pos a >> block_loop k n (pos + 1) (a + 1) b

-- On the bytes of the disk: `k` bytes from `p` on, until the disk ends.
abbrev pub each_byte : String → (ℕ → ℕ → Cmd Flat (Unit {0})) → ℕ → ℕ → ℕ → Cmd Flat (Unit {0})
each_byte message move zero p a t = ok tt t
each_byte message move (suc k) p a t =
    let rest = (move p a >> each_byte message move k (p + 1) (a + 1)) t in
    if leb (disksize * bsize) p then halt message else rest

-- What the bytes need to know of a state in the middle of block `n`.
pub record Moves (finish : Ptr → Cmd Io (Unit {0})) (byte : Ptr → ℕ → ℕ → Cmd Io (Unit {0}))
    (move : ℕ → ℕ → Cmd Flat (Unit {0})) (Mid : ℕ → Ptr → Io → Flat → Type 0) : Type 0 where
  pub low : (n : ℕ) (b : Ptr) (s : Io) (t : Flat) → Mid n b s t → n < disksize
  pub opens :
      (n : ℕ) (b : Ptr) (l : List Ptr) (s : Io) (t : Flat)
      → Held s.disk l b n (block_of s.disk.medium n)
      → flat s ≡ t
      → Mid n b s t
  pub steps :
      (n pos a : ℕ) (b : Ptr) (s : Io) (t : Flat)
      → pos < bsize
      → Mid n b s t
      → Refines (λ s t. Mid n b s t) (byte b pos a s) (move (n * bsize + pos) a t)
  pub ends :
      (n : ℕ) (b : Ptr) (s : Io) (t : Flat)
      → Mid n b s t
      → (s' : Io) × (finish b s ≡ ok tt s') × Implements s' t

module _ {device : Disk → Disk} (serves : Serves device) (message : String)
    {finish : Ptr → Cmd Io (Unit {0})} {byte : Ptr → ℕ → ℕ → Cmd Io (Unit {0})}
    {move : ℕ → ℕ → Cmd Flat (Unit {0})} {Mid : ℕ → Ptr → Io → Flat → Type 0}
    (moves : Moves finish byte move Mid) where
  -- The loop from the middle of block `n` on.
  From : ℕ → ℕ → ℕ → ℕ → Type 0
  From k n pos a =
      (b : Ptr) (s : Io) (t : Flat)
      → Mid n b s t
      → Refines Implements (block_loop device message finish byte k n pos a b s)
          (each_byte message move k (n * bsize + pos) a t)

  one_byte :
      (k n pos a : ℕ) (b : Ptr) (s : Io) (t : Flat)
      → pos < bsize
      → Mid n b s t
      → From k n (pos + 1) (a + 1)
      → Refines Implements
          ((byte b pos a >> block_loop device message finish byte k n (pos + 1) (a + 1) b) s)
          (each_byte message move (suc k) (n * bsize + pos) a t)
  unfolding From
  one_byte k n pos a b s t lt mid rest =
      let inside : leb (disksize * bsize) (n * bsize + pos) ≡ false =
        ground (arith, moves.low n b s t mid) in
      let at : n * bsize + (pos + 1) ≡ n * bsize + pos + 1 = omega arith in
      rw inside (
        Refines-bind (λ _. block_loop device message finish byte k n (pos + 1) (a + 1) b)
          (λ _. each_byte message move k (n * bsize + pos + 1) (a + 1))
          (moves.steps n pos a b s t lt mid)
          (λ u s' t' mid'.
            subst
              (λ p.
                Refines Implements
                  (block_loop device message finish byte k n (pos + 1) (a + 1) b s')
                  (each_byte message move k p (a + 1) t'))
              at (rest b s' t' mid')))

  onward :
      (k n a : ℕ) (t : Flat) {o : Outcome Io Ptr}
      → Next message (n + 1) t o
      → From k (n + 1) 1 (a + 1)
      → Refines Implements
          (and_then o
            (λ b. byte b 0 a >> block_loop device message finish byte k (n + 1) 1 (a + 1) b))
          (each_byte message move (suc k) (n * bsize + bsize) a t)
  onward k n a t (turned {b} {s} {l} h same) rest =
      subst
        (λ p.
          Refines Implements
            ((byte b 0 a >> block_loop device message finish byte k (n + 1) 1 (a + 1) b) s)
            (each_byte message move (suc k) p a t))
        (omega arith)
        (one_byte k (n + 1) 0 a b s t (omega arith) (moves.opens (n + 1) b l s t h same) rest)
  onward k n a t (ended gone) rest =
      let out : leb (disksize * bsize) (n * bsize + bsize) ≡ true = ground arith in rw out both_halt

  crossing :
      (k n a : ℕ) (b : Ptr) (s : Io) (t : Flat)
      → Mid n b s t
      → From k (n + 1) 1 (a + 1)
      → Refines Implements
          (((finish b >> open_block device message (n + 1))
              >>= (λ b. byte b 0 a >> block_loop device message finish byte k (n + 1) 1 (a + 1) b))
            s)
          (each_byte message move (suc k) (n * bsize + bsize) a t)
  crossing k n a b s t mid rest =
      let (s', e, i) = moves.ends n b s t mid in
      let next =
        subst (λ t. Next message (n + 1) t (open_block device message (n + 1) s')) i.same
          (open_block-Next serves message (n + 1) i.ring s' i.warm) in
      let chars : Ptr → Io → Outcome Io (Unit {0}) =
        λ b. byte b 0 a >> block_loop device message finish byte k (n + 1) 1 (a + 1) b in
      subst
        (λ o.
          Refines Implements (and_then (and_then o (λ _. open_block device message (n + 1))) chars)
            (each_byte message move (suc k) (n * bsize + bsize) a t))
        (sym e) (onward k n a t next rest)

  block_loop-Refines : (k n pos a : ℕ) → pos ≤ bsize → From k n pos a
  unfolding From block_loop
  block_loop-Refines zero n pos a le b s t mid =
      let (s', e, i) = moves.ends n b s t mid in
      subst (λ o. Refines Implements o (ok tt t)) (sym e) (both_ok i)
  block_loop-Refines (suc k) n pos a le b s t mid = elim (Bool-cases (pos == bsize)) [
    | inl full ↦
        let at : pos ≡ bsize = ground arith in
        rw (full, at)
          (crossing k n a b s t mid (block_loop-Refines k (n + 1) 1 (a + 1) (omega arith)))
    | inr room ↦ rw room (
        one_byte k n pos a b s t (ground arith) mid
          (block_loop-Refines k n (pos + 1) (a + 1) (ground arith)))
  ]

  -- The loop from an opened block on does to the bytes what `move` does, byte by byte, and stops
  -- with the message where there is no such block or the disk ends.
  pub transfer-Refines :
      (k n pos a : ℕ) (s : Io) (t : Flat)
      → pos ≤ bsize
      → Implements s t
      → Refines Implements
          ((open_block device message n >>= block_loop device message finish byte k n pos a) s)
          (if leb disksize n then halt message else each_byte message move k (n * bsize + pos) a t)
  unfolding From
  transfer-Refines k n pos a s t le i = go (
      subst (λ t. Next message n t (open_block device message n s)) i.same
        (open_block-Next serves message n i.ring s i.warm))
    where
      go :
          {o : Outcome Io Ptr}
          → Next message n t o
          → Refines Implements (and_then o (block_loop device message finish byte k n pos a)) (
              if leb disksize n
              then halt message
              else each_byte message move k (n * bsize + pos) a t)
      go (turned {b} {s = s'} {l} h same) =
          let inside : leb disksize n ≡ false = ground (arith, h.low) in
          rw inside (block_loop-Refines k n pos a le b s' t (moves.opens n b l s' t h same))
      go (ended gone) = let out : leb disksize n ≡ true = ground arith in rw out both_halt
