-- ===== src/BlockIo/Turn.antt =====
-- The transfers of kernel/buffer.c where they open a block.
use Prim.Native.String.{String}
use mathlib.Core.Path.{subst, fun_ext}
use r5o.Base.{
  ℕ, ◌+◌, ◌-◌, ◌*◌, ◌<◌, ◌≤◌, ◌≡◌, refl, sym, ap, ◌∙◌, List, arith, leb, ltb, ◌&&◌, Bool-cases, inl,
  inr, Outcome, ok, halt, ◌>>◌,
}
use r5o.Buffers.{Ptr}
use r5o.Disk.{Disk}
use r5o.Disk.Device.{Serves, stored}
use r5o.BlockIo.{Io, bsize, disksize, open_block, bread, bwrite, release}
use r5o.BlockIo.Warm.{Warm, nobody}
use r5o.BlockIo.Bread.{Held, bread-Held}
use r5o.BlockIo.Hold.{bwrite-Held, release-Warm}
use r5o.BlockIo.Flat.{Flat, flat, Implements}

-- The bytes of block `n`.
abbrev pub block_of : (ℕ → ℕ) → ℕ → ℕ → ℕ
block_of medium n x = medium (n * bsize + x)

-- What opening block `n` comes to, over the bytes `t`: its buffer, or the message, when there is no such block.
pub data Next (message : String) (n : ℕ) (t : Flat) : Outcome Io Ptr → Type 0 where
  turned :
      {b : Ptr} {s : Io} {l : List Ptr}
      → Held s.disk l b n (block_of s.disk.medium n)
      → flat s ≡ t
      → Next message n t (ok b s)
  ended : disksize ≤ n → Next message n t (halt message)

-- The bytes of the disk once the buffer of block `n`, with contents `f`, is written.
abbrev pub dirty : Io → ℕ → (ℕ → ℕ) → Flat
dirty s n f = record (flat s) { disk = stored s.disk.medium (n * bsize) f }

-- A buffer as it was read is written in vain.
pub dirty-fresh : (s : Io) (n : ℕ) → dirty s n (block_of s.disk.medium n) ≡ flat s
dirty-fresh s n =
    ap (λ (g : ℕ → ℕ). record (flat s) { disk = g })
      (fun_ext {f = stored s.disk.medium (n * bsize) (block_of s.disk.medium n)} {g = s.disk.medium}
        λ a. elim (Bool-cases (leb (n * bsize) a && ltb a (n * bsize + 1024))) [
          | inl this ↦
              let e : n * bsize + (a - n * bsize) ≡ a = ground arith in rw this (ap s.disk.medium e)
          | inr other ↦ rw other refl
        ])

module _ {device : Disk → Disk} (serves : Serves device) where
  pub bread-Next :
      (message : String) (n : ℕ) (l : List Ptr) (s : Io)
      → Warm nobody s.disk l
      → n < disksize
      → Next message n (flat s) (bread device n s)
  bread-Next message n l s w low =
      let (b, d, e, h, m) = bread-Held serves n l s w low in
      rw e (
        turned (subst (λ g. Held d l b n (block_of g n)) (sym m) h)
          (ap (λ (g : ℕ → ℕ). record (flat s) { disk = g }) m))

  pub open_block-Next :
      (message : String) (n : ℕ) (l : List Ptr) (s : Io)
      → Warm nobody s.disk l
      → Next message n (flat s) (open_block device message n s)
  open_block-Next message n l s w = elim (Bool-cases (leb disksize n)) [
    | inl beyond ↦ rw beyond (ended (ground arith))
    | inr within ↦ rw within (bread-Next message n l s w (ground arith))
  ]

  -- `bwrite` and `brelse` of the buffer that is held.
  pub flush :
      (b n : ℕ) (f : ℕ → ℕ) (l : List Ptr) (s : Io)
      → Held s.disk l b n f
      → (s' : Io) × ((bwrite device b >> release b) s ≡ ok tt s') × Implements s' (dirty s n f)
  flush b n f l s h =
      let (d, e, h', put) = bwrite-Held s h serves in
      let (l', w) = release-Warm d l b n f h' (λ x lt. sym (put (n * bsize + x) ∙ ground arith)) in
      (
        _,
        rw e refl,
        record {
          ring = l';
          warm = w;
          same = ap (λ (g : ℕ → ℕ). record (flat s) { disk = g }) (fun_ext put);
        },
      )

  -- `brelse` of a buffer that is as it was read.
  pub drop :
      (b n : ℕ) (l : List Ptr) (s : Io)
      → Held s.disk l b n (block_of s.disk.medium n)
      → (s' : Io) × (release b s ≡ ok tt s') × Implements s' (flat s)
  drop b n l s h =
      let (l', w) = release-Warm s.disk l b n (block_of s.disk.medium n) h (λ x lt. refl) in
      (_, refl, record { ring = l'; warm = w; same = refl })
