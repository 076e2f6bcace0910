-- ===== src/BlockIo/Fetch.antt =====
-- A structure that `readBytes` of kernel/buffer.c reads from the disk.

use mathlib.Core.Path.{subst}
use r5o.Base.{
  ℕ, zero, suc, ◌+◌, ◌-◌, ◌*◌, ◌≤◌, ◌≡◌, refl, sym, ap, ◌∙◌, Bool, true, false, leb, ltb, ◌&&◌,
  little, arith, Outcome, ok, halt, Refines, both_ok, both_halt,
}
use r5o.Disk.{Disk}
use r5o.Disk.Device.{Serves}
use r5o.BlockIo.{Io, bsize, read_bytes}
use r5o.BlockIo.Flat.{Flat, flat, copied, outside, read, Implements}
use r5o.BlockIo.Reads.{read_bytes-Refines}

-- Bytes that were copied make the numbers that they made before.
little-copied :
    (k j a p n : ℕ) (f g : ℕ → ℕ)
    → j + k ≤ n
    → little k (copied f a g p n) (a + j) ≡ little k g (p + j)
little-copied zero j a p n f g le = refl
little-copied (suc k) j a p n f g le =
    let inside : (leb a (a + j) && ltb (a + j) (a + n)) ≡ true = ground arith in
    let at : p + (a + j - a) ≡ p + j = omega arith in
    let next : a + j + 1 ≡ a + (j + 1) = omega arith in
    let next' : p + j + 1 ≡ p + (j + 1) = omega arith in
    rw (inside, at, next, next')
      (ap (λ n. g (p + j) + 256 * n) (little-copied k (j + 1) a p n f g (omega arith)))

-- What reading `k` bytes from `pos` in block `n` on comes to: the disk stays, and the numbers that
-- the bytes make are in memory at `a`; or the disk ends before.
pub data Fetched (d : ℕ → ℕ) (n pos k a : ℕ) : Outcome Io (Unit {0}) → Type 0 where
  fetched :
      {s : Io}
      → Implements s (flat s)
      → s.disk.medium ≡ d
      → ((w j : ℕ) → j + w ≤ k → little w s.bytes (a + j) ≡ little w d (n * bsize + pos + j))
      → outside n pos k ≡ false
      → Fetched d n pos k a (ok tt s)
  ends : outside n pos k ≡ true → Fetched d n pos k a (halt "readBytes: block exceeds disk size")

module _ (n pos k a : ℕ) (s : Io) where
  abbrev filled : Flat
  filled = record (flat s) { memory = copied s.bytes a s.disk.medium (n * bsize + pos) k }

  read-within :
      {o : Outcome Io (Unit {0})} {r : Outcome Flat (Unit {0})}
      → Refines Implements o r
      → r ≡ ok tt filled
      → outside n pos k ≡ false
      → Fetched s.disk.medium n pos k a o
  read-within (both_ok {a = tt} {s = s'} {t = t} i) e within =
      let same : flat s' ≡ filled = i.same ∙ cc e in
      fetched (record { ring = i.ring; warm = i.warm; same = refl }) (ap (λ t. t.disk) same)
        (λ w j fits.
          ap (λ t. little w t.memory (a + j)) same
          ∙ little-copied w j a (n * bsize + pos) k s.bytes s.disk.medium fits)
        within
  read-within both_halt e within = cc

  read-outside :
      {o : Outcome Io (Unit {0})} {r : Outcome Flat (Unit {0})}
      → Refines Implements o r
      → r ≡ halt "readBytes: block exceeds disk size"
      → outside n pos k ≡ true
      → Fetched s.disk.medium n pos k a o
  read-outside (both_ok i) e out = cc
  read-outside (both_halt {m = m}) e out =
      let same : m ≡ "readBytes: block exceeds disk size" = cc in
      subst (λ m. Fetched s.disk.medium n pos k a (halt m)) (sym same) (ends out)

  read-Fetched :
      (v : Bool) {o : Outcome Io (Unit {0})}
      → outside n pos k ≡ v
      → Refines Implements o (read n pos k a (flat s))
      → Fetched s.disk.medium n pos k a o
  unfolding read
  read-Fetched true out r = read-outside r (rw out refl) out
  read-Fetched false within r = read-within r (rw within refl) within

pub read_bytes-Fetched :
    {device : Disk → Disk} (serves : Serves device) (n pos k a : ℕ) (s : Io)
    → pos ≤ bsize
    → Implements s (flat s)
    → Fetched s.disk.medium n pos k a (read_bytes device n pos k a s)
read_bytes-Fetched serves n pos k a s le i =
    read-Fetched n pos k a s (outside n pos k) refl
      (read_bytes-Refines serves n pos k a s (flat s) le i)
