-- ===== src/BlockIo/RoundTrip.antt =====
-- `writeBytes` and then `readBytes` of kernel/buffer.c.
use mathlib.Core.Path.{fun_ext}
use r5o.Base.{
  ℕ, ◌+◌, ◌-◌, ◌*◌, ◌<◌, ◌≤◌, ◌≡◌, refl, ap, ◌∙◌, true, false, arith, leb, ltb, ◌&&◌, Bool-cases,
  inl, inr, Outcome, ok, ◌>>◌, Refines, both_ok, both_halt, Refines-bind,
}
use r5o.Disk.{Disk}
use r5o.Disk.Device.{Serves}
use r5o.BlockIo.{Io, bsize, disksize, read_bytes, write_bytes}
use r5o.BlockIo.Flat.{Flat, copied, outside, read, write, Implements}
use r5o.BlockIo.Reads.{read_bytes-Refines}
use r5o.BlockIo.Writes.{write_bytes-Refines}

-- What was put in is found there.
copied-back :
    (f m : ℕ → ℕ) (p a a' k : ℕ) (x : ℕ)
    → copied m a' (copied f p m a k) p k x ≡ copied m a' m a k x
copied-back f m p a a' k x = elim (Bool-cases (leb a' x && ltb x (a' + k))) [
  | inl inside ↦
      let e : (leb p (p + (x - a')) && ltb (p + (x - a')) (p + k)) ≡ true = ground arith in
      let e' : a + (p + (x - a') - p) ≡ a + (x - a') = omega arith in rw (inside, e, e') refl
  | inr outside ↦ rw outside refl
]

-- The bytes of the disk and memory after both, with room for them.
write-read :
    (n offset count a a' : ℕ) (t : Flat)
    → outside n offset count ≡ false
    → (write n offset count a >> read n offset count a') t
      ≡ ok tt (record t {
        disk = copied t.disk (n * bsize + offset) t.memory a count;
        memory = copied t.memory a' t.memory a count;
      })
unfolding read write
write-read n offset count a a' t room = rw room (
    rw room (
      ap
        (λ (m : ℕ → ℕ).
          ok tt
            (record t { disk = copied t.disk (n * bsize + offset) t.memory a count; memory = m }))
        (fun_ext (copied-back t.disk t.memory (n * bsize + offset) a a' count))))

ran :
    {o : Outcome Io (Unit {0})} {r : Outcome Flat (Unit {0})} {t : Flat}
    → Refines Implements o r
    → r ≡ ok tt t
    → (s : Io) × (o ≡ ok tt s) × Implements s t
ran (both_ok {a = tt} {s = s} i) e =
    (s, refl, record { ring = i.ring; warm = i.warm; same = i.same ∙ cc e })
ran both_halt e = cc

-- Where the bytes fit on the disk, writing memory from `a` on and reading it back to `a'` returns,
-- and comes to copying the memory from `a` to `a'`.
pub write_bytes-read_bytes :
    {device : Disk → Disk} (serves : Serves device) (n offset count a a' : ℕ) (s : Io) (t : Flat)
    → offset ≤ bsize
    → n < disksize
    → n * bsize + offset + count ≤ disksize * bsize
    → Implements s t
    → (s' : Io) × ((write_bytes device n offset count a >> read_bytes device n offset count a') s
        ≡ ok tt s')
      × Implements s' (record t {
        disk = copied t.disk (n * bsize + offset) t.memory a count;
        memory = copied t.memory a' t.memory a count;
      })
write_bytes-read_bytes {device} serves n offset count a a' s t le low room i =
    ran
      (Refines-bind (λ _. read_bytes device n offset count a') (λ _. read n offset count a')
        (write_bytes-Refines serves n offset count a s t le i)
        (λ r s' t' i'. read_bytes-Refines serves n offset count a' s' t' le i'))
      (write-read n offset count a a' t (ground arith))
