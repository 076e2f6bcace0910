-- ===== src/Buffers/Tests.antt =====
-- Examples for kernel/buffer.c.
use r5o.Base.{◌<◌, ◌≡◌, ◌==◌, if◌then◌else◌, refl, false, true, [], ◌∷◌, arith, ok, has, Outcome}
use r5o.Buffers.{nbuf, Ptr, head, Buffer, Cache, binit, bget}
use r5o.Buffers.Ring.{IsRing}
use r5o.Buffers.Init.{stacked, binit-IsRing}
use r5o.Buffers.Coherent.{IsCache}
use r5o.Buffers.InUse.{Got, got, none_left, bget-Got, Reach, Reach-IsCache, one_buffer_for_block}

abbrev blank : Buffer
blank = record {
  valid = false;
  disk = false;
  blockno = 0;
  refcnt = 0;
  prev = 0;
  next = 0;
  block = λ i. 0;
}

abbrev zeroed : Cache
zeroed i = blank

booted : Reach (binit zeroed) (stacked nbuf 0 [])
booted = Reach.booted zeroed (λ i. refl)

Reach-IsCache_example : IsCache (binit zeroed) (stacked nbuf 0 [])
Reach-IsCache_example = Reach-IsCache booted

bget-Got_example : Got 5 (stacked nbuf 0 []) (binit zeroed) (bget 5 (binit zeroed))
bget-Got_example = bget-Got 5 (binit zeroed) (stacked nbuf 0 []) (Reach-IsCache booted)

-- A ring of two buffers: 4, with block 9 and one reference, and then 2, with block 8 and none.
abbrev pair : Cache
pair i =
    if i == head
    then record blank { prev = 2; next = 4 }
    else if i == 4
    then record blank { prev = head; next = 2; blockno = 9; refcnt = 1 }
    else record blank { prev = 4; next = head; blockno = 8 }

pair-IsRing : IsRing pair (4 ∷ 2 ∷ [])
pair-IsRing = record {
  chain = (refl, refl, (refl, refl, (refl, refl)));
  distinct = (refl, (refl, (refl, tt)));
}

pair-IsCache : IsCache pair (4 ∷ 2 ∷ [])
pair-IsCache = record {
  ring = pair-IsRing;
  size = omega arith;
  leading = λ i m mem live is. ground arith;
}

-- After boot, `bget(5)` returns a buffer.
received :
    {o : Outcome Cache Ptr}
    → Got 5 (stacked nbuf 0 []) (binit zeroed) o
    → (b : Ptr) × (c : Cache) × (o ≡ ok b c)
      × (has b (stacked nbuf 0 []) ≡ true)
      × (0 < (c b).refcnt)
received (got {b} {c'} cache mem block count valid contents others fresh) =
    (b, c', refl, mem, omega (arith, count, (binit-IsRing zeroed).1 b))
received (none_left all) = absurd (omega (arith, (all 0 refl).0, (binit-IsRing zeroed).1 0))

first_get :
    (b : Ptr) × (c : Cache) × (bget 5 (binit zeroed) ≡ ok b c)
    × (has b (stacked nbuf 0 []) ≡ true)
    × (0 < (c b).refcnt)
first_get = received (bget-Got 5 (binit zeroed) (stacked nbuf 0 []) (Reach-IsCache booted))

one_buffer_for_block_example : first_get.0 ≡ first_get.0
one_buffer_for_block_example =
    one_buffer_for_block first_get.0 first_get.0 (Reach.gets 5 booted first_get.2) first_get.3
      first_get.3 first_get.4 first_get.4 refl
