-- ===== src/Disk/Answers.antt =====
-- `diskIntr` of kernel/disk.c on any number of requests that the device has answered.
use r5o.Base.{
  ℕ, zero, suc, ◌+◌, ◌-◌, ◌%◌, ◌<◌, ◌≡◌, ◌≢◌, refl, ap, ◌∙◌, true, false, some, List, [], ◌∷◌,
  arith, ◌==◌, leb, ◌&&◌, if◌then◌else◌, has, length, update, ok,
}
use r5o.Buffers.{Ptr, Buffer, Cache}
use r5o.Disk.{Disk, num, set_owner, intr_loop, disk_intr}

-- From element `i` of the used ring on, the device has answered requests for the buffers, with success.
abbrev pub Answers : Disk → ℕ → List Ptr → Type 0
Answers s i [] = i ≡ s.used_id % num
Answers s i (b ∷ bs) =
    (i ≢ s.used_id % num)
    × (s.elems i < num)
    × (s.info_status (s.elems i) ≡ 0)
    × (s.info_b (s.elems i) ≡ some b)
    × Answers s ((i + 1) % num) bs

-- The buffers after the device is done with those in the list.
abbrev pub given_back : List Ptr → Cache → Cache
given_back [] c = c
given_back (b ∷ bs) c = given_back bs (update c b (record (c b) { disk = false }))

Answers-length :
    (s : Disk) (i : ℕ) (bs : List Ptr)
    → i < num
    → Answers s i bs
    → length bs ≡ (s.used_id % num + num - i) % num
Answers-length s i [] lt a = omega arith
Answers-length s i (b ∷ bs) lt a =
    omega (arith, a.0, Answers-length s ((i + 1) % num) bs (omega arith) a.4)

intr_loop-given_back :
    (k : ℕ) (s : Disk) (bs : List Ptr)
    → s.used_idx < num
    → length bs < k
    → Answers s s.used_idx bs
    → intr_loop k s ≡ ok tt (record s { used_idx = s.used_id % num; cache = given_back bs s.cache })
unfolding intr_loop
intr_loop-given_back zero s bs lt fuel a = ground arith
intr_loop-given_back (suc k) s [] lt fuel a =
    let done : (s.used_idx % num == s.used_id % num) ≡ true = ground (arith, a) in rw done (cc)
intr_loop-given_back (suc k) s (b ∷ bs) lt fuel (ne, small, status, info, a) =
    let pending : (s.used_idx % num == s.used_id % num) ≡ false = ground arith in
    let inside : (leb (s.used_idx + 1) num && leb (s.elems s.used_idx + 1) num) ≡ true =
      ground arith in
    rw (pending, inside, status, info)
      (intr_loop-given_back k (record (set_owner b false s) { used_idx = (s.used_idx + 1) % num })
        bs (omega arith) (omega arith) a)

given_back-at :
    (bs : List Ptr) (c : Cache) (q : Ptr)
    → given_back bs c q ≡ (if has q bs then record (c q) { disk = false } else c q)
given_back-at [] c q = refl
given_back-at (b ∷ bs) c q =
    given_back-at bs (update c b (record (c b) { disk = false })) q
    ∙ ground (arith, ap (λ (x : Buffer). record x { disk = false }))

-- `diskIntr`, where every answer that it has not seen is a success and names a descriptor and a
-- buffer in range, returns, having read each answer once: exactly the buffers that the answers are
-- for are no longer the device's.
pub disk_intr-Answers :
    (s : Disk) (bs : List Ptr)
    → s.used_idx < num
    → Answers s s.used_idx bs
    → (t : Disk) × (disk_intr s ≡ ok tt t)
      × (t.used_idx ≡ s.used_id % num)
      × ((q : Ptr)
          → t.cache q ≡ (if has q bs then record (s.cache q) { disk = false } else s.cache q))
unfolding disk_intr
disk_intr-Answers s bs lt a = (
  record s { used_idx = s.used_id % num; cache = given_back bs s.cache },
  intr_loop-given_back (num + 1) s bs lt (omega (arith, Answers-length s s.used_idx bs lt a)) a,
  refl,
  given_back-at bs s.cache,
)
