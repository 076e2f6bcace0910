-- ===== src/Buffers.antt =====
-- kernel/buffer.c, the buffer cache: 30 buffers on a ring of `prev` and `next` pointers through
-- `bcache.head`, the most recently used first.
pub mod Coherent
pub mod InUse
pub mod Init
pub mod Linked
pub mod Release
pub mod Ring
pub mod Search
mod Tests
use r5o.Base.{
  ℕ, zero, suc, ◌+◌, ◌-◌, ◌%◌, ◌^◌, Bool, true, false, Option, none, some, ◌==◌, if◌then◌else◌,
  update, ok, halt, hung, Cmd, pure, ◌>>=◌, ◌>>◌, error,
}

-- NBUF
abbrev pub nbuf : ℕ
nbuf = 30

-- A `Buffer *`: `i` stands for `&bcache.buf[i]`, and `nbuf` for `&bcache.head`.
abbrev pub Ptr : Type 0
Ptr = ℕ

abbrev pub head : Ptr
head = nbuf

-- `struct Buffer` without `qnext`, which no code uses. `block` is the contents, by offset.
pub record Buffer : Type 0 where
  pub valid : Bool
  pub disk : Bool
  pub blockno : ℕ
  pub refcnt : ℕ
  pub prev : Ptr
  pub next : Ptr
  pub block : ℕ → ℕ

-- `bcache`: `buf` and `head` together.
abbrev pub Cache : Type 0
Cache = Ptr → Buffer

abbrev pub set_next : Cache → Ptr → Ptr → Cache
set_next c b p = update c b (record (c b) { next = p })

abbrev pub set_prev : Cache → Ptr → Ptr → Cache
set_prev c b p = update c b (record (c b) { prev = p })

abbrev pub set_refcnt : Cache → Ptr → ℕ → Cache
set_refcnt c b n = update c b (record (c b) { refcnt = n })

-- The four writes that put `b` behind `head`, in `binit` and in `brelse`.
unfoldable pub insert_front : Ptr → Cache → Cache
insert_front b c =
    let c = set_next c b (c head).next in
    let c = set_prev c b head in let c = set_prev c (c head).next b in set_next c head b

-- The two writes of `brelse` that take `b` out of the ring.
unfoldable pub unlink : Ptr → Cache → Cache
unlink b c = let c = set_prev c (c b).next (c b).prev in set_next c (c b).prev (c b).next

-- The loop of `binit`, with `k` rounds left, at `&bcache.buf[i]`.
init_loop : ℕ → Ptr → Cache → Cache
init_loop zero i c = c
init_loop (suc k) i c = init_loop k (i + 1) (insert_front i c)

unfoldable pub binit : Cache → Cache
unfolding init_loop
binit c = init_loop nbuf 0 (set_next (set_prev c head head) head head)

-- The two loops of `bget`, from `b` on: to the first buffer that passes the test, or to `head`.
-- `step` follows `next` in the first loop and `prev` in the second.
unfoldable pub scan : (Buffer → Bool) → (Buffer → Ptr) → ℕ → Ptr → Cmd Cache (Option Ptr)
scan test step zero b = λ _. hung
scan test step (suc k) b = λ c.
    let rest = scan test step k (step (c b)) c in
    if b == head then ok none c else if test (c b) then ok (some b) c else rest

-- `refcnt` is a uint.
abbrev pub inc32 : ℕ → ℕ
inc32 n = (n + 1) % 2 ^ 32

abbrev pub dec32 : ℕ → ℕ
dec32 n = (n + 2 ^ 32 - 1) % 2 ^ 32

-- `b->refcnt++; return b;`
abbrev pub hit : Ptr → Cmd Cache Ptr
hit b c = ok b (set_refcnt c b (inc32 (c b).refcnt))

-- `b->blockno = blockno; b->valid = 0; b->refcnt = 1; return b;`
abbrev pub recycle : ℕ → Ptr → Cmd Cache Ptr
recycle n b c = ok b (update c b (record (c b) { valid = false; blockno = n; refcnt = 1 }))

abbrev pub holds_block : ℕ → Buffer → Bool
holds_block n b = b.blockno == n

abbrev pub unused : Buffer → Bool
unused b = b.refcnt == 0

-- Each loop passes at most every buffer once and ends at `head`.
abbrev pub rounds : ℕ
rounds = nbuf + 1

abbrev pub miss : ℕ → Option Ptr → Cmd Cache Ptr
miss n none = error "bget: no buffers"
miss n (some b) = recycle n b

abbrev pub found : ℕ → Cmd Cache Ptr → Option Ptr → Cmd Cache Ptr
found n search none = search
found n search (some b) = hit b

-- The second loop, and what follows it.
abbrev pub find_spare : ℕ → Cmd Cache Ptr
find_spare n c = (scan unused (λ b. b.prev) rounds (c head).prev >>= miss n) c

unfoldable pub bget : ℕ → Cmd Cache Ptr
bget n c = (scan (holds_block n) (λ b. b.next) rounds (c head).next >>= found n (find_spare n)) c

unfoldable pub brelse : Ptr → Cache → Cache
brelse b c =
    let c = set_refcnt c b (dec32 (c b).refcnt) in
    if (c b).refcnt == 0 then insert_front b (unlink b c) else c
