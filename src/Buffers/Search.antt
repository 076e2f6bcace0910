-- ===== src/Buffers/Search.antt =====
-- `bget` of kernel/buffer.c: its two loops find the first match of a list.

use mathlib.Core.List.{reverse, reverse_aux}
use r5o.Base.{
  first, ℕ, zero, suc, ◌+◌, ◌<◌, ◌≤◌, ◌≡◌, refl, Bool, false, ◌||◌, List, [], ◌∷◌, arith, has,
  length, Option, none, some, ok, halt, Cmd, ◌∙◌, ap, and_then,
}
use r5o.Buffers.{
  nbuf, Ptr, head, Buffer, Cache, scan, hit, recycle, miss, found, holds_block, unused, rounds,
  find_spare, bget,
}
use r5o.Buffers.Linked.{Linked, Linked-reverse}
use r5o.Buffers.Ring.{nexts, prevs, IsRing}

scan-first :
    (test : Buffer → Bool) (step : Buffer → Ptr) (back : Ptr → Ptr) (c : Cache) (k : ℕ) (a : Ptr)
    (l : List Ptr)
    → Linked (λ i. step (c i)) back a l head
    → has head l ≡ false
    → length l < k
    → scan test step k (step (c a)) c ≡ ok (first (λ i. test (c i)) l) c
unfolding scan
scan-first test step back c zero a l h out fits = absurd (omega arith)
scan-first test step back c (suc k) a [] h out fits = rw h.0
scan-first test step back c (suc k) a (x ∷ xs) h out fits =
    rw h.0 (ground (arith, scan-first test step back c k x xs h.2 (ground arith) (omega arith)))

length-reverse_aux : (xs ys : List Ptr) → length (reverse_aux xs ys) ≡ length xs + length ys
length-reverse_aux [] ys = omega arith
length-reverse_aux (x ∷ xs) ys = omega (arith, length-reverse_aux xs (x ∷ ys))

pub has-reverse_aux :
    (a : Ptr) (xs ys : List Ptr) → has a (reverse_aux xs ys) ≡ (has a xs || has a ys)
has-reverse_aux a [] ys = refl
has-reverse_aux a (x ∷ xs) ys = ground (arith, has-reverse_aux a xs (x ∷ ys))

-- What `bget` promises: the most recently used buffer that holds block `n`, with one reference
-- more; without one, the least recently used buffer that nobody references, for block `n`, its
-- contents not valid yet; without that, the message.
unfoldable pub replaced : ℕ → Option Ptr → Cmd Cache Ptr
replaced n none c = halt "bget: no buffers"
replaced n (some b) c = recycle n b c

unfoldable pub choose : ℕ → Option Ptr → Option Ptr → Cmd Cache Ptr
unfolding replaced
choose n (some b) spare = hit b
choose n none spare = replaced n spare

unfoldable pub get_block : ℕ → List Ptr → Cmd Cache Ptr
unfolding choose
get_block n l c =
    choose n (first (λ i. holds_block n (c i)) l) (first (λ i. unused (c i)) (reverse l)) c

miss-replaced : (n : ℕ) (o : Option Ptr) (c : Cache) → and_then (ok o c) (miss n) ≡ replaced n o c
unfolding replaced
miss-replaced n none c = refl
miss-replaced n (some b) c = refl

found-choose :
    (n : ℕ) (o spare : Option Ptr) (search : Cmd Cache Ptr) (c : Cache)
    → search c ≡ replaced n spare c
    → and_then (ok o c) (found n search) ≡ choose n o spare c
unfolding choose
found-choose n none spare search c h = h
found-choose n (some b) spare search c h = refl

-- `bget` is that choice among the buffers of the ring: its loops end, and follow no pointer out of
-- the ring.
pub bget_lem :
    (n : ℕ) (c : Cache) (l : List Ptr) → IsRing c l → length l ≤ nbuf → bget n c ≡ get_block n l c
unfolding bget get_block
bget_lem n c l r fits =
    let forth =
      scan-first (holds_block n) (λ b. b.next) (prevs c) c rounds head l r.chain r.distinct.0
        (omega arith) in
    let back =
      scan-first unused (λ b. b.prev) (nexts c) c rounds head (reverse l)
        (Linked-reverse (nexts c) (prevs c) head l r.chain)
        (has-reverse_aux head l [] ∙ ground (arith, r.distinct.0))
        (omega (arith, length-reverse_aux l [])) in
    ap (λ m. and_then m (found n (find_spare n))) forth
    ∙ found-choose n (first (λ i. holds_block n (c i)) l) (first (λ i. unused (c i)) (reverse l))
        (find_spare n) c
        (ap (λ m. and_then m (miss n)) back
          ∙ miss-replaced n (first (λ i. unused (c i)) (reverse l)) c)
