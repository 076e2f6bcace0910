-- ===== src/Interrupts/Tests.antt =====
-- Examples for kernel/interruptHandler.c, with a uart that is the list of the characters that are
-- waiting, and a PLIC that is the number of the device that interrupts.
use r5o.Base.{
  ℕ, ◌==◌, if◌then◌else◌, ◌%◌, ◌^◌, ◌+◌, refl, ◌≡◌, ◌<◌, bit_and, true, false, some, List, [], ◌∷◌,
  arith,
}
use r5o.Disk.{Disk, null}
use r5o.Console.{Console}
use r5o.Console.Edit.{Text, Holds}
use r5o.Interrupts.{Board, kernel_interrupt_handler}
use r5o.Interrupts.Handle.{Receives, Handled, kernel_interrupt_handler-Handled}

abbrev lsr : List ℕ → ℕ
lsr [] = 0x60
lsr (c ∷ cs) = 0x61

abbrev rhr : List ℕ → ℕ × List ℕ
rhr [] = (0, [])
rhr (c ∷ cs) = (c % 256, cs)

abbrev waiting : List ℕ → List ℕ
waiting [] = []
waiting (c ∷ cs) = c % 256 ∷ waiting cs

list-nothing : (u : List ℕ) → waiting u ≡ [] → bit_and (lsr u) 1 ≡ 0
list-nothing [] e = refl
list-nothing (c ∷ cs) e = cc

list-something : (u : List ℕ) (c : ℕ) (cs : List ℕ) → waiting u ≡ c ∷ cs → bit_and (lsr u) 1 ≡ 1
list-something [] c cs e = cc
list-something (x ∷ xs) c cs e = refl

list-first : (u : List ℕ) (c : ℕ) (cs : List ℕ) → waiting u ≡ c ∷ cs → (rhr u).0 ≡ c
list-first [] c cs e = cc
list-first (x ∷ xs) c cs e = cc

list-left : (u : List ℕ) (c : ℕ) (cs : List ℕ) → waiting u ≡ c ∷ cs → waiting (rhr u).1 ≡ cs
list-left [] c cs e = cc
list-left (x ∷ xs) c cs e = cc

list-bytes : (u : List ℕ) → (rhr u).0 < 256
list-bytes [] = omega arith
list-bytes (x ∷ xs) = omega arith

list-Receives : Receives lsr rhr waiting
list-Receives = record {
  nothing = list-nothing;
  something = list-something;
  first = list-first;
  left = list-left;
  bytes = list-bytes;
}

abbrev claim : ℕ → ℕ × ℕ
claim p = (p, p)

-- A line that is still up raises the interrupt again.
abbrev complete : ℕ → List ℕ → Disk → ℕ → ℕ
complete irq [] d p = if irq == p then 0 else p
complete irq (c ∷ cs) d p = p

-- "hi", being edited behind an input of one newline.
abbrev typing : Console
typing = record {
  buf = λ i. if i == 0 then 10 else if i == 1 then 104 else 105;
  r = 0;
  w = 1;
  e = 3;
  error_occurred = false;
  sent = [];
}

abbrev hi : Text
hi = record { line = 105 ∷ 104 ∷ []; input = 10 ∷ [] }

typing-Holds : Holds typing hi
typing-Holds = record {
  alive = refl;
  write = refl;
  edit = refl;
  room = omega arith;
  no_wrap = omega arith;
  behind = (refl, (refl, (refl, tt)));
  one_line = refl;
}

-- One request, for buffer 2, is answered.
abbrev answered_disk : Disk
answered_disk = record {
  desc = λ i. record { addr = null; len = 0; flags = 0; next = 0 };
  avail = λ i. 0;
  used_id = 1;
  elems = λ i. 0;
  free = λ i. true;
  used_idx = 0;
  info_b = λ i. some 2;
  info_status = λ i. 0;
  header_type = 0;
  header_sector = 0;
  cache = λ b. record {
    valid = false;
    disk = true;
    blockno = 7;
    refcnt = 1;
    prev = 0;
    next = 0;
    block = λ i. i;
  };
  csr = record { mstatus = 0; mie = 0; mtvec = 0; mepc = 0; mcause = 0; satp = 0 };
  medium = λ a. a % 256;
}

-- The character 33 and control-d are waiting.
abbrev board : Board (List ℕ) ℕ
board = record {
  console = typing;
  disk = answered_disk;
  csr = record { mstatus = 8; mie = 2 ^ 11; mtvec = 0; mepc = 0; mcause = 2 ^ 63 + 11; satp = 0 };
  uart = 33 ∷ 4 ∷ [];
  plic = 10;
}

kernel_interrupt_handler-Handled_example :
    Handled list-Receives claim complete board hi
      (2 ∷ [])
      (kernel_interrupt_handler lsr rhr claim complete 3 board)
kernel_interrupt_handler-Handled_example =
    kernel_interrupt_handler-Handled list-Receives claim complete 3 board hi (2 ∷ []) (omega arith)
      typing-Holds (omega arith) ((λ e. omega arith), omega arith, refl, refl, refl)
