-- ===== src/Loader/Load.antt =====
-- `programLoader` of kernel/createProcess.c.

use r5o.Base.{
  ℕ, ◌^◌, ◌<◌, ◌≤◌, ◌≡◌, ◌≢◌, refl, Bool, Option, none, List, [], length, arith, Outcome, and_then,
  Ends, ends_ok, ends_halt, ok, halt, ap, sym, suc, ◌∷◌, true, false,
}
use Prim.Native.String.{String}
use mathlib.Core.Path.{subst}
use r5o.Disk.{Disk}
use r5o.Disk.Device.{Serves}
use r5o.BlockIo.{bsize}
use r5o.BlockIo.Flat.{flat, Implements}
use r5o.PageAlloc.Stack.{Holds}
use r5o.Elf.{elfsize, Node}
use r5o.Elf.Nodes.{Section, Entry}
use r5o.Elf.Chain.{Chain, Sized, Back-Chain, length-Below}
use r5o.Elf.Reader.{Reader}
use r5o.Elf.Reader.Round.{says_of}
use r5o.Elf.Reader.Image.{Scan, gives, refuses, runs_out, start, headers_from, scan_file}
use r5o.Elf.Reader.Listed.{Listed, listed, null, too_short, elf_reader-Listed}
use r5o.Process.{Machine}
use r5o.Loader.{System, on_reader, when_listed, program_loader}
use r5o.Loader.Steps.{LoadFailure, Loading, load_program-Ends}

-- Before and after: the driver is at rest, and the allocator well-formed.
pub record Settled (m : Machine) (pid : ℕ) (s : System) : Type 0 where
  pub bytes : Implements s.reader.io (flat s.reader.io)
  pub free : List ℕ
  pub holds : Holds s.alloc free
  pub others : (q : ℕ) → q ≢ pid → s.machine.pd q ≡ m.pd q
  pub current : s.machine.current_process ≡ m.current_process

-- Each section that is listed takes less than 2^31 bytes of memory.
abbrev pub Countable : Scan → Type 0
Countable (gives l) = Sized l
Countable refuses = Unit {0}
Countable runs_out = Unit {0}

-- What `programLoader` comes to, for what its file lists. It says that it has loaded the program
-- where there is a section, unless it stops on the way; it says that it has not where none is
-- listed or the file is refused.
pub data Loaded (m : Machine) (pid : ℕ) : Scan → Outcome System Bool → Type 0 where
  whole :
      {x : Section} {xs : List Section} {t : System}
      → Settled m pid t
      → Loaded m pid (gives (x ∷ xs)) (ok true t)
  empty : {t : System} → Settled m pid t → Loaded m pid (gives []) (ok false t)
  refused : {t : System} → Settled m pid t → Loaded m pid refuses (ok false t)
  short : Loaded m pid runs_out (halt "readBytes: block exceeds disk size")
  failed :
      {x : Section} {xs : List Section} {e : String}
      → LoadFailure e
      → Loaded m pid (gives (x ∷ xs)) (halt e)

length-says_of : (l : List Entry) → length (says_of l) ≡ length l
length-says_of [] = refl
length-says_of (x ∷ xs) = ap suc (length-says_of xs)

module _ {device : Disk → Disk} (serves : Serves device) (elf ph : ℕ) where
  pub program_loader-Loaded :
      (block off end_block end_off pid : ℕ) (s : System)
      → Settled s.machine pid s
      → off ≤ bsize
      → headers_from s.reader.io.disk.medium block off < 2 ^ 31
      → Countable (scan_file s.reader.io.disk.medium block off end_block end_off)
      → Loaded s.machine pid
          (scan_file s.reader.io.disk.medium block off end_block end_off)
          (program_loader device elf ph block off end_block end_off pid s)
  unfolding program_loader
  program_loader-Loaded block off end_block end_off pid s h le near fits =
      go fits (elf_reader-Listed serves elf ph block off end_block end_off s.reader h.bytes le near)
    where
      settled :
          {nodes : ℕ → Node} {t : System} → Loading s.machine pid nodes t → Settled s.machine pid t
      settled k = record {
        bytes = k.bytes;
        free = k.free;
        holds = k.holds;
        others = k.others;
        current = k.current;
      }

      told :
          {x : Section} {xs : List Section} {nodes : ℕ → Node} {o : Outcome System Bool}
          → Ends LoadFailure (λ (told : Bool) t. (told ≡ true) × Loading s.machine pid nodes t) o
          → Loaded s.machine pid (gives (x ∷ xs)) o
      told (ends_ok {a = true} k) = whole (settled k.1)
      told (ends_ok {a = false} k) = absurd (cc k.0)
      told (ends_halt e) = failed e

      when_listed-Loaded :
          (p : Option ℕ) (all : List Entry) (l : List Section) (t : System)
          → Chain t.reader.sections.nodes p all
          → Sized (says_of all)
          → length all ≡ length l
          → length all ≤ elfsize
          → Loading s.machine pid t.reader.sections.nodes t
          → Loaded s.machine pid (gives l) (when_listed device elf ph block off pid p t)
      when_listed-Loaded p [] [] t c fit len le k = rw c (empty (settled k))
      when_listed-Loaded p [] (y ∷ ys) t c fit len le k = absurd (omega (arith, len))
      when_listed-Loaded p (x ∷ xs) [] t c fit len le k = absurd (omega (arith, len))
      when_listed-Loaded p (x ∷ xs) (y ∷ ys) t c fit len le k = rw c.0 (
          told
            (load_program-Ends serves elf ph block off x.node (x ∷ xs) (refl, c.1, c.2) le fit t k))

      go :
          {r : Scan} {o : Outcome Reader (Unit {0})}
          → Countable r
          → Listed s.reader.io.disk.medium (start block off) r o
          → Loaded s.machine pid r (
              and_then
                (on_reader s o)
                (λ _ t. when_listed device elf ph block off pid t.reader.sections.head t))
      go fits (listed {s = t} {l = l} f) =
          let (all, chain, len, fit) =
            Back-Chain t.sections.nodes t.sections.head none t.sections.tail f.entries []
              f.lists.linked refl (subst Sized (sym f.says) fits) tt in
          when_listed-Loaded t.sections.head all l (record s { reader = t }) chain fit
            (omega (arith, len, length-says_of f.entries, ap length f.says))
            (omega (arith, len, length-Below elfsize f.entries f.inside))
            (record {
              bytes = f.calm.bytes;
              free = h.free;
              holds = h.holds;
              same = refl;
              others = h.others;
              current = h.current;
            })
      go fits (null {s = t} calm head tail) = rw head (
          refused (record {
            bytes = calm.bytes;
            free = h.free;
            holds = h.holds;
            others = h.others;
            current = h.current;
          }))
      go fits too_short = short
