-- ===== src/Elf/Chain.antt =====
-- The list of kernel/elfReader.c from its head on, as kernel/createProcess.c follows it.
use r5o.Base.{ℕ, ◌+◌, ◌^◌, ◌<◌, ◌≤◌, ◌≡◌, refl, Option, none, some, List, [], ◌∷◌, length, arith}
use r5o.Elf.{Node}
use r5o.Elf.Nodes.{Section, Entry, section, Back, Below}
use r5o.Elf.Reader.Round.{says_of}

-- From pointer `p` along `next`, the nodes say `l`, the first section first.
abbrev pub Chain : (ℕ → Node) → Option ℕ → List Entry → Type 0
Chain f p [] = p ≡ none
Chain f p (x ∷ xs) = (p ≡ some x.node) × (section (f x.node) ≡ x.says) × Chain f (f x.node).next xs

-- Each section takes less than 2^31 bytes of memory.
abbrev pub Sized : List Section → Type 0
Sized [] = Unit {0}
Sized (x ∷ xs) = (x.memsz < 2 ^ 31) × Sized xs

-- The list behind `after` continues the one that leads back from `p`.
pub Back-Chain :
    (f : ℕ → Node) (head after p : Option ℕ) (l rest : List Entry)
    → Back f head after p l
    → Chain f after rest
    → Sized (says_of l)
    → Sized (says_of rest)
    → (all : List Entry) × Chain f head all
      × (length all ≡ length l + length rest)
      × Sized (says_of all)
Back-Chain f head after p [] rest b c small more = (rest, rw b.1 c, omega arith, more)
Back-Chain f head after p (x ∷ xs) rest b c small more =
    let (all, chain, len, fit) =
      Back-Chain f head (some x.node) (f x.node).prev xs (x ∷ rest) b.3 (refl, b.2, rw b.1 c)
        small.1 (small.0, more) in
    (all, chain, omega (arith, len), fit)

pub length-Below : (n : ℕ) (l : List Entry) → Below n l → length l ≤ n
length-Below n [] b = omega arith
length-Below n (x ∷ xs) b = omega (arith, b.0, length-Below x.node xs b.1)
