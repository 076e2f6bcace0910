-- ===== src/BlockIo/Log.antt =====
-- `logData` of kernel/debug.c over any number of blocks.
use mathlib.Core.Path.{subst, fun_ext}
use r5o.Base.{
  ℕ, suc, ◌+◌, ◌*◌, ◌%◌, ◌^◌, ◌<◌, ◌≤◌, ◌≡◌, refl, sym, ap, ◌∙◌, true, false, List, [], ◌∷◌, arith,
  ◌==◌, ltb, if◌then◌else◌, Bool-cases, inl, inr, Outcome, ok, halt, update, and_then,
  and_then_assoc, ◌>>=◌, ◌>>◌, Refines, both_ok, both_halt, length,
}
use r5o.Buffers.{Ptr}
use r5o.Disk.{Disk}
use r5o.Disk.Device.{Serves}
use r5o.BlockIo.{
  Io, bsize, disksize, log_byte, next_log_block, log_loop, log_data, bread, bwrite, release,
}
use r5o.BlockIo.Warm.{Warm}
use r5o.BlockIo.Bread.{Held}
use r5o.BlockIo.Hold.{put_byte-Held}
use r5o.BlockIo.Flat.{Flat, flat, nth, append, Implements}
use r5o.BlockIo.Turn.{Next, turned, ended, block_of, dirty, dirty-fresh, bread-Next, flush}
use r5o.BlockIo.Reads.{copied-none}
use r5o.BlockIo.Writes.{dirty-byte}
use r5o.BlockIo.Text.{after_char, append-char, append-turn}

module _ {device : Disk → Disk} (serves : Serves device) where
  -- What the loop does from a buffer of the log's block with the contents `f` on.
  Loop : List ℕ → Ptr → (ℕ → ℕ) → Io → Type 0
  Loop cs b f s = Refines Implements (log_loop device cs b s) (append cs (dirty s s.block_no f))

  -- What the loop does next, wherever it is in the block.
  Rest : List ℕ → Type 0
  Rest cs =
      (b : Ptr) (l : List Ptr) (f : ℕ → ℕ) (s : Io)
      → Held s.disk l b s.block_no f
      → s.off ≤ bsize
      → Loop cs b f s

  one_char :
      (c : ℕ) (cs : List ℕ) (b : Ptr) (l : List Ptr) (f : ℕ → ℕ) (s : Io)
      → Held s.disk l b s.block_no f
      → s.off < bsize
      → Rest cs
      → Refines Implements
          ((log_byte device b c >> log_loop device cs b) s)
          (append (c ∷ cs) (dirty s s.block_no f))
  unfolding Loop Rest
  one_char c cs b l f s h lt rest =
      let (d, e, h', m) = put_byte-Held s h s.off c lt in
      let s' : Io = record s { disk = d; off = s.off + 1 } in
      let put : dirty s' s.block_no (update f s.off c) ≡ after_char c (dirty s s.block_no f) =
        ap (λ (g : ℕ → ℕ). record (flat s) { disk = g; off = s.off + 1 })
          (fun_ext (dirty-byte s s' s.block_no s.off c f lt m)) in
      let next : (s.off + 1) % 2 ^ 64 ≡ s.off + 1 = omega arith in
      let go =
        subst (λ r. Refines Implements (log_loop device cs b s') r)
          (ap (append cs) put ∙ append-char c cs (dirty s s.block_no f) lt)
          (rest b l (update f s.off c) s' h' (omega arith)) in
      subst
        (λ o.
          Refines Implements
            (and_then (and_then o (λ _ s. ok tt (record s { off = (s.off + 1) % 2 ^ 64 })))
              (λ _. log_loop device cs b))
            (append (c ∷ cs) (dirty s s.block_no f)))
        (sym e) (rw next go)

  onward :
      (c : ℕ) (cs : List ℕ) (m : ℕ) (t : Flat) {o : Outcome Io Ptr}
      → Next "logData" m t o
      → t.block_no ≡ m
      → t.off ≡ 0
      → Rest cs
      → Refines Implements
          (and_then o (λ b. log_byte device b c >> log_loop device cs b))
          (append (c ∷ cs) t)
  unfolding append
  onward c cs m t (turned {b = b} {s = s} {l = l} h same) at start rest =
      let at' : s.block_no ≡ m = cc (same, at) in
      let h' = subst (λ n. Held s.disk l b n (block_of s.disk.medium n)) (sym at') h in
      let start' : s.off ≡ 0 = cc (same, start) in
      subst
        (λ t.
          Refines Implements ((log_byte device b c >> log_loop device cs b) s) (append (c ∷ cs) t))
        (dirty-fresh s s.block_no ∙ same)
        (one_char c cs b l (block_of s.disk.medium s.block_no) s h' (omega (arith, start')) rest)
  onward c cs m t (ended gone) at start rest =
      let out : ltb (disksize * bsize) (t.block_no * bsize + t.off + suc (length cs)) ≡ true =
        ground arith in
      rw out both_halt

  -- Opening the next block of the log, from the state in which the last one is released.
  abbrev open_next : Io → Outcome Io Ptr
  open_next s =
      let n = (s.block_no + 1) % 2 ^ 64 in
      let s' : Io = record s { block_no = n; off = 0 } in
      if n == disksize then halt "logData" else bread device (n % 2 ^ 32) s'

  open_next-Next :
      (l : List Ptr) (s : Io)
      → Warm (λ i. 0) s.disk l
      → s.block_no < disksize
      → Next "logData"
          (s.block_no + 1)
          (record (flat s) { block_no = s.block_no + 1; off = 0 })
          (open_next s)
  open_next-Next l s w lt =
      let e : (s.block_no + 1) % 2 ^ 64 ≡ s.block_no + 1 = omega arith in
      let e' : (s.block_no + 1) % 2 ^ 32 ≡ s.block_no + 1 = omega arith in
      let s' : Io = record s { block_no = s.block_no + 1; off = 0 } in
      rw e (elim (Bool-cases (s.block_no + 1 == disksize)) [
        | inl last ↦ rw last (ended (ground arith))
        | inr more ↦
            rw (more, e') (bread-Next serves "logData" (s.block_no + 1) l s' w (ground arith))
      ])

  crossing :
      (c : ℕ) (cs : List ℕ) (b : Ptr) (l : List Ptr) (f : ℕ → ℕ) (s : Io)
      → Held s.disk l b s.block_no f
      → s.off ≡ bsize
      → Rest cs
      → Refines Implements
          ((next_log_block device b >>= (λ b. log_byte device b c >> log_loop device cs b)) s)
          (append (c ∷ cs) (dirty s s.block_no f))
  crossing c cs b l f s h full rest =
      let (s', e, i) = flush serves b s.block_no f l s h in
      let t = dirty s s.block_no f in
      let go =
        onward c cs (s'.block_no + 1) (record (flat s') { block_no = s'.block_no + 1; off = 0 })
          (open_next-Next i.ring s' i.warm (ground (arith, h.low, ap (λ r. r.block_no) i.same)))
          refl refl rest in
      let same : append (c ∷ cs) (record (flat s') { block_no = s'.block_no + 1; off = 0 })
          ≡ append (c ∷ cs) t =
        ap (λ (t : Flat). append (c ∷ cs) (record t { block_no = t.block_no + 1; off = 0 })) i.same
        ∙ append-turn c cs t
        ∙ ap (λ n. append (c ∷ cs) (record t { off = n })) (sym full) in
      let chars : Ptr → Io → Outcome Io (Unit {0}) =
        λ b. log_byte device b c >> log_loop device cs b in
      subst (λ o. Refines Implements (and_then o chars) (append (c ∷ cs) t))
        (sym (ap (λ o. and_then o (λ _. open_next)) e)
          ∙ and_then_assoc (bwrite device b s) (λ _. release b) (λ _. open_next))
        (subst (λ r. Refines Implements (and_then (open_next s') chars) r) same go)

  log_loop-Refines : (cs : List ℕ) → Rest cs
  unfolding Loop Rest log_loop append
  log_loop-Refines [] b l f s h le =
      let (s', e, i) = flush serves b s.block_no f l s h in
      let inside : ltb (disksize * bsize) (s.block_no * bsize + s.off + 0) ≡ false =
        ground (arith, h.low) in
      rw (inside, copied-none (dirty s s.block_no f).disk (nth []) (s.block_no * bsize + s.off) 0)
        (subst (λ o. Refines Implements o (ok tt (dirty s s.block_no f))) (sym e) (both_ok i))
  log_loop-Refines (c ∷ cs) b l f s h le = elim (Bool-cases (s.off == bsize)) [
    | inl full ↦ rw full (crossing c cs b l f s h (ground arith) (log_loop-Refines cs))
    | inr room ↦ rw room (one_char c cs b l f s h (ground arith) (log_loop-Refines cs))
  ]

  -- `logData` puts the text at the position of the log, over as many blocks as it takes, moves the
  -- position behind it, leaves all other bytes of the disk, and keeps the cache in step with the
  -- disk; or it stops with its message where the text goes beyond the last block.
  pub log_data-Refines :
      (text : List ℕ) (s : Io) (t : Flat)
      → t.block_no < disksize
      → t.off ≤ bsize
      → Implements s t
      → Refines Implements (log_data device text s) (append text t)
  unfolding log_data append Loop Rest
  log_data-Refines text s t lt le i =
      let same : flat s ≡ t = i.same in
      let bound : s.block_no < disksize = omega (arith, ap (λ r. r.block_no) same) in
      let small : s.block_no % 2 ^ 32 ≡ s.block_no = omega arith in
      rw small (
        subst
          (λ t.
            Refines Implements (and_then (bread device s.block_no s) (λ b. log_loop device text b))
              (append text t))
          same (go (bread-Next serves "logData" s.block_no i.ring s i.warm bound) bound))
    where
      go :
          {o : Outcome Io Ptr}
          → Next "logData" s.block_no (flat s) o
          → s.block_no < disksize
          → Refines Implements (and_then o (λ b. log_loop device text b)) (append text (flat s))
      go (turned {b} {s = s'} {l} h e) bound =
          let at : s'.block_no ≡ s.block_no = ap (λ r. r.block_no) e in
          let h' = subst (λ n. Held s'.disk l b n (block_of s'.disk.medium n)) (sym at) h in
          let off : s'.off ≤ bsize = omega (arith, ap (λ r. r.off) e, ap (λ r. r.off) i.same) in
          subst (λ t. Refines Implements (log_loop device text b s') (append text t))
            (dirty-fresh s' s'.block_no ∙ e)
            (log_loop-Refines text b l (block_of s'.disk.medium s'.block_no) s' h' off)
      go (ended gone) bound = absurd (omega arith)
