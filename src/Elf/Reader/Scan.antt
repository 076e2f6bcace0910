-- ===== src/Elf/Reader/Scan.antt =====
-- The loop of `elfReader`, kernel/elfReader.c, over the program headers.

use mathlib.Core.Path.{subst}
use r5o.Base.{
  ℕ, zero, suc, ◌+◌, ◌*◌, ◌/◌, ◌%◌, ◌^◌, ◌<◌, ◌≤◌, ◌≡◌, refl, sym, ap, ◌∙◌, Bool, true, false, List,
  ◌∷◌, ltb, if◌then◌else◌, Bool-cases, inl, inr, little, arith, Outcome, ok, halt, and_then, ◌>>◌,
  pure,
}
use r5o.Disk.{Disk}
use r5o.Disk.Device.{Serves}
use r5o.BlockIo.{Io, bsize, disksize, read_bytes}
use r5o.BlockIo.Fetch.{Fetched, fetched, ends, read_bytes-Fetched}
use r5o.Elf.Nodes.{Section}
use r5o.Elf.Reader.{Reader, on_io, take_section, header_loop, proghdr_size, bump}
use r5o.Elf.Reader.Image.{Scan, gives, refuses, runs_out, section_at, passed, scan_headers}
use r5o.Elf.Reader.Round.{
  Calm, Found, Header, Taken, skipped, refused, taken, bumped, bump-Found, take_section-Taken,
}

-- What the loop comes to: `flag`, with the list; or the message.
pub data Flagged (d : ℕ → ℕ) (entry : ℕ) : Scan → Outcome Reader Bool → Type 0 where
  flag_set :
      {s : Reader} {cnt : ℕ} {l : List Section}
      → Found d entry s cnt l
      → Flagged d entry (gives l) (ok true s)
  flag_clear : {s : Reader} → Calm d s → Flagged d entry refuses (ok false s)
  stopped : Flagged d entry runs_out (halt "readBytes: block exceeds disk size")

module _ {device : Disk → Disk} (serves : Serves device) (elf ph limit : ℕ) where
  -- The loop on `k` headers, from byte `p` of the disk on, in block `block`.
  unfoldable pub LoopFrom : (ℕ → ℕ) → ℕ → ℕ → ℕ → ℕ → Type 0
  LoopFrom d entry k block off =
      (cnt : ℕ) (found : List Section) (s : Reader)
      → Found d entry s cnt found
      → Flagged d entry (scan_headers d limit k (block * bsize + off) cnt found)
          (header_loop device elf ph limit k block off s)

  -- The rest of a round, once the header is in `ph`.
  after_section :
      {d : ℕ → ℕ} {entry cnt : ℕ} {found : List Section} (k block off : ℕ) {o : Outcome Reader Bool}
      → Taken d entry cnt found (block * bsize + off) o
      → ltb limit (block * bsize + off) ≡ false
      → ltb (disksize * bsize) (block * bsize + off + proghdr_size) ≡ false
      → LoopFrom d entry k block (off + proghdr_size)
      → Flagged d entry (scan_headers d limit (suc k) (block * bsize + off) cnt found) (
          and_then o (λ flag.
            if flag
            then bump >> header_loop device elf ph limit k block (off + proghdr_size)
            else pure false))
  unfolding LoopFrom scan_headers
  after_section {d} {entry} {cnt} {found} k block off (skipped {s = s} e f) below room rest =
      let at : block * bsize + (off + proghdr_size) ≡ block * bsize + off + proghdr_size =
        omega arith in
      rw (below, room, e)
        (subst
          (λ p.
            Flagged d entry (scan_headers d limit k p (cnt + 1) found)
              (header_loop device elf ph limit k block (off + proghdr_size) (bumped s)))
          at (rest (cnt + 1) found (bumped s) (bump-Found f)))
  after_section k block off (refused e u calm) below room rest =
      rw (below, room, e, u) (flag_clear calm)
  after_section {d} {entry} {cnt} {found} k block off (taken {s = s} e u f) below room rest =
      let at : block * bsize + (off + proghdr_size) ≡ block * bsize + off + proghdr_size =
        omega arith in
      let l = section_at d (block * bsize + off) ∷ found in
      rw (below, room, e, u)
        (subst
          (λ p.
            Flagged d entry (scan_headers d limit k p (passed cnt found + 1) l)
              (header_loop device elf ph limit k block (off + proghdr_size) (bumped s)))
          at (rest (passed cnt found + 1) l (bumped s) (bump-Found f)))

  after_header :
      {d : ℕ → ℕ} {entry cnt : ℕ} {found : List Section} (k block off : ℕ) (s : Reader)
      {o : Outcome Io (Unit {0})}
      → Fetched d block off proghdr_size ph o
      → off < bsize
      → Found d entry s cnt found
      → ltb limit (block * bsize + off) ≡ false
      → (block < disksize → LoopFrom d entry k block (off + proghdr_size))
      → Flagged d entry (scan_headers d limit (suc k) (block * bsize + off) cnt found) (
          and_then (and_then (on_io s o) (λ _. take_section device elf ph)) (λ flag.
            if flag
            then bump >> header_loop device elf ph limit k block (off + proghdr_size)
            else pure false))
  unfolding scan_headers
  after_header {d} {entry} {cnt} {found} k block off s (fetched {s = t} i same reads within) lt f
        below rest =
      let p = block * bsize + off in
      let s' : Reader = record s { io = t } in
      let zero_off : (a : ℕ) → a + 0 ≡ a = λ a. omega arith in
      let header : Header t.bytes d ph p = record {
        type =
            ap (little 4 t.bytes) (sym (zero_off ph))
            ∙ reads 4 0 (omega arith)
            ∙ ap (little 4 d) (zero_off p);
        off = reads 8 8 (omega arith);
        vaddr = reads 8 16 (omega arith);
        filesz = reads 8 32 (omega arith);
        memsz = reads 8 40 (omega arith);
      } in
      let found' : Found d entry s' cnt found = record {
        calm = record { bytes = i; disk = same };
        entries = f.entries;
        lists = f.lists;
        says = f.says;
        count = f.count;
        entry = f.entry;
        inside = f.inside;
      } in
      after_section k block off (take_section-Taken device elf ph p s' found' header) below
        (ground arith) (rest (ground arith))
  after_header k block off s (ends out) lt f below rest =
      let out' : ltb (disksize * bsize) (block * bsize + off + proghdr_size) ≡ true =
        ground arith in
      rw (below, out') stopped

  scan_headers-past :
      (d : ℕ → ℕ) (k p cnt : ℕ) (found : List Section)
      → ltb limit p ≡ true
      → refuses ≡ scan_headers d limit (suc k) p cnt found
  unfolding scan_headers
  scan_headers-past d k p cnt found past = rw past refl

  scan_headers-end :
      (d : ℕ → ℕ) (entry p cnt : ℕ) (found : List Section) (s : Reader)
      → Found d entry s cnt found
      → Flagged d entry (scan_headers d limit 0 p cnt found) (ok true s)
  unfolding scan_headers
  scan_headers-end d entry p cnt found s f = flag_set f

  pub header_loop-Flagged :
      (d : ℕ → ℕ) (entry k block off : ℕ)
      → block ≤ disksize
      → off < 2 ^ 31
      → LoopFrom d entry k block off
  unfolding LoopFrom header_loop
  header_loop-Flagged d entry zero block off low small cnt found s f =
      scan_headers-end d entry (block * bsize + off) cnt found s f
  header_loop-Flagged d entry (suc k) block off low small cnt found s f =
      let nonneg : ltb off (2 ^ 31) ≡ true = ground arith in
      let nonneg' : ltb (off % bsize) (2 ^ 31) ≡ true = ground arith in
      let block' = block + off / bsize in
      let off' = off % bsize in
      let at_block : (block + off / bsize) % 2 ^ 64 ≡ block' = omega arith in
      let at_off : (off' + proghdr_size) % 2 ^ 32 ≡ off' + proghdr_size = omega arith in
      let at : block * bsize + off ≡ block' * bsize + off' = omega arith in
      let at' : (block' * bsize + off') % 2 ^ 64 ≡ block' * bsize + off' = omega arith in
      rw (nonneg, nonneg', at_block, at_off, at, at')
        (elim (Bool-cases (ltb limit (block' * bsize + off'))) [
          | inl past ↦ rw past (
              subst (λ r. Flagged d entry r (ok false s))
                (scan_headers-past d k (block' * bsize + off') cnt found past) (flag_clear f.calm))
          | inr below ↦ rw below (
              after_header {cnt = cnt} {found = found} k block' off' s
                (subst
                  (λ g.
                    Fetched g block' off' proghdr_size ph
                      (read_bytes device block' off' proghdr_size ph s.io))
                  f.calm.disk
                  (read_bytes-Fetched serves block' off' proghdr_size ph s.io (omega arith)
                    f.calm.bytes))
                (omega arith) f below
                (λ lt.
                  header_loop-Flagged d entry k block' (off' + proghdr_size) (omega arith)
                    (omega arith)))
        ])
