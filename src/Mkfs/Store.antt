-- ===== src/Mkfs/Store.antt =====
-- Where `storeProgram` of mkfs/r5o5_mkfs.c puts a program.
use mathlib.Core.Path.{subst}
use r5o.Base.{
  ℕ, zero, suc, ◌+◌, ◌-◌, ◌*◌, ◌/◌, ◌%◌, ◌<◌, ◌≤◌, ◌≡◌, refl, sym, ap, ◌∙◌, Bool, true, false, some,
  List, [], ◌∷◌, ◌==◌, leb, if◌then◌else◌, length, arith, ok, ok-injective,
}
use r5o.BlockIo.Flat.{copied, nth}
use r5o.BlockIo.Reads.{copied-none}
use r5o.BlockIo.Text.{text-first}
use r5o.Mkfs.{
  block_size, disk_size, proc_end, byte_at, Line, Image, put, carry, build_block, build_loop,
  build_disk, store_loop, store_program,
}

-- The image once `k` bytes of `text` are written from the position of the stream on.
abbrev with_text : List ℕ → Image → ℕ → ℕ
with_text text s = copied s.disk s.position (nth text) 0 (length text)

-- A byte of the text.
copied-at : (f g : ℕ → ℕ) (p k x i : ℕ) → x ≡ p + i → i < k → copied f p g 0 k x ≡ g i
copied-at f g p k x i e lt = let at : x - p ≡ i = omega arith in ground (arith, ap g at)

module _ (seeks writes : ℕ → Bool) (works : (p : ℕ) → writes p ≡ true) where
  -- What the loop leaves, where there is room: the bytes, and the position behind them in blocks.
  pub record Stored (text : List ℕ) (s t : Image) : Type 0 where
    pub disk : t.disk ≡ with_text text s
    pub behind : byte_at t.block_num t.offset ≡ byte_at s.block_num s.offset + length text
    pub low : t.offset < block_size
    pub info : t.info ≡ s.info

  store_loop-Stored :
      (b o : ℕ) (text : List ℕ) (s : Image)
      → byte_at s.block_num s.offset + length text ≤ byte_at (proc_end + 1) 0
      → (t : Image) × (store_loop seeks writes b o text s ≡ ok true t) × Stored text s t
  unfolding store_loop
  store_loop-Stored b o [] s le = (
    carry s,
    refl,
    record {
      disk = sym (copied-none s.disk (nth []) s.position 0);
      behind = omega arith;
      low = omega arith;
      info = refl;
    },
  )
  store_loop-Stored b o (c ∷ cs) s le =
      let s1 = carry s in
      let s2 : Image = record (put c s1) { offset = s1.offset + 1 } in
      let room : leb (proc_end + 1) (s.block_num + s.offset / block_size) ≡ false = ground arith in
      let (t, e, r) = store_loop-Stored b o cs s2 (omega arith) in
      (
        t,
        rw (room, works s.position) e,
        record {
          disk = r.disk ∙ text-first s.disk s.position c cs (length cs);
          behind = omega (arith, r.behind);
          low = r.low;
          info = r.info;
        },
      )

  -- Where the seek and all writes succeed, a program that is not empty and fits in the blocks for
  -- programs goes to the image from the current position on, and no other byte changes; the line
  -- that is added says where its first byte and its last byte are, and the position is then at the
  -- last byte.
  pub store_program-Stores :
      (text : List ℕ) (s : Image)
      → seeks (byte_at s.block_num s.offset) ≡ true
      → 0 < length text
      → byte_at s.block_num s.offset + length text ≤ byte_at (proc_end + 1) 0
      → (t : Image) × (store_program seeks writes (some text) s ≡ ok tt t)
        × (t.disk ≡ copied s.disk (byte_at s.block_num s.offset) (nth text) 0 (length text))
        × (t.info
            ≡ record {
              start_block = s.block_num;
              start_off = s.offset;
              end_block = t.block_num;
              end_off = t.offset;
            }
              ∷ s.info)
        × (byte_at t.block_num t.offset + 1 ≡ byte_at s.block_num s.offset + length text)
        × (t.offset < block_size)
  unfolding store_program
  store_program-Stores text s seek some_bytes le =
      let at = byte_at s.block_num s.offset in
      let (t, e, r) = store_loop-Stored s.block_num s.offset text (record s { position = at }) le in
      let off = (t.offset + block_size - 1) % block_size in
      let block = if off == block_size - 1 then t.block_num - 1 else t.block_num in
      let line : Line = record {
        start_block = s.block_num;
        start_off = s.offset;
        end_block = block;
        end_off = off;
      } in
      (
        record t { block_num = block; offset = off; info = line ∷ t.info },
        rw (seek, e) refl,
        r.disk,
        ap (λ l. line ∷ l) r.info,
        ground (arith, r.behind, r.low),
        omega arith,
      )

  -- Where the seeks and writes succeed, and both programs are not empty and fit, the second of two
  -- programs that are stored one after the other starts at the last byte of the first, and takes
  -- its place.
  pub second_overwrites_first :
      (p q : List ℕ) (s t u : Image)
      → ((a : ℕ) → seeks a ≡ true)
      → 0 < length p
      → 0 < length q
      → byte_at s.block_num s.offset + length p ≤ byte_at (proc_end + 1) 0
      → byte_at t.block_num t.offset + length q ≤ byte_at (proc_end + 1) 0
      → store_program seeks writes (some p) s ≡ ok tt t
      → store_program seeks writes (some q) t ≡ ok tt u
      → (byte_at t.block_num t.offset + 1 ≡ byte_at s.block_num s.offset + length p)
        × (t.disk (byte_at t.block_num t.offset) ≡ nth p (length p - 1))
        × (u.disk (byte_at t.block_num t.offset) ≡ nth q 0)
  second_overwrites_first p q s t u seek np nq fp fq ep eq =
      let (t', e, d, i, at, low) = store_program-Stores p s (seek _) np fp in
      let (u', e', d', i', at', low') = store_program-Stores q t (seek _) nq fq in
      let same : t' ≡ t = (ok-injective (sym e ∙ ep)).1 in
      let same' : u' ≡ u = (ok-injective (sym e' ∙ eq)).1 in
      let end : byte_at t.block_num t.offset + 1 ≡ byte_at s.block_num s.offset + length p =
        subst
          (λ (t : Image).
            byte_at t.block_num t.offset + 1 ≡ byte_at s.block_num s.offset + length p)
          same at in
      let disk : t.disk ≡ copied s.disk (byte_at s.block_num s.offset) (nth p) 0 (length p) =
        sym (ap (λ (t : Image). t.disk) same) ∙ d in
      let disk' : u.disk ≡ copied t.disk (byte_at t.block_num t.offset) (nth q) 0 (length q) =
        sym (ap (λ (t : Image). t.disk) same') ∙ d' in
      (
        end,
        ap (λ f. f (byte_at t.block_num t.offset)) disk
            ∙ copied-at s.disk (nth p) (byte_at s.block_num s.offset) (length p)
                (byte_at t.block_num t.offset) (length p - 1) (omega arith) (omega arith),
        ap (λ f. f (byte_at t.block_num t.offset)) disk'
            ∙ copied-at t.disk (nth q) (byte_at t.block_num t.offset) (length q)
                (byte_at t.block_num t.offset) 0 (omega arith) (omega arith),
      )

-- The loops of `buildDisk` write spaces from the position of the stream on.
build_block-spaces :
    (k : ℕ) (s : Image)
    → (build_block k s).position ≡ s.position + k
      × ((x : ℕ) → (build_block k s).disk x ≡ copied s.disk s.position (λ i. 32) 0 k x)
unfolding build_block
build_block-spaces zero s = (omega arith, λ x. ground arith)
build_block-spaces (suc k) s =
    let (p, d) = build_block-spaces k (put 32 s) in (omega (arith, p), λ x. d x ∙ ground arith)

build_loop-spaces :
    (k : ℕ) (s : Image)
    → (x : ℕ) → (build_loop k s).disk x ≡ copied s.disk s.position (λ i. 32) 0 (k * block_size) x
unfolding build_loop
build_loop-spaces zero s x = ground arith
build_loop-spaces (suc k) s x =
    let b = build_block block_size s in
    let (p, d) = build_block-spaces block_size s in build_loop-spaces k b x ∙ ground (arith, p, d x)

-- `buildDisk`, from the start of the image, writes a space to each of its first 1000 blocks of 1024
-- bytes, and to nothing behind them.
pub build_disk-spaces :
    (s : Image)
    → s.position ≡ 0
    → (x : ℕ) → (build_disk s).disk x ≡ (if leb (disk_size * block_size) x then s.disk x else 32)
unfolding build_disk
build_disk-spaces s e x = build_loop-spaces disk_size s x ∙ ground arith
