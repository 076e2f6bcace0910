-- ===== src/Mkfs.antt =====
-- mkfs/r5o5_mkfs.c, the host program that writes the disk image and puts the programs on it.
pub mod Store
mod Tests
use r5o.Base.{
  ℕ, zero, suc, ◌+◌, ◌-◌, ◌*◌, ◌/◌, ◌%◌, Bool, true, false, not, Option, none, some, List, [], ◌∷◌,
  ◌==◌, leb, if◌then◌else◌, update, ok, Cmd, pure, ◌>>=◌, ◌>>◌,
}

-- BLOCK_SIZE, DISK_SIZE, PROC_START and PROC_END
abbrev pub block_size : ℕ
block_size = 1024

abbrev pub disk_size : ℕ
disk_size = 1000

abbrev pub proc_start : ℕ
proc_start = 100

abbrev pub proc_end : ℕ
proc_end = 299

-- The macro `getOffset`.
abbrev pub byte_at : ℕ → ℕ → ℕ
byte_at block_num off = block_size * block_num + off

-- A line of the information file.
pub record Line : Type 0 where
  pub start_block : ℕ
  pub start_off : ℕ
  pub end_block : ℕ
  pub end_off : ℕ

-- The image by byte and the position in its stream; the static variables of `storeProgram`, which are
-- ints and stay below 2^20; and the lines of the information file, the last one first.
pub record Image : Type 0 where
  pub disk : ℕ → ℕ
  pub position : ℕ
  pub block_num : ℕ
  pub offset : ℕ
  pub info : List Line

-- `fwrite(&c, sizeof(char), 1, disk)` where it succeeds.
abbrev pub put : ℕ → Image → Image
put c s = record s { disk = update s.disk s.position c; position = s.position + 1 }

-- The inner loop of `buildDisk`, with `k` rounds left, and the outer one.
unfoldable pub build_block : ℕ → Image → Image
build_block zero s = s
build_block (suc k) s = build_block k (put 32 s)

unfoldable pub build_loop : ℕ → Image → Image
build_loop zero s = s
build_loop (suc k) s = build_loop k (build_block block_size s)

unfoldable pub build_disk : Image → Image
build_disk s = build_loop disk_size s

-- `blockNum += offset / BLOCK_SIZE; offset %= BLOCK_SIZE;`
abbrev pub carry : Image → Image
carry s = record s {
  block_num = s.block_num + s.offset / block_size;
  offset = s.offset % block_size;
}

abbrev pub restore : ℕ → ℕ → Image → Image
restore block_num offset s = record s { block_num = block_num; offset = offset }

-- Whether a seek and a write at a byte of the image succeed.
module _ (seeks writes : ℕ → Bool) where
  -- The while loop of `storeProgram`, over the bytes that are left; false stands for
  -- `errorOccurred`.
  unfoldable pub store_loop : (prev_block_num prev_offset : ℕ) → List ℕ → Cmd Image Bool
  store_loop prev_block_num prev_offset [] s = ok true (carry s)
  store_loop prev_block_num prev_offset (c ∷ cs) s =
      let s = carry s in
      let rest =
        store_loop prev_block_num prev_offset cs (record (put c s) { offset = s.offset + 1 }) in
      if leb (proc_end + 1) s.block_num
      then ok false (restore prev_block_num prev_offset s)
      else if not (writes s.position)
      then ok false (restore prev_block_num prev_offset s)
      else rest

  -- The end of the program, its last byte included, and its line, which `fprintf` writes.
  abbrev pub note : (prev_block_num prev_offset : ℕ) → Bool → Cmd Image (Unit {0})
  note prev_block_num prev_offset false s = ok tt s
  note prev_block_num prev_offset true s =
      let off = (s.offset + block_size - 1) % block_size in
      let block = if off == block_size - 1 then s.block_num - 1 else s.block_num in
      ok tt (record s {
        block_num = block;
        offset = off;
        info =
            record {
              start_block = prev_block_num;
              start_off = prev_offset;
              end_block = block;
              end_off = off;
            }
            ∷ s.info;
      })

  -- `none` is a program that cannot be opened.
  unfoldable pub store_program : Option (List ℕ) → Cmd Image (Unit {0})
  store_program none s = ok tt s
  store_program (some prog) s =
      let at = byte_at s.block_num s.offset in
      if not (seeks at)
      then ok tt s
      else (store_loop s.block_num s.offset prog >>= note s.block_num s.offset)
          (record s { position = at })

  -- The loop of `main` over the programs.
  unfoldable pub store_all : List (Option (List ℕ)) → Cmd Image (Unit {0})
  store_all [] s = ok tt s
  store_all (p ∷ ps) s = (store_program p >> store_all ps) s

  -- `main` once both files are open.
  unfoldable pub make_image : List (Option (List ℕ)) → Cmd Image (Unit {0})
  make_image progs s = store_all progs (build_disk s)
