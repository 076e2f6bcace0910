-- ===== src/BlockIo.antt =====
-- The transfers of kernel/buffer.c between the disk and memory, and the log of kernel/debug.c.
pub mod Fetch
pub mod Flat
pub mod Log
pub mod Loops
pub mod Reads
pub mod RoundTrip
pub mod Session
pub mod Text
pub mod Turn
pub mod Writes
pub mod Hold
pub mod Boot
pub mod Bread
pub mod Virtual
pub mod Warm
mod Tests
use Prim.Native.String.{String}
use r5o.Base.{
  ℕ, zero, suc, ◌+◌, ◌%◌, ◌^◌, Bool, true, false, List, [], ◌∷◌, ◌==◌, leb, if◌then◌else◌, update,
  Outcome, ok, halt, fault, hung, Cmd, pure, ◌>>=◌, ◌>>◌, error,
}
use r5o.Buffers.{Ptr, Buffer, Cache, bget, brelse}
use r5o.Disk.{Disk, disk_rw}

-- BSIZE, DISKSIZE and LOGSTART
abbrev pub bsize : ℕ
bsize = 1024

abbrev pub disksize : ℕ
disksize = 1000

abbrev pub logstart : ℕ
logstart = 900

-- The driver with the buffers, memory by byte, and the `block_no` and `off` of the log.
pub record Io : Type 0 where
  pub disk : Disk
  pub bytes : ℕ → ℕ
  pub block_no : ℕ
  pub off : ℕ

abbrev pub on_disk : {A : Type 0} → Io → Outcome Disk A → Outcome Io A
on_disk s (ok a d) = ok a (record s { disk = d })
on_disk s (halt e) = halt e
on_disk s fault = fault
on_disk s hung = hung

abbrev pub on_cache : {A : Type 0} → Io → Outcome Cache A → Outcome Io A
on_cache s (ok a c) = ok a (record s { disk = record (s.disk) { cache = c } })
on_cache s (halt e) = halt e
on_cache s fault = fault
on_cache s hung = hung

abbrev pub set_valid : Ptr → Cmd Io (Unit {0})
set_valid b s =
    let c = s.disk.cache in on_cache s (ok tt (update c b (record (c b) { valid = true })))

-- `(b->data)[i]`, read and written.
abbrev pub get_byte : Ptr → ℕ → Cmd Io ℕ
get_byte b i s = if leb bsize i then fault else ok ((s.disk.cache b).block i) s

abbrev pub put_byte : Ptr → ℕ → ℕ → Cmd Io (Unit {0})
put_byte b i v s =
    let c = s.disk.cache in
    if leb bsize i
    then fault
    else on_cache s (ok tt (update c b (record (c b) { block = update (c b).block i v })))

abbrev pub get_memory : ℕ → Cmd Io ℕ
get_memory a s = ok (s.bytes a) s

abbrev pub put_memory : ℕ → ℕ → Cmd Io (Unit {0})
put_memory a v s = ok tt (record s { bytes = update s.bytes a v })

abbrev pub release : Ptr → Cmd Io (Unit {0})
release b s = on_cache s (ok tt (brelse b s.disk.cache))

-- `device` is the virtio disk.
module _ (device : Disk → Disk) where
  -- `if(!b->valid) { diskRW(b, 0); b->valid = 1; }`
  abbrev pub fetch : Ptr → Cmd Io (Unit {0})
  fetch b s =
      if (s.disk.cache b).valid
      then ok tt s
      else ((λ s. on_disk s (disk_rw device b false s.disk)) >> set_valid b) s

  unfoldable pub bread : ℕ → Cmd Io Ptr
  bread n = do b ← λ s. on_cache s (bget n s.disk.cache); fetch b; pure b

  unfoldable pub bwrite : Ptr → Cmd Io (Unit {0})
  bwrite b s = on_disk s (disk_rw device b true s.disk)

  -- The test of the block number, and `bread`.
  abbrev pub open_block : String → ℕ → Cmd Io Ptr
  open_block message n = if leb disksize n then error message else bread n

  -- `*memoryLocation = (b -> data)[nextBytePosToRead];`
  abbrev pub copy_in : Ptr → ℕ → ℕ → Cmd Io (Unit {0})
  copy_in b pos a = get_byte b pos >>= put_memory a

  -- `(b -> data)[nextBytePosToWrite] = *memoryLocation;`
  abbrev pub copy_out : Ptr → ℕ → ℕ → Cmd Io (Unit {0})
  copy_out b pos a = get_memory a >>= put_byte b pos

  -- The loop of `readBytes`, with `k` bytes left.
  unfoldable pub read_loop : ℕ → ℕ → ℕ → ℕ → Ptr → Cmd Io (Unit {0})
  read_loop zero n pos a b = release b
  read_loop (suc k) n pos a b =
      if pos == bsize
      then (release b >> open_block "readBytes: block exceeds disk size" (n + 1))
        >>= (λ b. copy_in b 0 a >> read_loop k (n + 1) 1 (a + 1) b)
      else copy_in b pos a >> read_loop k n (pos + 1) (a + 1) b

  unfoldable pub read_bytes : ℕ → ℕ → ℕ → ℕ → Cmd Io (Unit {0})
  read_bytes n offset count a =
      open_block "readBytes: block exceeds disk size" n >>= (λ b. read_loop count n offset a b)

  -- The loop of `writeBytes`, with `k` bytes left.
  unfoldable pub write_loop : ℕ → ℕ → ℕ → ℕ → Ptr → Cmd Io (Unit {0})
  write_loop zero n pos a b = bwrite b >> release b
  write_loop (suc k) n pos a b =
      if pos == bsize
      then ((bwrite b >> release b) >> open_block "writeBytes: block exceeds disk size" (n + 1))
        >>= (λ b. copy_out b 0 a >> write_loop k (n + 1) 1 (a + 1) b)
      else copy_out b pos a >> write_loop k n (pos + 1) (a + 1) b

  unfoldable pub write_bytes : ℕ → ℕ → ℕ → ℕ → Cmd Io (Unit {0})
  write_bytes n offset count a =
      open_block "writeBytes: block exceeds disk size" n >>= (λ b. write_loop count n offset a b)

  -- A character of `logData`, at `off`.
  abbrev pub log_byte : Ptr → ℕ → Cmd Io (Unit {0})
  log_byte b c =
      (λ s. put_byte b s.off c s) >> (λ s. ok tt (record s { off = (s.off + 1) % 2 ^ 64 }))

  abbrev pub next_log_block : Ptr → Cmd Io Ptr
  next_log_block b = do
    bwrite b
    release b
    λ s. ok tt (record s { block_no = (s.block_no + 1) % 2 ^ 64; off = 0 })
    λ s. if s.block_no == disksize then halt "logData" else bread (s.block_no % 2 ^ 32) s

  -- The loop of `logData`, over the string without its end.
  unfoldable pub log_loop : List ℕ → Ptr → Cmd Io (Unit {0})
  log_loop [] b s = (bwrite b >> release b) s
  log_loop (c ∷ cs) b s =
      (if s.off == bsize
          then next_log_block b >>= (λ b. log_byte b c >> log_loop cs b)
          else log_byte b c >> log_loop cs b)
        s

  unfoldable pub log_data : List ℕ → Cmd Io (Unit {0})
  log_data text s = (bread (s.block_no % 2 ^ 32) >>= (λ b. log_loop text b)) s

unfoldable pub log_data_init : Io → Io
log_data_init s = record s { block_no = logstart; off = 0 }
