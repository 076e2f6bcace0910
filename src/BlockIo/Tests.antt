-- ===== src/BlockIo/Tests.antt =====
-- Examples for the transfers of kernel/buffer.c and the log of kernel/debug.c.
use r5o.Base.{◌+◌, ◌*◌, ◌≡◌, List, [], ◌∷◌, arith, ok, ◌>>◌, Refines}
use r5o.Disk.Instant.{instant, instant-Serves}
use r5o.BlockIo.{Io, bsize, read_bytes, write_bytes, log_data}
use r5o.BlockIo.Flat.{flat, copied, read, write, append, Implements}
use r5o.BlockIo.Virtual.{read_bytes_virtual, write_bytes_virtual}
use r5o.BlockIo.Virtual.Refine.{
  read_virtual, write_virtual, read_bytes_virtual-Refines, write_bytes_virtual-Refines,
}
use r5o.BlockIo.Boot.{Blank, booted, fresh_disk, fresh_disk-Blank, binit-Implements}
use r5o.BlockIo.Reads.{read_bytes-Refines}
use r5o.BlockIo.Writes.{write_bytes-Refines}
use r5o.BlockIo.Log.{log_data-Refines}
use r5o.BlockIo.RoundTrip.{write_bytes-read_bytes}
use r5o.BlockIo.Session.{
  Call, Serving, reads, writes, logs, perform, promised, all_of, calls-Refines,
}

-- Before `binit`, with a disk where each byte is its address.
abbrev off_state : Io
off_state = record { disk = fresh_disk (λ a. a); bytes = λ a. 7; block_no = 900; off = 0 }

blank : Blank (off_state.disk)
blank = fresh_disk-Blank (λ a. a)

-- 3000 bytes over four blocks.
read_bytes-Refines_example :
    Refines Implements
      (read_bytes instant 100 1000 3000 4096 (booted off_state))
      (read 100 1000 3000 4096 (flat off_state))
read_bytes-Refines_example =
    read_bytes-Refines instant-Serves 100 1000 3000 4096 (booted off_state) (flat off_state)
      (omega arith) (binit-Implements off_state blank)

-- Beyond the end of the disk.
write_bytes-Refines_example :
    Refines Implements
      (write_bytes instant 999 1000 100 4096 (booted off_state))
      (write 999 1000 100 4096 (flat off_state))
write_bytes-Refines_example =
    write_bytes-Refines instant-Serves 999 1000 100 4096 (booted off_state) (flat off_state)
      (omega arith) (binit-Implements off_state blank)

log_data-Refines_example :
    Refines Implements
      (log_data instant (111 ∷ 107 ∷ []) (booted off_state))
      (append (111 ∷ 107 ∷ []) (flat off_state))
log_data-Refines_example =
    log_data-Refines instant-Serves (111 ∷ 107 ∷ []) (booted off_state) (flat off_state)
      (omega arith) (omega arith) (binit-Implements off_state blank)

write_bytes-read_bytes_example :
    (s : Io) × ((write_bytes instant 3 1000 2000 0 >> read_bytes instant 3 1000 2000 8192)
        (booted off_state)
      ≡ ok tt s)
    × Implements s (record (flat off_state) {
      disk = copied (λ a. a) (3 * bsize + 1000) (λ a. 7) 0 2000;
      memory = copied (λ a. 7) 8192 (λ a. 7) 0 2000;
    })
write_bytes-read_bytes_example =
    write_bytes-read_bytes instant-Serves 3 1000 2000 0 8192 (booted off_state) (flat off_state)
      (omega arith) (omega arith) (omega arith) (binit-Implements off_state blank)

abbrev some_calls : List Call
some_calls = writes 5 1024 2 0 ∷ logs (33 ∷ []) ∷ reads 6 0 2 64 ∷ []

calls-Refines_example :
    Refines Serving
      (all_of (perform instant) some_calls (booted off_state))
      (all_of promised some_calls (flat off_state))
calls-Refines_example =
    calls-Refines instant-Serves some_calls (booted off_state) (flat off_state)
      (omega arith, (tt, (omega arith, tt)))
      (record { bytes = binit-Implements off_state blank; block = omega arith; off = omega arith })

-- Address 0 has no page in a table of zeros.
read_bytes_virtual-Refines_example :
    Refines Implements
      (read_bytes_virtual instant 8192 5 0 10 0 (booted off_state))
      (read_virtual 8192 5 0 10 0 (flat off_state))
read_bytes_virtual-Refines_example =
    read_bytes_virtual-Refines instant-Serves 8192 5 0 10 0 (booted off_state) (flat off_state)
      (omega arith) (binit-Implements off_state blank)

write_bytes_virtual-Refines_example :
    Refines Implements
      (write_bytes_virtual instant 8192 999 1024 1 0 (booted off_state))
      (write_virtual 8192 999 1024 1 0 (flat off_state))
write_bytes_virtual-Refines_example =
    write_bytes_virtual-Refines instant-Serves 8192 999 1024 1 0 (booted off_state) (flat off_state)
      (omega arith) (binit-Implements off_state blank)
