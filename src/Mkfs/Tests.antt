-- ===== src/Mkfs/Tests.antt =====
-- Examples for mkfs/r5o5_mkfs.c.
use r5o.Base.{◌+◌, ◌<◌, ◌≡◌, refl, true, some, [], ◌∷◌, arith, ok, update}
use r5o.BlockIo.Flat.{copied, nth}
use r5o.Mkfs.{block_size, byte_at, Image, build_disk, store_loop, store_program}
use r5o.Mkfs.Store.{store_program-Stores, second_overwrites_first, build_disk-spaces}

-- The start of an image, and one that is near the end of a block.
abbrev start : Image
start = record { disk = λ a. 0; position = 0; block_num = 100; offset = 0; info = [] }

abbrev near : Image
near = record start { offset = 1022 }

-- After the two bytes 1 and 2 there.
abbrev first_done : Image
first_done = record {
  disk = update (update (λ a. 0) 103422 1) 103423 2;
  position = 103424;
  block_num = 100;
  offset = 1023;
  info = record { start_block = 100; start_off = 1022; end_block = 100; end_off = 1023 } ∷ [];
}

store_program-Stores_example :
    (t : Image) × (store_program (λ a. true) (λ a. true) (some (1 ∷ 2 ∷ 3 ∷ [])) near ≡ ok tt t)
    × (t.disk ≡ copied (λ a. 0) 103422 (nth (1 ∷ 2 ∷ 3 ∷ [])) 0 3)
    × (t.info
        ≡ record {
          start_block = 100;
          start_off = 1022;
          end_block = t.block_num;
          end_off = t.offset;
        }
          ∷ [])
    × (byte_at t.block_num t.offset + 1 ≡ 103425)
    × (t.offset < block_size)
store_program-Stores_example =
    store_program-Stores (λ a. true) (λ a. true) (λ a. refl) (1 ∷ 2 ∷ 3 ∷ []) near refl
      (omega arith) (omega arith)

build_disk-spaces_example : (build_disk start).disk 1023999 ≡ 32
build_disk-spaces_example = build_disk-spaces start refl 1023999

-- And after the byte 9 behind them.
abbrev second_done : Image
second_done = record {
  disk = update first_done.disk 103423 9;
  position = 103424;
  block_num = 100;
  offset = 1023;
  info =
      record { start_block = 100; start_off = 1023; end_block = 100; end_off = 1023 }
      ∷ first_done.info;
}

first_stored : store_program (λ a. true) (λ a. true) (some (1 ∷ 2 ∷ [])) near ≡ ok tt first_done
unfolding store_program store_loop
first_stored = refl

second_stored : store_program (λ a. true) (λ a. true) (some (9 ∷ [])) first_done ≡ ok tt second_done
unfolding store_program store_loop
second_stored = refl

second_overwrites_first_example :
    (byte_at 100 1023 + 1 ≡ byte_at 100 1022 + 2)
    × (first_done.disk 103423 ≡ 2)
    × (second_done.disk 103423 ≡ 9)
second_overwrites_first_example =
    second_overwrites_first (λ a. true) (λ a. true) (λ a. refl) (1 ∷ 2 ∷ []) (9 ∷ []) near
      first_done second_done (λ a. refl) (omega arith) (omega arith) (omega arith) (omega arith)
      first_stored second_stored
