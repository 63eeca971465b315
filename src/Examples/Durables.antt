-- ===== src/Examples/Durables.antt =====
-- The theorems on the regions of src/PmemBackend.cpp, at concrete inputs.
use mochi_warabi.Prelude.{◌≡◌, refl, [], ◌∷◌, arith, true, false, replicate}
use mochi_warabi.Examples.Targets.{small_word, new_bytes, blank_bytes}
use mochi_warabi.Run.{done}
use mochi_warabi.Result.{success_bool}
use mochi_warabi.RwLock.{one_reader, readers_left}
use mochi_warabi.Segments.{shift, convert_to_segments}
use mochi_warabi.Pmem.Region.{PmemTarget, segments_at, write, read}
use mochi_warabi.Pmem.Durable.{Fits, crashed, read-write_pmem, read-crashed-write}
use mochi_warabi.RegionId.{RegionId}

abbrev oid0 : RegionId
oid0 = replicate 16 0

-- A pool of four bytes, with an open region.
abbrev pool_target : PmemTarget (Unit {0})
pool_target = record {
  config = "{}";
  filename = 97 ∷ [];
  pool_open = true;
  file_exists = true;
  heap = tt;
  memory = 1 ∷ 2 ∷ 3 ∷ 4 ∷ [];
  durable = 1 ∷ 2 ∷ 3 ∷ 4 ∷ [];
  lock = one_reader 0;
}

pool-Fits : Fits pool_target (record { id = oid0; ptr = 1 }) ((0, 2) ∷ []) new_bytes
unfolding segments_at shift convert_to_segments
pool-Fits = record {
  within = (omega arith, tt);
  apart = (tt, tt);
  size = refl;
  in_memory = small_word 2 (omega arith);
  mapped = refl;
}

read-write_pmem_example :
    (t' : PmemTarget (Unit {0})) × (write pool_target
        (record { id = oid0; ptr = 1 })
        ((0, 2) ∷ [])
        new_bytes
        false
      ≡ done (success_bool, t'))
    × (t'.lock ≡ readers_left 0)
    × (read
          (record t' { lock = one_reader 2 })
          (record { id = oid0; ptr = 1 })
          ((0, 2) ∷ [])
          blank_bytes
        ≡ done (success_bool, new_bytes, record t' { lock = readers_left 2 }))
read-write_pmem_example =
    read-write_pmem pool_target (record { id = oid0; ptr = 1 }) ((0, 2) ∷ []) new_bytes blank_bytes
      false 0 2 refl pool-Fits (omega arith) refl

read-crashed-write_example :
    (t' : PmemTarget (Unit {0})) × (write pool_target
        (record { id = oid0; ptr = 1 })
        ((0, 2) ∷ [])
        new_bytes
        true
      ≡ done (success_bool, t'))
    × (read (crashed t') (record { id = oid0; ptr = 1 }) ((0, 2) ∷ []) blank_bytes
        ≡ done (success_bool, new_bytes, record (crashed t') { lock = readers_left 0 }))
read-crashed-write_example =
    read-crashed-write pool_target (record { id = oid0; ptr = 1 }) ((0, 2) ∷ []) new_bytes
      blank_bytes 0 refl pool-Fits (omega arith) refl
