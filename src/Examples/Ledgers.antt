-- ===== src/Examples/Ledgers.antt =====
-- The theorems on the lock of src/PmemBackend.cpp, at concrete inputs.
use mochi_warabi.Prelude.{◌≡◌, refl, [], ◌∷◌, arith, true, some, replicate}
use mochi_warabi.Examples.Targets.{small_word, new_bytes}
use mochi_warabi.Run.{done, stuck}
use mochi_warabi.Result.{succeed, success_bool}
use mochi_warabi.RegionId.{RegionId}
use mochi_warabi.RwLock.{one_reader, readers_left}
use mochi_warabi.Segments.{convert_to_segments, shift}
use mochi_warabi.Pmem.Region.{Pmemobj, Oid, PmemTarget, PmemRegion, segments_at}
use mochi_warabi.Pmem.Durable.{Fits}
use mochi_warabi.Pmem.Migration.{start_migration}
use mochi_warabi.Pmem.{create, write, read, erase, close, region_id_to_oid, oid_to_region_id}
use mochi_warabi.Pmem.Ledger.{handle, with_lock, write_balanced, lock_leaks}
use mochi_warabi.Pmem.Region

abbrev oid0 : RegionId
oid0 = replicate 16 0

abbrev one_block : Pmemobj
one_block = record {
  Heap = Unit {0};
  alloc = λ heap size. some (region_id_to_oid oid0, tt);
  direct = λ oid. some 1;
  free = λ heap oid. tt;
  alloc_error = "out of memory";
}

-- A pool of four bytes.
abbrev free_target : PmemTarget (Unit {0})
free_target = record {
  config = "{}";
  filename = 97 ∷ [];
  pool_open = true;
  file_exists = true;
  heap = tt;
  memory = 1 ∷ 2 ∷ 3 ∷ 4 ∷ [];
  durable = 1 ∷ 2 ∷ 3 ∷ 4 ∷ [];
  lock = readers_left 0;
}

pool-Fits :
    Fits
      (with_lock one_block free_target (one_reader 0))
      (record { id = oid0; ptr = 1 })
      ((0, 2) ∷ [])
      new_bytes
unfolding segments_at shift convert_to_segments
pool-Fits = record {
  within = (omega arith, tt);
  apart = (tt, tt);
  size = refl;
  in_memory = small_word 2 (omega arith);
  mapped = refl;
}

write_balanced_example :
    (opened t' : PmemTarget one_block.Heap) × (write one_block free_target oid0 true
      ≡ done (succeed (some (handle one_block oid0 1)), opened))
    × (Region.write opened (handle one_block oid0 1) ((0, 2) ∷ []) new_bytes true
        ≡ done (success_bool, t'))
    × (close one_block t' (handle one_block oid0 1) ≡ done t')
    × (t'.lock ≡ free_target.lock)
write_balanced_example =
    write_balanced one_block free_target oid0 1 0 ((0, 2) ∷ []) new_bytes true refl refl pool-Fits

lock_leaks_example :
    (created erased opened : PmemTarget one_block.Heap) × (create one_block free_target 4
      ≡ done
          (succeed (some (handle one_block (oid_to_region_id (region_id_to_oid oid0)) 1)), created))
    × (close one_block created (handle one_block (oid_to_region_id (region_id_to_oid oid0)) 1)
        ≡ done created)
    × (start_migration created true ≡ stuck)
    × (erase one_block free_target oid0 ≡ done (success_bool, erased))
    × (start_migration erased true ≡ stuck)
    × (read one_block free_target oid0 ≡ done (succeed (some (handle one_block oid0 1)), opened))
    × (Region.read opened (handle one_block oid0 1) [] ([]) ≡ done (success_bool, ([]), opened))
    × (start_migration opened true ≡ stuck)
lock_leaks_example =
    lock_leaks one_block free_target oid0 (region_id_to_oid oid0) tt 1 1 0 4 ([]) true refl refl
      refl refl
