-- ===== src/Examples/Files.antt =====
-- The theorems on src/AbtIOBackend.cpp, at concrete inputs.
use mochi_warabi.Prelude.{
  ◌≡◌, refl, List, [], ◌∷◌, ◌<◌, ◌^◌, ◌+◌, arith, pos, true, length, replicate, inl, inr, ◌%◌, ◌≤◌,
}
use mochi_warabi.Examples.Targets.{small_word}
use mochi_warabi.RwLock.{readers_left}
use mochi_warabi.AbtIo.Reliable.{complete, IsReliable, Fits, read-write_file}
use mochi_warabi.AbtIo.Region
use mochi_warabi.RwLock.{one_reader}
use mochi_warabi.Run.{done}
use mochi_warabi.Result.{success_bool}
use mochi_warabi.RegionId.{offset_size_to_region_id}
use mochi_warabi.Bytes.{Bytes, slice, patch}
use mochi_warabi.Segments.{Segment, shift, ApartFrom}
use mochi_warabi.AbtIo.Region.{AbtIoRegion, AbtIo, AbtIoTarget, Memalign}
use mochi_warabi.AbtIo.{write, close, align_up}
use mochi_warabi.AbtIo.Ledger.{dropped, requests_balanced}
use mochi_warabi.AbtIo.Allocation.{align_up_lem}

-- A file that holds nothing and takes every write.
abbrev byte_file : AbtIo
byte_file = record {
  File = Unit {0};
  pwrite_nb = λ f d offset. (record { wait = pos 0; ret = pos (length d) }, f);
  pread_nb = λ f n offset. (record { wait = pos 0; ret = pos n }, replicate n 0);
  pwrite = λ f d offset. (pos (length d), f);
  fdatasync = λ f. (pos 0, f);
  punch_hole = λ f offset n. (pos 0, f);
  memalign = λ a n. Memalign.block (replicate n 0);
  format = λ pattern code. pattern;
  destroyed_error = "File has been destroyed";
}

abbrev file_target : AbtIoTarget (Unit {0})
file_target = record {
  config = "{}";
  filename = 97 ∷ [];
  is_open = true;
  file_exists = true;
  file = tt;
  file_size = 0;
  alignment = 8;
  lock = readers_left 0;
}

requests_balanced_example : file_target.lock ≡ file_target.lock
unfolding write dropped close
requests_balanced_example =
    requests_balanced byte_file file_target file_target (replicate 16 0) 4 0 true refl
      (inr (inl refl))

align_up_lem_example :
    (5 ≤ align_up 5 (2 ^ 3)) × (align_up 5 (2 ^ 3) < 5 + 2 ^ 3) × (align_up 5 (2 ^ 3) % 2 ^ 3 ≡ 0)
align_up_lem_example = align_up_lem 5 3 (small_word 13 (omega arith))

-- A file that is its bytes.
abbrev kept_file : AbtIo
kept_file = record {
  File = Bytes;
  pwrite_nb = λ f d offset. (complete (length d), patch f offset d);
  pread_nb = λ f n offset. (complete n, slice f offset n);
  pwrite = λ f d offset. (pos (length d), patch f offset d);
  fdatasync = λ f. (pos 0, f);
  punch_hole = λ f offset n. (pos 0, patch f offset (replicate n 0));
  memalign = λ a n. Memalign.block (replicate n 0);
  format = λ pattern code. pattern;
  destroyed_error = "File has been destroyed";
}

kept_file-IsReliable : IsReliable kept_file
kept_file-IsReliable = record {
  content = λ f. f;
  pwritten = λ f d o. patch f o d;
  synced = λ f. f;
  pwrite_nb_lem = λ f d o h. refl;
  content-pwritten = λ f d o h. refl;
  pread_nb_lem = λ f n o h. refl;
  fdatasync_lem = λ f. refl;
  content-synced = λ f. refl;
}

-- Two regions of four bytes; the second one is open.
abbrev two_regions : AbtIoTarget Bytes
two_regions = record {
  config = "{}";
  filename = 97 ∷ [];
  is_open = true;
  file_exists = true;
  file = 1 ∷ 2 ∷ 3 ∷ 4 ∷ 5 ∷ 6 ∷ 7 ∷ 8 ∷ [];
  file_size = 8;
  alignment = 4;
  lock = one_reader 0;
}

abbrev second : AbtIoRegion
second = record { id = offset_size_to_region_id 4 4; offset = 4 }

abbrev its_ends : List Segment
its_ends = (0, 1) ∷ (3, 1) ∷ []

its_ends-Fits : Fits kept_file kept_file-IsReliable two_regions second its_ends (8 ∷ 9 ∷ [])
unfolding shift kept_file-IsReliable
its_ends-Fits = record {
  open_lem = refl;
  within = (omega arith, (omega arith, tt));
  apart = ((inl (omega arith), tt), (tt, tt));
  size = refl;
  in_memory = small_word 2 (omega arith);
  in_file = small_word 8 (omega arith);
}

middle-ApartFrom : ApartFrom 5 2 (shift 4 its_ends)
unfolding shift
middle-ApartFrom = (inr (omega arith), (inl (omega arith), tt))

read-write_file_example :
    (t' : AbtIoTarget Bytes) × (Region.write kept_file two_regions second its_ends (8 ∷ 9 ∷ []) true
      ≡ done (success_bool, t'))
    × (Region.read kept_file t' second its_ends (0 ∷ 0 ∷ []) ≡ done (success_bool, 8 ∷ 9 ∷ [], t'))
    × (length t'.file ≡ length two_regions.file)
    × (slice t'.file 5 2 ≡ slice two_regions.file 5 2)
    × (t'.lock ≡ two_regions.lock)
unfolding kept_file-IsReliable
read-write_file_example =
    read-write_file kept_file kept_file-IsReliable two_regions second its_ends (8 ∷ 9 ∷ [])
      (0 ∷ 0 ∷ []) true 5 2 its_ends-Fits refl middle-ApartFrom
