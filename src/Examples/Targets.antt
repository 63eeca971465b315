-- ===== src/Examples/Targets.antt =====
-- Small targets of src/MemoryBackend.cpp, and what holds of them.
use mochi_warabi.Prelude.{ℕ, ◌<◌, ◌≢◌, refl, false, List, [], ◌∷◌, arith, word, inl, inr}
use mochi_warabi.Bytes.{Bytes}
use mochi_warabi.RegionId.{RegionId, index_size_to_region_id}
use mochi_warabi.Segments.{Segment, convert_to_segments, Disjoint, ApartFrom}
use mochi_warabi.Memory.Region.{MemoryTarget, MemoryRegion}
use mochi_warabi.Memory.Contents.{Fits}

-- Two regions, of four bytes and of two.
abbrev pub old_bytes : Bytes
old_bytes = 1 ∷ 2 ∷ 3 ∷ 4 ∷ []

abbrev pub new_bytes : Bytes
new_bytes = 8 ∷ 9 ∷ []

abbrev pub blank_bytes : Bytes
blank_bytes = 0 ∷ 0 ∷ []

abbrev pub sevens : Bytes
sevens = 7 ∷ 7 ∷ []

abbrev pub target : MemoryTarget
target = record {
  config = "{}";
  regions = (1 ∷ 2 ∷ 3 ∷ 4 ∷ []) ∷ (5 ∷ 6 ∷ []) ∷ [];
  locked = false;
}

abbrev pub empty_target : MemoryTarget
empty_target = record { config = "{}"; regions = []; locked = false }

abbrev pub id0 : RegionId
id0 = index_size_to_region_id 0 4

-- The first and the last byte of the first region.
abbrev pub ends : List Segment
ends = (0, 1) ∷ (3, 1) ∷ []

pub small_word : (n : ℕ) → n < 100 → n < word
unfolding word
small_word n h = omega arith

abbrev pub first_region : MemoryRegion
first_region = record { id = id0; index = 0 }

pub ends-Fits : Fits (1 ∷ 2 ∷ 3 ∷ 4 ∷ []) ends (8 ∷ 9 ∷ [])
unfolding convert_to_segments
ends-Fits = record {
  within = (omega arith, (omega arith, tt));
  size = refl;
  in_memory = small_word 2 (omega arith);
}

pub ends-Disjoint : Disjoint (convert_to_segments ends)
unfolding convert_to_segments
ends-Disjoint = ((inl (omega arith), tt), (tt, tt))

abbrev pub second_region : MemoryRegion
second_region = record { id = index_size_to_region_id 1 2; index = 1 }

-- The bytes between the two.
pub middle-ApartFrom : ApartFrom 1 2 (convert_to_segments ends)
unfolding convert_to_segments
middle-ApartFrom = (inr (omega arith), (inl (omega arith), tt))

pub first-ne-second : first_region.index ≢ second_region.index
first-ne-second h = omega (arith, h)
