-- ===== src/Memory/Faults.antt =====
-- Accesses of src/MemoryBackend.cpp that leave the region.
use mochi_warabi.Prelude.{
  ℕ, ◌+◌, ◌<◌, ◌≡◌, refl, Bool, true, false, List, [], ◌∷◌, some, length, get_elem?, arith, ◌==◌,
}
use mochi_warabi.Run.{done, undef}
use mochi_warabi.Bytes.{Bytes, load, store}
use mochi_warabi.Bytes.Laws.{length-slice}
use mochi_warabi.Result.{succeed, success_bool}
use mochi_warabi.RegionId.{RegionId}
use mochi_warabi.Segments.{Segment, convert_to_segments, copy_in, copy_out}
use mochi_warabi.Memory.Region.{MemoryTarget, MemoryRegion, contents, contents_or_undef}
use mochi_warabi.Memory.Region
use mochi_warabi.Memory.{write, erase}
use mochi_warabi.Memory.Regions.{Names, handle, write_valid, erase-IsErased}

-- The first place of the request sticks out of a region of `len` bytes.
abbrev pub SticksOut : ℕ → List Segment → Type 0
SticksOut len [] = ⊥
SticksOut len ((o, n) ∷ ss) = (0 < n) × (len < o + n)

copy_in_outside :
    (ss : List Segment) (d : Bytes) (b : Bytes)
    → SticksOut (length b) ss
    → copy_in (convert_to_segments ss) d 0 b ≡ undef
unfolding copy_in convert_to_segments load store
copy_in_outside [] d b h = absurd h
copy_in_outside ((o, n) ∷ ss) d b h = ground (arith, length-slice d 0 n)

copy_out_outside :
    (ss : List Segment) (b : Bytes) (p : Bytes)
    → SticksOut (length b) ss
    → copy_out (convert_to_segments ss) b 0 p ≡ undef
unfolding copy_out convert_to_segments load store
copy_out_outside [] b p h = absurd h
copy_out_outside ((o, n) ∷ ss) b p h = ground arith

convert_ne_empty :
    (ss : List Segment) (len : ℕ)
    → SticksOut len ss
    → (length (convert_to_segments ss) == 0) ≡ false
unfolding convert_to_segments
convert_ne_empty [] len h = absurd h
convert_ne_empty ((o, n) ∷ ss) len h = ground arith

-- A request whose first place is not empty and ends beyond the end of the region is not refused:
-- writing and reading it are undefined behaviour, whatever the buffer.
pub outside_undefined :
    (t : MemoryTarget) (r : MemoryRegion) (ss : List Segment) (d b : Bytes) (persist : Bool)
    → get_elem? t.regions r.index ≡ some b
    → SticksOut (length b) ss
    → (Region.write t r ss d persist ≡ undef) × (Region.read t r ss d ≡ undef)
unfolding Region.write Region.read contents
outside_undefined t r ss d b persist e h = (
  rw e (rw (copy_in_outside ss d b h) refl),
  rw (convert_ne_empty ss (length b) h) (rw e (rw (copy_out_outside ss b d h) refl)),
)

-- An erased region is empty, its id is still accepted, and so every request that starts with a
-- place that is not empty is undefined behaviour on it.
pub write_after_erase :
    (t : MemoryTarget) (id : RegionId) (i : ℕ) (ss : List Segment) (d : Bytes) (persist : Bool)
    → t.locked ≡ false
    → Names t id i
    → SticksOut 0 ss
    → (t' : MemoryTarget) × (erase t id ≡ done (success_bool, t'))
      × (write t' id persist ≡ done (succeed (some (handle id i)), record t' { locked = true }))
      × (Region.write (record t' { locked = true }) (handle id i) ss d persist ≡ undef)
write_after_erase t id i ss d persist u n h =
    let (t', erased, s) = erase-IsErased t id i u n in
    (
      t',
      erased,
      write_valid t' id i persist s.unlocked ((s.names id i).1 n),
      (outside_undefined (record t' { locked = true }) (handle id i) ss d [] persist s.emptied h).0,
    )
