-- ===== src/Examples/Access.antt =====
-- The theorems on the regions of src/MemoryBackend.cpp, at concrete inputs.
use mochi_warabi.Prelude.{◌≡◌, refl, [], true, length}
use mochi_warabi.Examples.{one_buffer, one_buffer-IsFaithful}
use mochi_warabi.Examples.Targets.{
  target, ends, first_region, second_region, old_bytes, new_bytes, blank_bytes, ends-Fits,
  ends-Disjoint, middle-ApartFrom, first-ne-second,
}
use mochi_warabi.Run.{done}
use mochi_warabi.Bytes.{Bytes, slice}
use mochi_warabi.Result.{success_bool}
use mochi_warabi.Memory.Region.{MemoryTarget, contents, write, read, write_bulk, read_bulk}
use mochi_warabi.Memory.Contents.{read-write, write_bulk-eq-write, read_bulk-write}

read-write_example :
    (t' : MemoryTarget) × (b' : Bytes) × (write target first_region ends new_bytes true
      ≡ done (success_bool, t'))
    × (read t' first_region ends blank_bytes ≡ done (success_bool, new_bytes, t'))
    × (contents t' first_region ≡ done b')
    × (length b' ≡ length old_bytes)
    × (slice b' 1 2 ≡ slice old_bytes 1 2)
    × (contents t' second_region ≡ contents target second_region)
    × (t'.locked ≡ target.locked)
read-write_example =
    read-write target first_region ends new_bytes old_bytes blank_bytes true second_region 1 2 refl
      ends-Fits ends-Disjoint refl middle-ApartFrom first-ne-second

write_bulk-eq-write_example :
    write_bulk one_buffer
      (one_buffer.expose ([]) tt new_bytes).1
      target
      first_region
      ends
      (one_buffer.expose ([]) tt new_bytes).0
      tt
      0
      true
    ≡ write target first_region ends new_bytes true
write_bulk-eq-write_example =
    write_bulk-eq-write one_buffer one_buffer-IsFaithful ([]) tt target first_region ends new_bytes
      old_bytes true refl ends-Fits

read_bulk-write_example :
    (t' : MemoryTarget) × (w' : one_buffer.Remote) × (write target first_region ends new_bytes true
      ≡ done (success_bool, t'))
    × (read_bulk one_buffer
          (one_buffer.expose ([]) tt blank_bytes).1
          t'
          first_region
          ends
          (one_buffer.expose ([]) tt blank_bytes).0
          tt
          0
        ≡ done (success_bool, w', t'))
    × (one_buffer.contents w' tt (one_buffer.expose ([]) tt blank_bytes).0 ≡ new_bytes)
read_bulk-write_example =
    read_bulk-write one_buffer one_buffer-IsFaithful ([]) tt target first_region ends new_bytes
      old_bytes blank_bytes true refl ends-Fits ends-Disjoint refl
