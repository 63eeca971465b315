-- ===== src/Examples/Client.antt =====
-- The theorems on src/TargetHandle.cpp and src/ProviderImpl.hpp, at concrete inputs.
use mochi_warabi.Prelude.{◌≡◌, refl, [], arith, true, false, none, some, length}
use mochi_warabi.Examples.{one_buffer, one_buffer-IsFaithful, zeros, zeros-length}
use mochi_warabi.Examples.Targets.{
  target, empty_target, id0, ends, small_word, new_bytes, blank_bytes, sevens,
}
use mochi_warabi.Run.{done, raise}
use mochi_warabi.Result.{fail}
use mochi_warabi.RegionId.{RegionId}
use mochi_warabi.Memory.{memory_backend, open_region, lock}
use mochi_warabi.Provider.{Provider, create_rpc, no_target}
use mochi_warabi.Provider.Stored.{whole, provider_of}
use mochi_warabi.TargetHandle.{
  returned, create_and_write, read, World, requested, create, write, persist, erase, default_handle,
}
use mochi_warabi.TargetHandle.Stored.{read-create_and_write}
use mochi_warabi.DefaultTransfer.{default_transfer}
use mochi_warabi.TargetHandle.Waiting.{Deferred, create_ignores_failure, waiting_lem}
use mochi_warabi.RegionId.RoundTrip.{index-index_size_to_region_id}
use mochi_warabi.Memory

abbrev waiting_state : one_buffer.Remote × Provider one_buffer (memory_backend one_buffer)
waiting_state = ([], provider_of one_buffer target)

abbrev detached : Provider one_buffer (memory_backend one_buffer)
detached = record {
  target = none;
  transfer_manager = default_transfer one_buffer (memory_backend one_buffer);
}

refused :
    Memory.write empty_target id0 true
    ≡ done (fail "Invalid RegionID information" none, empty_target)
unfolding Memory.write open_region lock
refused = rw (index-index_size_to_region_id 0 4 (omega arith)) refl

read-create_and_write_example :
    (id : RegionId) × (s : World one_buffer (memory_backend one_buffer) zeros tt) × (s' : World
      one_buffer
      (memory_backend one_buffer)
      zeros
      tt)
    × (create_and_write one_buffer
          (memory_backend one_buffer)
          zeros
          tt
          default_handle
          (([]), provider_of one_buffer target)
          true
          sevens
          true
          false
        ≡ done (returned (some id), s))
    × (read one_buffer
          (memory_backend one_buffer)
          zeros
          tt
          default_handle
          s
          id
          (whole (length sevens))
          blank_bytes
          false
        ≡ done (returned sevens, s'))
read-create_and_write_example =
    read-create_and_write one_buffer one_buffer-IsFaithful zeros tt default_handle ([]) target
      sevens blank_bytes true refl refl (omega arith) (small_word 2 (omega arith)) refl zeros-length

waiting_lem_example :
    Deferred
      (write one_buffer
        (memory_backend one_buffer)
        zeros
        tt
        default_handle
        waiting_state
        id0
        ends
        new_bytes
        true
        true)
      (write one_buffer
        (memory_backend one_buffer)
        zeros
        tt
        default_handle
        waiting_state
        id0
        ends
        new_bytes
        true
        false)
    × Deferred
        (persist one_buffer
          (memory_backend one_buffer)
          zeros
          tt
          default_handle
          waiting_state
          id0
          ends
          true)
        (persist one_buffer
          (memory_backend one_buffer)
          zeros
          tt
          default_handle
          waiting_state
          id0
          ends
          false)
    × Deferred
        (create_and_write one_buffer
          (memory_backend one_buffer)
          zeros
          tt
          default_handle
          waiting_state
          true
          new_bytes
          true
          true)
        (create_and_write one_buffer
          (memory_backend one_buffer)
          zeros
          tt
          default_handle
          waiting_state
          true
          new_bytes
          true
          false)
    × Deferred
        (erase one_buffer
          (memory_backend one_buffer)
          zeros
          tt
          default_handle
          waiting_state
          id0
          true)
        (erase one_buffer
          (memory_backend one_buffer)
          zeros
          tt
          default_handle
          waiting_state
          id0
          false)
waiting_lem_example =
    waiting_lem one_buffer (memory_backend one_buffer) zeros tt default_handle waiting_state id0
      ends new_bytes true true

detached_refuses :
    create_rpc one_buffer (memory_backend one_buffer) zeros detached 4
    ≡ done (fail no_target zeros.region_id, detached)
unfolding create_rpc
detached_refuses = refl

create_ignores_failure_example :
    (create one_buffer
        (memory_backend one_buffer)
        zeros
        tt
        default_handle
        (([]), detached)
        true
        4
        false
      ≡ raise no_target)
    × (create one_buffer
          (memory_backend one_buffer)
          zeros
          tt
          default_handle
          (([]), detached)
          false
          4
          false
        ≡ done (returned none, (([]), detached)))
    × (create one_buffer
          (memory_backend one_buffer)
          zeros
          tt
          default_handle
          (([]), detached)
          true
          4
          true
        ≡ done (
          requested (record { waited = false; callback = done (some zeros.region_id) }),
          (([]), detached),
        ))
    × (create one_buffer
          (memory_backend one_buffer)
          zeros
          tt
          default_handle
          (([]), detached)
          false
          4
          true
        ≡ done (requested (record { waited = false; callback = done none }), (([]), detached)))
create_ignores_failure_example =
    create_ignores_failure one_buffer (memory_backend one_buffer) zeros tt default_handle ([])
      detached detached 4 no_target zeros.region_id refl detached_refuses
