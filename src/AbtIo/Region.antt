-- ===== src/AbtIo/Region.antt =====
-- `AbtIORegion` of src/AbtIOBackend.cpp. ABT-IO, `posix_memalign` and the texts of `strerror` are
-- not part of the repository. The operations of one request are carried out in the order in which
-- they are issued.
use mochi_warabi.Prelude.{
  ℕ, ◌+◌, String, Bool, true, false, List, [], ◌∷◌, Option, none, some, take, ◌==◌, if◌then◌else◌,
  wrap, ℤ, pos, negsuc, is_neg,
}
use mochi_warabi.Run.{Run, done, undef, ◌>>=◌, ◌>>◌}
use mochi_warabi.Bytes.{Bytes, load, store}
use mochi_warabi.Result.{Result, BoolResult, succeed, success_bool, fail_bool}
use mochi_warabi.RegionId.{RegionId}
use mochi_warabi.Segments.{Segment, total_size}
use mochi_warabi.RwLock.{RwLock}
use mochi_warabi.Network.{Network}

-- `posix_memalign`: an error code, or a block of memory with whatever bytes it holds.
pub data Memalign : Type 0 where
  failed : ℕ → Memalign
  block : Bytes → Memalign

-- What `abt_io_op_wait` returns of an operation, and what it stored in its `ret`.
pub record Completion : Type 0 where
  pub wait : ℤ
  pub ret : ℤ

pub record AbtIo : Type 1 where
  pub File : Type 0
  pub pwrite_nb : File → Bytes → ℕ → Completion × File
  pub pread_nb : File → ℕ → ℕ → Completion × Bytes
  pub pwrite : File → Bytes → ℕ → ℤ × File
  pub fdatasync : File → ℤ × File
  pub punch_hole : File → ℕ → ℕ → ℤ × File
  pub memalign : ℕ → ℕ → Memalign
  -- `fmt::format(pattern, strerror(-code))`
  pub format : String → ℤ → String
  -- "File {} has been destroyed"
  pub destroyed_error : String

-- `is_open` is that `m_fd` and `m_abtio` are not null.
pub record AbtIoTarget (File : Type 0) : Type 0 where
  pub config : String
  pub filename : List ℕ
  pub is_open : Bool
  pub file_exists : Bool
  pub file : File
  pub file_size : ℕ
  pub alignment : ℕ
  pub lock : RwLock

pub record AbtIoRegion : Type 0 where
  pub id : RegionId
  pub offset : ℕ

unfoldable pub get_region_id : AbtIoRegion → Result RegionId
get_region_id r = succeed r.id

-- A call of ABT-IO with a null instance is undefined.
abbrev pub in_use : {File : Type 0} → AbtIoTarget File → Run (Unit {0})
in_use t = if t.is_open then done tt else undef

-- `s == (ssize_t)n`
abbrev pub is_pos : ℕ → ℤ → Bool
is_pos n (pos m) = m == n
is_pos n (negsuc m) = false

-- Whether some `abt_io_op_wait` was not 0.
unfoldable pub any_wait_failed : List Completion → Bool
any_wait_failed [] = false
any_wait_failed (c ∷ cs) = if is_pos 0 c.wait then any_wait_failed cs else true

-- The last negative `ret`, if there is one.
unfoldable pub last_error : List Completion → Option ℤ
last_error [] = none
last_error (c ∷ cs) = elim (last_error cs) [
  | some z ↦ some z
  | none ↦ if is_neg c.ret then some c.ret else none
]

module _ (A : AbtIo) where
  open A use {File}

  -- The checks after the operations of `write` and of `read`.
  unfoldable pub outcome : String → List Completion → BoolResult
  unfolding any_wait_failed last_error
  outcome wait_error cs =
      if any_wait_failed cs then fail_bool wait_error else elim (last_error cs) [
        | none ↦ success_bool
        | some z ↦ fail_bool (A.format "Read failed: {}" z)
      ]

  -- The loop of `write`.
  unfoldable pub issue_writes : File → ℕ → List Segment → Bytes → ℕ → Run (List Completion × File)
  issue_writes file region_offset [] ptr offset = done ([], file)
  issue_writes file region_offset ((o, n) ∷ ss) ptr offset = do
    chunk ← load ptr offset n
    let (c, file') = A.pwrite_nb file chunk (wrap (region_offset + o))
    (cs, file'') ← issue_writes file' region_offset ss ptr (wrap (offset + n))
    done (c ∷ cs, file'')

  -- `abt_io_fdatasync` and its check.
  unfoldable pub sync : AbtIoTarget File → BoolResult × AbtIoTarget File
  sync t =
      let (ret, file) = A.fdatasync t.file in
      (
        if is_pos 0 ret
            then success_bool
            else fail_bool "Persist failed (abt_io_fdatasync returned -1)",
        record t { file = file },
      )

  unfoldable pub write :
      AbtIoTarget File
      → AbtIoRegion
      → List Segment
      → Bytes
      → Bool
      → Run (BoolResult × AbtIoTarget File)
  write t r region_offset_sizes ptr persist = do
    in_use t
    (cs, file) ← issue_writes t.file r.offset region_offset_sizes ptr 0
    let result = outcome "Write failed (abt_io_op_wait returned -1)" cs
    let written = record t { file = file }
    done (
        if result.success
        then (if persist then sync written else (result, written))
        else (result, written))

  unfoldable pub persist :
      AbtIoTarget File → AbtIoRegion → List Segment → Run (BoolResult × AbtIoTarget File)
  persist t r region_offset_sizes = do in_use t; done (sync t)

  -- The loop of `read`: what arrives is stored in the buffer.
  unfoldable pub issue_reads : File → ℕ → List Segment → ℕ → Bytes → Run (List Completion × Bytes)
  issue_reads file region_offset [] offset ptr = done ([], ptr)
  issue_reads file region_offset ((o, n) ∷ ss) offset ptr = do
    let (c, arrived) = A.pread_nb file n (wrap (region_offset + o))
    ptr' ← store ptr offset arrived
    (cs, ptr'') ← issue_reads file region_offset ss (wrap (offset + n)) ptr'
    done (c ∷ cs, ptr'')

  unfoldable pub read :
      AbtIoTarget File
      → AbtIoRegion
      → List Segment
      → Bytes
      → Run (BoolResult × Bytes × AbtIoTarget File)
  read t r region_offset_sizes ptr = do
    in_use t
    (cs, ptr') ← issue_reads t.file r.offset region_offset_sizes 0 ptr
    done (outcome "Read failed (abt_io_op_wait returned -1)" cs, ptr', t)

  module _ (N : Network) where
    open N use {Remote, Bulk, Endpoint}

    abbrev pull_into :
        Remote
        → AbtIoTarget File
        → AbtIoRegion
        → List Segment
        → Bulk
        → Endpoint
        → ℕ
        → Bool
        → Memalign
        → Run (BoolResult × AbtIoTarget File)
    pull_into w t r ss bulk address off persist (failed code) =
        done (fail_bool (A.format "posix_memalign failed in write: {}" (pos code)), t)
    pull_into w t r ss bulk address off persist (block b) = do
      arrived ← N.pull w address bulk off (total_size ss)
      write t r ss arrived persist

    unfoldable pub write_bulk :
        Remote
        → AbtIoTarget File
        → AbtIoRegion
        → List Segment
        → Bulk
        → Endpoint
        → ℕ
        → Bool
        → Run (BoolResult × AbtIoTarget File)
    write_bulk w t r ss remote_bulk address remote_bulk_offset persist =
        pull_into w t r ss remote_bulk address remote_bulk_offset persist
          (A.memalign t.alignment (total_size ss))

    abbrev push_from :
        Remote
        → AbtIoTarget File
        → AbtIoRegion
        → List Segment
        → Bulk
        → Endpoint
        → ℕ
        → Memalign
        → Run (BoolResult × Remote × AbtIoTarget File)
    push_from w t r ss bulk address off (failed code) =
        done (fail_bool (A.format "posix_memalign failed in write: {}" (pos code)), w, t)
    push_from w t r ss bulk address off (block b) = do
      (result, filled, t') ← read t r ss b
      if result.success
          then (do
            w' ← N.push w address bulk off (take (total_size ss) filled)
            done (result, w', t'))
          else done (result, w, t')

    unfoldable pub read_bulk :
        Remote
        → AbtIoTarget File
        → AbtIoRegion
        → List Segment
        → Bulk
        → Endpoint
        → ℕ
        → Run (BoolResult × Remote × AbtIoTarget File)
    read_bulk w t r ss remote_bulk address remote_bulk_offset =
        push_from w t r ss remote_bulk address remote_bulk_offset
          (A.memalign t.alignment (total_size ss))
