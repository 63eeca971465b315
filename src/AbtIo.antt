-- ===== src/AbtIo.antt =====
-- src/AbtIOBackend.hpp and src/AbtIOBackend.cpp: a target over one file, read and written with
-- ABT-IO. A region is a range of the file.
pub mod Region
pub mod Allocation
pub mod Ledger
pub mod Migration
pub mod Setup
pub mod Opened
pub mod Reliable
use Prim.Native.Nat.{bit_and}
use mochi_warabi.Prelude.{
  ℕ, ◌+◌, ◌-◌, ◌≡◌, String, Bool, true, false, List, [], ◌∷◌, Option, none, some, length,
  if◌then◌else◌, ◌==◌, wrap, ℤ, pos, is_neg, to_nat,
}
use mochi_warabi.Run.{Run, done, ◌>>=◌, ◌>>◌}
use mochi_warabi.Bytes.{Bytes, load}
use mochi_warabi.Result.{Result, BoolResult, succeed, fail, success_bool, fail_bool}
use mochi_warabi.RegionId.{RegionId, offset_size_to_region_id, region_id_to_offset_size}
use mochi_warabi.RwLock.{RwLock, rdlock, wrlock, unlock}
use mochi_warabi.Network.{Network}
use mochi_warabi.Backend.{Backend}
use Region.{AbtIo, Memalign, AbtIoTarget, AbtIoRegion, in_use, is_pos}
use Region

-- `WARABI_ALIGN_UP`: `(x + (a - 1)) & ~(a - 1)` in an unsigned long. `y & ~m` is `y - (y & m)`.
unfoldable pub align_up : ℕ → ℕ → ℕ
align_up x a = wrap (x + (a - 1)) - bit_and (wrap (x + (a - 1))) (a - 1)

module _ (A : AbtIo) where
  open A use {File}

  unfoldable pub get_config : AbtIoTarget File → String
  get_config t = t.config

  -- `abt_io_close` and `abt_io_finalize` are called with the instance, which is null the second time.
  unfoldable pub destroy : AbtIoTarget File → Run (BoolResult × AbtIoTarget File)
  destroy t = do in_use t; done (success_bool, record t { is_open = false; file_exists = false })

  -- `create` from the allocation of the zero block on: the region's place is already taken.
  abbrev create_in :
      AbtIoTarget File → ℕ → ℕ → Memalign → Run (Result (Option AbtIoRegion) × AbtIoTarget File)
  create_in t offset aligned_size (Memalign.failed code) =
      done (fail (A.format "posix_memalign failed in create: {}" (pos code)) none, t)
  create_in t offset aligned_size (Memalign.block zero_block) = do
    lock ← rdlock t.lock
    let locked = record t { lock = lock }
    in_use locked
    content ← load zero_block 0 aligned_size
    let (s, file) = A.pwrite locked.file content offset
    let written = record locked { file = file }
    if is_pos aligned_size s
        then done (
          succeed (
              some (record { id = offset_size_to_region_id offset aligned_size; offset = offset })),
          written,
        )
        else do
          lock' ← unlock written.lock
          done (
            fail (A.format "abt_io_pwrite failed in create: {}" s) none,
            record written { lock = lock' },
          )

  unfoldable pub create :
      AbtIoTarget File → ℕ → Run (Result (Option AbtIoRegion) × AbtIoTarget File)
  create t size =
      let aligned_size = align_up size t.alignment in
      create_in (record t { file_size = wrap (t.file_size + aligned_size) }) t.file_size
        aligned_size (A.memalign t.alignment size)

  unfoldable pub write :
      AbtIoTarget File → RegionId → Bool → Run (Result (Option AbtIoRegion) × AbtIoTarget File)
  write t rid persist = do
    lock ← rdlock t.lock
    let locked = record t { lock = lock }
    let region : AbtIoRegion = record { id = rid; offset = (region_id_to_offset_size rid).0 }
    if t.is_open then done (succeed (some region), locked) else do
      lock' ← unlock lock
      done (fail A.destroyed_error none, record locked { lock = lock' })

  -- Unlike `write`, it does not test that the file is still there.
  unfoldable pub read :
      AbtIoTarget File → RegionId → Run (Result (Option AbtIoRegion) × AbtIoTarget File)
  read t rid = do
    lock ← rdlock t.lock
    let region : AbtIoRegion = record { id = rid; offset = (region_id_to_offset_size rid).0 }
    done (succeed (some region), record t { lock = lock })

  unfoldable pub erase : AbtIoTarget File → RegionId → Run (BoolResult × AbtIoTarget File)
  erase t rid = do
    let (offset, size) = region_id_to_offset_size rid
    lock ← rdlock t.lock
    in_use t
    let (ret, file) = A.punch_hole t.file offset size
    lock' ← unlock lock
    done (
      if is_pos 0 ret then success_bool else fail_bool "abt_io_fallocate failed to erase region",
      record t { file = file; lock = lock' },
    )

  -- The destructor of a region.
  unfoldable pub close : AbtIoTarget File → AbtIoRegion → Run (AbtIoTarget File)
  close t r = do lock ← unlock t.lock; done (record t { lock = lock })

  abbrev pub abt_io_backend : (N : Network) → Backend N
  abt_io_backend N = record {
    Target = AbtIoTarget File;
    Region = AbtIoRegion;
    get_config = get_config;
    create = create;
    write = write;
    read = read;
    erase = erase;
    destroy = destroy;
    get_region_id = Region.get_region_id;
    region_write_bulk = Region.write_bulk A N;
    region_write = Region.write A;
    region_persist = Region.persist A;
    region_read_bulk = Region.read_bulk A N;
    region_read = Region.read A;
    close = close;
  }
