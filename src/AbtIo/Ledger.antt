-- ===== src/AbtIo/Ledger.antt =====
-- Who holds the migration lock of src/AbtIOBackend.cpp. A region releases it when it is destroyed,
-- and the error paths release it themselves.
use mochi_warabi.Prelude.{ℕ, ◌≡◌, ◌⊎◌, inl, inr, Bool, Option, none, some, arith}
use mochi_warabi.Run.{Run, done, ◌>>=◌}
use mochi_warabi.Result.{Result}
use mochi_warabi.RegionId.{RegionId}
use mochi_warabi.RwLock.{readers_left, unlock-one_reader}
use mochi_warabi.AbtIo.Region.{AbtIo, AbtIoTarget, AbtIoRegion, Memalign}
use mochi_warabi.AbtIo.{create, create_in, write, read, erase, close}

module _ (A : AbtIo) where
  open A use {File}

  -- What the caller does with the handle, if it got one.
  unfoldable pub dropped : Result (Option AbtIoRegion) × AbtIoTarget File → Run (AbtIoTarget File)
  dropped (res, t) = elim res.value [ none ↦ done t | some r ↦ close A t r ]

  create_in-lock :
      (t t' : AbtIoTarget File) (offset size k : ℕ) (m : Memalign)
      → t.lock ≡ readers_left k
      → (create_in A t offset size m >>= dropped) ≡ done t'
      → t'.lock ≡ t.lock
  unfolding dropped close
  create_in-lock t t' offset size k (Memalign.failed code) u h = ground arith
  create_in-lock t t' offset size k (Memalign.block b) u h = ground (arith, unlock-one_reader k)

  -- Creating a region, opening one and erasing one, each with the handle dropped at the end, leave as
  -- many readers as there were, on every path that ends: success, failed allocation, failed write,
  -- and a file that is gone.
  pub requests_balanced :
      (t t' : AbtIoTarget File) (rid : RegionId) (size k : ℕ) (persist : Bool)
      → t.lock ≡ readers_left k
      → ((create A t size >>= dropped) ≡ done t')
        ⊎ ((write A t rid persist >>= dropped) ≡ done t')
        ⊎ ((read A t rid >>= dropped) ≡ done t')
        ⊎ ((erase A t rid >>= λ p. done p.1) ≡ done t')
      → t'.lock ≡ t.lock
  unfolding create write read erase dropped close
  requests_balanced t t' rid size k persist u (inl h) =
      create_in-lock (record t { file_size = _ }) t' t.file_size _ k _ u h
  requests_balanced t t' rid size k persist u (inr (inl h)) = ground arith
  requests_balanced t t' rid size k persist u (inr (inr (inl h))) = ground arith
  requests_balanced t t' rid size k persist u (inr (inr (inr h))) = ground arith
