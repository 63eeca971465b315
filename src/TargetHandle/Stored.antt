-- ===== src/TargetHandle/Stored.antt =====
-- A client's data through src/TargetHandle.cpp, the provider and a target in memory, and back.
use mochi_warabi.Prelude.{
  ℕ, ◌^◌, ◌<◌, ◌≡◌, refl, sym, ap, ◌∙◌, Bool, true, false, some, length, arith, word, leb,
  Bool-cases, inl, inr,
}
use mochi_warabi.Run.{done}
use mochi_warabi.Bytes.{Bytes, load, slice, patch, store}
use mochi_warabi.Bytes.Laws.{load_done, store_done, length-patch, slice-patch_self}
use mochi_warabi.Result.{check, value_or_throw, save, restore, save_bool, restore_bool, check_bool}
use mochi_warabi.RegionId.{RegionId}
use mochi_warabi.Segments.Copy.{take_all}
use mochi_warabi.Network.{Network, IsFaithful}
use mochi_warabi.Memory.Region.{MemoryTarget}
use mochi_warabi.Memory.{memory_backend}
use mochi_warabi.Memory.Regions.{new_handle}
use mochi_warabi.Provider.{Unset}
use mochi_warabi.Provider.Stored.{
  whole, settled, provider_of, total_whole, create_write_eager_rpc-settled,
  create_write_rpc-settled, read_eager_rpc-settled, read_rpc-settled,
}
use mochi_warabi.TargetHandle.{
  TargetHandle, returned, create_and_write, create_and_write_from_bulk, read, read_to_bulk, respond,
  on_value, transport, transport_value, assign_or_check, copy_response, World,
}

slice_all : (b : Bytes) (n : ℕ) → length b ≡ n → slice b 0 n ≡ b
unfolding slice
slice_all b n h = take_all b n h

patch_all : (p d : Bytes) → length p ≡ length d → patch p 0 d ≡ d
patch_all p d h =
    sym (slice_all (patch p 0 d) (length d) (length-patch p 0 d (omega arith) ∙ h))
    ∙ slice-patch_self p 0 d (omega arith)

pub load_all : (d : Bytes) (n : ℕ) → length d ≡ n → load d 0 n ≡ done d
load_all d n h = load_done d 0 n (omega arith) ∙ ap done (slice_all d n h)

pub store_all : (p d : Bytes) → length p ≡ length d → store p 0 d ≡ done d
store_all p d h = store_done p 0 d (omega arith) ∙ ap done (patch_all p d h)

module _ (N : Network) (law : IsFaithful N) (unset : Unset) (client : N.Endpoint) where
  created_in :
      (h : TargetHandle) (w : N.Remote) (t : MemoryTarget) (d : Bytes) (persist : Bool)
      → h.is_valid ≡ true
      → t.locked ≡ false
      → length d < word
      → (w' : N.Remote) × (create_and_write N
            (memory_backend N)
            unset
            client
            h
            (w, provider_of N t)
            true
            d
            persist
            false
          ≡ done (returned (some (new_handle t (length d)).id), (w', provider_of N (settled t d))))
  unfolding create_and_write create_and_write_from_bulk respond on_value transport_value
      assign_or_check value_or_throw save restore
  created_in h w t d persist v u small =
      elim (Bool-cases (leb h.eager_write_threshold (length d))) [
        | inl e ↦ (
          (N.expose w client d).1,
          rw (v, e) (rw (create_write_rpc-settled N unset t d law w client persist u small) refl),
        )
        | inr e ↦
            (w, rw (v, e) (rw (create_write_eager_rpc-settled N unset t d persist u small) refl))
      ]

  read_in :
      (h : TargetHandle) (w : N.Remote) (t : MemoryTarget) (d ptr : Bytes)
      → h.is_valid ≡ true
      → length ptr ≡ length d
      → length t.regions < 2 ^ 63
      → length d < word
      → ((n : ℕ) → length (unset.buffer n) ≡ n)
      → (w' : N.Remote) × (read N
            (memory_backend N)
            unset
            client
            h
            (w, provider_of N (settled t d))
            (new_handle t (length d)).id
            (whole (length d))
            ptr
            false
          ≡ done (returned d, (w', provider_of N (settled t d))))
  unfolding read read_to_bulk respond on_value transport transport_value copy_response check
      check_bool save restore save_bool restore_bool
  read_in h w t d ptr v l few small new =
      elim (Bool-cases (leb h.eager_read_threshold (length d))) [
        | inl e ↦
            let (w', answered, arrived) =
              read_rpc-settled N unset t d law w client ptr l few small in
            (
              w',
              rw (v, total_whole t d small)
                  (rw e (
                    rw (load_all ptr (length d) l) (
                      rw answered (
                        rw arrived (
                          ap (λ (b : Bytes). done (returned b, (w', provider_of N (settled t d))))
                            (patch_all ptr d l)))))),
            )
        | inr e ↦ (
          w,
          rw (v, total_whole t d small)
              (rw e (
                rw (read_eager_rpc-settled N unset t d few small new)
                  (rw (load_all d (length d) refl) (rw (store_all ptr d l) refl)))),
        )
      ]

  -- For a valid handle with any two thresholds, a provider with the default transfer manager and a
  -- target in memory that is unlocked and has fewer than 2 ^ 63 regions, fewer than 2 ^ 64 bytes of data
  -- and a faithful network: creating a region with the data gives an id, and reading the whole of
  -- that region into memory of the same length puts the data there. Each of the two goes through the
  -- eager RPC or through RDMA, as its threshold says. `new char[n]` is taken to be `n` bytes.
  pub read-create_and_write :
      (h : TargetHandle) (w : N.Remote) (t : MemoryTarget) (d ptr : Bytes) (persist : Bool)
      → h.is_valid ≡ true
      → t.locked ≡ false
      → length t.regions < 2 ^ 63
      → length d < word
      → length ptr ≡ length d
      → ((n : ℕ) → length (unset.buffer n) ≡ n)
      → (id : RegionId) × (s : World N (memory_backend N) unset client) × (s' : World N
          (memory_backend N)
          unset
          client)
        × (create_and_write N
              (memory_backend N)
              unset
              client
              h
              (w, provider_of N t)
              true
              d
              persist
              false
            ≡ done (returned (some id), s))
        × (read N (memory_backend N) unset client h s id (whole (length d)) ptr false
            ≡ done (returned d, s'))
  read-create_and_write h w t d ptr persist v u few small l new =
      let (w1, c) = created_in h w t d persist v u small in
      let (w2, r) = read_in h w1 t d ptr v l few small new in
      (
        (new_handle t (length d)).id,
        (w1, provider_of N (settled t d)),
        (w2, provider_of N (settled t d)),
        c,
        r,
      )
