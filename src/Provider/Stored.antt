-- ===== src/Provider/Stored.antt =====
-- A client's data through the handlers of src/ProviderImpl.hpp, to a target of
-- src/MemoryBackend.cpp and back.
use mochi_warabi.Prelude.{
  ℕ, ◌^◌, ◌<◌, ◌≡◌, refl, sym, ◌∙◌, Bool, false, List, [], ◌∷◌, some, length, get_elem?, replicate,
  arith, word, length-append, length-set, length-replicate, get_elem?-append_last, ◌==◌, Bool-cases,
  inl, inr,
}
use mochi_warabi.Run.{done}
use mochi_warabi.Bytes.{Bytes}
use mochi_warabi.Result.{succeed, success_bool}
use mochi_warabi.RegionId.RoundTrip.{index-index_size_to_region_id}
use mochi_warabi.Segments.{Segment, convert_to_segments, total_size, InBounds, Disjoint}
use mochi_warabi.Segments.Scatter.{scatter, total_size-sum}
use mochi_warabi.Network.{Network, IsFaithful}
use mochi_warabi.DefaultTransfer.{default_transfer}
use mochi_warabi.DefaultTransfer
use mochi_warabi.Memory.Region.{MemoryTarget, get_region_id}
use mochi_warabi.Memory.{memory_backend, read, close}
use mochi_warabi.Memory.Regions.{Names, created, new_handle, create-created, open_valid}
use mochi_warabi.Memory.Contents.{
  Fits, written, write-written, read-written, write_bulk-eq-write, read_bulk-written,
}
use mochi_warabi.Provider.{
  Provider, Unset, create_write_eager_rpc, create_write_rpc, read_eager_rpc, read_rpc, source_of,
}

-- The one place that a request for a whole region of `n` bytes names.
abbrev pub whole : ℕ → List Segment
whole n = (0, n) ∷ []

whole-InBounds : (n m : ℕ) → n ≡ m → InBounds m (convert_to_segments (whole n))
unfolding convert_to_segments
whole-InBounds n m h = elim (Bool-cases (n == 0)) [
  | inl e ↦ rw e tt
  | inr e ↦ rw e (omega arith, tt)
]

whole-Disjoint : (n : ℕ) → Disjoint (convert_to_segments (whole n))
unfolding convert_to_segments
whole-Disjoint n = elim (Bool-cases (n == 0)) [ inl e ↦ rw e tt | inr e ↦ rw e (tt, tt) ]

whole-Fits : (d : Bytes) → length d < word → Fits (replicate (length d) 0) (whole (length d)) d
whole-Fits d h = record {
  within =
      whole-InBounds (length d) (length (replicate (length d) 0))
        (sym (length-replicate (length d) 0));
  size = omega arith;
  in_memory = h;
}

-- The target once a region with the data has been created, and its handle closed.
abbrev pub settled : MemoryTarget → Bytes → MemoryTarget
settled t d =
    record (written (created t (length d)) (new_handle t (length d)) (whole (length d)) d
      (replicate (length d) 0)) { locked = false }

abbrev pub provider_of : (N : Network) → MemoryTarget → Provider N (memory_backend N)
provider_of N t = record {
  target = some t;
  transfer_manager = default_transfer N (memory_backend N);
}

module _ (t : MemoryTarget) (d : Bytes) where
  new_region_at :
      get_elem? (created t (length d)).regions (length t.regions) ≡ some (replicate (length d) 0)
  new_region_at = get_elem?-append_last t.regions (replicate (length d) 0) (length t.regions) refl

  pub total_whole : length d < word → total_size (whole (length d)) ≡ length d
  total_whole h = total_size-sum (whole (length d)) (omega arith) ∙ omega arith

  settled-Names :
      length t.regions < 2 ^ 63
      → Names (settled t d) (new_handle t (length d)).id (length t.regions)
  settled-Names few = (
    index-index_size_to_region_id (length t.regions) (length d) few,
    omega (
      arith,
      length-set (created t (length d)).regions (length t.regions)
          (scatter (convert_to_segments (whole (length d))) d 0 (replicate (length d) 0)),
      length-append t.regions (replicate (length d) 0 ∷ []),
    ),
  )

module _ (N : Network) (unset : Unset) (t : MemoryTarget) (d : Bytes) where
  pub create_write_eager_rpc-settled :
      (persist : Bool)
      → t.locked ≡ false
      → length d < word
      → create_write_eager_rpc N (memory_backend N) unset (provider_of N t) d persist
        ≡ done (succeed (new_handle t (length d)).id, provider_of N (settled t d))
  unfolding create_write_eager_rpc get_region_id close
  create_write_eager_rpc-settled persist u small = rw (create-created t (length d) u) (
      rw
        (write-written (created t (length d)) (new_handle t (length d)) (whole (length d)) d
          (replicate (length d) 0) persist (new_region_at t d) (whole-Fits d small))
        refl)

  pub read_eager_rpc-settled :
      length t.regions < 2 ^ 63
      → length d < word
      → ((n : ℕ) → length (unset.buffer n) ≡ n)
      → read_eager_rpc N
          (memory_backend N)
          unset
          (provider_of N (settled t d))
          (new_handle t (length d)).id
          (whole (length d))
        ≡ done (succeed d, provider_of N (settled t d))
  unfolding read_eager_rpc close read
  read_eager_rpc-settled few small new =
      let r = new_handle t (length d) in
      rw (open_valid (settled t d) r.id (length t.regions) refl (settled-Names t d few)) (
        rw
          (read-written (created t (length d)) r (whole (length d)) d (replicate (length d) 0)
            (unset.buffer (total_size (whole (length d)))) (new_region_at t d) (whole-Fits d small)
            (whole-Disjoint (length d))
            (new (total_size (whole (length d))) ∙ total_whole t d small))
          refl)

  module _ (law : IsFaithful N) (w : N.Remote) (e : N.Endpoint) where
    pub create_write_rpc-settled :
        (persist : Bool)
        → t.locked ≡ false
        → length d < word
        → create_write_rpc N
            (memory_backend N)
            unset
            (N.expose w e d).1
            e
            (provider_of N t)
            (N.expose w e d).0
            ""
            0
            (length d)
            persist
          ≡ done (succeed (new_handle t (length d)).id, provider_of N (settled t d))
    unfolding create_write_rpc get_region_id close source_of DefaultTransfer.pull
    create_write_rpc-settled persist u small = rw (create-created t (length d) u) (
        rw
          (write_bulk-eq-write N law w e (created t (length d)) (new_handle t (length d))
            (whole (length d)) d (replicate (length d) 0) persist (new_region_at t d)
            (whole-Fits d small))
          (rw
            (write-written (created t (length d)) (new_handle t (length d)) (whole (length d)) d
              (replicate (length d) 0) persist (new_region_at t d) (whole-Fits d small))
            refl))

    pub read_rpc-settled :
        (buf : Bytes)
        → length buf ≡ length d
        → length t.regions < 2 ^ 63
        → length d < word
        → (w' : N.Remote) × (read_rpc N
              (memory_backend N)
              unset
              (N.expose w e buf).1
              e
              (provider_of N (settled t d))
              (new_handle t (length d)).id
              (whole (length d))
              (N.expose w e buf).0
              ""
              0
            ≡ done (success_bool, w', provider_of N (settled t d)))
          × (N.contents w' e (N.expose w e buf).0 ≡ d)
    unfolding read_rpc close read source_of DefaultTransfer.push
    read_rpc-settled buf l few small =
        let r = new_handle t (length d) in
        let (w', sent, arrived) =
          read_bulk-written N law w e (created t (length d)) r (whole (length d)) d
            (replicate (length d) 0) buf (new_region_at t d) (whole-Fits d small)
            (whole-Disjoint (length d)) l in
        (
          w',
          rw (open_valid (settled t d) r.id (length t.regions) refl (settled-Names t d few))
              (rw sent refl),
          arrived,
        )
