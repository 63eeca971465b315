-- ===== src/Provider/Spec/Refines.antt =====
-- The handlers of src/ProviderImpl.hpp over src/MemoryBackend.cpp, and the abstract store.
use mochi_warabi.Prelude.{
  ℕ, zero, suc, drop, ◌+◌, ◌<◌, ◌≡◌, Bool, refl, sym, ap, ◌∙◌, ℤ, pos, negsuc, String, false, true,
  List, [], ◌∷◌, ◌++◌, map, none, some, length, set, get_elem?, replicate, arith, word,
  Option-cases, inl, inr, ◌⊎◌, get_elem?-lt, get_elem?-some, ◌==◌, Bool-cases,
}
use mathlib.Core.List.{append-nil}
use mochi_warabi.Run.{done}
use mochi_warabi.Bytes.{Bytes, slice, patch}
use mochi_warabi.Result.{success_bool}
use mochi_warabi.RegionId.{RegionId, region_id_to_index}
use mochi_warabi.Segments.{Segment, convert_to_segments, sum, InBounds, total_size}
use mochi_warabi.Segments.Scatter.{scatter, total_size-sum, sum-convert_to_segments, no_segments}
use mochi_warabi.Segments.Copy.{take_all}
use mochi_warabi.Segments.Plain
use mochi_warabi.Segments.Plain.{
  gathered, length-gathered, copy_out-gathered, gathered-convert_to_segments,
}
use mochi_warabi.Network.{Network}
use mochi_warabi.Memory.Region.{MemoryTarget, MemoryRegion, get_region_id}
use mochi_warabi.Memory.Region
use mochi_warabi.Memory.{memory_backend, write, read, close}
use mochi_warabi.Memory.Regions.{
  Names, handle, open_valid, open_invalid_at, erase_valid, erase_invalid_at, create-created,
}
use mochi_warabi.Memory.Contents.{write-written, empty_buffer}
use mochi_warabi.Provider.{
  Provider, Unset, create_rpc, write_eager_rpc, persist_rpc, read_eager_rpc, erase_rpc, refuse,
  release,
}
use mochi_warabi.Provider.Idle.{serve, serve_all}
use mochi_warabi.Provider.Stored.{provider_of, settled, whole, create_write_eager_rpc-settled}
use mochi_warabi.Provider.Spec.{
  Store, Eager, request_of, find, find_at, step, replay, Allowed, AllAllowed,
}

-- A target on which no handle is alive.
abbrev pub at_rest : String → Store → MemoryTarget
at_rest config s = record { config = config; regions = s; locked = false }

past_end : (s : Store) (i : ℕ) → get_elem? s i ≡ none → ¬ (i < length s)
past_end s i h l = let (b, e) = get_elem?-some s i l in cc

find_at-cases :
    (config : String) (s : Store) (id : RegionId) (z : ℤ)
    → region_id_to_index id ≡ z
    → ((i : ℕ) × (b : Bytes) × (find_at s z ≡ some (i, b))
        × Names (at_rest config s) id i
        × (get_elem? s i ≡ some b))
      ⊎ ((find_at s z ≡ none) × ((i : ℕ) → ¬ Names (at_rest config s) id i))
find_at-cases config s id (pos i) e = elim (Option-cases (get_elem? s i)) [
  | inl h ↦ inr (rw h refl, λ j n. past_end s i h (ground (arith, n.0, n.1)))
  | inr (b, h) ↦ inl (i, b, rw h refl, (e, get_elem?-lt s i b h), h)
]
find_at-cases config s id (negsuc i) e = inr (refl, λ j n. ground (arith, n.0))

find-cases :
    (config : String) (s : Store) (id : RegionId)
    → ((i : ℕ) × (b : Bytes) × (find s id ≡ some (i, b))
        × Names (at_rest config s) id i
        × (get_elem? s i ≡ some b))
      ⊎ ((find s id ≡ none) × ((i : ℕ) → ¬ Names (at_rest config s) id i))
unfolding find
find-cases config s id = find_at-cases config s id (region_id_to_index id) refl

set-append_last :
    (s : Store) (x y : Bytes) (i : ℕ) → i ≡ length s → set (s ++ x ∷ []) i y ≡ s ++ y ∷ []
set-append_last [] x y zero h = refl
set-append_last [] x y (suc i) h = absurd (omega arith)
set-append_last (z ∷ s) x y zero h = absurd (omega arith)
set-append_last (z ∷ s) x y (suc i) h = ap (◌∷◌ z) (set-append_last s x y i (omega arith))

drop-replicate : (n : ℕ) (x : ℕ) → drop n (replicate n x) ≡ []
drop-replicate zero x = refl
drop-replicate (suc n) x = drop-replicate n x

nothing_left : (d : Bytes) → d ++ drop (0 + length d) (replicate (length d) 0) ≡ d
nothing_left d =
    let e : 0 + length d ≡ length d = omega arith in
    rw (e, drop-replicate (length d) 0) (append-nil d)

-- A new region that is overwritten as a whole.
settled_regions : (t : MemoryTarget) (d : Bytes) → (settled t d).regions ≡ t.regions ++ d ∷ []
unfolding scatter slice patch
settled_regions t d =
    rw (Plain.scatter-convert_to_segments (whole (length d)) d 0 (replicate (length d) 0)) (
      rw (take_all d (length d) refl)
        (rw (nothing_left d) (set-append_last t.regions _ _ (length t.regions) refl)))

read-gathered :
    (t : MemoryTarget) (r : MemoryRegion) (ss : List Segment) (b buf : Bytes)
    → get_elem? t.regions r.index ≡ some b
    → InBounds (length b) (convert_to_segments ss)
    → sum ss < word
    → length buf ≡ total_size ss
    → Region.read t r ss buf ≡ done (success_bool, gathered ss b, t)
unfolding Region.read Region.contents
read-gathered t r ss b buf at h small l =
    let e = total_size-sum ss small in
    let c = sum-convert_to_segments ss in
    elim (Bool-cases (length (convert_to_segments ss) == 0)) [
      | inl none_left ↦ rw none_left (
          ap (λ (x : Bytes). done (success_bool, x, t))
            (empty_buffer buf (gathered ss b)
              (omega (arith, no_segments (convert_to_segments ss) none_left))
              (ap length (sym (gathered-convert_to_segments ss b))
                ∙ length-gathered (convert_to_segments ss) b h
                ∙ no_segments (convert_to_segments ss) none_left)))
      | inr some_left ↦ rw some_left (
          rw at (
            rw (copy_out-gathered (convert_to_segments ss) b buf h (omega arith) (omega arith))
              (rw (gathered-convert_to_segments ss b) refl)))
    ]

module _ (N : Network) (unset : Unset) (config : String) where
  abbrev pub store_provider : Store → Provider N (memory_backend N)
  store_provider s = provider_of N (at_rest config s)

  module _ (w : N.Remote) (e : N.Endpoint) where
    -- The provider with the store `s` answers the request as the store does.
    abbrev Serves : Store → Eager → Type 0
    Serves s r =
        serve N (memory_backend N) unset e (w, store_provider s) (request_of N r)
        ≡ done ((step s r).0, (w, store_provider (step s r).1))

    create-Serves : (s : Store) (size : ℕ) → Serves s (Eager.create size)
    unfolding serve create_rpc request_of step close get_region_id
    create-Serves s size = rw (create-created (at_rest config s) size refl) refl

    write_eager-Serves :
        (s : Store) (id : RegionId) (ss : List Segment) (d : Bytes) (durable : Bool)
        → Allowed s (Eager.write_eager id ss d durable)
        → Serves s (Eager.write_eager id ss d durable)
    unfolding serve write_eager_rpc request_of step close write refuse release
    write_eager-Serves s id ss d durable f = elim (find-cases config s id) [
      | inl (i, b, h, n, at) ↦ rw h (
          rw (open_valid (at_rest config s) id i refl n) (
            rw
              (write-written (record (at_rest config s) { locked = true }) (handle id i) ss d b
                durable at (rw h at f))
              (rw (Plain.scatter-convert_to_segments ss d 0 b) refl)))
      | inr (h, n) ↦
          rw h (rw (open_invalid_at (at_rest config s) id (region_id_to_index id) refl refl n) refl)
    ]

    persist-Serves :
        (s : Store) (id : RegionId) (ss : List Segment) → Serves s (Eager.persist id ss)
    unfolding serve persist_rpc request_of step close write refuse release Region.persist
    persist-Serves s id ss = elim (find-cases config s id) [
      | inl (i, b, h, n, at) ↦ rw h (rw (open_valid (at_rest config s) id i refl n) refl)
      | inr (h, n) ↦
          rw h (rw (open_invalid_at (at_rest config s) id (region_id_to_index id) refl refl n) refl)
    ]

    erase-Serves : (s : Store) (id : RegionId) → Serves s (Eager.erase id)
    unfolding serve erase_rpc request_of step
    erase-Serves s id = elim (find-cases config s id) [
      | inl (i, b, h, n, at) ↦ rw h (rw (erase_valid (at_rest config s) id i refl n) refl)
      | inr (h, n) ↦
          rw h
            (rw (erase_invalid_at (at_rest config s) id (region_id_to_index id) refl refl n) refl)
    ]

    create_write_eager-Serves :
        (s : Store) (d : Bytes) (durable : Bool)
        → length d < word
        → Serves s (Eager.create_write_eager d durable)
    unfolding serve request_of step
    create_write_eager-Serves s d durable h =
        rw (create_write_eager_rpc-settled N unset (at_rest config s) d durable refl h)
          (rw (settled_regions (at_rest config s) d) refl)

    read_eager-Serves :
        ((n : ℕ) → length (unset.buffer n) ≡ n)
        → (s : Store) (id : RegionId) (ss : List Segment) → Allowed s (Eager.read_eager id ss)
        → Serves s (Eager.read_eager id ss)
    unfolding serve read_eager_rpc request_of step close read
    read_eager-Serves new s id ss f = elim (find-cases config s id) [
      | inl (i, b, h, n, at) ↦
          let g = rw h at f in
          rw h (
            rw (open_valid (at_rest config s) id i refl n) (
              rw
                (read-gathered (record (at_rest config s) { locked = true }) (handle id i) ss b
                  (unset.buffer (total_size ss)) at g.0 g.1 (new (total_size ss)))
                refl))
      | inr (h, n) ↦
          rw h (rw (open_invalid_at (at_rest config s) id (region_id_to_index id) refl refl n) refl)
    ]

    request-Serves :
        ((n : ℕ) → length (unset.buffer n) ≡ n) → (s : Store) (r : Eager) → Allowed s r → Serves s r
    request-Serves new s (Eager.create size) f = create-Serves s size
    request-Serves new s (Eager.write_eager id ss d durable) f =
        write_eager-Serves s id ss d durable f
    request-Serves new s (Eager.persist id ss) f = persist-Serves s id ss
    request-Serves new s (Eager.create_write_eager d durable) f =
        create_write_eager-Serves s d durable f
    request-Serves new s (Eager.read_eager id ss) f = read_eager-Serves new s id ss f
    request-Serves new s (Eager.erase id) f = erase-Serves s id

    -- A provider with a memory target on which no handle is alive serves every sequence of requests
    -- that carry their data, whose segments lie in their regions and whose new buffers have the size
    -- asked for, as the abstract store does: it ends, with the same responses, and leaves a target
    -- with the regions of the abstract store and no handle alive.
    pub serve_all-replay :
        (s : Store) (rs : List Eager)
        → ((n : ℕ) → length (unset.buffer n) ≡ n)
        → AllAllowed s rs
        → serve_all N (memory_backend N) unset e (w, store_provider s) (map (request_of N) rs)
          ≡ done ((replay s rs).0, (w, store_provider (replay s rs).1))
    unfolding serve_all replay
    serve_all-replay s [] new f = refl
    serve_all-replay s (r ∷ rs) new f =
        rw (request-Serves new s r f.0) (rw (serve_all-replay (step s r).1 rs new f.1) refl)
