-- ===== src/Memory/Contents.antt =====
-- Reading and writing a region of src/MemoryBackend.cpp, from local buffers and by RDMA.
use mochi_warabi.Prelude.{
  ℕ, ◌+◌, ◌<◌, ◌≡◌, ◌≢◌, refl, sym, ap, ◌∙◌, Bool, true, List, [], ◌∷◌, some, length, get_elem?,
  set, arith, ◌==◌, word, zero, suc, Bool-cases, inl, inr, get_elem?-set_self, get_elem?-set_ne,
  get_elem?-lt,
}
use mathlib.Core.Option.{some-injective}
use mochi_warabi.Run.{done}
use mochi_warabi.Bytes.{Bytes, slice}
use mochi_warabi.Bytes.Laws.{load_done}
use mochi_warabi.Result.{success_bool}
use mochi_warabi.Segments.{
  Segment, convert_to_segments, total_size, copy_in, sum, InBounds, Disjoint, ApartFrom,
}
use mochi_warabi.Segments.Scatter.{
  scatter, length-scatter, copy_in-scatter, slice-scatter_apart, total_size-sum,
  sum-convert_to_segments, Holds, scatter-Holds, no_segments,
}
use mochi_warabi.Segments.Copy.{copy_out-scatter, slice-add, take_all}
use mochi_warabi.Network.{Network, IsFaithful}
use mochi_warabi.Memory.Region.{
  MemoryTarget, MemoryRegion, contents, contents_or_undef, replace, gather, write, read, write_bulk,
  read_bulk,
}

-- A request whose non-empty places lie in the region `b`, and whose sizes add up to a buffer `d`.
pub record Fits (b : Bytes) (segments : List Segment) (d : Bytes) : Type 0 where
  pub within : InBounds (length b) (convert_to_segments segments)
  pub size : sum segments ≡ length d
  pub in_memory : length d < word

module _ (b : Bytes) (segments : List Segment) (d : Bytes) (f : Fits b segments d) where
  size_converted : sum (convert_to_segments segments) ≡ length d
  size_converted = sum-convert_to_segments segments ∙ f.size

  size_total : total_size (convert_to_segments segments) ≡ length d
  size_total =
      total_size-sum (convert_to_segments segments) (omega (arith, size_converted, f.in_memory))
      ∙ size_converted

  copy_in_fits :
      copy_in (convert_to_segments segments) d 0 b
      ≡ done (scatter (convert_to_segments segments) d 0 b)
  copy_in_fits =
      copy_in-scatter (convert_to_segments segments) d 0 b f.within (omega (arith, size_converted))
        f.in_memory

abbrev pub written : MemoryTarget → MemoryRegion → List Segment → Bytes → Bytes → MemoryTarget
written t r segments d b = replace t r (scatter (convert_to_segments segments) d 0 b)

pub write-written :
    (t : MemoryTarget) (r : MemoryRegion) (segments : List Segment) (d b : Bytes) (persist : Bool)
    → get_elem? t.regions r.index ≡ some b
    → Fits b segments d
    → write t r segments d persist ≡ done (success_bool, written t r segments d b)
unfolding write contents
write-written t r segments d b persist e f = rw e (rw (copy_in_fits b segments d f) refl)

pub empty_buffer : (buf d : Bytes) → length buf ≡ 0 → length d ≡ 0 → buf ≡ d
empty_buffer [] [] h k = refl
empty_buffer [] (x ∷ d) h k = absurd (omega arith)
empty_buffer (x ∷ buf) d h k = absurd (omega arith)

module _ (t : MemoryTarget) (r : MemoryRegion) (segments : List Segment) (d b : Bytes) where
  contents-written :
      get_elem? t.regions r.index ≡ some b
      → get_elem? (written t r segments d b).regions r.index
        ≡ some (scatter (convert_to_segments segments) d 0 b)
  contents-written e = get_elem?-set_self t.regions r.index _ (get_elem?-lt t.regions r.index b e)

  pub read-written :
      (buf : Bytes)
      → get_elem? t.regions r.index ≡ some b
      → Fits b segments d
      → Disjoint (convert_to_segments segments)
      → length buf ≡ length d
      → read (written t r segments d b) r segments buf
        ≡ done (success_bool, d, written t r segments d b)
  unfolding read contents
  read-written buf e f a l = elim (Bool-cases (length (convert_to_segments segments) == 0)) [
    | inl none_left ↦
        let z = no_segments (convert_to_segments segments) none_left in
        let s = size_converted b segments d f in
        rw none_left (rw (empty_buffer buf d (omega arith) (omega arith)) refl)
    | inr some_left ↦ rw some_left (
        rw (contents-written e) (
          rw
            (copy_out-scatter (convert_to_segments segments) d b buf f.within a
              (size_converted b segments d f) f.in_memory l)
            refl))
  ]

-- Writing `d` over disjoint places inside a region succeeds; reading the same places then returns
-- `d`, whatever the buffer it is read into held. Another region `r'` keeps its bytes, and so do any
-- `m` bytes at `p` of the region that are apart from the places; the region keeps its size, and the
-- lock its state.
pub read-write :
    (t : MemoryTarget) (r : MemoryRegion) (segments : List Segment) (d b buf : Bytes)
    (persist : Bool) (r' : MemoryRegion) (p m : ℕ)
    → get_elem? t.regions r.index ≡ some b
    → Fits b segments d
    → Disjoint (convert_to_segments segments)
    → length buf ≡ length d
    → ApartFrom p m (convert_to_segments segments)
    → r.index ≢ r'.index
    → (t' : MemoryTarget) × (b' : Bytes) × (write t r segments d persist ≡ done (success_bool, t'))
      × (read t' r segments buf ≡ done (success_bool, d, t'))
      × (contents t' r ≡ done b')
      × (length b' ≡ length b)
      × (slice b' p m ≡ slice b p m)
      × (contents t' r' ≡ contents t r')
      × (t'.locked ≡ t.locked)
unfolding contents
read-write t r segments d b buf persist r' p m e f a l apart ne =
    let s = size_converted b segments d f in
    (
      written t r segments d b,
      scatter (convert_to_segments segments) d 0 b,
      write-written t r segments d b persist e f,
      read-written t r segments d b buf e f a l,
      ap contents_or_undef (contents-written t r segments d b e),
      length-scatter (convert_to_segments segments) d 0 b f.within (omega arith),
      slice-scatter_apart (convert_to_segments segments) d 0 b p m f.within (omega arith) apart,
      ap contents_or_undef (get_elem?-set_ne t.regions r.index r'.index _ ne),
      refl,
    )

set_same : (bs : List Bytes) (i : ℕ) (b : Bytes) → get_elem? bs i ≡ some b → set bs i b ≡ bs
set_same [] i b e = refl
set_same (x ∷ bs) zero b e = ap (λ (y : Bytes). y ∷ bs) (sym (some-injective x b e))
set_same (x ∷ bs) (suc i) b e = ap (◌∷◌ x) (set_same bs i b e)

convert_empty : (ss : List Segment) → (length ss == 0) ≡ true → ss ≡ []
convert_empty [] h = refl
convert_empty (s ∷ ss) h = absurd (ground arith)

gather-Holds :
    (ss : List Segment) (d : Bytes) (off : ℕ) (b : Bytes)
    → InBounds (length b) ss
    → Holds ss d off b
    → gather ss b ≡ done (slice d off (sum ss))
unfolding gather slice
gather-Holds [] d off b h held = refl
gather-Holds ((o, n) ∷ ss) d off b h held =
    rw
      (
        load_done b o n h.0,
        held.0,
        gather-Holds ss d (off + n) b h.1 held.1,
        slice-add d off n (sum ss),
      )
      refl

gather-written :
    (ss : List Segment) (d b : Bytes)
    → InBounds (length b) ss
    → sum ss ≡ length d
    → Disjoint ss
    → gather ss (scatter ss d 0 b) ≡ done d
gather-written ss d b h s a =
    gather-Holds ss d 0 (scatter ss d 0 b) (rw (length-scatter ss d 0 b h (omega arith)) h)
      (scatter-Holds ss d 0 b h (omega arith) a)
    ∙ ap done (unfold slice in take_all d (sum ss) (sym s))

module _ (N : Network) (law : IsFaithful N) where
  -- Over a faithful network, a write that pulls from a buffer that a client exposed leaves what a
  -- write of the same bytes from a local buffer leaves.
  pub write_bulk-eq-write :
      (w : N.Remote) (e : N.Endpoint) (t : MemoryTarget) (r : MemoryRegion)
      (segments : List Segment) (d b : Bytes) (persist : Bool)
      → get_elem? t.regions r.index ≡ some b
      → Fits b segments d
      → write_bulk N (N.expose w e d).1 t r segments (N.expose w e d).0 e 0 persist
        ≡ write t r segments d persist
  unfolding write_bulk write contents copy_in
  write_bulk-eq-write w e t r segments d b persist at f =
      elim (Bool-cases (length (convert_to_segments segments) == 0)) [
        | inl none_left ↦ rw none_left (
            rw at (
              rw (convert_empty (convert_to_segments segments) none_left) (
                ap (λ (bs : List Bytes). done (success_bool, record t { regions = bs }))
                  (sym (set_same t.regions r.index b at)))))
        | inr some_left ↦ rw some_left (
            rw
              (law.pull-expose w e d (total_size (convert_to_segments segments))
                (size_total b segments d f))
              refl)
      ]

  pub read_bulk-written :
      (w : N.Remote) (e : N.Endpoint) (t : MemoryTarget) (r : MemoryRegion)
      (segments : List Segment) (d b buf : Bytes)
      → get_elem? t.regions r.index ≡ some b
      → Fits b segments d
      → Disjoint (convert_to_segments segments)
      → length buf ≡ length d
      → (w' : N.Remote) × (read_bulk N
            (N.expose w e buf).1
            (written t r segments d b)
            r
            segments
            (N.expose w e buf).0
            e
            0
          ≡ done (success_bool, w', written t r segments d b))
        × (N.contents w' e (N.expose w e buf).0 ≡ d)
  unfolding read_bulk contents
  read_bulk-written w e t r segments d b buf at f a l =
      elim (Bool-cases (length (convert_to_segments segments) == 0)) [
        | inl none_left ↦
            let z = no_segments (convert_to_segments segments) none_left in
            let s = size_converted b segments d f in
            (
              (N.expose w e buf).1,
              rw none_left refl,
              law.contents-expose w e buf ∙ empty_buffer buf d (omega arith) (omega arith),
            )
        | inr some_left ↦
            let (w', sent, arrived) = law.push-expose w e buf d (sym l) in
            (
              w',
              rw some_left (
                  rw (contents-written t r segments d b at) (
                    rw
                      (gather-written (convert_to_segments segments) d b f.within
                        (size_converted b segments d f) a)
                      (rw
                        (take_all d (total_size (convert_to_segments segments))
                          (sym (size_total b segments d f)))
                        (rw sent refl)))),
              arrived,
            )
      ]

  -- Over a faithful network, what was written over disjoint places arrives in the buffer that a
  -- client exposed, whatever that held, when the same places are read by RDMA.
  pub read_bulk-write :
      (w : N.Remote) (e : N.Endpoint) (t : MemoryTarget) (r : MemoryRegion)
      (segments : List Segment) (d b buf : Bytes) (persist : Bool)
      → get_elem? t.regions r.index ≡ some b
      → Fits b segments d
      → Disjoint (convert_to_segments segments)
      → length buf ≡ length d
      → (t' : MemoryTarget) × (w' : N.Remote) × (write t r segments d persist
          ≡ done (success_bool, t'))
        × (read_bulk N (N.expose w e buf).1 t' r segments (N.expose w e buf).0 e 0
            ≡ done (success_bool, w', t'))
        × (N.contents w' e (N.expose w e buf).0 ≡ d)
  read_bulk-write w e t r segments d b buf persist at f a l =
      let (w', sent, arrived) = read_bulk-written w e t r segments d b buf at f a l in
      (written t r segments d b, w', write-written t r segments d b persist at f, sent, arrived)
