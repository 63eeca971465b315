-- ===== src/Pmem/Durable.antt =====
-- What a region of src/PmemBackend.cpp holds after a write, and after a crash.
use mochi_warabi.Prelude.{
  ℕ, ◌+◌, ◌<◌, ◌≤◌, ◌≡◌, refl, sym, ap, ◌∙◌, inl, inr, Bool, true, false, List, [], ◌∷◌, length,
  arith, ◌==◌, word, Bool-cases,
}
use mochi_warabi.Run.{done}
use mochi_warabi.Bytes.{Bytes, slice, patch}
use mochi_warabi.Bytes.Laws.{
  length-slice, length-patch, slice-patch_self, slice-patch_before, slice-patch_after, load_done,
  store_done,
}
use mochi_warabi.Result.{success_bool}
use mochi_warabi.RwLock.{one_reader, readers_left, unlock-one_reader}
use mochi_warabi.Segments.{Segment, copy_out, sum, InBounds, ApartFrom, Disjoint}
use mochi_warabi.Segments.Scatter.{
  scatter, length-scatter, copy_in-scatter, scatter-Holds, Holds, no_segments,
}
use mochi_warabi.Segments.Copy.{copy_out-Holds, take_all}
use mochi_warabi.Pmem.Region.{PmemTarget, PmemRegion, segments_at, flush, write, read}

-- Each place has the same bytes in both.
abbrev pub Synced : List Segment → Bytes → Bytes → Type 0
Synced [] memory durable = Unit {0}
Synced ((o, n) ∷ ss) memory durable =
    (slice durable o n ≡ slice memory o n) × Synced ss memory durable

flush_slice :
    (memory durable : Bytes) (o n : ℕ)
    → o + n ≤ length memory
    → length durable ≡ length memory
    → slice (patch durable o (slice memory o n)) o n ≡ slice memory o n
flush_slice memory durable o n h l =
    let e = length-slice memory o n h in
    ap (slice (patch durable o (slice memory o n)) o) (sym e)
    ∙ slice-patch_self durable o (slice memory o n) (omega arith)

flush_done :
    (ss : List Segment) (memory durable : Bytes)
    → InBounds (length memory) ss
    → length durable ≡ length memory
    → Disjoint ss
    → (durable' : Bytes) × (flush ss memory durable ≡ done durable')
      × (length durable' ≡ length memory)
      × Synced ss memory durable'
      × ((p m : ℕ) → ApartFrom p m ss → slice durable' p m ≡ slice durable p m)
unfolding flush
flush_done [] memory durable h l a = (durable, refl, l, tt, λ p m ap'. refl)
flush_done ((o, n) ∷ ss) memory durable h l a =
    let e = length-slice memory o n h.0 in
    let next = patch durable o (slice memory o n) in
    let fits : o + length (slice memory o n) ≤ length durable = omega arith in
    let l' = length-patch durable o (slice memory o n) fits ∙ l in
    let (durable', done', len', synced, kept) = flush_done ss memory next h.1 l' a.1 in
    (
      durable',
      rw (load_done memory o n h.0, store_done durable o (slice memory o n) fits) done',
      len',
      (kept o n a.0 ∙ flush_slice memory durable o n h.0 l, synced),
      λ p m apart. kept p m apart.1 ∙ elim apart.0 [
        | inl before ↦ slice-patch_before durable o (slice memory o n) p m fits before
        | inr after ↦ slice-patch_after durable o (slice memory o n) p m fits (omega arith)
      ],
    )

Holds-Synced :
    (ss : List Segment) (d : Bytes) (off : ℕ) (memory durable : Bytes)
    → Holds ss d off memory
    → Synced ss memory durable
    → Holds ss d off durable
Holds-Synced [] d off memory durable h s = tt
Holds-Synced ((o, n) ∷ ss) d off memory durable h s =
    (s.0 ∙ h.0, Holds-Synced ss d (off + n) memory durable h.1 s.1)

-- A request over a target of the pool whose mapping and durable copy have the same size.
pub record Fits {Heap : Type 0} (t : PmemTarget Heap) (r : PmemRegion) (ss : List Segment)
    (d : Bytes) : Type 0 where
  pub within : InBounds (length t.memory) (segments_at r ss)
  pub apart : Disjoint (segments_at r ss)
  pub size : sum (segments_at r ss) ≡ length d
  pub in_memory : length d < word
  pub mapped : length t.durable ≡ length t.memory

copy_out_whole :
    (ss : List Segment) (d b buf : Bytes)
    → InBounds (length b) ss
    → Holds ss d 0 b
    → sum ss ≡ length d
    → length d < word
    → length buf ≡ length d
    → copy_out ss b 0 buf ≡ done d
copy_out_whole ss d b buf h held s w l =
    let (buf', e, l', t) = copy_out-Holds ss d 0 b buf h (omega arith) w held l refl in
    let all : 0 + sum ss ≡ length d = omega arith in
    e ∙ ap done (sym (take_all buf' (length d) l') ∙ (rw all at t) ∙ take_all d (length d) refl)

module _ {Heap : Type 0} where
  -- A write under the read lock succeeds and releases the lock once. The mapped memory then holds
  -- the data at the places; if persistence is asked for so does the durable copy, which is else as
  -- it was.
  pub write_lem :
      (t : PmemTarget Heap) (r : PmemRegion) (ss : List Segment) (d : Bytes) (persist : Bool)
      (k : ℕ)
      → t.lock ≡ one_reader k
      → Fits t r ss d
      → (memory durable : Bytes) × (write t r ss d persist
          ≡ done (
            success_bool,
            record t { memory = memory; durable = durable; lock = readers_left k },
          ))
        × Holds (segments_at r ss) d 0 memory
        × (length memory ≡ length t.memory)
        × (length durable ≡ length t.memory)
        × (persist ≡ true → Holds (segments_at r ss) d 0 durable)
        × (persist ≡ false → durable ≡ t.durable)
  unfolding write
  write_lem t r ss d false k u f =
      let s = f.size in
      let m = scatter (segments_at r ss) d 0 t.memory in
      (
        m,
        t.durable,
        rw (copy_in-scatter (segments_at r ss) d 0 t.memory f.within (omega arith) f.in_memory)
            (rw u (rw (unlock-one_reader k) refl)),
        scatter-Holds (segments_at r ss) d 0 t.memory f.within (omega arith) f.apart,
        length-scatter (segments_at r ss) d 0 t.memory f.within (omega arith),
        f.mapped,
        λ e. absurd (cc),
        λ e. refl,
      )
  write_lem t r ss d true k u f =
      let s = f.size in
      let m = scatter (segments_at r ss) d 0 t.memory in
      let lm = length-scatter (segments_at r ss) d 0 t.memory f.within (omega arith) in
      let held = scatter-Holds (segments_at r ss) d 0 t.memory f.within (omega arith) f.apart in
      let (durable, flushed, ld, synced, kept) =
        flush_done (segments_at r ss) m t.durable (rw lm f.within) (f.mapped ∙ sym lm) f.apart in
      (
        m,
        durable,
        rw (copy_in-scatter (segments_at r ss) d 0 t.memory f.within (omega arith) f.in_memory)
            (rw flushed (rw u (rw (unlock-one_reader k) refl))),
        held,
        lm,
        ld ∙ lm,
        λ e. Holds-Synced (segments_at r ss) d 0 m durable held synced,
        λ e. absurd (cc),
      )

  read-Holds :
      (t : PmemTarget Heap) (r : PmemRegion) (ss : List Segment) (d buf : Bytes) (k : ℕ)
      → t.lock ≡ one_reader k
      → InBounds (length t.memory) (segments_at r ss)
      → Holds (segments_at r ss) d 0 t.memory
      → sum (segments_at r ss) ≡ length d
      → length d < word
      → 0 < length d
      → length buf ≡ length d
      → read t r ss buf ≡ done (success_bool, d, record t { lock = readers_left k })
  unfolding read
  read-Holds t r ss d buf k u h held s w z l = elim (Bool-cases (length (segments_at r ss) == 0)) [
    | inl none_left ↦ let e = no_segments (segments_at r ss) none_left in absurd (omega arith)
    | inr some_left ↦ rw some_left (
        rw (copy_out_whole (segments_at r ss) d t.memory buf h held s w l)
          (rw u (rw (unlock-one_reader k) refl)))
  ]

  -- The state after a crash and a restart: the mapping holds what was durable. A reader has opened
  -- its region.
  abbrev pub crashed : PmemTarget Heap → PmemTarget Heap
  crashed t = record t { memory = t.durable; lock = one_reader 0 }

  -- A local write of at least one byte, with or without persistence, to places that lie in the pool
  -- and do not overlap, whose sizes add up to that of the data, below 2 ^ 64, while the mapping and its
  -- durable copy have one size and the writer is one of the holders of the read lock: the write
  -- succeeds and gives its hold on the lock back, and a local read of the same places into a buffer of
  -- that size, by a later holder of the read lock, returns the data and gives its hold back.
  pub read-write_pmem :
      (t : PmemTarget Heap) (r : PmemRegion) (ss : List Segment) (d buf : Bytes) (persist : Bool)
      (k j : ℕ)
      → t.lock ≡ one_reader k
      → Fits t r ss d
      → 0 < length d
      → length buf ≡ length d
      → (t' : PmemTarget Heap) × (write t r ss d persist ≡ done (success_bool, t'))
        × (t'.lock ≡ readers_left k)
        × (read (record t' { lock = one_reader j }) r ss buf
            ≡ done (success_bool, d, record t' { lock = readers_left j }))
  read-write_pmem t r ss d buf persist k j u f z l =
      let (memory, durable, written, held, lm, ld, durable_held, kept) =
        write_lem t r ss d persist k u f in
      let t' = record t { memory = memory; durable = durable; lock = readers_left k } in
      (
        t',
        written,
        refl,
        read-Holds (record t' { lock = one_reader j }) r ss d buf j refl (rw lm f.within) held
            f.size f.in_memory z l,
      )

  -- A local write of at least one byte that asks for persistence, to places that lie in the pool and
  -- do not overlap, whose sizes add up to that of the data, below 2 ^ 64, while the mapping and its
  -- durable copy have one size and the writer is one of the holders of the read lock: the write
  -- succeeds, and after a crash that leaves only the durable copy, a local read of the same places into
  -- a buffer of that size returns the data.
  pub read-crashed-write :
      (t : PmemTarget Heap) (r : PmemRegion) (ss : List Segment) (d buf : Bytes) (k : ℕ)
      → t.lock ≡ one_reader k
      → Fits t r ss d
      → 0 < length d
      → length buf ≡ length d
      → (t' : PmemTarget Heap) × (write t r ss d true ≡ done (success_bool, t'))
        × (read (crashed t') r ss buf
            ≡ done (success_bool, d, record (crashed t') { lock = readers_left 0 }))
  read-crashed-write t r ss d buf k u f z l =
      let (memory, durable, written, held, lm, ld, durable_held, kept) =
        write_lem t r ss d true k u f in
      let t' = record t { memory = memory; durable = durable; lock = readers_left k } in
      (
        t',
        written,
        read-Holds (crashed t') r ss d buf 0 refl (rw ld f.within) (durable_held refl) f.size
            f.in_memory z l,
      )
