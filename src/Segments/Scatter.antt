-- ===== src/Segments/Scatter.antt =====
-- What the loop that writes does, without the checks: the bytes of the buffer are laid out over the
-- segments, and no byte outside them moves.
use mochi_warabi.Prelude.{
  ℕ, ◌+◌, ◌≤◌, ◌<◌, ◌≡◌, refl, sym, ap, ◌∙◌, inl, inr, List, [], ◌∷◌, length, arith, word,
  wrap_small, true, ◌==◌,
}
use mochi_warabi.Run.{done}
use mochi_warabi.Bytes.{Bytes, slice, patch}
use mochi_warabi.Bytes.Laws.{
  length-slice, length-patch, slice-patch_self, slice-patch_before, slice-patch_after, load_done,
  store_done,
}
use mochi_warabi.Segments.{
  Segment, convert_to_segments, accumulate, total_size, copy_in, sum, InBounds, ApartFrom, Disjoint,
}

unfoldable pub scatter : List Segment → Bytes → ℕ → Bytes → Bytes
scatter [] d off b = b
scatter ((o, n) ∷ ss) d off b = scatter ss d (off + n) (patch b o (slice d off n))

length-patch-slice :
    (b d : Bytes) (o off n : ℕ)
    → o + n ≤ length b
    → off + n ≤ length d
    → length (patch b o (slice d off n)) ≡ length b
length-patch-slice b d o off n h k =
    length-patch b o (slice d off n) (omega (arith, length-slice d off n k))

pub length-scatter :
    (ss : List Segment) (d : Bytes) (off : ℕ) (b : Bytes)
    → InBounds (length b) ss
    → off + sum ss ≤ length d
    → length (scatter ss d off b) ≡ length b
unfolding scatter
length-scatter [] d off b h k = refl
length-scatter ((o, n) ∷ ss) d off b h k =
    let e = length-patch-slice b d o off n h.0 (omega arith) in
    length-scatter ss d (off + n) (patch b o (slice d off n)) (rw e h.1) (omega arith) ∙ e

-- The loop with its checks ends, and with that content.
pub copy_in-scatter :
    (ss : List Segment) (d : Bytes) (off : ℕ) (b : Bytes)
    → InBounds (length b) ss
    → off + sum ss ≤ length d
    → length d < word
    → copy_in ss d off b ≡ done (scatter ss d off b)
unfolding copy_in scatter
copy_in-scatter [] d off b h k w = refl
copy_in-scatter ((o, n) ∷ ss) d off b h k w =
    let e = length-patch-slice b d o off n h.0 (omega arith) in
    rw
      (
        load_done d off n (omega arith),
        store_done b o (slice d off n) (omega (arith, length-slice d off n (omega arith))),
        wrap_small (off + n) (omega arith),
      )
      (copy_in-scatter ss d (off + n) (patch b o (slice d off n)) (rw e h.1) (omega arith) w)

-- A place apart from the segments keeps its bytes.
pub slice-scatter_apart :
    (ss : List Segment) (d : Bytes) (off : ℕ) (b : Bytes) (p m : ℕ)
    → InBounds (length b) ss
    → off + sum ss ≤ length d
    → ApartFrom p m ss
    → slice (scatter ss d off b) p m ≡ slice b p m
unfolding scatter
slice-scatter_apart [] d off b p m h k a = refl
slice-scatter_apart ((o, n) ∷ ss) d off b p m h k a =
    let e = length-patch-slice b d o off n h.0 (omega arith) in
    slice-scatter_apart ss d (off + n) (patch b o (slice d off n)) p m (rw e h.1) (omega arith) a.1
    ∙ elim a.0 [
      | inl before ↦
          slice-patch_before b o (slice d off n) p m
            (omega (arith, length-slice d off n (omega arith))) before
      | inr after ↦
          slice-patch_after b o (slice d off n) p m
            (omega (arith, length-slice d off n (omega arith)))
            (omega (arith, length-slice d off n (omega arith)))
    ]

-- The segments hold, one after the other, the bytes of `d` from `off` on.
abbrev pub Holds : List Segment → Bytes → ℕ → Bytes → Type 0
Holds [] d off b = Unit {0}
Holds ((o, n) ∷ ss) d off b = (slice b o n ≡ slice d off n) × Holds ss d (off + n) b

slice-patch-slice :
    (b d : Bytes) (o off n : ℕ)
    → o + n ≤ length b
    → off + n ≤ length d
    → slice (patch b o (slice d off n)) o n ≡ slice d off n
slice-patch-slice b d o off n h k =
    let e = length-slice d off n k in
    ap (slice (patch b o (slice d off n)) o) (sym e)
    ∙ slice-patch_self b o (slice d off n) (omega arith)

pub scatter-Holds :
    (ss : List Segment) (d : Bytes) (off : ℕ) (b : Bytes)
    → InBounds (length b) ss
    → off + sum ss ≤ length d
    → Disjoint ss
    → Holds ss d off (scatter ss d off b)
unfolding scatter
scatter-Holds [] d off b h k a = tt
scatter-Holds ((o, n) ∷ ss) d off b h k a =
    let e = length-patch-slice b d o off n h.0 (omega arith) in
    (
      slice-scatter_apart ss d (off + n) (patch b o (slice d off n)) o n (rw e h.1) (omega arith)
            a.0
          ∙ slice-patch-slice b d o off n h.0 (omega arith),
      scatter-Holds ss d (off + n) (patch b o (slice d off n)) (rw e h.1) (omega arith) a.1,
    )

accumulate-sum :
    (ss : List Segment) (acc : ℕ) → acc + sum ss < word → accumulate acc ss ≡ acc + sum ss
unfolding accumulate
accumulate-sum [] acc h = omega arith
accumulate-sum ((o, n) ∷ ss) acc h =
    rw (wrap_small (acc + n) (omega arith))
      (omega (arith, accumulate-sum ss (acc + n) (omega arith)))

pub total_size-sum : (ss : List Segment) → sum ss < word → total_size ss ≡ sum ss
unfolding total_size
total_size-sum ss h = omega (arith, accumulate-sum ss 0 (omega arith))

-- Leaving the empty places out does not change the sum.
pub sum-convert_to_segments : (ss : List Segment) → sum (convert_to_segments ss) ≡ sum ss
unfolding convert_to_segments
sum-convert_to_segments [] = refl
sum-convert_to_segments ((o, n) ∷ ss) = ground (arith, sum-convert_to_segments ss)

pub no_segments : (ss : List Segment) → (length ss == 0) ≡ true → sum ss ≡ 0
no_segments [] h = refl
no_segments (s ∷ ss) h = absurd (ground arith)
