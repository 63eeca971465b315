-- ===== src/Segments/Plain.antt =====
-- The two loops without their checks, over the places of a request as the client lists them, the
-- empty ones included.
use mochi_warabi.Prelude.{
  ℕ, zero, suc, ◌+◌, ◌<◌, ◌≡◌, refl, sym, ap, ◌∙◌, List, [], ◌∷◌, ◌++◌, take, drop, length, arith,
  word, length-append, ◌==◌, false,
}
use mathlib.Core.List.{append_assoc}
use mochi_warabi.Run.{done}
use mochi_warabi.Bytes.{Bytes, slice, patch}
use mochi_warabi.Bytes.Laws.{length-slice}
use mochi_warabi.Segments.{Segment, convert_to_segments, copy_out, sum, InBounds}
use mochi_warabi.Segments.Scatter.{scatter, Holds}
use mochi_warabi.Segments.Copy.{copy_out-Holds, take_all}

-- The bytes at the places, one place after the other.
pub gathered : List Segment → Bytes → Bytes
gathered [] b = []
gathered ((o, n) ∷ ss) b = slice b o n ++ gathered ss b

take-drop : (n : ℕ) (xs : Bytes) → take n xs ++ drop n xs ≡ xs
take-drop zero xs = refl
take-drop (suc n) [] = refl
take-drop (suc n) (x ∷ xs) = ap (◌∷◌ x) (take-drop n xs)

patch_empty : (b d : Bytes) (o off : ℕ) → patch b o (slice d off 0) ≡ b
unfolding patch slice
patch_empty b d o off = let e : o + 0 ≡ o = omega arith in rw e (take-drop o b)

not_empty : (n : ℕ) → (suc n == 0) ≡ false
not_empty n = ground arith

pub scatter-convert_to_segments :
    (ss : List Segment) (d : Bytes) (off : ℕ) (b : Bytes)
    → scatter (convert_to_segments ss) d off b ≡ scatter ss d off b
unfolding convert_to_segments scatter
scatter-convert_to_segments [] d off b = refl
scatter-convert_to_segments ((o, zero) ∷ ss) d off b =
    let e : off + 0 ≡ off = omega arith in
    rw (patch_empty b d o off, e) (scatter-convert_to_segments ss d off b)
scatter-convert_to_segments ((o, suc n) ∷ ss) d off b =
    rw (not_empty n)
      (scatter-convert_to_segments ss d (off + suc n) (patch b o (slice d off (suc n))))

pub gathered-convert_to_segments :
    (ss : List Segment) (b : Bytes) → gathered (convert_to_segments ss) b ≡ gathered ss b
unfolding convert_to_segments gathered slice
gathered-convert_to_segments [] b = refl
gathered-convert_to_segments ((o, zero) ∷ ss) b = gathered-convert_to_segments ss b
gathered-convert_to_segments ((o, suc n) ∷ ss) b =
    rw (not_empty n) (ap (◌++◌ (slice b o (suc n))) (gathered-convert_to_segments ss b))

pub length-gathered :
    (ss : List Segment) (b : Bytes) → InBounds (length b) ss → length (gathered ss b) ≡ sum ss
unfolding gathered
length-gathered [] b h = refl
length-gathered ((o, n) ∷ ss) b h = omega (
  arith,
  length-append (slice b o n) (gathered ss b),
  length-slice b o n h.0,
  length-gathered ss b h.1,
)

drop-append : (xs ys : Bytes) (n : ℕ) → n ≡ length xs → drop n (xs ++ ys) ≡ ys
drop-append [] ys zero h = refl
drop-append [] ys (suc n) h = absurd (omega arith)
drop-append (x ∷ xs) ys zero h = absurd (omega arith)
drop-append (x ∷ xs) ys (suc n) h = drop-append xs ys n (omega arith)

take-append : (xs ys : Bytes) (n : ℕ) → n ≡ length xs → take n (xs ++ ys) ≡ xs
take-append [] ys zero h = refl
take-append [] ys (suc n) h = absurd (omega arith)
take-append (x ∷ xs) ys zero h = absurd (omega arith)
take-append (x ∷ xs) ys (suc n) h = ap (◌∷◌ x) (take-append xs ys n (omega arith))

slice-append :
    (pre x rest : Bytes) (off n : ℕ)
    → off ≡ length pre
    → n ≡ length x
    → slice (pre ++ (x ++ rest)) off n ≡ x
unfolding slice
slice-append pre x rest off n h k = rw (drop-append pre (x ++ rest) off h) (take-append x rest n k)

-- The places hold what is gathered from them.
gathered-Holds :
    (ss : List Segment) (pre b : Bytes) (off : ℕ)
    → off ≡ length pre
    → InBounds (length b) ss
    → Holds ss (pre ++ gathered ss b) off b
unfolding gathered
gathered-Holds [] pre b off e h = tt
gathered-Holds ((o, n) ∷ ss) pre b off e h =
    let l = length-slice b o n h.0 in
    (
      sym (slice-append pre (slice b o n) (gathered ss b) off n e (sym l)),
      subst_append (append_assoc pre (slice b o n) (gathered ss b)) (
          gathered-Holds ss (pre ++ slice b o n) b (off + n)
            (omega (arith, length-append pre (slice b o n))) h.1),
    )
  where
    subst_append : {xs ys : Bytes} → xs ≡ ys → Holds ss xs (off + n) b → Holds ss ys (off + n) b
    subst_append p q = rw (sym p) q

pub copy_out-gathered :
    (ss : List Segment) (b buf : Bytes)
    → InBounds (length b) ss
    → sum ss < word
    → length buf ≡ sum ss
    → copy_out ss b 0 buf ≡ done (gathered ss b)
copy_out-gathered ss b buf h w l =
    let d = gathered ss b in
    let s = length-gathered ss b h in
    let (buf', e, l', t) =
      copy_out-Holds ss d 0 b buf h (omega arith) (omega arith) (gathered-Holds ss [] b 0 refl h)
        (omega arith) refl in
    let all : 0 + sum ss ≡ length d = omega arith in
    e ∙ ap done (sym (take_all buf' (length d) l') ∙ (rw all at t) ∙ take_all d (length d) refl)
