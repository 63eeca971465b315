-- ===== src/Segments/Copy.antt =====
-- The loop that reads, and the two loops one after the other.
use mochi_warabi.Prelude.{
  ℕ, zero, suc, ◌+◌, ◌≤◌, ◌<◌, ◌≡◌, refl, sym, ap, ◌∙◌, List, [], ◌∷◌, ◌++◌, take, drop, length,
  arith, word, wrap_small,
}
use mochi_warabi.Run.{done}
use mochi_warabi.Bytes.{Bytes, slice, patch}
use mochi_warabi.Bytes.Laws.{length-slice, length-patch, load_done, store_done}
use mochi_warabi.Segments.{Segment, copy_out, sum, InBounds, Disjoint}
use mochi_warabi.Segments.Scatter.{scatter, length-scatter, scatter-Holds, Holds}

take-add : (m n : ℕ) (xs : Bytes) → take (m + n) xs ≡ take m xs ++ take n (drop m xs)
take-add zero n xs = let e : 0 + n ≡ n = omega arith in rw e refl
take-add (suc m) zero [] = let e : suc m + 0 ≡ suc (m + 0) = omega arith in rw e refl
take-add (suc m) (suc n) [] = let e : suc m + suc n ≡ suc (m + suc n) = omega arith in rw e refl
take-add (suc m) n (x ∷ xs) =
    let e : suc m + n ≡ suc (m + n) = omega arith in rw e (ap (◌∷◌ x) (take-add m n xs))

take-patch_aux :
    (m : ℕ) (b x r : Bytes)
    → m ≤ length b
    → take (m + length x) (take m b ++ (x ++ r)) ≡ take m b ++ x
take-patch_aux zero b [] r h = refl
take-patch_aux zero b (y ∷ x) r h =
    let e : 0 + suc (length x) ≡ suc (0 + length x) = omega arith in
    rw e (ap (◌∷◌ y) (take-patch_aux zero b x r (omega arith)))
take-patch_aux (suc m) [] x r h = elim h [ ]
take-patch_aux (suc m) (y ∷ b) x r h =
    let e : suc m + length x ≡ suc (m + length x) = omega arith in
    rw e (ap (◌∷◌ y) (take-patch_aux m b x r (omega arith)))

-- Once the bytes at `off` are copied, the two buffers agree up to the end of these.
take-patch :
    (buf d : Bytes) (off n : ℕ)
    → off + n ≤ length d
    → length buf ≡ length d
    → take off buf ≡ take off d
    → take (off + n) (patch buf off (slice d off n)) ≡ take (off + n) d
unfolding slice patch
take-patch buf d off n h k t =
    let e = length-slice d off n h in
    ap (λ (m : ℕ). take (off + m) (patch buf off (slice d off n))) (sym e)
    ∙ take-patch_aux off buf (slice d off n) _ (omega arith)
    ∙ ap (λ (p : Bytes). p ++ slice d off n) t
    ∙ sym (take-add off n d)

pub copy_out-Holds :
    (ss : List Segment) (d : Bytes) (off : ℕ) (b buf : Bytes)
    → InBounds (length b) ss
    → off + sum ss ≤ length d
    → length d < word
    → Holds ss d off b
    → length buf ≡ length d
    → take off buf ≡ take off d
    → (buf' : Bytes) × (copy_out ss b off buf ≡ done buf')
      × (length buf' ≡ length d)
      × (take (off + sum ss) buf' ≡ take (off + sum ss) d)
unfolding copy_out
copy_out-Holds [] d off b buf h k w held l t =
    let e : off + 0 ≡ off = omega arith in (buf, refl, l, rw e t)
copy_out-Holds ((o, n) ∷ ss) d off b buf h k w held l t =
    let s = length-slice d off n (omega arith) in
    let fits : off + length (slice d off n) ≤ length buf = omega arith in
    let (buf', e, l', t') =
      copy_out-Holds ss d (off + n) b (patch buf off (slice d off n)) h.1 (omega arith) w held.1
        (length-patch buf off (slice d off n) fits ∙ l)
        (take-patch buf d off n (omega arith) l t) in
    let assoc : off + (n + sum ss) ≡ off + n + sum ss = omega arith in
    (
      buf',
      rw
          (
            load_done b o n h.0,
            held.0,
            store_done buf off (slice d off n) fits,
            wrap_small (off + n) (omega arith),
          )
          e,
      l',
      rw assoc t',
    )

pub take_all : (xs : Bytes) (n : ℕ) → length xs ≡ n → take n xs ≡ xs
take_all [] zero h = refl
take_all [] (suc n) h = refl
take_all (x ∷ xs) zero h = absurd (omega arith)
take_all (x ∷ xs) (suc n) h = ap (◌∷◌ x) (take_all xs n (omega arith))

-- What was written over disjoint places is read back from them, into any buffer of that size.
pub copy_out-scatter :
    (ss : List Segment) (d b buf : Bytes)
    → InBounds (length b) ss
    → Disjoint ss
    → sum ss ≡ length d
    → length d < word
    → length buf ≡ length d
    → copy_out ss (scatter ss d 0 b) 0 buf ≡ done d
copy_out-scatter ss d b buf h a s w l =
    let (buf', e, l', t) =
      copy_out-Holds ss d 0 (scatter ss d 0 b) buf (rw (length-scatter ss d 0 b h (omega arith)) h)
        (omega arith) w (scatter-Holds ss d 0 b h (omega arith) a) l refl in
    let all : 0 + sum ss ≡ length d = omega arith in
    e ∙ ap done (sym (take_all buf' (length d) l') ∙ (rw all at t) ∙ take_all d (length d) refl)

drop-drop : (m n : ℕ) (xs : Bytes) → drop n (drop m xs) ≡ drop (m + n) xs
drop-drop zero n xs = let e : 0 + n ≡ n = omega arith in rw e refl
drop-drop (suc m) zero [] = let e : suc m + 0 ≡ suc (m + 0) = omega arith in rw e refl
drop-drop (suc m) (suc n) [] = let e : suc m + suc n ≡ suc (m + suc n) = omega arith in rw e refl
drop-drop (suc m) n (x ∷ xs) =
    let e : suc m + n ≡ suc (m + n) = omega arith in rw e (drop-drop m n xs)

-- Two places side by side.
pub slice-add :
    (d : Bytes) (off n m : ℕ) → slice d off (n + m) ≡ slice d off n ++ slice d (off + n) m
unfolding slice
slice-add d off n m =
    take-add n m (drop off d)
    ∙ ap (λ (xs : Bytes). take n (drop off d) ++ take m xs) (drop-drop off n d)
