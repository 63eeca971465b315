-- ===== src/Bytes/Laws.antt =====
-- What a copy into a buffer changes and what it leaves.
use mochi_warabi.Prelude.{
  ℕ, zero, suc, ◌+◌, ◌≤◌, ◌≡◌, refl, ap, ◌∙◌, [], ◌∷◌, ◌++◌, take, drop, length, arith,
  length-append, length-take, length-drop,
}
use mochi_warabi.Run.{done}
use mochi_warabi.Bytes.{Bytes, slice, patch, load, store}

pub length-slice : (b : Bytes) (off n : ℕ) → off + n ≤ length b → length (slice b off n) ≡ n
unfolding slice
length-slice b off n h = omega (arith, length-take n (drop off b), length-drop off b)

pub length-patch :
    (b : Bytes) (off : ℕ) (d : Bytes)
    → off + length d ≤ length b
    → length (patch b off d) ≡ length b
unfolding patch
length-patch b off d h = omega (
  arith,
  length-append (take off b) (d ++ drop (off + length d) b),
  length-append d (drop (off + length d) b),
  length-take off b,
  length-drop (off + length d) b,
)

take-append : (xs ys : Bytes) → take (length xs) (xs ++ ys) ≡ xs
take-append [] ys = refl
take-append (x ∷ xs) ys = ap (◌∷◌ x) (take-append xs ys)

drop-take-append : (n : ℕ) (xs ys : Bytes) → n ≤ length xs → drop n (take n xs ++ ys) ≡ ys
drop-take-append zero xs ys h = refl
drop-take-append (suc n) [] ys h = elim h [ ]
drop-take-append (suc n) (x ∷ xs) ys h = drop-take-append n xs ys (omega arith)

-- The place that was written holds what was written.
pub slice-patch_self :
    (b : Bytes) (off : ℕ) (d : Bytes)
    → off + length d ≤ length b
    → slice (patch b off d) off (length d) ≡ d
unfolding slice patch
slice-patch_self b off d h =
    ap (take (length d)) (drop-take-append off b (d ++ drop (off + length d) b) (omega arith))
    ∙ take-append d (drop (off + length d) b)

slice_before :
    (o n off : ℕ) (b r : Bytes)
    → o + n ≤ off
    → off ≤ length b
    → take n (drop o (take off b ++ r)) ≡ take n (drop o b)
slice_before zero zero off b r h k = refl
slice_before zero (suc n) zero b r h k = absurd (omega arith)
slice_before zero (suc n) (suc off) [] r h k = elim k [ ]
slice_before zero (suc n) (suc off) (x ∷ b) r h k =
    ap (◌∷◌ x) (slice_before zero n off b r (omega arith) (omega arith))
slice_before (suc o) n zero b r h k = absurd (omega arith)
slice_before (suc o) n (suc off) [] r h k = elim k [ ]
slice_before (suc o) n (suc off) (x ∷ b) r h k =
    slice_before o n off b r (omega arith) (omega arith)

drop_after :
    (d : Bytes) (o : ℕ) (b : Bytes)
    → length d ≤ o
    → length d ≤ length b
    → drop o (d ++ drop (length d) b) ≡ drop o b
drop_after [] o b h k = refl
drop_after (y ∷ d) zero b h k = elim h [ ]
drop_after (y ∷ d) (suc o) [] h k = elim k [ ]
drop_after (y ∷ d) (suc o) (x ∷ b) h k = drop_after d o b (omega arith) (omega arith)

patch_after :
    (off o : ℕ) (d b : Bytes)
    → off + length d ≤ o
    → off + length d ≤ length b
    → drop o (take off b ++ (d ++ drop (off + length d) b)) ≡ drop o b
patch_after zero o d b h k =
    let e : 0 + length d ≡ length d = omega arith in
    rw e (drop_after d o b (omega arith) (omega arith))
patch_after (suc off) zero d b h k = absurd (omega arith)
patch_after (suc off) (suc o) d [] h k = absurd (omega arith)
patch_after (suc off) (suc o) d (x ∷ b) h k =
    let e : suc off + length d ≡ suc (off + length d) = omega arith in
    rw e (patch_after off o d b (omega arith) (omega arith))

-- A place before the written one is as it was.
pub slice-patch_before :
    (b : Bytes) (off : ℕ) (d : Bytes) (o n : ℕ)
    → off + length d ≤ length b
    → o + n ≤ off
    → slice (patch b off d) o n ≡ slice b o n
unfolding slice patch
slice-patch_before b off d o n k h = slice_before o n off b _ h (omega arith)

-- So is a place after it.
pub slice-patch_after :
    (b : Bytes) (off : ℕ) (d : Bytes) (o n : ℕ)
    → off + length d ≤ length b
    → off + length d ≤ o
    → slice (patch b off d) o n ≡ slice b o n
unfolding slice patch
slice-patch_after b off d o n k h = ap (take n) (patch_after off o d b h k)

pub load_done : (b : Bytes) (off n : ℕ) → off + n ≤ length b → load b off n ≡ done (slice b off n)
unfolding load
load_done b off n h = ground arith

pub store_done :
    (b : Bytes) (off : ℕ) (d : Bytes)
    → off + length d ≤ length b
    → store b off d ≡ done (patch b off d)
unfolding store
store_done b off d h = ground arith
