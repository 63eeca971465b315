-- ===== src/Segments/Commute.antt =====
-- Two copies into places that share no byte, in either order.
use mochi_warabi.Prelude.{
  ℕ, zero, suc, ◌+◌, ◌≤◌, ◌≡◌, refl, sym, ap, ◌∙◌, ◌⊎◌, inl, inr, List, [], ◌∷◌, length, arith,
}
use mochi_warabi.Bytes.{Bytes, slice, patch}
use mochi_warabi.Bytes.Laws.{length-slice, length-patch}
use mochi_warabi.Segments.{Segment, sum, InBounds, ApartFrom}
use mochi_warabi.Segments.Scatter.{scatter}

patch-cons : (z : ℕ) (b : Bytes) (o : ℕ) (x : Bytes) → patch (z ∷ b) (suc o) x ≡ z ∷ patch b o x
unfolding patch
patch-cons z b o x = let e : suc o + length x ≡ suc (o + length x) = omega arith in rw e refl

patch-first : (z : ℕ) (b : Bytes) (a : ℕ) (x : Bytes) → patch (z ∷ b) 0 (a ∷ x) ≡ a ∷ patch b 0 x
unfolding patch
patch-first z b a x = let e : 0 + suc (length x) ≡ suc (0 + length x) = omega arith in rw e refl

patch-nil : (b : Bytes) → patch b 0 [] ≡ b
unfolding patch
patch-nil b = refl

-- The first place ends before the second one.
patch_before :
    (b : Bytes) (o : ℕ) (x : Bytes) (p : ℕ) (y : Bytes)
    → o + length x ≤ p
    → p + length y ≤ length b
    → patch (patch b o x) p y ≡ patch (patch b p y) o x
patch_before b zero [] p y h k =
    ap (λ (c : Bytes). patch c p y) (patch-nil b) ∙ sym (patch-nil (patch b p y))
patch_before b zero (a ∷ x) zero y h k = absurd (omega (arith, h))
patch_before [] zero (a ∷ x) (suc p) y h k = absurd (omega (arith, k))
patch_before (z ∷ b) zero (a ∷ x) (suc p) y h k =
    rw (patch-first z b a x, patch-cons a (patch b 0 x) p y, patch-cons z b p y)
      (rw (patch-first z (patch b p y) a x)
        (ap (◌∷◌ a) (patch_before b zero x p y (omega arith) (omega arith))))
patch_before b (suc o) x zero y h k = absurd (omega (arith, h))
patch_before [] (suc o) x (suc p) y h k = absurd (omega (arith, k))
patch_before (z ∷ b) (suc o) x (suc p) y h k =
    rw (patch-cons z b o x, patch-cons z (patch b o x) p y, patch-cons z b p y)
      (rw (patch-cons z (patch b p y) o x)
        (ap (◌∷◌ z) (patch_before b o x p y (omega arith) (omega arith))))

patch-patch :
    (b : Bytes) (o : ℕ) (x : Bytes) (p : ℕ) (y : Bytes)
    → o + length x ≤ length b
    → p + length y ≤ length b
    → (o + length x ≤ p) ⊎ (p + length y ≤ o)
    → patch (patch b o x) p y ≡ patch (patch b p y) o x
patch-patch b o x p y h k (inl before) = patch_before b o x p y before k
patch-patch b o x p y h k (inr after) = sym (patch_before b p y o x after h)

scatter-patch :
    (ss : List Segment) (d : Bytes) (off : ℕ) (b : Bytes) (p : ℕ) (y : Bytes)
    → InBounds (length b) ss
    → off + sum ss ≤ length d
    → p + length y ≤ length b
    → ApartFrom p (length y) ss
    → scatter ss d off (patch b p y) ≡ patch (scatter ss d off b) p y
unfolding scatter
scatter-patch [] d off b p y h k l a = refl
scatter-patch ((o, n) ∷ ss) d off b p y h k l a =
    let c = slice d off n in
    let s = length-slice d off n (omega arith) in
    let lb = length-patch b o c (omega (arith, h.0)) in
    ap (scatter ss d (off + n)) (patch-patch b p y o c l (omega (arith, h.0)) (rw s a.0))
    ∙ scatter-patch ss d (off + n) (patch b o c) p y (rw lb h.1) (omega arith) (omega arith) a.1

-- Every place of the second list is apart from those of the first one.
abbrev pub AllApart : List Segment → List Segment → Type 0
AllApart ss [] = Unit {0}
AllApart ss ((p, m) ∷ rest) = ApartFrom p m ss × AllApart ss rest

pub scatter-scatter :
    (ss rest : List Segment) (d d' : Bytes) (off : ℕ) (b : Bytes)
    → InBounds (length b) ss
    → InBounds (length b) rest
    → sum ss ≡ length d
    → off + sum rest ≤ length d'
    → AllApart ss rest
    → scatter ss d 0 (scatter rest d' off b) ≡ scatter rest d' off (scatter ss d 0 b)
unfolding scatter
scatter-scatter ss [] d d' off b h h' k k' a = refl
scatter-scatter ss ((p, m) ∷ rest) d d' off b h h' k k' a =
    let c = slice d' off m in
    let s = length-slice d' off m (omega arith) in
    let lb = length-patch b p c (omega (arith, h'.0)) in
    scatter-scatter ss rest d d' (off + m) (patch b p c) (rw lb h) (rw lb h'.1) k (omega arith) a.1
    ∙ ap (scatter rest d' (off + m))
        (scatter-patch ss d 0 b p c h (omega arith) (omega (arith, h'.0)) (rw s a.0))
