-- ===== src/Pipeline/Small.antt =====
-- How src/PipelineTransferManager.cpp cuts a request that fits one buffer.
use mochi_warabi.Prelude.{
  ℕ, zero, suc, ◌+◌, ◌-◌, ◌<◌, ◌≤◌, ◌≡◌, refl, sym, ap, ◌∙◌, true, false, List, [], ◌∷◌, ◌++◌,
  arith, ltb, ◌==◌, min, wrap, word, wrap_small,
}
use mathlib.Core.List.{append_assoc, append-nil}
use mochi_warabi.Run.{done}
use mochi_warabi.Segments.{Segment, convert_to_segments, sum}
use mochi_warabi.Pipeline.Plan.{Plan, push_to_last, place, split, split_all, plan}

split-zero : (max o : ℕ) (p : Plan) → split 1 max o 0 p ≡ done p
unfolding split
split-zero max o p = refl

split-once :
    (max o n : ℕ) (p : Plan) → 0 < n → n ≤ max → split (suc n) max o n p ≡ done (place max o n p)
unfolding split
split-once max o zero p h l = elim h [ ]
split-once max o (suc n) p h l =
    let e : min (suc n) max ≡ suc n = omega arith in
    let z : suc n - suc n ≡ 0 = omega arith in
    let f : (suc n == 0) ≡ false = ground arith in rw f (rw e (rw z refl))

convert-zero :
    (o : ℕ) (ss : List Segment) → convert_to_segments ((o, zero) ∷ ss) ≡ convert_to_segments ss
unfolding convert_to_segments
convert-zero o ss = refl

convert-cons :
    (o n : ℕ) (ss : List Segment)
    → convert_to_segments ((o, suc n) ∷ ss) ≡ (o, suc n) ∷ convert_to_segments ss
unfolding convert_to_segments
convert-cons o n ss = let f : (suc n == 0) ≡ false = ground arith in rw f refl

-- While the pieces fit, they go to the set that is open.
keeps_set :
    (max : ℕ) (ss set : List Segment) (p : Plan)
    → max < word
    → p.sets ≡ set ∷ []
    → p.current + sum ss ≤ max
    → (p' : Plan) × (split_all max ss p ≡ done p')
      × (p'.sets ≡ (set ++ convert_to_segments ss) ∷ [])
      × (p'.offsets ≡ p.offsets)
unfolding split_all
keeps_set max [] set p w e h = (p, refl, unfold convert_to_segments in rw append-nil e, refl)
keeps_set max ((o, zero) ∷ ss) set p w e h =
    rw (split-zero max o p) (rw (convert-zero o ss) (keeps_set max ss set p w e (omega arith)))
keeps_set max ((o, suc n) ∷ ss) set p w e h =
    let s = wrap_small (p.current + suc n) (omega arith) in
    let fits : ltb max (wrap (p.current + suc n)) ≡ false = ground (arith, s) in
    let q = place max o (suc n) p in
    let c : q.current ≡ p.current + suc n = unfold place in rw fits s in
    let es : q.sets ≡ (set ++ (o, suc n) ∷ []) ∷ [] =
      unfold place push_to_last in rw fits (rw e refl) in
    let eo : q.offsets ≡ p.offsets = unfold place in rw fits refl in
    let (p', done', sets', offsets') =
      keeps_set max ss (set ++ (o, suc n) ∷ []) q w es (omega arith) in
    (
      p',
      rw (split-once max o (suc n) p (omega arith) (omega arith)) done',
      sets'
          ∙ ap (λ (l : List Segment). l ∷ [])
              (append_assoc set ((o, suc n) ∷ []) (convert_to_segments ss))
          ∙ ap (λ (l : List Segment). (set ++ l) ∷ []) (sym (convert-cons o n ss)),
      offsets' ∙ eo,
    )

-- The one set of a request that fits one buffer.
abbrev pub one_set : List Segment → List (List Segment)
one_set [] = []
one_set (s ∷ ss) = (s ∷ ss) ∷ []

abbrev pub one_offset : List Segment → ℕ → List ℕ
one_offset [] b = []
one_offset (s ∷ ss) b = b ∷ []

start : ℕ → ℕ → Plan
start max b = record { current = max; bulk_offset = b; sets = []; offsets = [] }

opens_set :
    (max : ℕ) (ss : List Segment) (b : ℕ)
    → max + max < word
    → sum ss ≤ max
    → (p : Plan) × (split_all max ss (start max b) ≡ done p)
      × (p.sets ≡ one_set (convert_to_segments ss))
      × (p.offsets ≡ one_offset (convert_to_segments ss) b)
unfolding split_all start
opens_set max [] b w h =
    let z : convert_to_segments [] ≡ [] = unfold convert_to_segments in refl in
    (start max b, refl, rw z refl, rw z refl)
opens_set max ((o, zero) ∷ ss) b w h =
    rw (split-zero max o (start max b))
      (rw (convert-zero o ss) (opens_set max ss b w (omega arith)))
opens_set max ((o, suc n) ∷ ss) b w h =
    let s = wrap_small (max + suc n) (omega arith) in
    let full : ltb max (wrap (max + suc n)) ≡ true = ground (arith, s) in
    let q = place max o (suc n) (start max b) in
    let c : q.current ≡ 0 = unfold place in rw full refl in
    let es : q.sets ≡ ((o, suc n) ∷ []) ∷ [] = unfold place push_to_last in rw full refl in
    let eo : q.offsets ≡ b ∷ [] = unfold place in rw full refl in
    let (p', done', sets', offsets') =
      keeps_set max ss ((o, suc n) ∷ []) q (omega arith) es (omega arith) in
    (
      p',
      rw (split-once max o (suc n) (start max b) (omega arith) (omega arith)) done',
      rw (convert-cons o n ss) sets',
      rw (convert-cons o n ss) (offsets' ∙ eo),
    )

-- A request that fits one buffer is one set, of its places that are not empty, at the offset that
-- was asked for; it is no set if all its places are empty.
pub plan_small :
    (max : ℕ) (ss : List Segment) (b : ℕ)
    → max + max < word
    → sum ss ≤ max
    → (p : Plan) × (plan max ss b ≡ done p)
      × (p.sets ≡ one_set (convert_to_segments ss))
      × (p.offsets ≡ one_offset (convert_to_segments ss) b)
unfolding plan start
plan_small = opens_set

pub convert-convert :
    (ss : List Segment) → convert_to_segments (convert_to_segments ss) ≡ convert_to_segments ss
convert-convert [] = unfold convert_to_segments in refl
convert-convert ((o, zero) ∷ ss) = rw (convert-zero o ss) (convert-convert ss)
convert-convert ((o, suc n) ∷ ss) =
    rw (convert-cons o n ss)
      (rw (convert-cons o n (convert_to_segments ss)) (ap (◌∷◌ (o, suc n)) (convert-convert ss)))
