-- ===== src/Pipeline/Large.antt =====
-- Requests with a place that is larger than a buffer of src/PipelineTransferManager.cpp.
use mochi_warabi.Prelude.{
  ℕ, zero, suc, ◌+◌, ◌-◌, ◌<◌, ◌≤◌, ◌≡◌, refl, sym, subst, ◌∙◌, inl, inr, Bool, true, false, List,
  [], ◌∷◌, ◌++◌, none, length, arith, ltb, ◌==◌, min, wrap, word, wrap_small, Bool-cases,
}
use mochi_warabi.Result.{BoolResult, success_bool}
use mochi_warabi.Run.{done, undef, done-injective}
use mochi_warabi.Segments.{Segment, total_size, sum}
use mochi_warabi.Segments.Scatter.{total_size-sum}
use mochi_warabi.Network.{Network}
use mochi_warabi.Backend.{Backend}
use mochi_warabi.Pipeline.Plan.{Plan, push_to_last, place, split, split_all, plan}
use mochi_warabi.Pipeline.Pieces.{sum_sets, plan-pieces}
use mochi_warabi.Pipeline.{Pool, pull_sets, pull}

-- All pieces of all sets start at `o`.
abbrev pub AllAt : ℕ → List Segment → Type 0
AllAt o [] = Unit {0}
AllAt o ((p, n) ∷ ss) = (p ≡ o) × AllAt o ss

abbrev pub SetsAt : ℕ → List (List Segment) → Type 0
SetsAt o [] = Unit {0}
SetsAt o (set ∷ sets) = AllAt o set × SetsAt o sets

AllAt-snoc : (o n : ℕ) (ss : List Segment) → AllAt o ss → AllAt o (ss ++ (o, n) ∷ [])
AllAt-snoc o n [] h = (refl, tt)
AllAt-snoc o n (s ∷ ss) h = (h.0, AllAt-snoc o n ss h.1)

SetsAt-push_to_last :
    (o n : ℕ) (sets : List (List Segment)) → SetsAt o sets → SetsAt o (push_to_last sets (o, n))
unfolding push_to_last
SetsAt-push_to_last o n [] h = tt
SetsAt-push_to_last o n (set ∷ []) h = (AllAt-snoc o n set h.0, tt)
SetsAt-push_to_last o n (set ∷ next ∷ sets) h = (h.0, SetsAt-push_to_last o n (next ∷ sets) h.1)

SetsAt-append :
    (o : ℕ) (xs ys : List (List Segment)) → SetsAt o xs → SetsAt o ys → SetsAt o (xs ++ ys)
SetsAt-append o [] ys h k = k
SetsAt-append o (x ∷ xs) ys h k = (h.0, SetsAt-append o xs ys h.1 k)

place-SetsAt : (max o n : ℕ) (p : Plan) → SetsAt o p.sets → SetsAt o (place max o n p).sets
unfolding place
place-SetsAt max o n p h = elim (Bool-cases (ltb max (wrap (p.current + n)))) [
  | inl full ↦
      rw full
        (SetsAt-push_to_last o n (p.sets ++ [] ∷ []) (SetsAt-append o p.sets ([] ∷ []) h (tt, tt)))
  | inr fits ↦ rw fits (SetsAt-push_to_last o n p.sets h)
]

split-SetsAt :
    (fuel max o n : ℕ) (p p' : Plan)
    → SetsAt o p.sets
    → split fuel max o n p ≡ done p'
    → SetsAt o p'.sets
unfolding split
split-SetsAt zero max o n p p' h e = absurd (cc)
split-SetsAt (suc fuel) max o n p p' h e = elim (Bool-cases (n == 0)) [
  | inl over ↦
      let s : done p ≡ done p' = rw over at e in
      subst (λ (q : Plan). SetsAt o q.sets) (done-injective s) h
  | inr more ↦
      split-SetsAt fuel max o (n - min n max) (place max o (min n max) p) p'
        (place-SetsAt max o (min n max) p h) (rw more at e)
]

done_of-split_all :
    (max o n : ℕ) (p p' : Plan)
    → split_all max ((o, n) ∷ []) p ≡ done p'
    → split (suc n) max o n p ≡ done p'
unfolding split_all
done_of-split_all max o n p p' h = ground arith

-- However large its only place is, a request is cut into pieces that all start where the place
-- does: every byte that is written, or read, lies within the size of one buffer from there.
pub plan_one_place :
    (max o n bulk_offset : ℕ) (p : Plan)
    → plan max ((o, n) ∷ []) bulk_offset ≡ done p
    → SetsAt o p.sets
unfolding plan
plan_one_place max o n bulk_offset p h =
    split-SetsAt (suc n) max o n _ p tt (done_of-split_all max o n _ p h)

-- The first set has more bytes than the largest buffer.
abbrev HeadOver : ℕ → List (List Segment) → Type 0
HeadOver max [] = ⊥
HeadOver max (set ∷ sets) = max < sum set

sum-snoc-le : (ss : List Segment) (s : Segment) → sum ss ≤ sum (ss ++ s ∷ [])
sum-snoc-le [] (o, n) = omega arith
sum-snoc-le ((p, m) ∷ ss) s = omega (arith, sum-snoc-le ss s)

HeadOver-push_to_last :
    (max : ℕ) (sets : List (List Segment)) (s : Segment)
    → HeadOver max sets
    → HeadOver max (push_to_last sets s)
unfolding push_to_last
HeadOver-push_to_last max [] s h = absurd h
HeadOver-push_to_last max (set ∷ []) s h = omega (arith, sum-snoc-le set s)
HeadOver-push_to_last max (set ∷ next ∷ sets) s h = h

HeadOver-append :
    (max : ℕ) (xs ys : List (List Segment)) → HeadOver max xs → HeadOver max (xs ++ ys)
HeadOver-append max [] ys h = absurd h
HeadOver-append max (x ∷ xs) ys h = h

place-HeadOver :
    (max o n : ℕ) (p : Plan) → HeadOver max p.sets → HeadOver max (place max o n p).sets
unfolding place
place-HeadOver max o n p h = elim (Bool-cases (ltb max (wrap (p.current + n)))) [
  | inl full ↦ rw full (
      HeadOver-push_to_last max (p.sets ++ [] ∷ []) (o, n) (HeadOver-append max p.sets ([] ∷ []) h))
  | inr fits ↦ rw fits (HeadOver-push_to_last max p.sets (o, n) h)
]

split-HeadOver :
    (fuel max o n : ℕ) (p p' : Plan)
    → HeadOver max p.sets
    → split fuel max o n p ≡ done p'
    → HeadOver max p'.sets
unfolding split
split-HeadOver zero max o n p p' h e = absurd (cc)
split-HeadOver (suc fuel) max o n p p' h e = elim (Bool-cases (n == 0)) [
  | inl over ↦
      let s : done p ≡ done p' = rw over at e in
      subst (λ (q : Plan). HeadOver max q.sets) (done-injective s) h
  | inr more ↦
      split-HeadOver fuel max o (n - min n max) (place max o (min n max) p) p'
        (place-HeadOver max o (min n max) p h) (rw more at e)
]

split-step :
    (fuel max o n : ℕ) (p : Plan)
    → 0 < n
    → split (suc fuel) max o n p ≡ split fuel max o (n - min n max) (place max o (min n max) p)
unfolding split
split-step fuel max o n p h = let f : (n == 0) ≡ false = ground arith in rw f refl

abbrev begin : ℕ → ℕ → Plan
begin max b = record { current = max; bulk_offset = b; sets = []; offsets = [] }

-- The second piece joins the first one, although the two exceed the buffer.
two_rounds :
    (max o m b : ℕ)
    → 0 < max
    → 0 < m
    → m ≤ max
    → max + max < word
    → HeadOver max (place max o m (place max o max (begin max b))).sets
unfolding place push_to_last
two_rounds max o m b z zm l room =
    let s = wrap_small (max + max) (omega arith) in
    let full : ltb max (wrap (max + max)) ≡ true = ground (arith, s) in
    let s' = wrap_small (0 + m) (omega arith) in
    let fits : ltb max (wrap (0 + m)) ≡ false = ground (arith, s') in
    rw full (rw fits (omega arith))

plan-HeadOver :
    (max o n b : ℕ) (p : Plan)
    → 0 < max
    → max < n
    → max + max < word
    → plan max ((o, n) ∷ []) b ≡ done p
    → HeadOver max p.sets
unfolding plan
plan-HeadOver max o zero b p z h room e = elim h [ ]
plan-HeadOver max o (suc k) b p z h room e =
    let n = suc k in
    let cut = done_of-split_all max o n (begin max b) p e in
    let size : min n max ≡ max = omega arith in
    let first : split n max o (n - max) (place max o max (begin max b)) ≡ done p =
      rw size at (sym (split-step n max o n (begin max b) (omega arith)) ∙ cut) in
    let second =
      sym (split-step k max o (n - max) (place max o max (begin max b)) (omega arith)) ∙ first in
    split-HeadOver k max o (n - max - min (n - max) max) _ p
      (two_rounds max o (min (n - max) max) b z (omega arith) (omega arith) room) second

module _ (N : Network) (B : Backend N) (pool : Pool) where
  pull_sets-HeadOver :
      (w : N.Remote) (t : B.Target) (r : B.Region) (sets : List (List Segment)) (offsets : List ℕ)
      (bulk : N.Bulk) (e : N.Endpoint) (persist : Bool) (result : BoolResult)
      → ((m : ℕ) → pool.max < m → pool.get m ≡ none)
      → HeadOver pool.max sets
      → sum_sets sets < word
      → length offsets ≡ length sets
      → pull_sets N B pool w t r sets offsets bulk e persist result ≡ undef
  unfolding pull_sets
  pull_sets-HeadOver w t r [] offsets bulk e persist result refuses over small paired = absurd over
  pull_sets-HeadOver w t r (set ∷ sets) [] bulk e persist result refuses over small paired =
      absurd (omega arith)
  pull_sets-HeadOver w t r (set ∷ sets) (b ∷ offsets) bulk e persist result refuses over small
        paired =
      let s = total_size-sum set (omega arith) in rw (refuses (total_size set) (omega arith)) refl

  -- If the pool has no buffer beyond its largest, a pull of one place that is larger than that asks
  -- for such a buffer and goes on without one: undefined behaviour, over every backend.
  pub pull_large :
      (w : N.Remote) (t : B.Target) (r : B.Region) (o n b : ℕ) (bulk : N.Bulk) (e : N.Endpoint)
      (persist : Bool)
      → ((m : ℕ) → pool.max < m → pool.get m ≡ none)
      → 0 < pool.max
      → pool.max < n
      → n < word
      → pool.max + pool.max < word
      → pull N B pool w t r ((o, n) ∷ []) bulk e b persist ≡ undef
  unfolding pull
  pull_large w t r o n b bulk e persist refuses z h small room =
      let (p, cut, paired, volume, pieces) = plan-pieces pool.max ((o, n) ∷ []) b z room in
      rw cut (
        pull_sets-HeadOver w t r p.sets p.offsets bulk e persist success_bool refuses
          (plan-HeadOver pool.max o n b p z h room cut) (omega arith) paired)
