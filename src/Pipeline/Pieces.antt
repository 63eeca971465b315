-- ===== src/Pipeline/Pieces.antt =====
-- The pieces into which src/PipelineTransferManager.cpp cuts a request.
use mochi_warabi.Prelude.{
  ℕ, zero, suc, ◌+◌, ◌-◌, ◌<◌, ◌≤◌, ◌≡◌, refl, sym, ap, ◌∙◌, ◌⊎◌, inl, inr, false, List, [], ◌∷◌,
  ◌++◌, length, arith, ltb, ◌==◌, min, wrap, word, wrap_small, Bool-cases, length-append,
}
use mochi_warabi.Run.{done}
use mochi_warabi.Segments.{Segment, sum}
use mochi_warabi.Pipeline.Plan.{Plan, push_to_last, place, split, split_all, plan}

abbrev pub sum_sets : List (List Segment) → ℕ
sum_sets [] = 0
sum_sets (set ∷ sets) = sum set + sum_sets sets

-- The pieces of a set have between 1 and `max` bytes.
abbrev pub Pieces : ℕ → List Segment → Type 0
Pieces max [] = Unit {0}
Pieces max ((o, n) ∷ ss) = (0 < n) × (n ≤ max) × Pieces max ss

-- So have those of all sets, and no set is empty.
abbrev pub AllPieces : ℕ → List (List Segment) → Type 0
AllPieces max [] = Unit {0}
AllPieces max (set ∷ sets) = Pieces max set × (0 < length set) × AllPieces max sets

pub push_to_last-append :
    (sets : List (List Segment)) (s : Segment)
    → push_to_last (sets ++ [] ∷ []) s ≡ sets ++ (s ∷ []) ∷ []
unfolding push_to_last
push_to_last-append [] s = refl
push_to_last-append (set ∷ []) s = refl
push_to_last-append (set ∷ next ∷ sets) s = ap (◌∷◌ set) (push_to_last-append (next ∷ sets) s)

length-push_to_last :
    (sets : List (List Segment)) (s : Segment) → length (push_to_last sets s) ≡ length sets
unfolding push_to_last
length-push_to_last [] s = refl
length-push_to_last (set ∷ []) s = refl
length-push_to_last (set ∷ next ∷ sets) s = ap suc (length-push_to_last (next ∷ sets) s)

sum-snoc : (ss : List Segment) (o n : ℕ) → sum (ss ++ (o, n) ∷ []) ≡ sum ss + n
sum-snoc [] o n = omega arith
sum-snoc ((p, m) ∷ ss) o n = omega (arith, sum-snoc ss o n)

Pieces-snoc :
    (max : ℕ) (ss : List Segment) (o n : ℕ)
    → Pieces max ss
    → 0 < n
    → n ≤ max
    → Pieces max (ss ++ (o, n) ∷ [])
Pieces-snoc max [] o n h p l = (p, l, tt)
Pieces-snoc max ((q, m) ∷ ss) o n h p l = (h.0, h.1, Pieces-snoc max ss o n h.2 p l)

sum_sets-push_to_last :
    (sets : List (List Segment)) (o n : ℕ)
    → 0 < length sets
    → sum_sets (push_to_last sets (o, n)) ≡ sum_sets sets + n
unfolding push_to_last
sum_sets-push_to_last [] o n h = elim h [ ]
sum_sets-push_to_last (set ∷ []) o n h = omega (arith, sum-snoc set o n)
sum_sets-push_to_last (set ∷ next ∷ sets) o n h =
    omega (arith, sum_sets-push_to_last (next ∷ sets) o n (omega arith))

AllPieces-push_to_last :
    (max : ℕ) (sets : List (List Segment)) (o n : ℕ)
    → AllPieces max sets
    → 0 < n
    → n ≤ max
    → AllPieces max (push_to_last sets (o, n))
unfolding push_to_last
AllPieces-push_to_last max [] o n h p l = tt
AllPieces-push_to_last max (set ∷ []) o n h p l =
    (Pieces-snoc max set o n h.0 p l, omega (arith, length-append set ((o, n) ∷ [])), tt)
AllPieces-push_to_last max (set ∷ next ∷ sets) o n h p l =
    (h.0, h.1, AllPieces-push_to_last max (next ∷ sets) o n h.2 p l)

sum_sets-append : (xs ys : List (List Segment)) → sum_sets (xs ++ ys) ≡ sum_sets xs + sum_sets ys
sum_sets-append [] ys = omega arith
sum_sets-append (x ∷ xs) ys = omega (arith, sum_sets-append xs ys)

AllPieces-append :
    (max : ℕ) (xs ys : List (List Segment))
    → AllPieces max xs
    → AllPieces max ys
    → AllPieces max (xs ++ ys)
AllPieces-append max [] ys h k = k
AllPieces-append max (x ∷ xs) ys h k = (h.0, h.1, AllPieces-append max xs ys h.2 k)

-- What holds of the local variables once `total` bytes are placed.
pub record Inv (max total : ℕ) (p : Plan) : Type 0 where
  pub paired : length p.offsets ≡ length p.sets
  pub volume : sum_sets p.sets ≡ total
  pub pieces : AllPieces max p.sets
  pub bounded : p.current ≤ max
  pub started : (0 < length p.sets) ⊎ (p.current ≡ max)

not_above : (max m : ℕ) → ltb max m ≡ false → m ≤ max
not_above max m h = ground arith

module _ (max : ℕ) (room : max + max < word) where
  place-Inv :
      (total o n : ℕ) (p : Plan)
      → Inv max total p
      → 0 < n
      → n ≤ max
      → Inv max (total + n) (place max o n p)
  unfolding place
  place-Inv total o n p v z l =
      let e = wrap_small (p.current + n) (omega (arith, v.bounded)) in
      elim (Bool-cases (ltb max (wrap (p.current + n)))) [
        | inl full ↦ rw full (record {
          paired = rw (push_to_last-append p.sets (o, n)) (
              omega (
                arith,
                length-append p.offsets (p.bulk_offset ∷ []),
                length-append p.sets (((o, n) ∷ []) ∷ []),
                v.paired,
              ));
          volume =
              rw (push_to_last-append p.sets (o, n))
                (omega (arith, sum_sets-append p.sets (((o, n) ∷ []) ∷ []), v.volume));
          pieces = rw (push_to_last-append p.sets (o, n)) (
              AllPieces-append max p.sets (((o, n) ∷ []) ∷ []) v.pieces
                ((z, l, tt), omega arith, tt));
          bounded = omega arith;
          started =
              rw (push_to_last-append p.sets (o, n))
                (inl (omega (arith, length-append p.sets (((o, n) ∷ []) ∷ []))));
        })
        | inr fits ↦
            let le : p.current + n ≤ max =
              omega (arith, e, not_above max (wrap (p.current + n)) fits) in
            let some_set : 0 < length p.sets = omega (arith, v.started) in
            rw fits (record {
              paired = v.paired ∙ sym (length-push_to_last p.sets (o, n));
              volume = omega (arith, sum_sets-push_to_last p.sets o n some_set, v.volume);
              pieces = AllPieces-push_to_last max p.sets o n v.pieces z l;
              bounded = omega (arith, e);
              started = inl (omega (arith, length-push_to_last p.sets (o, n)));
            })
      ]

  split-Inv :
      (fuel total o n : ℕ) (p : Plan)
      → 0 < max
      → n < fuel
      → Inv max total p
      → (p' : Plan) × (split fuel max o n p ≡ done p') × Inv max (total + n) p'
  unfolding split
  split-Inv zero total o n p m h v = elim h [ ]
  split-Inv (suc fuel) total o n p m h v = elim (Bool-cases (n == 0)) [
    | inl over ↦ let z : total + n ≡ total = ground arith in (p, rw over refl, rw z v)
    | inr more ↦
        let z : 0 < n = ground arith in
        let step = place-Inv total o (min n max) p v (omega arith) (omega arith) in
        let (p', e, v') =
          split-Inv fuel (total + min n max) o (n - min n max) (place max o (min n max) p) m
            (omega arith) step in
        let t : total + min n max + (n - min n max) ≡ total + n = omega arith in
        (p', rw more e, rw t at v')
  ]

  split_all-Inv :
      (ss : List Segment) (total : ℕ) (p : Plan)
      → 0 < max
      → Inv max total p
      → (p' : Plan) × (split_all max ss p ≡ done p') × Inv max (total + sum ss) p'
  unfolding split_all
  split_all-Inv [] total p m v = let z : total + 0 ≡ total = omega arith in (p, refl, rw z v)
  split_all-Inv ((o, n) ∷ ss) total p m v =
      let (p', e, v') = split-Inv (suc n) total o n p m (omega arith) v in
      let (p'', e', v'') = split_all-Inv ss (total + n) p' m v' in
      let t : total + n + sum ss ≡ total + (n + sum ss) = omega arith in (p'', rw e e', rw t at v'')

-- If the pool has buffers (of at most half of what a `size_t` counts), the loops that cut a request
-- end. Their pieces have between 1 and `max` bytes and add up to the request; no set is empty, and
-- there is one offset in the remote buffer for each set.
pub plan-pieces :
    (max : ℕ) (ss : List Segment) (bulk_offset : ℕ)
    → 0 < max
    → max + max < word
    → (p : Plan) × (plan max ss bulk_offset ≡ done p)
      × (length p.offsets ≡ length p.sets)
      × (sum_sets p.sets ≡ sum ss)
      × AllPieces max p.sets
unfolding plan
plan-pieces max ss bulk_offset m room =
    let start : Inv max 0
        (record { current = max; bulk_offset = bulk_offset; sets = []; offsets = [] }) =
      record {
        paired = refl;
        volume = refl;
        pieces = tt;
        bounded = omega arith;
        started = inr refl;
      } in
    let (p, e, v) = split_all-Inv max room ss 0 _ m start in
    (p, e, v.paired, omega (arith, v.volume), v.pieces)
