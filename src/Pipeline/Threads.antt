-- ===== src/Pipeline/Threads.antt =====
-- The threads of `pull` of src/PipelineTransferManager.cpp over src/MemoryBackend.cpp, one for each
-- set of places, and the order in which they run.
use mathlib.Core.List.{Permᴰ}
use mochi_warabi.Prelude.{
  ℕ, ◌<◌, ◌≡◌, refl, sym, ap, ◌∙◌, Bool, List, [], ◌∷◌, some, map, length, set, get_elem?, arith,
  word, subst, get_elem?-set_self, get_elem?-lt, zero, suc, ◌+◌,
}
use mathlib.Core.Option.{some-injective}
use mochi_warabi.Run.{Run, done}
use mochi_warabi.Bytes.{Bytes, slice}
use mochi_warabi.Result.{BoolResult, success_bool}
use mochi_warabi.Segments.{
  Segment, convert_to_segments, total_size, sum, InBounds, Disjoint, ApartFrom,
}
use mochi_warabi.Segments.Scatter.{
  scatter, Holds, scatter-Holds, slice-scatter_apart, length-scatter, sum-convert_to_segments,
}
use mochi_warabi.Segments.Commute.{AllApart, scatter-scatter}
use mochi_warabi.Network.{Network}
use mochi_warabi.Memory.{memory_backend}
use mochi_warabi.Memory.Region.{MemoryTarget, MemoryRegion, replace}
use mochi_warabi.Memory.Contents.{Fits, write-written}
use mochi_warabi.Pipeline.{Pool, pull_sets}

-- What a thread does: the places of its set, where its bytes begin in the remote buffer, and the
-- bytes.
pub record Job : Type 0 where
  pub segments : List Segment
  pub offset : ℕ
  pub bytes : Bytes

unfoldable pub Every : {A : Type 0} → (A → Type 0) → List A → Type 0
Every P [] = Unit {0}
Every P (x ∷ xs) = P x × Every P xs

Every-perm : {A : Type 0} (P : A → Type 0) {xs ys : List A} → Permᴰ xs ys → Every P xs → Every P ys
unfolding Every
Every-perm P Permᴰ.nil h = h
Every-perm P (Permᴰ.cons e p) (h, hs) = (subst P e h, Every-perm P p hs)
Every-perm P (Permᴰ.swap e e') (h, (h', hs)) = (subst P e' h', (subst P e h, hs))
Every-perm P (Permᴰ.trans p q) h = Every-perm P q (Every-perm P p h)

-- Two jobs share no byte of the region.
unfoldable pub Apart : Job → Job → Type 0
Apart j k =
    AllApart (convert_to_segments j.segments) (convert_to_segments k.segments)
    × AllApart (convert_to_segments k.segments) (convert_to_segments j.segments)

unfoldable pub PairwiseApart : List Job → Type 0
unfolding Every
PairwiseApart [] = Unit {0}
PairwiseApart (j ∷ js) = Every (Apart j) js × PairwiseApart js

PairwiseApart-perm : {js ks : List Job} → Permᴰ js ks → PairwiseApart js → PairwiseApart ks
unfolding PairwiseApart Every Apart
PairwiseApart-perm Permᴰ.nil h = h
PairwiseApart-perm (Permᴰ.cons {a = j} {l₂ = ks} e p) (h, hs) =
    (subst (λ x. Every (Apart x) ks) e (Every-perm (Apart j) p h), PairwiseApart-perm p hs)
PairwiseApart-perm (Permᴰ.swap {a} {b} {a'} {b'} {l} e e') ((h, ha), (hb, hs)) =
    subst (λ y. PairwiseApart (a' ∷ y ∷ l)) e
      (subst (λ x. PairwiseApart (x ∷ a ∷ l)) e' (((h.1, h.0), hb), (ha, hs)))
PairwiseApart-perm (Permᴰ.trans p q) h = PairwiseApart-perm q (PairwiseApart-perm p h)

-- The region once the bytes of a job are laid out in it.
abbrev lay : Job → Bytes → Bytes
lay j b = scatter (convert_to_segments j.segments) j.bytes 0 b

abbrev laid : List Job → Bytes → Bytes
laid [] b = b
laid (j ∷ js) b = laid js (lay j b)

-- A job inside a region of `len` bytes.
pub record IsWithin (len : ℕ) (j : Job) : Type 0 where
  pub within : InBounds len (convert_to_segments j.segments)
  pub size : sum j.segments ≡ length j.bytes
  pub in_memory : length j.bytes < word

length-lay : (j : Job) (b : Bytes) → IsWithin (length b) j → length (lay j b) ≡ length b
length-lay j b h =
    let s = sum-convert_to_segments j.segments in
    let s' = h.size in
    length-scatter (convert_to_segments j.segments) j.bytes 0 b h.within (omega arith)

lay-lay :
    (j k : Job) (b : Bytes)
    → IsWithin (length b) j
    → IsWithin (length b) k
    → Apart j k
    → lay k (lay j b) ≡ lay j (lay k b)
unfolding Apart
lay-lay j k b h h' a =
    let s = sum-convert_to_segments j.segments in
    let s' = sum-convert_to_segments k.segments in
    let e = h.size in
    let e' = h'.size in
    scatter-scatter (convert_to_segments k.segments) (convert_to_segments j.segments) k.bytes
      j.bytes 0 b h'.within h.within (omega arith) (omega arith) a.1

laid-perm :
    {js ks : List Job} (b : Bytes)
    → Permᴰ js ks
    → Every (IsWithin (length b)) js
    → PairwiseApart js
    → laid js b ≡ laid ks b
unfolding Every PairwiseApart
laid-perm b Permᴰ.nil h a = refl
laid-perm b (Permᴰ.cons {a = j} {l₂ = ks} e p) (h, hs) (x, xs) =
    laid-perm (lay j b) p (rw (length-lay j b h) hs) xs ∙ ap (λ k. laid ks (lay k b)) e
laid-perm b (Permᴰ.swap {a = j} {b = k} {b' = j'} {l = js} e e') (h, (h', hs)) ((a, x), xs) =
    ap (laid js) (lay-lay j k b h h' a)
    ∙ ap (λ x. laid js (lay x (lay k b))) e
    ∙ ap (λ x. laid js (lay j' (lay x b))) e'
laid-perm b (Permᴰ.trans p q) h a =
    laid-perm b p h a
    ∙ laid-perm b q (Every-perm (IsWithin (length b)) p h) (PairwiseApart-perm p a)

length-laid :
    (js : List Job) (b : Bytes) → Every (IsWithin (length b)) js → length (laid js b) ≡ length b
unfolding Every
length-laid [] b h = refl
length-laid (j ∷ js) b (h, hs) = let e = length-lay j b h in length-laid js (lay j b) (rw e hs) ∙ e

-- The places of a job hold its bytes.
abbrev pub HasBytes : Bytes → Job → Type 0
HasBytes b j = Holds (convert_to_segments j.segments) j.bytes 0 b

Holds-scatter :
    (ss rest : List Segment) (d d' : Bytes) (off : ℕ) (b : Bytes)
    → InBounds (length b) rest
    → sum rest ≡ length d'
    → AllApart rest ss
    → Holds ss d off b
    → Holds ss d off (scatter rest d' 0 b)
Holds-scatter [] rest d d' off b h k a held = tt
Holds-scatter ((o, n) ∷ ss) rest d d' off b h k a held = (
  slice-scatter_apart rest d' 0 b o n h (omega arith) a.0 ∙ held.0,
  Holds-scatter ss rest d d' (off + n) b h k a.1 held.1,
)

lay-HasBytes :
    (j k : Job) (b : Bytes)
    → IsWithin (length b) k
    → Apart j k
    → HasBytes b j
    → HasBytes (lay k b) j
unfolding Apart
lay-HasBytes j k b h a held =
    Holds-scatter (convert_to_segments j.segments) (convert_to_segments k.segments) j.bytes k.bytes
      0 b h.within (sum-convert_to_segments k.segments ∙ h.size) a.1 held

laid-HasBytes :
    (j : Job) (ks : List Job) (b : Bytes)
    → Every (IsWithin (length b)) ks
    → Every (Apart j) ks
    → HasBytes b j
    → HasBytes (laid ks b) j
unfolding Every
laid-HasBytes j [] b h a held = held
laid-HasBytes j (k ∷ ks) b (h, hs) (a, more) held =
    laid-HasBytes j ks (lay k b) (rw (length-lay k b h) hs) more (lay-HasBytes j k b h a held)

laid-EveryHasBytes :
    (js : List Job) (b : Bytes)
    → Every (IsWithin (length b)) js
    → Every (λ j. Disjoint (convert_to_segments j.segments)) js
    → PairwiseApart js
    → Every (HasBytes (laid js b)) js
unfolding Every PairwiseApart
laid-EveryHasBytes [] b h d a = tt
laid-EveryHasBytes (j ∷ js) b (h, hs) (d, ds) (a, more) =
    let s = sum-convert_to_segments j.segments in
    let e = h.size in
    let hs' : Every (IsWithin (length (lay j b))) js = rw (length-lay j b h) hs in
    (
      laid-HasBytes j js (lay j b) hs' a
          (scatter-Holds (convert_to_segments j.segments) j.bytes 0 b h.within (omega arith) d),
      laid-EveryHasBytes js (lay j b) hs' ds more,
    )

slice-laid :
    (js : List Job) (b : Bytes) (p m : ℕ)
    → Every (IsWithin (length b)) js
    → Every (λ j. ApartFrom p m (convert_to_segments j.segments)) js
    → slice (laid js b) p m ≡ slice b p m
unfolding Every
slice-laid [] b p m h a = refl
slice-laid (j ∷ js) b p m (h, hs) (a, more) =
    let s = sum-convert_to_segments j.segments in
    let e = h.size in
    slice-laid js (lay j b) p m (rw (length-lay j b h) hs) more
    ∙ slice-scatter_apart (convert_to_segments j.segments) j.bytes 0 b p m h.within (omega arith) a

set-set : {A : Type 0} (xs : List A) (i : ℕ) (x y : A) → set (set xs i x) i y ≡ set xs i y
set-set [] i x y = refl
set-set (z ∷ xs) zero x y = refl
set-set (z ∷ xs) (suc i) x y = ap (◌∷◌ z) (set-set xs i x y)

set_same : {A : Type 0} (xs : List A) (i : ℕ) (x : A) → get_elem? xs i ≡ some x → set xs i x ≡ xs
set_same [] i x h = refl
set_same (z ∷ xs) zero x h = ap (λ y. y ∷ xs) (sym (some-injective z x h))
set_same (z ∷ xs) (suc i) x h = ap (◌∷◌ z) (set_same xs i x h)

module _ (N : Network) (pool : Pool) (w : N.Remote) (bulk : N.Bulk) (e : N.Endpoint) where
  -- The pool has a buffer for a job, and its bytes arrive.
  pub record IsReady (j : Job) : Type 0 where
    pub buffer : Bytes
    pub get_lem : pool.get (total_size j.segments) ≡ some buffer
    pub pull_lem : N.pull w e bulk j.offset (total_size j.segments) ≡ done j.bytes

  -- The threads of `pull`, one after the other in the order of the list.
  abbrev pub run_jobs :
      MemoryTarget → MemoryRegion → List Job → Bool → Run (BoolResult × MemoryTarget)
  run_jobs t r js persist =
      pull_sets N (memory_backend N) pool w t r (map (λ j. j.segments) js) (map (λ j. j.offset) js)
        bulk e persist success_bool

  run_jobs-laid :
      (t : MemoryTarget) (r : MemoryRegion) (js : List Job) (b : Bytes) (persist : Bool)
      → r.index < length t.regions
      → Every IsReady js
      → Every (IsWithin (length b)) js
      → run_jobs (replace t r b) r js persist ≡ done (success_bool, replace t r (laid js b))
  unfolding pull_sets Every
  run_jobs-laid t r [] b persist i h k = refl
  run_jobs-laid t r (j ∷ js) b persist i (h, hs) (k, ks) =
      let fits : Fits b j.segments j.bytes = record {
        within = k.within;
        size = k.size;
        in_memory = k.in_memory;
      } in
      let writes =
        write-written (replace t r b) r j.segments j.bytes b persist
          (get_elem?-set_self t.regions r.index b i) fits
        ∙ ap (λ x. done (success_bool, record t { regions = x }))
            (set-set t.regions r.index b (lay j b)) in
      let rest = run_jobs-laid t r js (lay j b) persist i hs (rw (length-lay j b k) ks) in
      rw h.get_lem (rw h.pull_lem (rw writes rest))

  -- For threads over a region of a memory target, for which the pool has buffers and whose bytes
  -- arrive, and whose places lie in the region and share no byte, within a thread and between any
  -- two: in two orders, one of which is any permutation of the other, running them one after the
  -- other succeeds and leaves the same region. The places of every thread then hold its bytes, the
  -- region has the length it had, and so has every place apart from those its bytes.
  pub pull_sets-perm :
      (t : MemoryTarget) (r : MemoryRegion) (js ks : List Job) (b : Bytes) (persist : Bool)
      (p m : ℕ)
      → get_elem? t.regions r.index ≡ some b
      → Every IsReady js
      → Every (IsWithin (length b)) js
      → Every (λ j. Disjoint (convert_to_segments j.segments)) js
      → PairwiseApart js
      → Permᴰ js ks
      → Every (λ j. ApartFrom p m (convert_to_segments j.segments)) js
      → (b' : Bytes) × (run_jobs t r js persist ≡ done (success_bool, replace t r b'))
        × (run_jobs t r ks persist ≡ done (success_bool, replace t r b'))
        × Every (HasBytes b') js
        × (length b' ≡ length b)
        × (slice b' p m ≡ slice b p m)
  pull_sets-perm t r js ks b persist o m at h k c a p apart =
      let i = get_elem?-lt t.regions r.index b at in
      let same : t ≡ replace t r b =
        ap (λ x. record t { regions = x }) (sym (set_same t.regions r.index b at)) in
      (
        laid js b,
        ap (λ x. run_jobs x r js persist) same ∙ run_jobs-laid t r js b persist i h k,
        ap (λ x. run_jobs x r ks persist) same
            ∙ run_jobs-laid t r ks b persist i (Every-perm IsReady p h)
                (Every-perm (IsWithin (length b)) p k)
            ∙ ap (λ x. done (success_bool, replace t r x)) (sym (laid-perm b p k a)),
        laid-EveryHasBytes js b k c a,
        length-laid js b k,
        slice-laid js b o m k apart,
      )
