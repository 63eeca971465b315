-- ===== src/AsyncRequest/Lifetime.antt =====
-- The copies of a request (src/AsyncRequest.cpp): those that share one `AsyncRequestImpl` count it,
-- and the last one that goes waits for it.
use mathlib.Core.Option.{some-injective}
use mochi_warabi.Prelude.{
  false≢true, none-ne-some, ℕ, suc, ◌-◌, ◌≤◌, ◌≡◌, ◌≢◌, refl, sym, ◌∙◌, ◌⊎◌, inl, inr, Bool-cases,
  Bool, true, false, Option, none, some, if◌then◌else◌, ◌==◌, arith, subst,
}

-- `uses` is the count of the shared pointer, `fails` whether the callback throws. `runs` is how often
-- the callback has been called, which the class does not record.
pub record Shared : Type 0 where
  pub uses : ℕ
  pub waited : Bool
  pub fails : Bool
  pub runs : ℕ

-- `wait`, for a request that shares the object, and whether it throws.
unfoldable pub wait_shared : Shared → Bool × Shared
wait_shared s =
    if s.waited then (false, s) else (s.fails, record s { waited = true; runs = suc s.runs })

-- `if(self.unique()) wait();`
abbrev pub give_up : Shared → Bool × Shared
give_up s = if s.uses == 1 then wait_shared s else (false, s)

-- One request fewer.
abbrev pub released : Shared → Shared
released s = record s { uses = s.uses - 1 }

-- The objects that requests share. A request is the number of its object, or null.
abbrev pub Objects : Type 0
Objects = ℕ → Shared

abbrev pub put : ℕ → Shared → Objects → Objects
put i s o j = if i == j then s else o j

-- How an operation ends: it returns or throws, and leaves the objects as they are then; or an
-- exception leaves a destructor, which ends the program.
pub data Ending : Type 0 where
  returns : Objects → Ending
  throws : Objects → Ending
  terminates : Ending

-- The copy constructor, and the move constructor, which empties the request it moves from.
unfoldable pub copy : Shared → Shared
copy s = record s { uses = suc s.uses }

unfoldable pub move : Shared → Shared
move s = s

-- The destructor of a request that is not null.
unfoldable pub drop_request : ℕ → Objects → Ending
unfolding wait_shared
drop_request i o =
    let (threw, s) = give_up (o i) in if threw then terminates else returns (put i (released s) o)

-- `self == other.self`
abbrev pub same : Option ℕ → Option ℕ → Bool
same none none = true
same (some i) (some j) = i == j
same _ _ = false

-- What an assignment does to the object that the request had: an exception leaves the request as it
-- is.
unfoldable pub replaced : Option ℕ → Objects → Ending
unfolding wait_shared
replaced none o = returns o
replaced (some i) o =
    let (threw, s) = give_up (o i) in
    if threw then throws (put i s o) else returns (put i (released s) o)

abbrev pub then_copy : Option ℕ → Ending → Ending
then_copy (some j) (returns o) = returns (put j (copy (o j)) o)
then_copy _ e = e

abbrev pub then_move : Option ℕ → Ending → Ending
then_move (some j) (returns o) = returns (put j (move (o j)) o)
then_move _ e = e

unfoldable pub assign_copy : Option ℕ → Option ℕ → Objects → Ending
unfolding replaced copy
assign_copy self other o = if same self other then returns o else then_copy other (replaced self o)

unfoldable pub assign_move : Option ℕ → Option ℕ → Objects → Ending
unfolding replaced move
assign_move self other o = if same self other then returns o else then_move other (replaced self o)

-- What the requests of a program can do.
pub data Operation : Type 0 where
  waits : ℕ → Operation
  copies : ℕ → Operation
  moves : ℕ → Operation
  drops : ℕ → Operation
  assigns_copy : Option ℕ → Option ℕ → Operation
  assigns_move : Option ℕ → Option ℕ → Operation

unfoldable pub perform : Operation → Objects → Ending
unfolding wait_shared copy move drop_request assign_copy assign_move
perform (waits i) o =
    let (threw, s) = wait_shared (o i) in if threw then throws (put i s o) else returns (put i s o)
perform (copies i) o = returns (put i (copy (o i)) o)
perform (moves i) o = returns (put i (move (o i)) o)
perform (drops i) o = drop_request i o
perform (assigns_copy self other) o = assign_copy self other o
perform (assigns_move self other) o = assign_move self other o

-- A request that is not null shares an object, which therefore has a request.
abbrev pub Present : Option ℕ → Objects → Type 0
Present none o = Unit {0}
Present (some i) o = (o i).uses ≢ 0

abbrev pub Exist : Operation → Objects → Type 0
Exist (waits i) o = Present (some i) o
Exist (copies i) o = Present (some i) o
Exist (moves i) o = Present (some i) o
Exist (drops i) o = Present (some i) o
Exist (assigns_copy self other) o = Present self o × Present other o
Exist (assigns_move self other) o = Present self o × Present other o

-- The objects that the program goes on with.
abbrev pub left : Ending → Option Objects
left (returns o) = some o
left (throws o) = some o
left terminates = none

-- Any sequence of operations of requests that exist.
pub data Reach (s : Objects) : Objects → Type 0 where
  here : Reach s s
  next :
      {o u : Objects} (operation : Operation)
      → Reach s o
      → Exist operation o
      → left (perform operation o) ≡ some u
      → Reach s u

-- New objects, each shared by one request, of which some have callbacks that throw.
abbrev pub fresh : (ℕ → Bool) → Objects
fresh fails i = record { uses = 1; waited = false; fails = fails i; runs = 0 }

-- The callback has run once if the object was waited for, and not at all if it was not; and an object
-- that no request shares any more was waited for.
record IsOnce (s : Shared) : Type 0 where
  counted : s.runs ≡ (if s.waited then 1 else 0)
  finished : (s.uses ≡ 0) → s.waited ≡ true

AllOnce : Objects → Type 0
AllOnce o = (i : ℕ) → IsOnce (o i)

put-AllOnce : (i : ℕ) (s : Shared) (o : Objects) → IsOnce s → AllOnce o → AllOnce (put i s o)
unfolding AllOnce
put-AllOnce i s o h a j = elim (Bool-cases (i == j)) [ inl e ↦ rw e h | inr e ↦ rw e (a j) ]

IsOnce-if :
    (b : Bool) (p q : Bool × Shared)
    → IsOnce p.1
    → (b ≡ false → IsOnce q.1)
    → IsOnce (if b then p else q).1
IsOnce-if true p q h k = h
IsOnce-if false p q h k = k refl

wait_shared-IsOnce : (s : Shared) → IsOnce s → IsOnce (wait_shared s).1
unfolding wait_shared
wait_shared-IsOnce s h =
    IsOnce-if s.waited _ _ h
      (λ e. record { counted = ground (arith, e, h.counted); finished = λ z. refl })

wait_shared-waited : (s : Shared) → (wait_shared s).1.waited ≡ true
unfolding wait_shared
wait_shared-waited s = ground arith

give_up-IsOnce : (s : Shared) → IsOnce s → IsOnce (give_up s).1
give_up-IsOnce s h = elim (Bool-cases (s.uses == 1)) [
  | inl e ↦ rw e (wait_shared-IsOnce s h)
  | inr e ↦ rw e h
]

released-IsOnce : (s : Shared) → s.uses ≢ 0 → IsOnce s → IsOnce (released (give_up s).1)
released-IsOnce s n h = elim (Bool-cases (s.uses == 1)) [
  | inl e ↦
      let w = wait_shared-IsOnce s h in
      rw e (record { counted = w.counted; finished = λ z. wait_shared-waited s })
  | inr e ↦ rw e (record { counted = h.counted; finished = λ z. absurd (n (ground (arith, e, z))) })
]

copy-IsOnce : (s : Shared) → IsOnce s → IsOnce (copy s)
unfolding copy
copy-IsOnce s h = record { counted = h.counted; finished = λ e. absurd (omega (arith, e)) }

-- Whatever the operation leaves.
abbrev Leaves : Ending → Type 0
Leaves (returns o) = AllOnce o
Leaves (throws o) = AllOnce o
Leaves terminates = Unit {0}

Leaves-if : (b : Bool) (e e' : Ending) → Leaves e → Leaves e' → Leaves (if b then e else e')
Leaves-if true e e' h h' = h
Leaves-if false e e' h h' = h'

replaced-Leaves :
    (self : Option ℕ) (o : Objects) → Present self o → AllOnce o → Leaves (replaced self o)
unfolding replaced AllOnce
replaced-Leaves none o p a = a
replaced-Leaves (some i) o p a =
    Leaves-if (give_up (o i)).0 _ _
      (put-AllOnce i (give_up (o i)).1 o (give_up-IsOnce (o i) (a i)) a)
      (put-AllOnce i (released (give_up (o i)).1) o (released-IsOnce (o i) p (a i)) a)

then_copy-Leaves : (other : Option ℕ) (e : Ending) → Leaves e → Leaves (then_copy other e)
unfolding AllOnce
then_copy-Leaves none e h = h
then_copy-Leaves (some j) (returns o) h = put-AllOnce j (copy (o j)) o (copy-IsOnce (o j) (h j)) h
then_copy-Leaves (some j) (throws o) h = h
then_copy-Leaves (some j) terminates h = h

then_move-Leaves : (other : Option ℕ) (e : Ending) → Leaves e → Leaves (then_move other e)
unfolding AllOnce move
then_move-Leaves none e h = h
then_move-Leaves (some j) (returns o) h = put-AllOnce j (o j) o (h j) h
then_move-Leaves (some j) (throws o) h = h
then_move-Leaves (some j) terminates h = h

perform-Leaves :
    (operation : Operation) (o : Objects)
    → Exist operation o
    → AllOnce o
    → Leaves (perform operation o)
unfolding perform AllOnce drop_request assign_copy assign_move move
perform-Leaves (waits i) o p a =
    let h = put-AllOnce i (wait_shared (o i)).1 o (wait_shared-IsOnce (o i) (a i)) a in
    Leaves-if (wait_shared (o i)).0 _ _ h h
perform-Leaves (copies i) o p a = put-AllOnce i (copy (o i)) o (copy-IsOnce (o i) (a i)) a
perform-Leaves (moves i) o p a = put-AllOnce i (o i) o (a i) a
perform-Leaves (drops i) o p a =
    Leaves-if (give_up (o i)).0 _ _ tt
      (put-AllOnce i (released (give_up (o i)).1) o (released-IsOnce (o i) p (a i)) a)
perform-Leaves (assigns_copy self other) o p a =
    Leaves-if (same self other) _ _ a
      (then_copy-Leaves other (replaced self o) (replaced-Leaves self o p.0 a))
perform-Leaves (assigns_move self other) o p a =
    Leaves-if (same self other) _ _ a
      (then_move-Leaves other (replaced self o) (replaced-Leaves self o p.0 a))

left-AllOnce : (e : Ending) (u : Objects) → Leaves e → left e ≡ some u → AllOnce u
left-AllOnce (returns o) u h e = subst AllOnce (some-injective o u e) h
left-AllOnce (throws o) u h e = subst AllOnce (some-injective o u e) h
left-AllOnce terminates u h e = absurd (none-ne-some u e)

Reach-AllOnce : {s u : Objects} → AllOnce s → Reach s u → AllOnce u
Reach-AllOnce a here = a
Reach-AllOnce a (next {o} {u} operation r x e) =
    left-AllOnce (perform operation o) u (perform-Leaves operation o x (Reach-AllOnce a r)) e

runs_of : (s : Shared) → IsOnce s → (s.runs ≤ 1) × ((s.runs ≡ 1) ⊎ (s.uses ≢ 0))
runs_of s h = elim (Bool-cases s.waited) [
  | inl w ↦ let c = rw w at h.counted in (omega (arith, c), inl c)
  | inr w ↦
      let c = rw w at h.counted in (omega (arith, c), inr (λ e. false≢true (sym w ∙ h.finished e)))
]

-- However the copies of new requests are copied, moved, assigned to each other, waited for and
-- destroyed, and whichever callbacks throw: as long as the program goes on, no callback has run
-- twice, and that of an object which no request shares any more has run once.
pub Reach-runs :
    (fails : ℕ → Bool) (o : Objects) (i : ℕ)
    → Reach (fresh fails) o
    → ((o i).runs ≤ 1) × (((o i).runs ≡ 1) ⊎ ((o i).uses ≢ 0))
unfolding AllOnce
Reach-runs fails o i r =
    runs_of (o i) (
      Reach-AllOnce (λ j. record { counted = refl; finished = λ e. absurd (omega (arith, e)) }) r i)
