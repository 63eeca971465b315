-- ===== src/Run.antt =====
-- How a piece of C++ code ends: with a value, by an exception, by undefined behaviour, or not at
-- all, because it waits for a lock that nothing releases.
use mochi_warabi.Prelude.{◌⊎◌, inl, inr, ◌≡◌, ◌≢◌, refl, String, Bool, true, false, if◌then◌else◌}

pub data Run {ℓ} (A : Type ℓ) : Type ℓ where
  done : A → Run A
  raise : String → Run A
  undef : Run A
  stuck : Run A

infixl 5 ◌>>=◌ ◌>>◌
abbrev pub ◌>>=◌ {ℓ κ} : {A : Type ℓ} {B : Type κ} → Run A → (A → Run B) → Run B
done a >>= f = f a
raise e >>= f = raise e
undef >>= f = undef
stuck >>= f = stuck

abbrev pub ◌>>◌ {ℓ} : {B : Type ℓ} → Run (Unit {0}) → Run B → Run B
m >> k = m >>= λ _. k

-- A step that ended with a value, inside a longer run that did.
pub >>=-eq-done {ℓ κ} :
    {A : Type ℓ} {B : Type κ} (m : Run A) (f : A → Run B) {b : B}
    → (m >>= f) ≡ done b
    → (a : A) × (m ≡ done a) × (f a ≡ done b)
>>=-eq-done (done a) f h = (a, refl, h)
>>=-eq-done (raise e) f h = absurd (cc)
>>=-eq-done undef f h = absurd (cc)
>>=-eq-done stuck f h = absurd (cc)

-- A run waits only where one of its steps does.
pub >>=-ne-stuck {ℓ κ} :
    {A : Type ℓ} {B : Type κ} (m : Run A) (f : A → Run B)
    → m ≢ stuck
    → ((a : A) → m ≡ done a → f a ≢ stuck)
    → (m >>= f) ≢ stuck
>>=-ne-stuck (done a) f h k e' = k a refl e'
>>=-ne-stuck (raise e) f h k e' = cc
>>=-ne-stuck undef f h k e' = cc
>>=-ne-stuck stuck f h k e' = h refl

pub done-injective {ℓ} : {A : Type ℓ} {a b : A} → done a ≡ done b → a ≡ b
done-injective h = cc

-- The run does not wait for ever, and a value that it ends with has the property.
abbrev pub Ends {ℓ} : {A : Type ℓ} → (A → Type 0) → Run A → Type 0
Ends P (done a) = P a
Ends P (raise e) = Unit {0}
Ends P undef = Unit {0}
Ends P stuck = ⊥

pub Ends->>= {ℓ κ} :
    {A : Type ℓ} {B : Type κ} (P : A → Type 0) (Q : B → Type 0) (m : Run A) (f : A → Run B)
    → Ends P m
    → ((a : A) → P a → Ends Q (f a))
    → Ends Q (m >>= f)
Ends->>= P Q (done a) f h k = k a h
Ends->>= P Q (raise e) f h k = tt
Ends->>= P Q undef f h k = tt
Ends->>= P Q stuck f h k = h

pub Ends-if {ℓ} :
    {A : Type ℓ} (P : A → Type 0) (m k : Run A) (b : Bool)
    → Ends P m
    → Ends P k
    → Ends P (if b then m else k)
Ends-if P m k true h h' = h
Ends-if P m k false h h' = h'

-- The ways to end.
pub Ends-cases {ℓ} :
    {A : Type ℓ} (P : A → Type 0) (m : Run A)
    → Ends P m
    → ((a : A) × (m ≡ done a) × P a) ⊎ (((e : String) × (m ≡ raise e)) ⊎ (m ≡ undef))
Ends-cases P (done a) h = inl (a, refl, h)
Ends-cases P (raise e) h = inr (inl (e, refl))
Ends-cases P undef h = inr (inr refl)
Ends-cases P stuck h = elim h [ ]
