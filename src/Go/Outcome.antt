-- ===== src/Go/Outcome.antt =====
-- What a Go call gives back: a value, an `error`, or a panic, which no caller here recovers.
use proxify.Common.{◌≡◌, ◌⊎◌, inl, inr, refl, ap, Option, none, some, List, ℕ}

-- An error is its text.
abbrev pub Error : Type 0
Error = List ℕ

pub data Outcome {ℓ} (A : Type ℓ) : Type ℓ where
  ok : A → Outcome A
  err : Error → Outcome A
  panic : Outcome A

infixl 5 ◌>>=◌
abbrev pub ◌>>=◌ {ℓ κ} : {A : Type ℓ} {B : Type κ} → Outcome A → (A → Outcome B) → Outcome B
ok a >>= f = f a
err e >>= f = err e
panic >>= f = panic

-- `v, err := call()` where the caller goes on after an error: the error becomes a value.
abbrev pub attempt {ℓ} : {A : Type ℓ} → Outcome A → Outcome (Option A)
attempt (ok a) = ok (some a)
attempt (err e) = ok none
attempt panic = panic

-- Both halves of a chain succeed when it does.
pub >>=-IsOk {ℓ κ} :
    {A : Type ℓ} {B : Type κ} {b : B} (f : A → Outcome B) (m : Outcome A)
    → (m >>= f) ≡ ok b
    → (a : A) × (f a ≡ ok b) × (m ≡ ok a)
>>=-IsOk f panic h = cc
>>=-IsOk f (err e) h = cc
>>=-IsOk f (ok a) h = (a, h, refl)

-- The same, handed on.
pub >>=-ok {ℓ κ ν} :
    {A : Type ℓ} {B : Type κ} {R : Type ν} {b : B} (f : A → Outcome B) (m : Outcome A)
    → (m >>= f) ≡ ok b
    → ((a : A) → m ≡ ok a → f a ≡ ok b → R)
    → R
>>=-ok f m h k = let (a, rest, first) = >>=-IsOk f m h in k a first rest

pub ok_injective {ℓ} : {A : Type ℓ} {a b : A} → Outcome.ok a ≡ ok b → a ≡ b
ok_injective {a = a} h = ap (λ m. elim m [ ok x ↦ x | err e ↦ a | panic ↦ a ]) h

pub Outcome-cases {ℓ} :
    {A : Type ℓ} (m : Outcome A)
    → ((e : Error) × (m ≡ err e)) ⊎ (m ≡ panic) ⊎ ((a : A) × (m ≡ ok a))
Outcome-cases (ok a) = inr (inr (a, refl))
Outcome-cases (err e) = inl (e, refl)
Outcome-cases panic = inr (inl refl)

-- A call succeeds with a value that has a property.
abbrev pub Succeeds {ℓ κ} : {A : Type ℓ} → (A → Type κ) → Outcome A → Type (ℓ ⊔ κ)
Succeeds {A = A} Q m = (a : A) × (m ≡ ok a) × Q a

pub Succeeds->>= {ℓ κ ν μ} :
    {A : Type ℓ} {B : Type κ} {Q : A → Type ν} {R : B → Type μ} {m : Outcome A} {f : A → Outcome B}
    → Succeeds Q m
    → ((a : A) → Q a → Succeeds R (f a))
    → Succeeds R (m >>= f)
Succeeds->>= (a, e, q) g = let (b, e', r) = g a q in (b, rw e e', r)
