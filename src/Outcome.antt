-- ===== src/Outcome.antt =====
-- How a piece of Go code ends: with a value, waiting for ever on a channel, or in a run-time panic.
use zk_wsp.Prelude.{◌≡◌, refl, subst}

pub data Outcome {ℓ} (A : Type ℓ) : Type ℓ where
  ok : A → Outcome A
  blocked : Outcome A
  panic : Outcome A

infixl 5 ◌>>=◌
abbrev pub ◌>>=◌ {ℓ κ} : {A : Type ℓ} {B : Type κ} → Outcome A → (A → Outcome B) → Outcome B
ok a >>= f = f a
blocked >>= f = blocked
panic >>= f = panic

-- The code does not panic, and what it returns satisfies `P`; a wait for ever is allowed.
abbrev pub Safely {ℓ} : {A : Type ℓ} → (A → Type 0) → Outcome A → Type 0
Safely P (ok a) = P a
Safely P blocked = Unit
Safely P panic = ⊥

pub Safely->>= {ℓ κ} :
    {A : Type ℓ} {B : Type κ} (P : A → Type 0) (Q : B → Type 0) (m : Outcome A) (f : A → Outcome B)
    → Safely P m
    → ((a : A) → m ≡ ok a → P a → Safely Q (f a))
    → Safely Q (m >>= f)
Safely->>= P Q (ok a) f h k = k a refl h
Safely->>= P Q blocked f h k = tt
Safely->>= P Q panic f h k = elim h [ ]

pub Safely-mono {ℓ} :
    {A : Type ℓ} {P Q : A → Type 0} (m : Outcome A)
    → ((a : A) → P a → Q a)
    → Safely P m
    → Safely Q m
Safely-mono (ok a) f h = f a h
Safely-mono blocked f h = tt
Safely-mono panic f h = h

-- What the code returns, if it returns, satisfies `P`.
abbrev pub Returns {ℓ} : {A : Type ℓ} → (A → Type 0) → Outcome A → Type 0
Returns P (ok a) = P a
Returns P blocked = Unit
Returns P panic = Unit

pub Returns->>= {ℓ κ} :
    {A : Type ℓ} {B : Type κ} (Q : B → Type 0) (m : Outcome A) (f : A → Outcome B)
    → ((a : A) → m ≡ ok a → Returns Q (f a))
    → Returns Q (m >>= f)
Returns->>= Q (ok a) f k = k a refl
Returns->>= Q blocked f k = tt
Returns->>= Q panic f k = tt

pub Returns-mono {ℓ} :
    {A : Type ℓ} {P Q : A → Type 0} (m : Outcome A)
    → ((a : A) → P a → Q a)
    → Returns P m
    → Returns Q m
Returns-mono (ok a) f h = f a h
Returns-mono blocked f h = tt
Returns-mono panic f h = tt

pub of_Returns {ℓ} :
    {A : Type ℓ} (P : A → Type 0) (m : Outcome A) {a : A} → Returns P m → m ≡ ok a → P a
of_Returns P (ok b) h e = subst P (cc) h
of_Returns P blocked h e = cc
of_Returns P panic h e = cc

-- The code returns, and what it returns satisfies `P`.
abbrev pub Succeeds {ℓ} : {A : Type ℓ} → (A → Type 0) → Outcome A → Type 0
Succeeds P (ok a) = P a
Succeeds P blocked = ⊥
Succeeds P panic = ⊥

pub Succeeds->>= {ℓ κ} :
    {A : Type ℓ} {B : Type κ} (P : A → Type 0) (Q : B → Type 0) (m : Outcome A) (f : A → Outcome B)
    → Succeeds P m
    → ((a : A) → m ≡ ok a → P a → Succeeds Q (f a))
    → Succeeds Q (m >>= f)
Succeeds->>= P Q (ok a) f h k = k a refl h
Succeeds->>= P Q blocked f h k = elim h [ ]
Succeeds->>= P Q panic f h k = elim h [ ]

pub Succeeds-mono {ℓ} :
    {A : Type ℓ} {P Q : A → Type 0} (m : Outcome A)
    → ((a : A) → P a → Q a)
    → Succeeds P m
    → Succeeds Q m
Succeeds-mono (ok a) f h = f a h
Succeeds-mono blocked f h = elim h [ ]
Succeeds-mono panic f h = elim h [ ]

pub Succeeds-Returns {ℓ} :
    {A : Type ℓ} (P : A → Type 0) (m : Outcome A) → Succeeds P m → Returns P m
Succeeds-Returns P (ok a) h = h
Succeeds-Returns P blocked h = tt
Succeeds-Returns P panic h = tt
